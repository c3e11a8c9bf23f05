-- ===== src/Palindrome/Manacher.antt =====
-- The loop of `longestPalindrome2` finds the radius of each place.
use demo_code.Prelude.{
  ℕ, zero, suc, ◌+◌, ◌-◌, ◌*◌, ◌≤◌, ◌<◌, ltb, ◌==◌, if◌then◌else◌, List, [], ◌∷◌, length, get_or,
  set, length-set, ◌≡◌, ◌≢◌, refl, ap, ◌∙◌, arith, ◌⊎◌, inl, inr, Bool-cases, ltb→lt, ℕ_discrete,
}
use demo_code.Palindrome.{extend, Radii, known_radius, store_radius, radius, radii}
use demo_code.Palindrome.Radius.{Mirror, IsRadius, extend-IsRadius, mirrored}

get_or-set :
    (xs : List ℕ) (i j v : ℕ)
    → i < length xs
    → get_or (set xs i v) j 0 ≡ (if i == j then v else get_or xs j 0)
get_or-set [] i j v h = absurd (omega arith)
get_or-set (x ∷ xs) zero zero v h = refl
get_or-set (x ∷ xs) zero (suc j) v h = ground arith
get_or-set (x ∷ xs) (suc i) zero v h = ground arith
get_or-set (x ∷ xs) (suc i) (suc j) v h = ground (arith, get_or-set xs i j v)

seen_ne :
    (xs : List ℕ) (i j v : ℕ) → i < length xs → i ≢ j → get_or (set xs i v) j 0 ≡ get_or xs j 0
seen_ne xs i j v h ne = get_or-set xs i j v h ∙ ground arith

-- The state before the round of the place `i`.
pub record IsKnown (ss : List ℕ) (i : ℕ) (st : Radii) : Type 0 where
  pub size : length st.r ≡ length ss
  pub radii : (j : ℕ) → j < i → IsRadius ss j (get_or st.r j 0)
  pub reach : (st.mx ≡ 0) ⊎ ((st.pos < i) × (st.mx ≡ st.pos + get_or st.r st.pos 0))
  pub best : (j : ℕ) → j < i → get_or st.r j 0 ≤ st.max_val
  pub achieved : (st.max_val ≡ 0) ⊎ ((st.max_pos < i) × (st.max_val ≡ get_or st.r st.max_pos 0))

pub record Start (ss : List ℕ) (i known : ℕ) : Type 0 where
  pub low : known ≤ i + 1
  pub high : i + known ≤ length ss
  pub mirror : Mirror ss i known

-- The radius that a round starts from.
pub known_radius-Start :
    (ss : List ℕ) (i : ℕ) (st : Radii)
    → i < length ss
    → IsKnown ss i st
    → Start ss i (known_radius i st)
unfolding known_radius
known_radius-Start ss i st inside h = elim (Bool-cases (ltb i st.mx)) [
  | inr past ↦ rw past (record {
    low = omega arith;
    high = omega arith;
    mirror = λ k lt. ap (λ j. get_or ss j 0) (omega arith);
  })
  | inl under ↦ elim h.reach [
    | inl none ↦ absurd (ground arith)
    | inr (before, e) ↦
        let rp = get_or st.r st.pos 0 in
        let rj = get_or st.r (2 * st.pos - i) 0 in
        let p : IsRadius ss st.pos rp = h.radii st.pos before in
        let past_i : i < st.mx = ltb→lt i st.mx under in
        let j : IsRadius ss (2 * st.pos - i) rj = h.radii (2 * st.pos - i) (omega arith) in
        rw under (record {
          low = omega (arith, j.low);
          high = omega (arith, p.high, e);
          mirror = rw e (mirrored ss i st.pos rp rj before (omega (arith, e)) p j);
        })
  ]
]

pub store_radius-IsKnown :
    (ss : List ℕ) (i r : ℕ) (st : Radii)
    → i < length ss
    → IsRadius ss i r
    → IsKnown ss i st
    → IsKnown ss (suc i) (store_radius i r st)
unfolding store_radius
store_radius-IsKnown ss i r st inside new h =
    let seen = λ (j : ℕ). get_or-set st.r i j r (omega (arith, h.size)) in
    let here : get_or (set st.r i r) i 0 ≡ r = seen i ∙ ground arith in
    let there = λ (j : ℕ) (ne : i ≢ j). seen_ne st.r i j r (omega (arith, h.size)) ne in
    record {
      size = length-set st.r i r ∙ h.size;
      radii = λ j lt. elim (ℕ_discrete i j) [
        | yes e ↦ rw (← e) (rw here new)
        | no ne ↦ rw (there j ne) (h.radii j (omega arith))
      ];
      reach = elim (Bool-cases (ltb st.mx (i + r))) [
        | inl more ↦ rw more (inr (omega arith, ground (arith, seen i)))
        | inr same ↦ elim h.reach [
          | inl e ↦ rw same (inl e)
          | inr (lt, e) ↦ rw same (inr (omega arith, ground (arith, seen st.pos, e)))
        ]
      ];
      best = λ j lt. ground (arith, seen j, h.best j);
      achieved = elim (Bool-cases (ltb st.max_val r)) [
        | inl more ↦ rw more (inr (omega arith, ground (arith, seen i)))
        | inr same ↦ elim h.achieved [
          | inl e ↦ rw same (inl e)
          | inr (lt, e) ↦ rw same (inr (omega arith, ground (arith, seen st.max_pos, e)))
        ]
      ];
    }

pub radius-IsKnown :
    (ss : List ℕ) (i : ℕ) (st : Radii)
    → i < length ss
    → IsKnown ss i st
    → IsKnown ss (suc i) (radius ss i st)
unfolding radius
radius-IsKnown ss i st inside h =
    let known = known_radius i st in
    let start = known_radius-Start ss i st inside h in
    store_radius-IsKnown ss i (extend (length ss - (i + known)) ss i known) st inside
      (extend-IsRadius (length ss - (i + known)) ss i known (omega (arith, start.high)) start.low
        start.mirror)
      h

-- After the loop each place has its radius.
pub radii-IsKnown :
    (n : ℕ) (ss : List ℕ) (i : ℕ) (st : Radii)
    → i + n ≡ length ss
    → IsKnown ss i st
    → IsKnown ss (length ss) (radii n ss i st)
unfolding radii
radii-IsKnown zero ss i st e h = let k : length ss ≡ i = omega arith in rw k h
radii-IsKnown (suc n) ss i st e h =
    let k : i + 1 ≡ suc i = omega arith in
    rw k (
      radii-IsKnown n ss (suc i) (radius ss i st) (omega arith)
        (radius-IsKnown ss i st (omega arith) h))

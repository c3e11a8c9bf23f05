-- ===== src/Palindrome/Radius.antt =====
-- The radii of `longestPalindrome2`: how far the characters around a place are the same.
use demo_code.Prelude.{
  ℕ, zero, suc, ◌+◌, ◌-◌, ◌*◌, ◌≤◌, ◌<◌, min, leb, ◌==◌, List, length, get_or, ◌≡◌, sym, ◌∙◌, arith,
  inl, inr, Bool-cases, ==_iff, leb→le, leb-false,
}
use demo_code.Palindrome.{extend}

abbrev pub Mirror : List ℕ → ℕ → ℕ → Type 0
Mirror ss i r = (k : ℕ) → k < r → get_or ss (i - k) 0 ≡ get_or ss (i + k) 0

-- `r` is the largest radius in the string at `i`.
pub record IsRadius (ss : List ℕ) (i r : ℕ) : Type 0 where
  pub low : r ≤ i + 1
  pub high : i + r ≤ length ss
  pub mirror : Mirror ss i r
  pub most : (q : ℕ) → q ≤ i + 1 → i + q ≤ length ss → Mirror ss i q → q ≤ r

pub Mirror-suc :
    (ss : List ℕ) (i r : ℕ)
    → Mirror ss i r
    → get_or ss (i - r) 0 ≡ get_or ss (i + r) 0
    → Mirror ss i (r + 1)
Mirror-suc ss i r m e k lt = elim (Bool-cases (k == r)) [
  | inl last ↦ rw ((==_iff k r).0 last) e
  | inr inner ↦ m k (ground arith)
]

-- The `while` loop goes to the largest radius.
pub extend-IsRadius :
    (n : ℕ) (ss : List ℕ) (i r : ℕ)
    → i + r + n ≡ length ss
    → r ≤ i + 1
    → Mirror ss i r
    → IsRadius ss i (extend n ss i r)
unfolding extend
extend-IsRadius zero ss i r e low m = record {
  low = low;
  high = omega arith;
  mirror = m;
  most = λ q a b w. omega arith;
}
extend-IsRadius (suc n) ss i r e low m = elim (Bool-cases (leb r i)) [
  | inr edge ↦
      rw edge (record { low = low; high = omega arith; mirror = m; most = λ q a b w. ground arith })
  | inl room ↦ elim (Bool-cases (get_or ss (i - r) 0 == get_or ss (i + r) 0)) [
    | inl same ↦ rw room (
        rw same (
          extend-IsRadius n ss i (r + 1) (omega arith) (ground arith)
            (Mirror-suc ss i r m ((==_iff (get_or ss (i - r) 0) (get_or ss (i + r) 0)).0 same))))
    | inr differ ↦ rw room (
        rw differ (record {
          low = low;
          high = omega arith;
          mirror = m;
          most = λ q a b w. elim (Bool-cases (leb q r)) [
            | inl le ↦ leb→le q r le
            | inr gt ↦ absurd (ground (arith, w r))
          ];
        }))
  ]
]

-- Two places at one distance from the middle.
reflect_le :
    (ss : List ℕ) (pos r lo hi : ℕ)
    → Mirror ss pos r
    → lo + hi ≡ 2 * pos
    → lo ≤ hi
    → hi < pos + r
    → get_or ss lo 0 ≡ get_or ss hi 0
reflect_le ss pos r lo hi m e le lt =
    let a : pos - (hi - pos) ≡ lo = omega arith in
    let b : pos + (hi - pos) ≡ hi = omega arith in rw a at (rw b at (m (hi - pos) (omega arith)))

pub reflect_at :
    (ss : List ℕ) (pos r lo hi : ℕ)
    → Mirror ss pos r
    → lo + hi ≡ 2 * pos
    → lo < pos + r
    → hi < pos + r
    → get_or ss lo 0 ≡ get_or ss hi 0
reflect_at ss pos r lo hi m e p q = elim (Bool-cases (leb lo hi)) [
  | inl le ↦ reflect_le ss pos r lo hi m e (leb→le lo hi le) q
  | inr gt ↦ sym (reflect_le ss pos r hi lo m (omega arith) (omega (arith, leb-false lo hi gt)) p)
]

-- Inside a palindrome around `pos`, the radius of the mirrored place holds as far as the palindrome
-- goes.
pub mirrored :
    (ss : List ℕ) (i pos rp rj : ℕ)
    → pos < i
    → i < pos + rp
    → IsRadius ss pos rp
    → IsRadius ss (2 * pos - i) rj
    → Mirror ss i (min rj (pos + rp - i))
mirrored ss i pos rp rj lt inside p j k h =
    let over : get_or ss (2 * pos - i - k) 0 ≡ get_or ss (i + k) 0 =
      reflect_at ss pos rp (2 * pos - i - k) (i + k) p.mirror (omega (arith, p.low, j.low))
        (omega arith) (omega arith) in
    let across : get_or ss (2 * pos - i - k) 0 ≡ get_or ss (2 * pos - i + k) 0 =
      j.mirror k (omega arith) in
    let back : get_or ss (2 * pos - i + k) 0 ≡ get_or ss (i - k) 0 =
      reflect_at ss pos rp (2 * pos - i + k) (i - k) p.mirror (omega (arith, p.low, j.low))
        (omega (arith, p.low)) (omega arith) in
    sym back ∙ sym across ∙ over

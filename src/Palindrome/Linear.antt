-- ===== src/Palindrome/Linear.antt =====
-- `longestPalindrome2` finds a longest palindrome: a radius in the spread string is the size of a
-- palindrome and one more.
use demo_code.Prelude.{
  ℕ, zero, suc, ◌+◌, ◌-◌, ◌*◌, ◌/◌, ◌%◌, ◌≤◌, ◌<◌, ◌==◌, if◌then◌else◌, List, length, get_or,
  replicate, length-replicate, ◌≡◌, refl, sym, ap, ◌∙◌, arith, inl, inr, Bool-cases,
}
use demo_code.Palindrome.{substr, spread, Radii, radii, longest_palindrome2}
use demo_code.Palindrome.Spec.{IsLongest}
use demo_code.Palindrome.Expand.{Reads}
use demo_code.Palindrome.Direct.{IsPalindrome-Reads, Reads-IsPalindrome}
use demo_code.Palindrome.Radius.{Mirror, IsRadius, Mirror-suc, reflect_at}
use demo_code.Palindrome.Manacher.{IsKnown, radii-IsKnown}

length-spread : (n : ℕ) (s : List ℕ) (i : ℕ) → length (spread n s i) ≡ n
unfolding spread
length-spread zero s i = refl
length-spread (suc n) s i = ap suc (length-spread n s (i + 1))

get_or-spread :
    (n : ℕ) (s : List ℕ) (i k : ℕ)
    → k < n
    → get_or (spread n s i) k 0 ≡ (if (i + k) % 2 == 0 then b'#' else get_or s ((i + k) / 2) 0)
unfolding spread
get_or-spread zero s i k h = absurd (omega arith)
get_or-spread (suc n) s i zero h = let e : i + 0 ≡ i = omega arith in rw e refl
get_or-spread (suc n) s i (suc k) h =
    let e : i + suc k ≡ i + 1 + k = omega arith in rw e (get_or-spread n s (i + 1) k (omega arith))

module _ (s : List ℕ) where
  abbrev size : ℕ
  size = length s * 2 + 1

  abbrev ss : List ℕ
  ss = spread size s 0

  at_even : (k : ℕ) → 2 * k < size → get_or ss (2 * k) 0 ≡ b'#'
  at_even k h = get_or-spread size s 0 (2 * k) h ∙ ground arith

  at_odd : (k : ℕ) → 2 * k + 1 < size → get_or ss (2 * k + 1) 0 ≡ get_or s k 0
  at_odd k h =
      let half : (0 + (2 * k + 1)) / 2 ≡ k = omega arith in
      let odd : (0 + (2 * k + 1)) % 2 ≡ 1 = omega arith in
      get_or-spread size s 0 (2 * k + 1) h ∙ rw (half, odd) refl

  -- A palindrome of `s` has a radius of one more.
  Reads-Mirror : (a m : ℕ) → a + m ≤ length s → Reads s a (a + m) → Mirror ss (2 * a + m) (m + 1)
  Reads-Mirror a m h r k lt =
      let lo = (2 * a + m - k) / 2 in
      let hi = (2 * a + m + k) / 2 in
      elim (Bool-cases ((m + k) % 2 == 0)) [
        | inl even ↦
            let el : 2 * a + m - k ≡ 2 * lo = ground arith in
            let eh : 2 * a + m + k ≡ 2 * hi = ground arith in
            rw (el, eh) (at_even lo (omega arith) ∙ sym (at_even hi (omega arith)))
        | inr odd ↦
            let el : 2 * a + m - k ≡ 2 * lo + 1 = ground arith in
            let eh : 2 * a + m + k ≡ 2 * hi + 1 = ground arith in
            let e : a + (a + m) - 1 - lo ≡ hi = omega arith in
            let same : get_or s lo 0 ≡ get_or s hi 0 = rw e at (r lo (omega arith) (omega arith)) in
            rw (el, eh) (at_odd lo (omega arith) ∙ same ∙ sym (at_odd hi (omega arith)))
      ]

  -- A largest radius stands between characters of two kinds.
  radius_odd : (p v : ℕ) → p < size → IsRadius ss p v → (p + v) % 2 ≡ 1
  radius_odd p v h x =
      let all : length ss ≡ size = length-spread size s 0 in
      elim (Bool-cases ((p + v) % 2 == 0)) [
        | inr odd ↦ ground arith
        | inl even ↦
            let el : p - v ≡ 2 * ((p - v) / 2) = ground (arith, x.low) in
            let eh : p + v ≡ 2 * ((p + v) / 2) = ground arith in
            let room : v ≤ p = ground (arith, x.low) in
            let room' : p + v < size = ground (arith, x.high, all) in
            let same : get_or ss (p - v) 0 ≡ get_or ss (p + v) 0 =
              rw (el, eh)
                (at_even ((p - v) / 2) (omega arith) ∙ sym (at_even ((p + v) / 2) (omega arith))) in
            absurd (
              omega (
                arith,
                x.most (v + 1) (omega arith) (omega (arith, all)) (Mirror-suc ss p v x.mirror same),
              ))
      ]

  Mirror-Reads :
      (start n : ℕ)
      → start + n ≤ length s
      → Mirror ss (2 * start + n) (n + 1)
      → Reads s start (start + n)
  Mirror-Reads start n h m i p q =
      sym (at_odd i (omega arith))
      ∙ reflect_at ss (2 * start + n) (n + 1) (2 * i + 1) (2 * (start + (start + n) - 1 - i) + 1) m
          (omega arith) (omega arith) (omega arith)
      ∙ at_odd (start + (start + n) - 1 - i) (omega arith)

  -- What the largest of the radii stands for.
  widest-IsLongest :
      (st : Radii)
      → IsKnown ss size st
      → IsLongest s (substr s ((st.max_pos + 1 - st.max_val) / 2) (st.max_val - 1))
  widest-IsLongest st h =
      let all : length ss ≡ size = length-spread size s 0 in
      let first : 1 ≤ get_or st.r 0 0 =
        (h.radii 0 (omega arith)).most 1 (omega arith) (omega (arith, all))
          (λ k lt. ap (λ j. get_or ss j 0) (omega arith)) in
      let some_size : 1 ≤ st.max_val = omega (arith, first, h.best 0 (omega arith)) in
      elim h.achieved [
        | inl none ↦ absurd (omega arith)
        | inr (inside, e) ↦
            let x : IsRadius ss st.max_pos st.max_val = rw e (h.radii st.max_pos inside) in
            let odd = radius_odd st.max_pos st.max_val inside x in
            let n = st.max_val - 1 in
            let start = (st.max_pos + 1 - st.max_val) / 2 in
            let middle : st.max_pos ≡ 2 * start + n = omega (arith, x.low, odd) in
            let radius : st.max_val ≡ n + 1 = omega arith in
            let fits : start + n ≤ length s = omega (arith, x.high, all) in
            let mirror : Mirror ss (2 * start + n) (n + 1) =
              λ k lt. rw (← middle) (x.mirror k (omega arith)) in
            record {
              start = start;
              size = n;
              found = Reads-IsPalindrome s start n fits (Mirror-Reads start n fits mirror);
              is_substr = refl;
              longest = λ a m p. omega (
                arith,
                h.best (2 * a + m) (omega (arith, p.inside)),
                (h.radii (2 * a + m) (omega (arith, p.inside))).most (m + 1) (omega arith)
                    (omega (arith, p.inside, all))
                    (Reads-Mirror a m p.inside (IsPalindrome-Reads s a m p)),
              );
            }
      ]

-- `longestPalindrome2` of any string is a longest palindrome in it.
pub longest_palindrome2-IsLongest : (s : List ℕ) → IsLongest s (longest_palindrome2 s)
unfolding longest_palindrome2
longest_palindrome2-IsLongest s =
    let n = length s * 2 + 1 in
    let all : length (spread n s 0) ≡ n = length-spread n s 0 in
    let begin : Radii = record { mx = 0; pos = 0; r = replicate n 0; max_pos = 0; max_val = 0 } in
    let h : IsKnown (spread n s 0) 0 begin = record {
      size = length-replicate n 0 ∙ sym all;
      radii = λ j lt. absurd (omega arith);
      reach = inl refl;
      best = λ j lt. absurd (omega arith);
      achieved = inl refl;
    } in
    widest-IsLongest s (radii n (spread n s 0) 0 begin)
      (rw all at (radii-IsKnown n (spread n s 0) 0 begin (omega arith) h))

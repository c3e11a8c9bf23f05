-- ===== src/Palindrome/Direct.antt =====
-- `longestPalindrome1` finds a longest palindrome.
use demo_code.Prelude.{
  ℕ, zero, suc, ◌+◌, ◌-◌, ◌*◌, ◌≤◌, ◌<◌, leb, List, [], ◌∷◌, length, get_or, ◌≡◌, refl, ap, ◌∙◌,
  arith, inl, inr, Bool-cases,
}
use demo_code.Palindrome.{substr, compare_lr, Best, keep, center, centers, longest_palindrome1}
use demo_code.Palindrome.Spec.{IsPalindrome, IsLongest}
use demo_code.Palindrome.Expand.{Reads, Expanded, compare_lr-Expanded}

pub IsPalindrome-Reads : (s : List ℕ) (a m : ℕ) → IsPalindrome s a m → Reads s a (a + m)
IsPalindrome-Reads s a m p i h k =
    let here : a + (i - a) ≡ i = omega arith in
    let there : a + (m - 1 - (i - a)) ≡ a + (a + m) - 1 - i = omega arith in
    rw here at (rw there at (p.mirror (i - a) (omega arith)))

pub Reads-IsPalindrome :
    (s : List ℕ) (a m : ℕ) → a + m ≤ length s → Reads s a (a + m) → IsPalindrome s a m
Reads-IsPalindrome s a m h r = record {
  inside = h;
  mirror = λ i k.
      let there : a + (a + m) - 1 - (a + i) ≡ a + (m - 1 - i) = omega arith in
      rw there at (r (a + i) (omega arith) (omega arith));
}

-- The best palindrome is one, and none with its middle at the centers before `2 * i` is longer.
record IsBest (s : List ℕ) (i : ℕ) (best : Best) : Type 0 where
  inside : best.start_pos + best.max_size ≤ length s
  reads : Reads s best.start_pos (best.start_pos + best.max_size)
  longest : (a z : ℕ) → z ≤ length s → Reads s a z → 2 ≤ a + z → a + z < i → z ≤ a + best.max_size

-- One more center: what `CompareLR` gave there is kept, or something as long was had.
keep-IsBest :
    (s : List ℕ) (i f b size : ℕ) (best : Best) (result : ℕ × ℕ)
    → f + b ≡ i
    → size + result.0 + result.0 ≡ i
    → Expanded s f b 0 result
    → IsBest s i best
    → IsBest s (suc i) (keep best size result.0)
unfolding keep
keep-IsBest s i f b size best result e n x h =
    let z : b + f - result.0 ≡ result.0 + size = omega arith in
    elim (Bool-cases (leb best.max_size size)) [
      | inl more ↦ rw more (record {
        inside = omega (arith, x.inside);
        reads = rw z at (x.reads);
        longest = λ a z q r g lt.
            ground (arith, h.longest a z q r g, λ (k : a + z ≡ f + b). x.most a z k q r);
      })
      | inr less ↦ rw less (record {
        inside = h.inside;
        reads = h.reads;
        longest = λ a z q r g lt.
            ground (arith, h.longest a z q r g, λ (k : a + z ≡ f + b). x.most a z k q r);
      })
    ]

center-IsBest :
    (s : List ℕ) (i : ℕ) (best : Best)
    → i < length s
    → IsBest s (2 * i) best
    → IsBest s (2 * (i + 1)) (center s i best)
unfolding center
center-IsBest s i best lt h =
    let even =
      compare_lr-Expanded s i i 0 (omega arith) (omega arith) (λ k p q. absurd (omega arith)) in
    let odd =
      compare_lr-Expanded s i (i + 1) 0 (omega arith) (omega arith)
        (λ k p q. ap (λ j. get_or s j 0) (omega arith)) in
    let first =
      keep-IsBest s (2 * i) i i ((compare_lr s i i 0).1 * 2) best (compare_lr s i i 0) (omega arith)
        (omega (arith, even.grown)) even h in
    let second =
      keep-IsBest s (suc (2 * i)) i (i + 1) ((compare_lr s i (i + 1) 0).1 * 2 + 1)
        (keep best ((compare_lr s i i 0).1 * 2) (compare_lr s i i 0).0) (compare_lr s i (i + 1) 0)
        (omega arith) (omega (arith, odd.grown)) odd first in
    let e : 2 * (i + 1) ≡ suc (suc (2 * i)) = omega arith in rw e second

centers-IsBest :
    (n : ℕ) (s : List ℕ) (i : ℕ) (best : Best)
    → i + n ≡ length s
    → IsBest s (2 * i) best
    → IsBest s (2 * length s) (centers n s i best)
unfolding centers
centers-IsBest zero s i best e h = let k : 2 * length s ≡ 2 * i = omega arith in rw k h
centers-IsBest (suc n) s i best e h =
    centers-IsBest n s (i + 1) (center s i best) (omega arith)
      (center-IsBest s i best (omega arith) h)

-- `longestPalindrome1` of a string of two or more characters is a longest palindrome in it.
pub longest_palindrome1-IsLongest :
    (s : List ℕ) → 2 ≤ length s → IsLongest s (longest_palindrome1 s)
unfolding longest_palindrome1
longest_palindrome1-IsLongest s two =
    let start : Best = record { start_pos = 0; max_size = 0 } in
    let best : Best = centers (length s - 1) s 1 start in
    let h : IsBest s (2 * length s) best =
      centers-IsBest (length s - 1) s 1 start (omega arith) (record {
        inside = omega arith;
        reads = λ k p q. absurd (omega arith);
        longest = λ a z q r g lt. absurd (omega arith);
      }) in
    let one : 2 ≤ 1 + best.max_size =
      h.longest 1 2 two (λ k p q. ap (λ j. get_or s j 0) (omega arith)) (omega arith)
        (omega arith) in
    record {
      start = best.start_pos;
      size = best.max_size;
      found = Reads-IsPalindrome s best.start_pos best.max_size h.inside h.reads;
      is_substr = refl;
      longest = λ a m p.
          ground
            (arith, h.longest a (a + m) (p.inside) (IsPalindrome-Reads s a m p), p.inside, one);
    }

-- Of a string of one character it is empty, although the character is a palindrome.
pub longest_palindrome1_one : (c : ℕ) → ¬ IsLongest (c ∷ []) (longest_palindrome1 (c ∷ []))
unfolding longest_palindrome1 centers
longest_palindrome1_one c h =
    let whole : IsPalindrome (c ∷ []) 0 1 =
      Reads-IsPalindrome (c ∷ []) 0 1 (omega arith)
        (λ k p q. ap (λ j. get_or (c ∷ []) j 0) (omega arith)) in
    let size : h.size ≡ 1 = omega (arith, h.longest 0 1 whole, h.found.inside) in
    let start : h.start ≡ 0 = omega (arith, size, h.found.inside) in
    let e : [] ≡ c ∷ [] =
      h.is_substr ∙ ap (λ k. substr (c ∷ []) k h.size) start ∙ ap (substr (c ∷ []) 0) size in
    absurd (cc)

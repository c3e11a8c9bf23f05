-- ===== src/Palindrome/Expand.antt =====
-- `CompareLR` grows a palindrome as far as it goes.
use demo_code.Prelude.{
  ℕ, zero, suc, ◌+◌, ◌-◌, ◌≤◌, ◌<◌, ltb, leb, ◌==◌, List, length, get_or, ◌≡◌, ◌≢◌, false, refl,
  leb→le, leb-false, sym, arith, inl, inr, Bool-cases, ==_iff,
}
use demo_code.Palindrome.{compare_lr}

-- The items from `lo` up to `hi` read the same from both ends.
abbrev pub Reads : List ℕ → ℕ → ℕ → Type 0
Reads s lo hi = (i : ℕ) → lo ≤ i → i < hi → get_or s i 0 ≡ get_or s (lo + hi - 1 - i) 0

pub Reads-grow :
    (s : List ℕ) (f b : ℕ)
    → suc f ≤ b
    → get_or s f 0 ≡ get_or s b 0
    → Reads s (suc f) b
    → Reads s f (b + 1)
Reads-grow s f b h e r i p q = elim (Bool-cases (i == f)) [
  | inl first ↦
      let k : i ≡ f = (==_iff i f).0 first in
      let k' : f + (b + 1) - 1 - i ≡ b = omega arith in rw (k', k) e
  | inr later ↦ elim (Bool-cases (i == b)) [
    | inl last ↦
        let k : i ≡ b = (==_iff i b).0 last in
        let k' : f + (b + 1) - 1 - i ≡ f = omega arith in rw (k', k) (sym e)
    | inr inner ↦
        let k : f + (b + 1) - 1 - i ≡ suc f + b - 1 - i = omega arith in
        rw k (r i (ground arith) (ground arith))
  ]
]

-- What `CompareLR` returns, from the items between `f` and `b`.
pub record Expanded (s : List ℕ) (f b t : ℕ) (result : ℕ × ℕ) : Type 0 where
  pub low : result.0 ≤ f
  pub grown : result.1 + result.0 ≡ t + f
  pub inside : b + f ≤ length s + result.0
  pub reads : Reads s result.0 (b + f - result.0)
  pub most : (a z : ℕ) → a + z ≡ f + b → z ≤ length s → Reads s a z → result.0 ≤ a

unequal : (x y : ℕ) → (x == y) ≡ false → x ≢ y
unequal x y h e = ground arith

widened :
    (s : List ℕ) (f b t : ℕ) (result : ℕ × ℕ)
    → Expanded s f (b + 1) (t + 1) result
    → Expanded s (suc f) b t result
widened s f b t result e =
    let k : b + suc f - result.0 ≡ b + 1 + f - result.0 = omega arith in
    record {
      low = omega (arith, e.low);
      grown = omega (arith, e.grown);
      inside = omega (arith, e.inside);
      reads = rw k e.reads;
      most = λ a z q. e.most a z (omega arith);
    }

stopped :
    (s : List ℕ) (f b t : ℕ)
    → b ≤ length s
    → Reads s f b
    → ((a z : ℕ) → a + z ≡ f + b → z ≤ length s → Reads s a z → f ≤ a)
    → Expanded s f b t (f, t)
stopped s f b t k r most =
    let e : b + f - f ≡ b = omega arith in
    record { low = omega arith; grown = refl; inside = omega arith; reads = rw e r; most = most }

pub compare_lr-Expanded :
    (s : List ℕ) (f b t : ℕ)
    → f ≤ b
    → b ≤ length s
    → Reads s f b
    → Expanded s f b t (compare_lr s f b t)
unfolding compare_lr
compare_lr-Expanded s zero b t h k r = stopped s 0 b t k r (λ a z e q w. omega arith)
compare_lr-Expanded s (suc f) b t h k r = elim (Bool-cases (ltb b (length s))) [
  | inr out ↦ rw out (stopped s (suc f) b t k r (λ a z e q w. ground arith))
  | inl in_range ↦ elim (Bool-cases (get_or s f 0 == get_or s b 0)) [
    | inl same ↦
        let rest =
          compare_lr-Expanded s f (b + 1) (t + 1) (omega arith) (ground arith)
            (Reads-grow s f b h ((==_iff (get_or s f 0) (get_or s b 0)).0 same) r) in
        rw in_range (rw same (widened s f b t (compare_lr s f (b + 1) (t + 1)) rest))
    | inr differ ↦ rw in_range (
        rw differ (
          stopped s (suc f) b t k r (λ a z e q w. elim (Bool-cases (leb (suc f) a)) [
            | inl le ↦ leb→le (suc f) a le
            | inr gt ↦
                let last : a + z - 1 - f ≡ b = omega (arith, leb-false (suc f) a gt) in
                absurd (
                  unequal (get_or s f 0) (get_or s b 0) differ
                    (rw last at (w f (ground arith) (omega (arith, leb-false (suc f) a gt)))))
          ])))
  ]
]

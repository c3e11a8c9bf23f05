-- ===== src/Sort/Heap/Order.antt =====
-- The order of a heap whose items stand from place 1: no child is larger than its parent.
use demo_code.Prelude.{
  ℕ, zero, suc, ◌+◌, ◌*◌, ◌/◌, ◌≤◌, ◌<◌, ℤ, ◌≤ℤ◌, List, [], ◌∷◌, length, ◌≢◌, ◌≡◌, arith, ◌⊎◌, inl,
  inr,
}
use demo_code.Prelude.Arrays.{at}
use demo_code.Prelude.Sorted.{All}

abbrev pub InOrder : List ℤ → ℕ → Type 0
InOrder nums j =
    (2 * j < length nums → at nums (2 * j) ≤ℤ at nums j)
    × (2 * j + 1 < length nums → at nums (2 * j + 1) ≤ℤ at nums j)

-- From the node `k` on, no child is larger than its parent.
abbrev pub IsHeapFrom : ℕ → List ℤ → Type 0
IsHeapFrom k nums = (j : ℕ) → k ≤ j → InOrder nums j

-- So too but at `i`, and no child of `i` is larger than the parent of `i`.
pub record IsHeapBut (k i : ℕ) (nums : List ℤ) : Type 0 where
  pub others : (j : ℕ) → k ≤ j → j ≢ i → InOrder nums j
  pub left : k ≤ i / 2 → 2 * i < length nums → at nums (2 * i) ≤ℤ at nums (i / 2)
  pub right : k ≤ i / 2 → 2 * i + 1 < length nums → at nums (2 * i + 1) ≤ℤ at nums (i / 2)

-- Each item from place 1 on is at most `b`.
abbrev pub IsBelow : ℤ → List ℤ → Type 0
IsBelow b nums = (j : ℕ) → 0 < j → j < length nums → at nums j ≤ℤ b

half_cases : (n : ℕ) → (n ≡ 2 * (n / 2)) ⊎ (n ≡ 2 * (n / 2) + 1)
half_cases n = omega arith

-- An item is not larger than its parent.
pub at-le_parent :
    (nums : List ℤ) (n : ℕ) → InOrder nums (n / 2) → n < length nums → at nums n ≤ℤ at nums (n / 2)
at-le_parent nums n h p = elim (half_cases n) [
  | inl e ↦ omega (arith, rw (← e) at (h.0), p)
  | inr e ↦ omega (arith, rw (← e) at (h.1), p)
]

below_fuel :
    (fuel j : ℕ) (nums : List ℤ)
    → j < fuel
    → IsHeapFrom 1 nums
    → 0 < j
    → j < length nums
    → at nums j ≤ℤ at nums 1
below_fuel zero j nums f h p q = absurd (omega arith)
below_fuel (suc fuel) zero nums f h p q = absurd (omega arith)
below_fuel (suc fuel) (suc zero) nums f h p q = omega arith
below_fuel (suc fuel) (suc (suc j)) nums f h p q =
    let n : ℕ = suc (suc j) in
    omega (
      arith,
      at-le_parent nums n (h (n / 2) (omega arith)) q,
      below_fuel fuel (n / 2) nums (omega arith) h (omega arith) (omega arith),
    )

-- The item at place 1 of a heap is the largest.
pub heap-IsBelow : (nums : List ℤ) → IsHeapFrom 1 nums → IsBelow (at nums 1) nums
heap-IsBelow nums h j p q = below_fuel (suc j) j nums (omega arith) h p q

-- Each item is not smaller than those that follow.
abbrev pub IsDescending : List ℤ → Type 0
IsDescending [] = Unit
IsDescending (x ∷ xs) = All (λ y. y ≤ℤ x) xs × IsDescending xs

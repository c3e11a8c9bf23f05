-- ===== src/Sort/Counting/Digits.antt =====
-- algorithm_about/sort_about/radix_sort.cpp: the number of rounds that `MaxBit` gives.
use demo_code.Prelude.{ℕ, zero, suc, ◌+◌, ◌*◌, ◌^◌, ◌≤◌, List, [], ◌∷◌, length, arith}
use demo_code.Sort.Counting.{max_bit_loop, max_bit}

max_bit_loop-le :
    (xs : List ℕ) (bits standard : ℕ) → max_bit_loop xs bits standard ≤ bits + length xs
unfolding max_bit_loop
max_bit_loop-le [] bits standard = omega arith
max_bit_loop-le (x ∷ xs) bits standard =
    ground (arith, max_bit_loop-le xs (bits + 1) (standard * 10), max_bit_loop-le xs bits standard)

pow_pos : (n : ℕ) → 1 ≤ 10 ^ n
pow_pos zero = omega arith
pow_pos (suc n) = omega (arith, pow_pos n)

pow_le : (k n : ℕ) → k ≤ n → 10 ^ k ≤ 10 ^ n
pow_le zero n h = pow_pos n
pow_le (suc k) zero h = absurd (omega arith)
pow_le (suc k) (suc n) h = omega (arith, pow_le k n (omega arith))

-- `MaxBit` counts at most one digit for each item and one more, so an item with more digits than
-- that has a digit that no round of `RadixSort` sorts by.
pub max_bit_short : (xs : List ℕ) (x : ℕ) → 10 ^ (length xs + 1) ≤ x → 10 ^ max_bit xs ≤ x
unfolding max_bit
max_bit_short xs x h =
    omega (
      arith,
      pow_le (max_bit_loop xs 1 10) (length xs + 1) (omega (arith, max_bit_loop-le xs 1 10)),
    )

-- ===== src/Sort/Counting.antt =====
-- algorithm_about/sort_about/counting_sort.cpp and radix_sort.cpp. The counters are a list, all 0 at
-- the first call; `none` is a write outside an array. The items are natural numbers: a negative one
-- indexes outside the counters.
pub mod Fault
pub mod Digits
use demo_code.Prelude.{
  ℕ, zero, suc, ◌+◌, ◌-◌, ◌*◌, ◌/◌, ◌%◌, ltb, leb, if◌then◌else◌, List, [], ◌∷◌, get_elem?, set?,
  length, replicate, Option, none, some, ◌>>=◌,
}
use mathlib.Core.List.{reverse}

-- The loop that counts the items, each at `key` of the item.
unfoldable pub count_items : (ℕ → ℕ) → List ℕ → List ℕ → Option (List ℕ)
count_items key [] counts = some counts
count_items key (x ∷ xs) counts = do
  c ← get_elem? counts (key x)
  counts' ← set? counts (key x) (c + 1)
  count_items key xs counts'

-- `countingArray[i] += countingArray[i - 1]`, from the value `acc` at the place before.
unfoldable pub prefix_sums : ℕ → List ℕ → List ℕ
prefix_sums acc [] = []
prefix_sums acc (c ∷ cs) = (acc + c) ∷ prefix_sums (acc + c) cs

-- The last loop of `CountingSort`, over the items from the back.
unfoldable pub place : List ℕ → List ℕ → List ℕ → Option (List ℕ × List ℕ)
place [] tmp counts = some (tmp, counts)
place (x ∷ xs) tmp counts = do
  c ← get_elem? counts x
  tmp' ← set? tmp c x
  counts' ← set? counts x (c - 1)
  place xs tmp' counts'

abbrev pub max_number : ℕ
max_number = 1000

-- `CountingSort`
unfoldable pub counting_sort : List ℕ → Option (List ℕ)
unfolding count_items prefix_sums place
counting_sort nums =
    let sorted = (do
      counts ← count_items (λ x. x) nums (replicate max_number 0)
      placed ← place (reverse nums) (replicate (length nums) 0) (prefix_sums 0 counts)
      some placed.0) in
    if ltb (length nums) 2 then some nums else sorted

-- `MaxBit`
unfoldable pub max_bit_loop : List ℕ → ℕ → ℕ → ℕ
max_bit_loop [] bits standard = bits
max_bit_loop (x ∷ xs) bits standard =
    max_bit_loop xs (if leb standard x then bits + 1 else bits)
      (if leb standard x then standard * 10 else standard)

unfoldable pub max_bit : List ℕ → ℕ
unfolding max_bit_loop
max_bit nums = max_bit_loop nums 1 10

-- The last inner loop of `RadixSort`, over the items from the back: one place lower than the count.
unfoldable pub place_digit : ℕ → List ℕ → List ℕ → List ℕ → Option (List ℕ)
place_digit radix [] tmp counts = some tmp
place_digit radix (x ∷ xs) tmp counts = do
  c ← get_elem? counts (x / radix % 10)
  tmp' ← (if ltb 0 c then set? tmp (c - 1) x else none)
  counts' ← set? counts (x / radix % 10) (c - 1)
  place_digit radix xs tmp' counts'

-- `RadixSort`: the rounds that are left. `tmp` is `tmpVec`, which the swap gives the old items.
unfoldable pub radix_rounds : ℕ → ℕ → List ℕ → List ℕ → Option (List ℕ)
unfolding count_items prefix_sums place_digit
radix_rounds zero radix nums tmp = some nums
radix_rounds (suc n) radix nums tmp = do
  counts ← count_items (λ x. x / radix % 10) nums (replicate 10 0)
  nums' ← place_digit radix (reverse nums) tmp (prefix_sums 0 counts)
  radix_rounds n (radix * 10) nums' nums

unfoldable pub radix_sort : List ℕ → Option (List ℕ)
unfolding max_bit radix_rounds
radix_sort nums =
    let sorted = radix_rounds (max_bit nums) 1 nums (replicate (length nums) 0) in
    if ltb (length nums) 2 then some nums else sorted

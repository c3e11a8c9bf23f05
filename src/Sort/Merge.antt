-- ===== src/Sort/Merge.antt =====
-- algorithm_about/sort_about/merge_sort.cpp. `Merge` and `MergeSort` read and write the range
-- `nums[s..e]` alone, so the range is the list of its items: `Merge(nums, s, m, e)` takes the items
-- of `nums[s..m]` and `nums[m+1..e]`, and its result is what the last loop copies back.
pub mod Laws
use demo_code.Prelude.{
  ℕ, zero, suc, ◌+◌, ◌-◌, ◌/◌, ltb, ℤ, ltb_ℤ, if◌then◌else◌, List, [], ◌∷◌, ◌++◌, length, take,
  drop, Option, none, some, ◌>>=◌,
}

-- `Merge`, with a round for each item: the first loop takes the smaller head, and the right one on
-- a tie; where one side is used up, the next two loops copy the other.
unfoldable pub merge : ℕ → List ℤ → List ℤ → List ℤ
merge zero xs ys = []
merge (suc n) [] ys = ys
merge (suc n) (x ∷ xs) [] = x ∷ xs
merge (suc n) (x ∷ xs) (y ∷ ys) =
    let left = x ∷ merge n xs (y ∷ ys) in
    let right = y ∷ merge n (x ∷ xs) ys in if ltb_ℤ x y then left else right

unfoldable pub merge_all : List ℤ → List ℤ → List ℤ
unfolding merge
merge_all xs ys = merge (length xs + length ys) xs ys

-- `MergeSort` of a range, on fuel: `none` is that the fuel ran out. `m - s + 1` items, where
-- `m = (s + e) / 2`, are half of the range's `e - s + 1` items, rounded up.
unfoldable pub sort_range : ℕ → List ℤ → Option (List ℤ)
unfolding merge_all
sort_range zero nums = none
sort_range (suc fuel) nums =
    let m = (length nums + 1) / 2 in
    let rest = (do
      left ← sort_range fuel (take m nums)
      right ← sort_range fuel (drop m nums)
      some (merge_all left right)) in
    if ltb 1 (length nums) then rest else some nums

-- `MergeSort(nums, 0, nums.size() - 1)`
unfoldable pub merge_sort : List ℤ → Option (List ℤ)
unfolding sort_range
merge_sort nums = sort_range (suc (length nums)) nums

-- ===== src/Sort/Heap.antt =====
-- algorithm_about/sort_about/max_heap_sort.cpp. The heap's items stand from `nums[1]`; `none` is a
-- read or a write outside the array, or that the fuel ran out.
pub mod Order
pub mod Largest
pub mod Fix
pub mod Laws
use demo_code.Prelude.{
  ℕ, zero, suc, ◌+◌, ◌-◌, ◌*◌, ◌/◌, ltb, ◌==◌, ℤ, ltb_ℤ, if◌then◌else◌, List, [], ◌∷◌, ◌++◌,
  get_elem?, length, take, Option, none, some, ◌>>=◌,
}
use demo_code.Prelude.Arrays.{swap}

-- `if(c < nums.size() && nums[c] > nums[iLargest]) iLargest = c;`
unfoldable pub larger : List ℤ → ℕ → ℕ → Option ℕ
larger nums c i_largest =
    let compared = (do
      x ← get_elem? nums c
      y ← get_elem? nums i_largest
      some (if ltb_ℤ y x then c else i_largest)) in
    if ltb c (length nums) then compared else some i_largest

-- `MaxHeapFix`, on fuel.
unfoldable pub max_heap_fix : ℕ → List ℤ → ℕ → Option (List ℤ)
unfolding larger swap
max_heap_fix zero nums i = none
max_heap_fix (suc fuel) nums i =
    let fixed = (do
      left ← larger nums (2 * i) i
      i_largest ← larger nums (2 * i + 1) left
      let deeper = (do nums' ← swap nums i i_largest; max_heap_fix fuel nums' i_largest)
      if i == i_largest then some nums else deeper) in
    if ltb (length nums / 2) i then some nums else fixed

-- The loop of `MaxHeapBuild`, from the last node that is not a leaf.
unfoldable pub build_loop : List ℤ → ℕ → Option (List ℤ)
unfolding max_heap_fix
build_loop nums zero = some nums
build_loop nums (suc i) = do
  nums' ← max_heap_fix (suc (length nums)) nums (suc i)
  build_loop nums' i

-- `MaxHeapBuild`
unfoldable pub max_heap_build : List ℤ → Option (List ℤ)
unfolding build_loop
max_heap_build nums = if ltb (length nums) 2 then some nums else build_loop nums (length nums / 2)

-- The loop of `MaxHeapSort`, on fuel.
unfoldable pub sort_loop : ℕ → List ℤ → List ℤ → Option (List ℤ)
unfolding max_heap_fix swap
sort_loop zero nums tmp_vec = none
sort_loop (suc fuel) nums tmp_vec =
    let round = (do
      nums' ← swap nums 1 (length nums - 1)
      back ← get_elem? nums' (length nums' - 1)
      nums'' ← max_heap_fix (suc (length nums')) (take (length nums' - 1) nums') 1
      sort_loop fuel nums'' (tmp_vec ++ back ∷ [])) in
    if ltb 1 (length nums) then round else some tmp_vec

-- `MaxHeapSort`
unfoldable pub max_heap_sort : List ℤ → Option (List ℤ)
max_heap_sort nums =
    let sorted = (do
      first ← get_elem? nums 0
      nums' ← max_heap_build nums
      sort_loop (length nums) nums' (first ∷ [])) in
    if ltb (length nums) 2 then some nums else sorted

-- ===== src/Sort/Quick.antt =====
-- algorithm_about/sort_about/quick_sort.cpp, on the array as a list; `none` is a read or a write
-- outside it. The index `last`, which may be -1, is given as `stop`, one above it, and an index `j`
-- that is never below `i` as the distance between the two.
pub mod Laws
use demo_code.Prelude.{
  ℕ, zero, suc, ◌+◌, ◌-◌, ◌/◌, leb, ◌==◌, ℤ, ltb_ℤ, leb_ℤ, if◌then◌else◌, List, get_elem?, set?,
  length, Option, none, some, ◌>>=◌, true, false, ◌∷◌, [],
}

-- `Media`, on the three values.
unfoldable pub media_of : ℤ → ℤ → ℤ → ℕ → ℕ → ℕ → ℕ
media_of x y z first mid last =
    if ltb_ℤ x y
    then (if ltb_ℤ y z then mid else if ltb_ℤ x z then last else first)
    else if ltb_ℤ x z
    then first
    else if ltb_ℤ y z
    then last
    else mid

-- `Media`
unfoldable pub media : List ℤ → ℕ → ℕ → ℕ → Option ℕ
unfolding media_of
media nums first mid last = do
  x ← get_elem? nums first
  y ← get_elem? nums mid
  z ← get_elem? nums last
  some (media_of x y z first mid last)

-- `while(nums[j] >= tmp && i < j) --j;` with `j = i + n`: the final `n`.
unfoldable pub scan_down : List ℤ → ℤ → ℕ → ℕ → Option ℕ
scan_down nums tmp i zero = some 0
scan_down nums tmp i (suc n) = do
  x ← get_elem? nums (i + suc n)
  elim (leb_ℤ tmp x) [ true ↦ scan_down nums tmp i n | false ↦ some (suc n) ]

-- `while(nums[i] <= tmp && i < j) ++i;` with `j = i + n`: how far `i` goes.
unfoldable pub scan_up : List ℤ → ℤ → ℕ → ℕ → Option ℕ
scan_up nums tmp i zero = some 0
scan_up nums tmp i (suc n) = do
  x ← get_elem? nums i
  elim (leb_ℤ x tmp) [ true ↦ (do k ← scan_up nums tmp (i + 1) n; some (suc k)) | false ↦ some 0 ]

-- `while(i != j)`, on fuel, with the array and the place where the two meet.
unfoldable pub partition : ℕ → List ℤ → ℤ → ℕ → ℕ → Option (List ℤ × ℕ)
unfolding scan_down scan_up
partition zero nums tmp i n = none
partition (suc fuel) nums tmp i n =
    let round = (do
      n' ← scan_down nums tmp i n
      x ← get_elem? nums (i + n')
      nums' ← set? nums i x
      k ← scan_up nums' tmp i n'
      y ← get_elem? nums' (i + k)
      nums'' ← set? nums' (i + n') y
      partition fuel nums'' tmp (i + k) (n' - k)) in
    if n == 0 then some (nums, i) else round

-- `QuickSort`, on fuel.
unfoldable pub quick_sort : ℕ → List ℤ → ℕ → ℕ → Option (List ℤ)
unfolding media partition
quick_sort zero nums first stop = none
quick_sort (suc fuel) nums first stop =
    let last = stop - 1 in
    let sorted = (do
      p ← media nums first ((first + last) / 2) last
      tmp ← get_elem? nums p
      parts ← partition stop nums tmp first (last - first)
      nums' ← set? parts.0 parts.1 tmp
      nums'' ← quick_sort fuel nums' first parts.1
      quick_sort fuel nums'' (parts.1 + 1) stop) in
    if leb stop first then some nums else sorted

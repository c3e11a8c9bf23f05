-- ===== src/Sort/Quick/Laws.antt =====
-- algorithm_about/sort_about/quick_sort.cpp: what `Media` returns, and what the partition loses.
use demo_code.Prelude.{
  ℕ, ℤ, ltb_ℤ, if◌then◌else◌, ◌≤ℤ◌, ◌<ℤ◌, List, [], ◌∷◌, get_elem?, some, ◌≡◌, arith, ◌⊎◌,
}
use demo_code.Sort.Quick.{media_of, media, quick_sort}

chosen : ℤ → ℤ → ℤ → ℤ
chosen x y z =
    if ltb_ℤ x y
    then (if ltb_ℤ y z then y else if ltb_ℤ x z then z else x)
    else if ltb_ℤ x z
    then x
    else if ltb_ℤ y z
    then z
    else y

-- `Media`, at three places of the array, returns the place of a median: of any two of the three
-- values one is not larger, and one is not smaller.
pub media-is_median :
    (nums : List ℤ) (first mid last : ℕ) (x y z : ℤ)
    → get_elem? nums first ≡ some x
    → get_elem? nums mid ≡ some y
    → get_elem? nums last ≡ some z
    → (i : ℕ) × (v : ℤ) × (media nums first mid last ≡ some i)
      × (get_elem? nums i ≡ some v)
      × ((((x ≤ℤ v) ⊎ (y ≤ℤ v)) × ((v ≤ℤ x) ⊎ (v ≤ℤ y)))
          × (((x ≤ℤ v) ⊎ (z ≤ℤ v)) × ((v ≤ℤ x) ⊎ (v ≤ℤ z)))
          × (((y ≤ℤ v) ⊎ (z ≤ℤ v)) × ((v ≤ℤ y) ⊎ (v ≤ℤ z))))
unfolding media chosen
media-is_median nums first mid last x y z p q r =
    (media_of x y z first mid last, chosen x y z, rw (p, q, r), ground arith, ground arith)

-- Sorting three ascending items loses the first: the pivot, the middle item, is not moved to the
-- front before the partition overwrites that place.
pub quick_sort-loses :
    (x y z : ℤ) → x <ℤ y → y <ℤ z → quick_sort 4 (x ∷ y ∷ z ∷ []) 0 3 ≡ some (y ∷ y ∷ z ∷ [])
unfolding quick_sort
quick_sort-loses x y z p q = ground arith

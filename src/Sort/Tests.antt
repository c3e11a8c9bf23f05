-- ===== src/Sort/Tests.antt =====
-- The sorts at small arrays.
use demo_code.Prelude.{ℤ, pos, negsuc, List, [], ◌∷◌, some, none, ◌≡◌, refl, arith}
use demo_code.Prelude.Counts.{IsOrdered, SameItems}
use demo_code.Sort.Merge.{merge_sort}
use demo_code.Sort.Merge.Laws.{merge_sort-sorts}
use demo_code.Sort.Quick.{quick_sort}
use demo_code.Sort.Quick.Laws.{quick_sort-loses}
use demo_code.Sort.Counting.{counting_sort, radix_sort}
use demo_code.Sort.Counting.Fault.{counting_sort-faults}
use demo_code.Sort.Heap.{max_heap_build, sort_loop, max_heap_sort}
use demo_code.Sort.Heap.Order.{IsDescending}
use demo_code.Sort.Heap.Laws.{max_heap_sort-sorts}

abbrev items : List ℤ
items = pos 4 ∷ negsuc 2 ∷ pos 9 ∷ pos 4 ∷ pos 0 ∷ []

merge_sort_items : merge_sort items ≡ some (negsuc 2 ∷ pos 0 ∷ pos 4 ∷ pos 4 ∷ pos 9 ∷ [])
unfolding merge_sort
merge_sort_items = refl

max_heap_sort_items :
    max_heap_sort (pos 7 ∷ items) ≡ some (pos 7 ∷ pos 9 ∷ pos 4 ∷ pos 4 ∷ pos 0 ∷ negsuc 2 ∷ [])
unfolding max_heap_sort max_heap_build sort_loop
max_heap_sort_items = refl

radix_sort_items : radix_sort (32 ∷ 7 ∷ 150 ∷ 21 ∷ []) ≡ some (7 ∷ 21 ∷ 32 ∷ 150 ∷ [])
unfolding radix_sort
radix_sort_items = refl

-- `MaxBit` is 2 here, so the last two digits alone are sorted by.
radix_sort_short : radix_sort (2001 ∷ 1002 ∷ []) ≡ some (2001 ∷ 1002 ∷ [])
unfolding radix_sort
radix_sort_short = refl

merge_sort-sorts_example :
    (out : List ℤ) × (merge_sort items ≡ some out) × IsOrdered out × SameItems out items
merge_sort-sorts_example = merge_sort-sorts items

max_heap_sort-sorts_example :
    (ys : List ℤ) × (max_heap_sort (pos 7 ∷ items) ≡ some (pos 7 ∷ ys))
    × IsDescending ys
    × SameItems ys items
max_heap_sort-sorts_example = max_heap_sort-sorts (pos 7) items

quick_sort-loses_example :
    quick_sort 4 (pos 1 ∷ pos 2 ∷ pos 3 ∷ []) 0 3 ≡ some (pos 2 ∷ pos 2 ∷ pos 3 ∷ [])
quick_sort-loses_example = quick_sort-loses (pos 1) (pos 2) (pos 3) (omega arith) (omega arith)

counting_sort-faults_example : counting_sort (3 ∷ 8 ∷ 1 ∷ []) ≡ none
counting_sort-faults_example =
    counting_sort-faults (3 ∷ []) (1 ∷ []) 8 (omega arith) (omega arith) (omega arith)

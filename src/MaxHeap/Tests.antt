-- ===== src/MaxHeap/Tests.antt =====
-- The heap of `main`, and the theorems at it.
use demo_code.Prelude.{
  ℤ, pos, negsuc, zero, suc, List, [], ◌∷◌, Option, some, none, ◌>>=◌, ◌≡◌, refl, arith,
}
use demo_code.Prelude.Arrays.{swap}
use demo_code.Sort.Heap.Order.{IsHeapFrom}
use demo_code.MaxHeap.{empty, insert, insert_fix, delete}
use demo_code.MaxHeap.Insert.{Inserted, insert-Inserted, insert-not-IsHeapFrom}
use demo_code.MaxHeap.Delete.{Deleted, delete-Deleted, delete_empty}

insert_all : List ℤ → List ℤ → Option (List ℤ)
insert_all [] m_vec = some m_vec
insert_all (x ∷ xs) m_vec = do m_vec' ← insert m_vec x; insert_all xs m_vec'

-- The heap that `main` builds: 1 stands above 10 and 14.
main_heap :
    insert_all (pos 1 ∷ pos 2 ∷ pos 10 ∷ pos 14 ∷ pos 15 ∷ pos 20 ∷ []) empty
    ≡ some (negsuc 0 ∷ pos 20 ∷ pos 1 ∷ pos 2 ∷ pos 10 ∷ pos 14 ∷ pos 15 ∷ [])
unfolding insert_all insert insert_fix swap
main_heap = refl

abbrev heap : List ℤ
heap = negsuc 0 ∷ pos 10 ∷ pos 1 ∷ pos 2 ∷ []

heap-IsHeapFrom : IsHeapFrom 1 heap
heap-IsHeapFrom zero p = absurd (omega arith)
heap-IsHeapFrom (suc zero) p = omega arith
heap-IsHeapFrom (suc (suc j)) p = (λ q. absurd (omega arith), λ q. absurd (omega arith))

insert-Inserted_example : Inserted heap (pos 7) (insert heap (pos 7))
insert-Inserted_example = insert-Inserted heap (pos 7) (omega arith)

insert-not-IsHeapFrom_example :
    (out : List ℤ) × (insert heap (pos 14) ≡ some out) × ¬ IsHeapFrom 1 out
insert-not-IsHeapFrom_example =
    insert-not-IsHeapFrom heap (pos 14) (omega arith) heap-IsHeapFrom (omega arith) (omega arith)

delete-Deleted_example : Deleted heap (delete heap)
delete-Deleted_example = delete-Deleted heap (omega arith)

delete_no_item : delete empty ≡ none
delete_no_item = delete_empty (negsuc 0)

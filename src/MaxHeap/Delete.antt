-- ===== src/MaxHeap/Delete.antt =====
-- `Delete` of `MaxHeap`.
use demo_code.Prelude.{
  ℕ, zero, suc, ◌+◌, ◌-◌, ◌*◌, ◌<◌, ltb, ◌==◌, ℤ, ◌<ℤ◌, if◌then◌else◌, List, [], ◌∷◌, set, length,
  length-set, take, Option, none, some, ◌>>=◌, ◌≡◌, refl, ap, ◌∙◌, arith, inl, inr, false,
  Bool-cases, ltb-false,
}
use demo_code.Prelude.Arrays.{
  at, get_elem?-at, set?-set, at-set, count-set, length-init, at-take, count-take,
}
use demo_code.Prelude.Counts.{same_ℤ, count}
use demo_code.MaxHeap.{delete, delete_fix, sift, top}
use demo_code.MaxHeap.Sift.{Sifted, sift-Sifted}
use demo_code.Sort.Heap.Order.{IsHeapFrom, IsHeapBut}

set-at : (xs : List ℤ) (i : ℕ) → i < length xs → set xs i (at xs i) ≡ xs
set-at [] i h = refl
set-at (x ∷ xs) zero h = refl
set-at (x ∷ xs) (suc i) h = ap (λ ys. x ∷ ys) (set-at xs i (omega arith))

-- `DeleteFix` on an array that is in order but at its first item.
delete_fix-Sifted : (xs : List ℤ) → Sifted 1 xs (delete_fix xs)
unfolding delete_fix
delete_fix-Sifted xs = elim (Bool-cases (ltb (length xs) 3)) [
  | inl few ↦ record {
    out = xs;
    returned = rw few refl;
    same = λ a. refl;
    size = refl;
    first = refl;
    heap = λ h e b j p. (λ q. absurd (ground arith), λ q. absurd (ground arith));
  }
  | inr more ↦
      let inside : 1 < length xs = ground arith in
      let s = sift-Sifted (length xs) xs (at xs 1) 1 (omega arith) inside (omega arith) in
      rw more (rw (get_elem?-at xs 1 inside, ◌>>=◌) (rw (set-at xs 1 inside) at s))
]

-- The array that `DeleteFix` is called on.
module _ (xs : List ℤ) (n : ℕ) (size : length xs ≡ suc (suc n)) where
  abbrev shortened : List ℤ
  shortened = take (suc n) (set xs 1 (at xs (suc n)))

  length-shortened : length shortened ≡ suc n
  length-shortened =
      length-init (suc n) (set xs 1 (at xs (suc n)))
        (omega (arith, length-set xs 1 (at xs (suc n))))

  at-shortened : (j : ℕ) → j < suc n → at shortened j ≡ (if 1 == j then at xs (suc n) else at xs j)
  at-shortened j h =
      at-take (suc n) (set xs 1 (at xs (suc n))) j h ∙ at-set xs 1 j (at xs (suc n)) (omega arith)

  count-shortened : (a : ℤ) → count a shortened + same_ℤ a (at xs 1) ≡ count a xs
  count-shortened a =
      let ws = set xs 1 (at xs (suc n)) in
      let last : at ws (suc n) ≡ at xs (suc n) =
        at-set xs 1 (suc n) (at xs (suc n)) (omega arith) ∙ ground arith in
      ground (
        arith,
        ap (λ v. same_ℤ a v) last,
        count-take a (suc n) ws (omega (arith, length-set xs 1 (at xs (suc n)))),
        count-set a xs 1 (at xs (suc n)),
      )

  shortened-IsHeapBut : IsHeapFrom 1 xs → IsHeapBut 1 1 shortened
  shortened-IsHeapBut heap = record {
    others = λ j p ne. (
      λ q.
          rw
            (
              at-shortened (2 * j) (omega (arith, length-shortened)),
              at-shortened j (omega (arith, length-shortened)),
            )
            (ground (arith, (heap j p).0 (omega (arith, length-shortened)))),
      λ q.
          rw
            (
              at-shortened (2 * j + 1) (omega (arith, length-shortened)),
              at-shortened j (omega (arith, length-shortened)),
            )
            (ground (arith, (heap j p).1 (omega (arith, length-shortened)))),
    );
    left = λ p. absurd (omega arith);
    right = λ p. absurd (omega arith);
  }

  delete_step : delete xs ≡ delete_fix shortened
  unfolding delete
  delete_step =
      let b = at xs (suc n) in
      let last : length xs - 1 ≡ suc n = omega (arith, size) in
      let last' : length (set xs 1 b) - 1 ≡ suc n = omega (arith, size, length-set xs 1 b) in
      let some_item : ltb (length xs) 1 ≡ false = ltb-false (length xs) 1 (omega arith) in
      rw some_item (
        rw last (
          rw (get_elem?-at xs (suc n) (omega arith), ◌>>=◌)
            (rw (set?-set xs 1 b (omega arith), ◌>>=◌) (rw last' refl))))

-- What `Delete` returns.
pub record Deleted (xs : List ℤ) (result : Option (List ℤ)) : Type 0 where
  pub out : List ℤ
  pub returned : result ≡ some out
  pub size : length out + 1 ≡ length xs
  pub first : at out 0 ≡ at xs 0
  pub same : (a : ℤ) → count a out + same_ℤ a (at xs 1) ≡ count a xs
  pub heap : (h : ℕ) → length xs ≡ 2 * h + 1 → IsHeapFrom 1 xs → IsHeapFrom 1 out

deleted : (xs : List ℤ) (n : ℕ) → length xs ≡ suc (suc n) → Deleted xs (delete xs)
deleted xs n size =
    let s = delete_fix-Sifted (shortened xs n size) in
    record {
      out = s.out;
      returned = delete_step xs n size ∙ s.returned;
      size = omega (arith, s.size, length-shortened xs n size);
      first = s.first ∙ at-shortened xs n size 0 (omega arith);
      same = λ a. omega (arith, s.same a, count-shortened xs n size a);
      heap = λ h e b.
          s.heap h (length-shortened xs n size ∙ omega arith) (shortened-IsHeapBut xs n size b);
    }

-- `Delete` of a heap with an item returns, takes out the item at the root alone and leaves the
-- sentinel; where an even number of items was in the heap, the rest is a heap again.
pub delete-Deleted : (xs : List ℤ) → 1 < length xs → Deleted xs (delete xs)
delete-Deleted xs h = deleted xs (length xs - 2) (omega arith)

-- `Delete` of a heap of three items puts the last item in the root and leaves it there; where it is
-- smaller than the other, the result is no heap, and `Top` returns the smaller.
pub delete-top_lone :
    (s x y z : ℤ)
    → z <ℤ y
    → (out : List ℤ) × (delete (s ∷ x ∷ y ∷ z ∷ []) ≡ some out)
      × (¬ IsHeapFrom 1 out)
      × (top out ≡ some z)
unfolding delete delete_fix sift top
delete-top_lone s x y z h = (
  s ∷ z ∷ y ∷ [],
  refl,
  λ heap. absurd (omega (arith, (heap 1 (omega arith)).0 (omega arith))),
  refl,
)

-- `Delete` of a heap with no item writes outside the vector.
pub delete_empty : (s : ℤ) → delete (s ∷ []) ≡ none
unfolding delete
delete_empty s = refl

-- ===== src/Sort/Heap/Laws.antt =====
-- `MaxHeapBuild` makes a heap, and `MaxHeapSort` takes its items out in descending order.
use mathlib.Core.List.{append_assoc, append-nil}
use demo_code.Prelude.{
  ℕ, zero, suc, ◌+◌, ◌-◌, ◌*◌, ◌/◌, ◌≤◌, ◌<◌, ltb, ◌==◌, ℤ, ◌≤ℤ◌, if◌then◌else◌, List, [], ◌∷◌,
  ◌++◌, length, take, Option, some, ◌>>=◌, ◌≡◌, refl, ap, ◌∙◌, arith, inl, inr, true, Bool-cases,
  ltb-false,
}
use demo_code.Prelude.Arrays.{
  at, get_elem?-at, swapped, swap-swapped, at-swapped, length-swapped, swapped-SameItems,
  length-init, at-take, count-take,
}
use demo_code.Prelude.Sorted.{All}
use demo_code.Prelude.Counts.{same_ℤ, count, count-cons, SameItems}
use demo_code.Sort.Heap.{max_heap_fix, build_loop, max_heap_build, sort_loop, max_heap_sort}
use demo_code.Sort.Heap.Order.{IsHeapFrom, IsHeapBut, IsBelow, IsDescending, heap-IsBelow}
use demo_code.Sort.Heap.Fix.{Fixed, max_heap_fix-Fixed}

one_more : (i : ℕ) (nums : List ℤ) → IsHeapFrom (suc (suc i)) nums → IsHeapBut (suc i) (suc i) nums
one_more i nums h = record {
  others = λ j p n. h j (ground arith);
  left = λ p. absurd (omega arith);
  right = λ p. absurd (omega arith);
}

build_loop-Fixed :
    (nums : List ℤ) (i : ℕ)
    → i ≤ length nums
    → IsHeapFrom (suc i) nums
    → Fixed 1 nums (build_loop nums i)
unfolding build_loop
build_loop-Fixed nums zero s h = record {
  out = nums;
  returned = refl;
  heap = h;
  same = λ a. refl;
  size = refl;
  first = refl;
  bound = λ v k. k;
}
build_loop-Fixed nums (suc i) s h =
    let x =
      max_heap_fix-Fixed (suc i) (suc (length nums)) nums (suc i) (omega arith) (omega arith) s
        (omega arith) (one_more i nums h) in
    let y = build_loop-Fixed x.out i (omega (arith, x.size)) x.heap in
    record {
      out = y.out;
      returned = rw (x.returned, ◌>>=◌) y.returned;
      heap = y.heap;
      same = λ a. y.same a ∙ x.same a;
      size = y.size ∙ x.size;
      first = y.first ∙ x.first;
      bound = λ v k. y.bound v (x.bound v k);
    }

-- `MaxHeapBuild` turns any array into a heap of the same items.
pub max_heap_build-Fixed : (nums : List ℤ) → Fixed 1 nums (max_heap_build nums)
unfolding max_heap_build
max_heap_build-Fixed nums = elim (Bool-cases (ltb (length nums) 2)) [
  | inl few ↦ record {
    out = nums;
    returned = rw few refl;
    heap = λ j h. (λ q. absurd (ground arith), λ q. absurd (ground arith));
    same = λ a. refl;
    size = refl;
    first = refl;
    bound = λ v k. k;
  }
  | inr more ↦ rw more (
      build_loop-Fixed nums (length nums / 2) (omega arith)
        (λ j h. (λ q. absurd (omega arith), λ q. absurd (omega arith))))
]

-- One round of the sort, on at least one item: the largest goes behind the heap and off it.
module _ (nums : List ℤ) (n : ℕ) (size : length nums ≡ suc (suc n)) (heap : IsHeapFrom 1 nums) where
  abbrev popped : List ℤ
  popped = take (suc n) (swapped nums 1 (suc n))

  at-popped : (j : ℕ) → j < suc n → at popped j ≡ (if 1 == j then at nums (suc n) else at nums j)
  at-popped j h =
      at-take (suc n) (swapped nums 1 (suc n)) j h
      ∙ at-swapped nums 1 (suc n) (omega arith) (omega arith) j
      ∙ ground arith

  length-popped : length popped ≡ suc n
  length-popped =
      length-init (suc n) (swapped nums 1 (suc n)) (omega (arith, length-swapped nums 1 (suc n)))

  back : at (swapped nums 1 (suc n)) (suc n) ≡ at nums 1
  back = at-swapped nums 1 (suc n) (omega arith) (omega arith) (suc n) ∙ ground arith

  popped-IsHeapBut : IsHeapBut 1 1 popped
  popped-IsHeapBut = record {
    others = λ j p ne. (
      λ q.
          rw
            (
              at-popped (2 * j) (omega (arith, length-popped)),
              at-popped j (omega (arith, length-popped)),
            )
            (ground (arith, (heap j p).0 (omega (arith, length-popped)))),
      λ q.
          rw
            (
              at-popped (2 * j + 1) (omega (arith, length-popped)),
              at-popped j (omega (arith, length-popped)),
            )
            (ground (arith, (heap j p).1 (omega (arith, length-popped)))),
    );
    left = λ p. absurd (omega arith);
    right = λ p. absurd (omega arith);
  }

  popped-IsBelow : (v : ℤ) → IsBelow v nums → IsBelow v popped
  popped-IsBelow v h j p q = ground (arith, at-popped j, length-popped, h (suc n), h j)

  count-popped : (a : ℤ) → count a popped + same_ℤ a (at nums 1) ≡ count a nums
  count-popped a =
      rw (← back) (
        count-take a (suc n) (swapped nums 1 (suc n))
          (omega (arith, length-swapped nums 1 (suc n))))
      ∙ swapped-SameItems nums 1 (suc n) (omega arith) (omega arith) a

  sort_loop_step :
      (fuel : ℕ) (tmp : List ℤ)
      → sort_loop (suc fuel) nums tmp ≡ (
          max_heap_fix (suc (suc (suc n))) popped 1 >>= λ rest.
          sort_loop fuel rest (tmp ++ at nums 1 ∷ []))
  unfolding sort_loop
  sort_loop_step fuel tmp =
      let ws = swapped nums 1 (suc n) in
      let size' : length ws ≡ suc (suc n) = length-swapped nums 1 (suc n) ∙ size in
      let more : ltb 1 (length nums) ≡ true = ground (arith, size) in
      let last : length nums - 1 ≡ suc n = omega (arith, size) in
      let last' : length ws - 1 ≡ suc n = omega (arith, size') in
      rw more (
        rw last (
          rw (swap-swapped nums 1 (suc n) (omega arith) (omega arith), ◌>>=◌)
            (rw last' (
              rw (get_elem?-at ws (suc n) (omega (arith, size')), ◌>>=◌)
                (rw back (rw size' refl))))))

-- What the loop adds to `tmpVec`.
record Emptied (nums tmp : List ℤ) (result : Option (List ℤ)) : Type 0 where
  items : List ℤ
  returned : result ≡ some (tmp ++ items)
  order : IsDescending items
  below : (v : ℤ) → IsBelow v nums → All (λ x. x ≤ℤ v) items
  same : (a : ℤ) → count a items + same_ℤ a (at nums 0) ≡ count a nums

count_one : (a x : ℤ) → count a [] + same_ℤ a x ≡ count a (x ∷ [])
unfolding count
count_one a x = omega arith

-- The loop empties a heap in descending order.
sort_loop-Emptied :
    (fuel n : ℕ) (nums tmp : List ℤ)
    → length nums ≡ suc n
    → n < fuel
    → IsHeapFrom 1 nums
    → Emptied nums tmp (sort_loop fuel nums tmp)
unfolding sort_loop
sort_loop-Emptied zero n nums tmp s f h = absurd (omega arith)
sort_loop-Emptied (suc fuel) zero [] tmp s f h = absurd (omega arith)
sort_loop-Emptied (suc fuel) zero (x ∷ []) tmp s f h = record {
  items = [];
  returned = rw (append-nil tmp) refl;
  order = tt;
  below = λ v k. tt;
  same = λ a. count_one a x;
}
sort_loop-Emptied (suc fuel) zero (x ∷ y ∷ nums) tmp s f h = absurd (omega arith)
sort_loop-Emptied (suc fuel) (suc n) nums tmp s f h =
    let out =
      max_heap_fix-Fixed 1 (suc (suc (suc n))) (popped nums n s h) 1 (omega arith) (omega arith)
        (omega (arith, length-popped nums n s h)) (omega (arith, length-popped nums n s h))
        (popped-IsHeapBut nums n s h) in
    let rest =
      sort_loop-Emptied fuel n out.out (tmp ++ at nums 1 ∷ []) (out.size ∙ length-popped nums n s h)
        (omega arith) out.heap in
    record {
      items = at nums 1 ∷ rest.items;
      returned = rw (sort_loop_step nums n s h fuel tmp) (
          rw (out.returned, ◌>>=◌)
            (rest.returned ∙ ap (λ l. some l) (append_assoc tmp (at nums 1 ∷ []) rest.items)));
      order = (
        rest.below (at nums 1)
            (out.bound (at nums 1) (popped-IsBelow nums n s h (at nums 1) (heap-IsBelow nums h))),
        rest.order,
      );
      below = λ v k. (
        k 1 (omega arith) (omega arith),
        rest.below v (out.bound v (popped-IsBelow nums n s h v k)),
      );
      same = λ a. ground (
        arith,
        count-cons a (at nums 1) rest.items,
        rest.same a,
        out.same a,
        out.first,
        count-popped nums n s h a,
        at-popped nums n s h 0,
      );
    }

-- `MaxHeapSort` leaves `nums[0]` and puts the items behind it, each as often, in descending order.
pub max_heap_sort-sorts :
    (x : ℤ) (xs : List ℤ)
    → (ys : List ℤ) × (max_heap_sort (x ∷ xs) ≡ some (x ∷ ys)) × IsDescending ys × SameItems ys xs
unfolding max_heap_sort
max_heap_sort-sorts x [] = ([], refl, tt, λ a. refl)
max_heap_sort-sorts x (y ∷ xs) =
    let built = max_heap_build-Fixed (x ∷ y ∷ xs) in
    let rest =
      sort_loop-Emptied (suc (suc (length xs))) (suc (length xs)) built.out (x ∷ []) built.size
        (omega arith) built.heap in
    (
      rest.items,
      rw (ltb-false (suc (suc (length xs))) 2 (omega arith))
          (rw (built.returned, ◌>>=◌) rest.returned),
      rest.order,
      λ a. omega (
        arith,
        rest.same a,
        built.same a,
        count-cons a x (y ∷ xs),
        ap (λ v. same_ℤ a v) built.first,
      ),
    )

-- ===== src/Sort/Heap/Fix.antt =====
-- `MaxHeapFix` restores the order below one node.
use demo_code.Prelude.{
  ℕ, zero, suc, ◌+◌, ◌*◌, ◌/◌, ◌≤◌, ◌<◌, ltb, ◌==◌, ℤ, ◌≤ℤ◌, if◌then◌else◌, List, length, Option,
  some, ◌>>=◌, ◌≢◌, ◌≡◌, refl, ap, ◌∙◌, arith, inl, inr, true, false, Bool-cases, ℕ_discrete,
}
use demo_code.Prelude.Arrays.{
  at, swapped, swap-swapped, at-swapped, length-swapped, swapped-SameItems,
}
use demo_code.Prelude.Counts.{SameItems}
use demo_code.Sort.Heap.{max_heap_fix}
use demo_code.Sort.Heap.Largest.{Largest, largest_lem}
use demo_code.Sort.Heap.Order.{InOrder, IsHeapFrom, IsHeapBut, IsBelow}

-- The order holds from `k` on where the largest is the node itself.
pub settled :
    (k i m : ℕ) (nums : List ℤ) → IsHeapBut k i nums → Largest nums i m → m ≡ i → IsHeapFrom k nums
settled k i m nums b l same j h = elim (ℕ_discrete j i) [
  | yes e ↦ rw e (rw same at (l.left), rw same at (l.right))
  | no n ↦ b.others j h n
]

-- So too where the node has no child.
leaf_lem :
    (k i : ℕ) (nums : List ℤ)
    → IsHeapBut k i nums
    → ltb (length nums / 2) i ≡ true
    → IsHeapFrom k nums
leaf_lem k i nums b leaf j h = elim (ℕ_discrete j i) [
  | yes e ↦ (λ q. absurd (ground arith), λ q. absurd (ground arith))
  | no n ↦ b.others j h n
]

-- Exchanging the node with a larger child leaves the order broken at the child alone.
module _ (k i m : ℕ) (nums : List ℤ) (pos : 0 < i) (low : k ≤ i) (b : IsHeapBut k i nums)
    (l : Largest nums i m) (inside : i < length nums) (ne : m ≢ i) where
  moved :
      (x : ℕ)
      → at (swapped nums i m) x
        ≡ (if m == x then at nums i else if i == x then at nums m else at nums x)
  moved x = at-swapped nums i m inside l.inside x

  -- Where the moved node is a child of `j`.
  over : (j : ℕ) → k ≤ j → (i / 2 ≡ j) → at nums m ≤ℤ at nums j
  over j h e = elim l.either [
    | inl p ↦ absurd (ne p)
    | inr (inl p) ↦ rw (← e) (rw p (b.left (omega arith) (omega (arith, l.inside))))
    | inr (inr p) ↦ rw (← e) (rw p (b.right (omega arith) (omega (arith, l.inside))))
  ]

  sunk_child :
      (j c : ℕ)
      → k ≤ j
      → j ≢ i
      → j ≢ m
      → (c / 2 ≡ j)
      → (at nums c ≤ℤ at nums j)
      → at (swapped nums i m) c ≤ℤ at (swapped nums i m) j
  sunk_child j c h ni nm e old = elim (ℕ_discrete i c) [
    | yes p ↦
        let up = over j h (ap (λ x. x / 2) p ∙ e) in rw (moved c, moved j) (ground (arith, p, up))
    | no q ↦ rw (moved c, moved j) (ground (arith, q))
  ]

  sunk_others : (j : ℕ) → k ≤ j → j ≢ m → InOrder (swapped nums i m) j
  sunk_others j h n = elim (ℕ_discrete j i) [
    | yes e ↦ (
      λ q. ground (arith, moved (2 * i), moved i, l.left, l.above, length-swapped nums i m),
      λ q. ground (arith, moved (2 * i + 1), moved i, l.right, l.above, length-swapped nums i m),
    )
    | no n' ↦ (
      λ q.
          sunk_child j (2 * j) h n' n (omega arith)
            ((b.others j h n').0 (omega (arith, length-swapped nums i m))),
      λ q.
          sunk_child j (2 * j + 1) h n' n (omega arith)
            ((b.others j h n').1 (omega (arith, length-swapped nums i m))),
    )
  ]

  deeper : i < m
  deeper = ground (arith, l.either, ne)

  grandchild :
      (c : ℕ)
      → (c / 2 ≡ m)
      → m < c
      → at nums c ≤ℤ at nums m
      → at (swapped nums i m) c ≤ℤ at (swapped nums i m) i
  grandchild c e lt old = rw (moved c, moved i) (ground arith)

  parent : m / 2 ≡ i
  parent = ground (arith, l.either, ne)

  pub sunk : IsHeapBut k m (swapped nums i m)
  sunk = record {
    others = sunk_others;
    left = λ h q. rw parent (
        grandchild (2 * m) (omega arith) (omega (arith, deeper))
          ((b.others m (omega (arith, deeper)) ne).0 (omega (arith, length-swapped nums i m))));
    right = λ h q. rw parent (
        grandchild (2 * m + 1) (omega arith) (omega (arith, deeper))
          ((b.others m (omega (arith, deeper)) ne).1 (omega (arith, length-swapped nums i m))));
  }

-- What `MaxHeapFix` returns.
pub record Fixed (k : ℕ) (nums : List ℤ) (result : Option (List ℤ)) : Type 0 where
  pub out : List ℤ
  pub returned : result ≡ some out
  pub heap : IsHeapFrom k out
  pub same : SameItems out nums
  pub size : length out ≡ length nums
  pub first : at out 0 ≡ at nums 0
  pub bound : (v : ℤ) → IsBelow v nums → IsBelow v out

swapped-IsBelow :
    (nums : List ℤ) (i m : ℕ) (v : ℤ)
    → 0 < i
    → 0 < m
    → i < length nums
    → m < length nums
    → IsBelow v nums
    → IsBelow v (swapped nums i m)
swapped-IsBelow nums i m v p q inside inside' h j pj qj = ground (
  arith,
  at-swapped nums i m inside inside' j,
  h i p inside,
  h m q inside',
  h j pj (omega (arith, length-swapped nums i m)),
)

neq : (i m : ℕ) → m ≢ i → (i == m) ≡ false
neq i m ne = ground arith

-- `MaxHeapFix` of a node whose order is broken only there returns an array in order.
pub max_heap_fix-Fixed :
    (k fuel : ℕ) (nums : List ℤ) (i : ℕ)
    → 0 < i
    → k ≤ i
    → i ≤ length nums
    → length nums < fuel + i
    → IsHeapBut k i nums
    → Fixed k nums (max_heap_fix fuel nums i)
unfolding max_heap_fix
max_heap_fix-Fixed k zero nums i p low s f b = absurd (omega arith)
max_heap_fix-Fixed k (suc fuel) nums i p low s f b = elim (Bool-cases (ltb (length nums / 2) i)) [
  | inl leaf ↦ record {
    out = nums;
    returned = rw leaf refl;
    heap = leaf_lem k i nums b leaf;
    same = λ a. refl;
    size = refl;
    first = refl;
    bound = λ v h. h;
  }
  | inr inner ↦
      let inside : i < length nums = ground arith in
      let (a, m, ra, rm, l) = largest_lem nums i inside in
      elim (ℕ_discrete m i) [
        | yes e ↦ record {
          out = nums;
          returned = rw inner (rw (ra, ◌>>=◌) (rw (rm, ◌>>=◌) (ground arith)));
          heap = settled k i m nums b l e;
          same = λ a. refl;
          size = refl;
          first = refl;
          bound = λ v h. h;
        }
        | no ne ↦
            let lt = deeper k i m nums p low b l inside ne in
            let size = length-swapped nums i m in
            let rest =
              max_heap_fix-Fixed k fuel (swapped nums i m) m (omega arith) (omega arith)
                (omega (arith, l.inside, size)) (omega (arith, size))
                (sunk k i m nums p low b l inside ne) in
            record {
              out = rest.out;
              returned = rw inner (
                  rw (ra, ◌>>=◌)
                    (rw (rm, ◌>>=◌)
                      (rw (neq i m ne)
                        (rw (swap-swapped nums i m inside l.inside, ◌>>=◌) rest.returned))));
              heap = rest.heap;
              same = λ a. rest.same a ∙ swapped-SameItems nums i m inside l.inside a;
              size = rest.size ∙ size;
              first = rest.first ∙ ground (arith, at-swapped nums i m inside l.inside 0);
              bound = λ v h.
                  rest.bound v (swapped-IsBelow nums i m v p (omega arith) inside l.inside h);
            }
      ]
]

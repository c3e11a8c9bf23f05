-- ===== src/MaxHeap/Insert.antt =====
-- `Insert` of `MaxHeap`.
use demo_code.Prelude.{
  ℕ, zero, suc, ◌+◌, ◌-◌, ◌*◌, ◌/◌, ◌≤◌, ◌<◌, ltb, ◌==◌, ℤ, ◌≤ℤ◌, ◌<ℤ◌, ltb_ℤ, if◌then◌else◌, List,
  [], ◌∷◌, ◌++◌, length, length-append, Option, some, ◌>>=◌, ◌≡◌, refl, ap, ◌∙◌, arith, ◌⊎◌, inl,
  inr, false, Bool-cases, ℕ_discrete, ltb→lt, ltb-false,
}
use demo_code.Prelude.Arrays.{
  at, get_elem?-at, swapped, swap-swapped, at-swapped, length-swapped, swapped-SameItems,
}
use demo_code.Prelude.Counts.{same_ℤ, count, count-append, count-cons, count-nil}
use demo_code.MaxHeap.{insert, insert_fix, climb}
use demo_code.Sort.Heap.Order.{IsHeapFrom, at-le_parent}

-- The items up to place `k` are not larger than their parents.
abbrev IsRising : List ℤ → ℕ → Type 0
IsRising xs k = (j : ℕ) → 1 < j → j ≤ k → at xs j ≤ℤ at xs (j / 2)

-- Where the loop of `InsertFix` stops, from `i`.
record Climbed (xs : List ℤ) (tmp : ℤ) (i : ℕ) (result : Option ℕ) : Type 0 where
  place : ℕ
  returned : result ≡ some place
  positive : 0 < place
  high : place ≤ i
  kept : 1 < i → tmp ≤ℤ at xs (i / 2) → place ≡ i
  higher : 1 < i → at xs (i / 2) <ℤ tmp → place ≤ i / 2
  stops : 1 < i → at xs (i / 2) <ℤ tmp → (1 < i / 2 → tmp ≤ℤ at xs (i / 2 / 2)) → place ≡ i / 2
  above : IsRising xs i → at xs i ≤ℤ at xs place
  raised : 1 < i → at xs (i / 2) <ℤ tmp → IsRising xs (i / 2) → at xs (i / 2) ≤ℤ at xs place
  twice :
      1 < i / 2
      → at xs (i / 2) <ℤ tmp
      → at xs (i / 2 / 2) <ℤ tmp
      → IsRising xs (i / 2 / 2)
      → (place ≤ i / 2 / 2) × (at xs (i / 2 / 2) ≤ℤ at xs place)

climb-Climbed :
    (fuel : ℕ) (xs : List ℤ) (tmp : ℤ) (i : ℕ)
    → 0 < i
    → i < length xs
    → i < fuel
    → Climbed xs tmp i (climb fuel xs tmp i)
unfolding climb
climb-Climbed zero xs tmp i p q f = absurd (omega arith)
climb-Climbed (suc fuel) xs tmp i p q f = elim (Bool-cases (ltb 1 i)) [
  | inr low ↦ record {
    place = i;
    returned = rw low refl;
    positive = p;
    high = omega arith;
    kept = λ a b. refl;
    higher = λ a. absurd (ground arith);
    stops = λ a. absurd (ground arith);
    above = λ h. omega arith;
    raised = λ a. absurd (ground arith);
    twice = λ a. absurd (ground arith);
  }
  | inl more ↦
      let lt : 1 < i = ground arith in
      elim (Bool-cases (ltb_ℤ (at xs (i / 2)) tmp)) [
        | inr stop ↦ record {
          place = i;
          returned = rw more (rw (get_elem?-at xs (i / 2) (omega arith), ◌>>=◌) (rw stop refl));
          positive = p;
          high = omega arith;
          kept = λ a b. refl;
          higher = λ a b. absurd (ground arith);
          stops = λ a b. absurd (ground arith);
          raised = λ a b. absurd (ground arith);
          twice = λ a b. absurd (ground arith);
          above = λ h. omega arith;
        }
        | inl up ↦
            let rest =
              climb-Climbed fuel xs tmp (i / 2) (omega arith) (omega arith) (omega arith) in
            record {
              place = rest.place;
              returned =
                  rw more (rw (get_elem?-at xs (i / 2) (omega arith), ◌>>=◌) (rw up rest.returned));
              positive = rest.positive;
              high = omega (arith, rest.high);
              kept = λ a b. absurd (ground arith);
              higher = λ a b. rest.high;
              stops = λ a b c. elim (Bool-cases (ltb 1 (i / 2))) [
                | inl l ↦ rest.kept (ltb→lt 1 (i / 2) l) (c (ltb→lt 1 (i / 2) l))
                | inr l ↦ ground (arith, rest.high, rest.positive)
              ];
              above = λ h.
                  omega (arith, rest.above (λ j a b. h j a (omega arith)), h i lt (omega arith));
              raised = λ a b h. rest.above h;
              twice = λ a b c h. (rest.higher a c, rest.raised a c h);
            }
      ]
]

at-append_left : (xs : List ℤ) (v : ℤ) (j : ℕ) → j < length xs → at (xs ++ v ∷ []) j ≡ at xs j
at-append_left [] v j h = absurd (omega arith)
at-append_left (x ∷ xs) v zero h = refl
at-append_left (x ∷ xs) v (suc j) h = at-append_left xs v j (omega arith)

at-append_last : (xs : List ℤ) (v : ℤ) → at (xs ++ v ∷ []) (length xs) ≡ v
at-append_last [] v = refl
at-append_last (x ∷ xs) v = at-append_last xs v

length-append_one : (xs : List ℤ) (v : ℤ) → length (xs ++ v ∷ []) ≡ suc (length xs)
length-append_one xs v = omega (arith, length-append xs (v ∷ []))

half : (c j : ℕ) → (c ≡ 2 * j) ⊎ (c ≡ 2 * j + 1) → c / 2 ≡ j
half c j e = omega arith

-- `Insert` exchanges the new item with that at the place `t` where the loop stops.
module _ (xs : List ℤ) (v : ℤ) (full : 1 < length xs) where
  abbrev longer : List ℤ
  longer = xs ++ v ∷ []

  climbed : Climbed longer v (length xs) (climb (suc (length xs)) longer v (length xs))
  climbed =
      climb-Climbed (suc (length xs)) longer v (length xs) (omega arith)
        (omega (arith, length-append_one xs v)) (omega arith)

  insert_step : insert xs v ≡ some (swapped longer (length xs) climbed.place)
  unfolding insert insert_fix
  insert_step =
      let size = length-append_one xs v in
      let more : ltb (length longer) 3 ≡ false =
        ltb-false (length longer) 3 (omega (arith, size)) in
      let last : length longer - 1 ≡ length xs = omega (arith, size) in
      rw more (
        rw last (
          rw (get_elem?-at longer (length xs) (omega (arith, size)), ◌>>=◌)
            (rw size (
              rw (at-append_last xs v) (
                rw (climbed.returned, ◌>>=◌)
                  (swap-swapped longer (length xs) climbed.place (omega (arith, size))
                    (omega (arith, size, climbed.high))))))))

  abbrev inserted : List ℤ
  inserted = swapped longer (length xs) climbed.place

  length-inserted : length inserted ≡ suc (length xs)
  length-inserted = length-swapped longer (length xs) climbed.place ∙ length-append_one xs v

  at-inserted :
      (j : ℕ)
      → at inserted j ≡ (
          if climbed.place == j
          then v
          else if length xs == j
          then at longer climbed.place
          else at longer j)
  at-inserted j =
      at-swapped longer (length xs) climbed.place (omega (arith, length-append_one xs v))
        (omega (arith, length-append_one xs v, climbed.high)) j
      ∙ rw (at-append_last xs v) refl

  count-inserted : (a : ℤ) → count a inserted ≡ count a xs + same_ℤ a v
  count-inserted a =
      swapped-SameItems longer (length xs) climbed.place (omega (arith, length-append_one xs v))
        (omega (arith, length-append_one xs v, climbed.high)) a
      ∙ omega (arith, count-append a xs (v ∷ []), count-cons a v [], count-nil a)

  -- A place below the new one.
  module _ (heap : IsHeapFrom 1 xs)
      (one_level : 1 < length xs / 2 → v ≤ℤ at xs (length xs / 2 / 2)) where
    stays : v ≤ℤ at xs (length xs / 2) → climbed.place ≡ length xs
    stays h = climbed.kept full (rw (at-append_left xs v (length xs / 2) (omega arith)) h)

    rises : at xs (length xs / 2) <ℤ v → climbed.place ≡ length xs / 2
    rises h =
        climbed.stops full (rw (at-append_left xs v (length xs / 2) (omega arith)) h)
          (λ k. rw (at-append_left xs v (length xs / 2 / 2) (omega arith)) (one_level k))

    inserted_child : (c : ℕ) → 1 < c → c < suc (length xs) → at inserted c ≤ℤ at inserted (c / 2)
    inserted_child c p q =
        let parent : at longer (c / 2) ≡ at xs (c / 2) =
          at-append_left xs v (c / 2) (omega arith) in
        elim (ℕ_discrete (length xs) c) [
          | yes e ↦
              let same : at xs (length xs / 2) ≡ at xs (c / 2) = ap (λ k. at xs (k / 2)) e in
              ground (
                arith,
                at-inserted c,
                at-inserted (c / 2),
                parent,
                same,
                ap (λ k. k / 2) e,
                stays,
                rises,
              )
          | no ne ↦
              let old = at-le_parent xs c (heap (c / 2) (omega arith)) (omega arith) in
              let child = at-append_left xs v c (omega arith) in
              ground (
                arith,
                at-inserted c,
                at-inserted (c / 2),
                parent,
                child,
                stays,
                rises,
                one_level,
                λ (e : length xs / 2 ≡ c). ap (λ k. at xs (k / 2)) e,
                λ (e : length xs / 2 ≡ c / 2). ap (λ k. at xs k) e,
              )
        ]

    inserted-IsHeapFrom : IsHeapFrom 1 inserted
    inserted-IsHeapFrom j p = (
      λ q.
          rw (half (2 * j) j (inl refl)) at
            (inserted_child (2 * j) (omega arith) (omega (arith, length-inserted))),
      λ q.
          rw (half (2 * j + 1) j (inr refl)) at
            (inserted_child (2 * j + 1) (omega arith) (omega (arith, length-inserted))),
    )

-- What `Insert` returns.
pub record Inserted (xs : List ℤ) (v : ℤ) (result : Option (List ℤ)) : Type 0 where
  pub out : List ℤ
  pub returned : result ≡ some out
  pub size : length out ≡ length xs + 1
  pub same : (a : ℤ) → count a out ≡ count a xs + same_ℤ a v
  pub heap :
      IsHeapFrom 1 xs → (1 < length xs / 2 → v ≤ℤ at xs (length xs / 2 / 2)) → IsHeapFrom 1 out

-- `Insert` returns with the new item added and no other change of the items. The result is a heap
-- where the heap before was one and the new item is not larger than the parent of its parent.
pub insert-Inserted : (xs : List ℤ) (v : ℤ) → 0 < length xs → Inserted xs v (insert xs v)
unfolding insert insert_fix
insert-Inserted [] v h = absurd (omega arith)
insert-Inserted (x ∷ []) v h = record {
  out = x ∷ v ∷ [];
  returned = refl;
  size = refl;
  same = λ a. omega (arith, count-append a (x ∷ []) (v ∷ []), count-cons a v [], count-nil a);
  heap = λ k o j p. (λ q. absurd (omega arith), λ q. absurd (omega arith));
}
insert-Inserted (x ∷ y ∷ xs) v h =
    let full : 1 < length (x ∷ y ∷ xs) = omega arith in
    record {
      out = inserted (x ∷ y ∷ xs) v full;
      returned = insert_step (x ∷ y ∷ xs) v full;
      size = length-inserted (x ∷ y ∷ xs) v full ∙ omega arith;
      same = count-inserted (x ∷ y ∷ xs) v full;
      heap = λ k o. inserted-IsHeapFrom (x ∷ y ∷ xs) v full k o;
    }

-- `Insert` of an item that is larger than the parent of its parent, where that is larger than the
-- parent: the parent stays, and what stood above it goes below it, so the result is no heap.
pub insert-not-IsHeapFrom :
    (xs : List ℤ) (v : ℤ)
    → 4 ≤ length xs
    → IsHeapFrom 1 xs
    → at xs (length xs / 2) <ℤ at xs (length xs / 2 / 2)
    → at xs (length xs / 2 / 2) <ℤ v
    → (out : List ℤ) × (insert xs v ≡ some out) × ¬ IsHeapFrom 1 out
insert-not-IsHeapFrom xs v p heap lt gt =
    let full : 1 < length xs = omega arith in
    let n = length xs in
    let left = λ (j : ℕ) (h : j < length xs). at-append_left xs v j h in
    let parent : at (longer xs v full) (n / 2) ≡ at xs (n / 2) = left (n / 2) (omega arith) in
    let grand : at (longer xs v full) (n / 2 / 2) ≡ at xs (n / 2 / 2) =
      left (n / 2 / 2) (omega arith) in
    let rising : IsRising (longer xs v full) (n / 2 / 2) = λ j a b.
      rw (left j (omega arith), left (j / 2) (omega arith))
        (at-le_parent xs j (heap (j / 2) (omega arith)) (omega arith)) in
    let far =
      (climbed xs v full).twice (omega arith) (rw parent (omega arith)) (rw grand gt) rising in
    (
      inserted xs v full,
      insert_step xs v full,
      λ broken. absurd (
          ground (
            arith,
            far.0,
            far.1,
            parent,
            grand,
            at-inserted xs v full n,
            at-inserted xs v full (n / 2),
            at-le_parent (inserted xs v full) n (broken (n / 2) (omega arith))
                (omega (arith, length-inserted xs v full)),
          )),
    )

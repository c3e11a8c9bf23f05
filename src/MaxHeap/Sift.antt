-- ===== src/MaxHeap/Sift.antt =====
-- The loop of `DeleteFix`, seen on the array in which `tmp` stands at `i`: a round exchanges `tmp`
-- with its larger child.
use demo_code.Prelude.{
  ℕ, zero, suc, ◌+◌, ◌*◌, ◌<◌, ltb, ℤ, ◌≤ℤ◌, ltb_ℤ, if◌then◌else◌, ◌||◌, List, [], ◌∷◌, set?, set,
  length, length-set, Option, some, ◌>>=◌, ◌≢◌, ◌≡◌, refl, ap, sym, ◌∙◌, arith, ◌⊎◌, inl, inr,
  Bool-cases, ltb→lt,
}
use demo_code.Prelude.Arrays.{
  at, get_elem?-at, set?-set, at-set, swapped, at-swapped, length-swapped, swapped-SameItems,
}
use demo_code.Prelude.Counts.{count, SameItems}
use demo_code.MaxHeap.{sift}
use demo_code.Sort.Heap.Order.{IsHeapFrom, IsHeapBut}
use demo_code.Sort.Heap.Largest.{Largest}
use demo_code.Sort.Heap.Fix.{settled, sunk}

set-set : (xs : List ℤ) (i : ℕ) (v w : ℤ) → set (set xs i v) i w ≡ set xs i w
set-set [] i v w = refl
set-set (x ∷ xs) zero v w = refl
set-set (x ∷ xs) (suc i) v w = ap (λ ys. x ∷ ys) (set-set xs i v w)

-- The array after a round, seen so.
moved-swapped :
    (xs : List ℤ) (tmp : ℤ) (i m : ℕ)
    → i < length xs
    → m ≢ i
    → set (set xs i (at xs m)) m tmp ≡ swapped (set xs i tmp) i m
unfolding swapped
moved-swapped xs tmp i m p ne =
    let here : at (set xs i tmp) i ≡ tmp = at-set xs i i tmp p ∙ ground arith in
    let there : at (set xs i tmp) m ≡ at xs m = at-set xs i m tmp p ∙ ground arith in
    rw (here, there, set-set xs i tmp (at xs m)) refl

-- What the loop returns.
pub record Sifted (i : ℕ) (seen : List ℤ) (result : Option (List ℤ)) : Type 0 where
  pub out : List ℤ
  pub returned : result ≡ some out
  pub same : SameItems out seen
  pub size : length out ≡ length seen
  pub first : at out 0 ≡ at seen 0
  pub heap : (h : ℕ) → length seen ≡ 2 * h → IsHeapBut 1 i seen → IsHeapFrom 1 out

-- The loop stops at `i`.
stopped :
    (xs : List ℤ) (tmp : ℤ) (i : ℕ)
    → i < length xs
    → ((h : ℕ) → length xs ≡ 2 * h → Largest (set xs i tmp) i i)
    → Sifted i (set xs i tmp) (if ltb i (length xs) then set? xs i tmp else some xs)
stopped xs tmp i p l = record {
  out = set xs i tmp;
  returned = ground (arith, set?-set xs i tmp p);
  same = λ a. refl;
  size = refl;
  first = refl;
  heap = λ h e b. settled 1 i i (set xs i tmp) b (l h (sym (length-set xs i tmp) ∙ e)) refl;
}

-- A round: `m` is the larger child.
round :
    (xs : List ℤ) (tmp : ℤ) (i m : ℕ) (result : Option (List ℤ))
    → 0 < i
    → i < length xs
    → m ≢ i
    → Largest (set xs i tmp) i m
    → Sifted m (set (set xs i (at xs m)) m tmp) result
    → Sifted i (set xs i tmp) result
round xs tmp i m result pos p ne l s =
    let inside : i < length (set xs i tmp) = omega (arith, length-set xs i tmp) in
    let positive : 0 < m = ground (arith, l.either) in
    let e = moved-swapped xs tmp i m p ne in
    let size = ap (λ ys. length ys) e ∙ length-swapped (set xs i tmp) i m in
    record {
      out = s.out;
      returned = s.returned;
      same = λ a.
          s.same a
          ∙ ap (λ ys. count a ys) e
          ∙ swapped-SameItems (set xs i tmp) i m inside l.inside a;
      size = s.size ∙ size;
      first =
          s.first
          ∙ ap (λ ys. at ys 0) e
          ∙ at-swapped (set xs i tmp) i m inside l.inside 0
          ∙ ground arith;
      heap = λ h k b. s.heap h (size ∙ k) (rw e (sunk 1 i m (set xs i tmp) pos pos b l inside ne));
    }

-- What the loop compares is what `tmp` at `i` is compared with.
module _ (xs : List ℤ) (tmp : ℤ) (i m : ℕ) (pos : 0 < i) (p : i < length xs) where
  choice :
      m < length xs
      → (m ≡ i) ⊎ (m ≡ 2 * i) ⊎ (m ≡ 2 * i + 1)
      → tmp ≤ℤ at (set xs i tmp) m
      → (2 * i < length xs → at xs (2 * i) ≤ℤ at (set xs i tmp) m)
      → (2 * i + 1 < length xs → at xs (2 * i + 1) ≤ℤ at (set xs i tmp) m)
      → Largest (set xs i tmp) i m
  choice q e t l r = record {
    inside = omega (arith, length-set xs i tmp);
    either = e;
    above = rw (at-set xs i i tmp p) (ground arith);
    left = λ h.
        rw (at-set xs i (2 * i) tmp p) (ground (arith, l (omega (arith, length-set xs i tmp))));
    right = λ h.
        rw (at-set xs i (2 * i + 1) tmp p) (ground (arith, r (omega (arith, length-set xs i tmp))));
  }

module _ (xs : List ℤ) (tmp : ℤ) (i : ℕ) (pos : 0 < i) (p : i < length xs) where
  at-seen : at (set xs i tmp) i ≡ tmp
  at-seen = at-set xs i i tmp p ∙ ground arith

  -- The loop stops where no child is larger, a left child without a right one aside.
  settles :
      (2 * i < length xs → length xs ≢ 2 * i + 1 → at xs (2 * i) ≤ℤ tmp)
      → (2 * i + 1 < length xs → at xs (2 * i + 1) ≤ℤ tmp)
      → Sifted i (set xs i tmp) (if ltb i (length xs) then set? xs i tmp else some xs)
  settles l r = stopped xs tmp i p λ h e.
      choice xs tmp i i pos p p (inl refl) (rw at-seen (omega arith))
        (λ k. rw at-seen (l k (λ c. absurd (omega arith)))) (λ k. rw at-seen (r k))

  -- The loop goes on at the larger child `c`.
  descends :
      (c : ℕ) (result : Option (List ℤ))
      → (c ≡ 2 * i) ⊎ (c ≡ 2 * i + 1)
      → c < length xs
      → tmp ≤ℤ at xs c
      → at xs (2 * i) ≤ℤ at xs c
      → (2 * i + 1 < length xs → at xs (2 * i + 1) ≤ℤ at xs c)
      → Sifted c (set (set xs i (at xs c)) c tmp) result
      → Sifted i (set xs i tmp) result
  descends c result e q t l r s =
      let ne : c ≢ i =
        λ k. elim e [ inl d ↦ absurd (omega arith) | inr d ↦ absurd (omega arith) ] in
      let there : at (set xs i tmp) c ≡ at xs c = at-set xs i c tmp p ∙ ground (arith, ne) in
      round xs tmp i c result pos p ne
        (choice xs tmp i c pos p q (inr e) (rw there t) (λ k. rw there l) (λ k. rw there (r k))) s

-- The loop on an array with `i` inside: it returns, with the same items, and a heap if the number
-- of items is odd, so that no left child stands alone.
pub sift-Sifted :
    (fuel : ℕ) (xs : List ℤ) (tmp : ℤ) (i : ℕ)
    → 0 < i
    → i < length xs
    → length xs < fuel + i
    → Sifted i (set xs i tmp) (sift fuel xs tmp i)
unfolding sift
sift-Sifted zero xs tmp i pos p f = absurd (omega arith)
sift-Sifted (suc fuel) xs tmp i pos p f =
    let left = at xs (2 * i) in
    let right = at xs (2 * i + 1) in
    elim (Bool-cases (ltb (2 * i + 1) (length xs))) [
      | inr few ↦
          rw few
            (settles xs tmp i pos p (λ k n. absurd (ground arith)) (λ k. absurd (ground arith)))
      | inl more ↦
          let inside : 2 * i + 1 < length xs = ltb→lt (2 * i + 1) (length xs) more in
          let size = λ (v : ℤ). length-set xs i v in
          rw more (
            rw (get_elem?-at xs (2 * i) (omega arith), ◌>>=◌)
              (rw (get_elem?-at xs (2 * i + 1) inside, ◌>>=◌)
                (elim (Bool-cases (ltb_ℤ tmp left || ltb_ℤ tmp right)) [
                  | inr done ↦
                      rw done (settles xs tmp i pos p (λ k n. ground arith) (λ k. ground arith))
                  | inl sink ↦ elim (Bool-cases (ltb_ℤ left right)) [
                    | inl lt ↦ rw sink (
                        rw lt (
                          rw (set?-set xs i right p, ◌>>=◌)
                            (descends xs tmp i pos p (2 * i + 1)
                              (sift fuel (set xs i right) tmp (2 * i + 1)) (inr refl) inside
                              (ground arith) (ground arith) (λ k. omega arith)
                              (sift-Sifted fuel (set xs i right) tmp (2 * i + 1) (omega arith)
                                (omega (arith, size right)) (omega (arith, size right))))))
                    | inr ge ↦ rw sink (
                        rw ge (
                          rw (set?-set xs i left p, ◌>>=◌)
                            (descends xs tmp i pos p (2 * i) (sift fuel (set xs i left) tmp (2 * i))
                              (inl refl) (omega arith) (ground arith) (omega arith)
                              (λ k. ground arith)
                              (sift-Sifted fuel (set xs i left) tmp (2 * i) (omega arith)
                                (omega (arith, size left)) (omega (arith, size left))))))
                  ]
                ])))
    ]

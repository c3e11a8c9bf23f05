-- ===== src/Sort/Heap/Largest.antt =====
-- The choice that `MaxHeapFix` makes among a node and its children.
use demo_code.Prelude.{
  ℕ, ◌+◌, ◌*◌, ◌<◌, ltb, ℤ, ◌≤ℤ◌, ltb_ℤ, List, length, some, ◌>>=◌, ◌≡◌, refl, arith, ◌⊎◌, inl, inr,
  Bool-cases, ltb→lt,
}
use demo_code.Prelude.Arrays.{at, get_elem?-at}
use demo_code.Sort.Heap.{larger}

record Larger (nums : List ℤ) (c l : ℕ) : Type 0 where
  place : ℕ
  returned : larger nums c l ≡ some place
  inside : place < length nums
  either : (place ≡ c) ⊎ (place ≡ l)
  above : at nums l ≤ℤ at nums place
  best : c < length nums → at nums c ≤ℤ at nums place

larger_lem : (nums : List ℤ) (c l : ℕ) → l < length nums → Larger nums c l
unfolding larger
larger_lem nums c l h = elim (Bool-cases (ltb c (length nums))) [
  | inl p ↦
      let q = ltb→lt c (length nums) p in
      elim (Bool-cases (ltb_ℤ (at nums l) (at nums c))) [
        | inl r ↦ record {
          place = c;
          returned =
              rw p
                (rw (get_elem?-at nums c q, ◌>>=◌) (rw (get_elem?-at nums l h, ◌>>=◌) (rw r refl)));
          inside = q;
          either = inl refl;
          above = ground arith;
          best = λ k. omega arith;
        }
        | inr r ↦ record {
          place = l;
          returned =
              rw p
                (rw (get_elem?-at nums c q, ◌>>=◌) (rw (get_elem?-at nums l h, ◌>>=◌) (rw r refl)));
          inside = h;
          either = inr refl;
          above = omega arith;
          best = λ k. ground arith;
        }
      ]
  | inr p ↦ record {
    place = l;
    returned = rw p refl;
    inside = h;
    either = inr refl;
    above = omega arith;
    best = λ k. ground arith;
  }
]

-- The place of the largest of a node and its children.
pub record Largest (nums : List ℤ) (i m : ℕ) : Type 0 where
  pub inside : m < length nums
  pub either : (m ≡ i) ⊎ (m ≡ 2 * i) ⊎ (m ≡ 2 * i + 1)
  pub above : at nums i ≤ℤ at nums m
  pub left : 2 * i < length nums → at nums (2 * i) ≤ℤ at nums m
  pub right : 2 * i + 1 < length nums → at nums (2 * i + 1) ≤ℤ at nums m

pub largest_lem :
    (nums : List ℤ) (i : ℕ)
    → i < length nums
    → (a : ℕ) × (m : ℕ) × (larger nums (2 * i) i ≡ some a)
      × (larger nums (2 * i + 1) a ≡ some m)
      × Largest nums i m
largest_lem nums i h =
    let x = larger_lem nums (2 * i) i h in
    let y = larger_lem nums (2 * i + 1) x.place x.inside in
    (
      x.place,
      y.place,
      x.returned,
      y.returned,
      record {
        inside = y.inside;
        either = ground (arith, x.either, y.either);
        above = omega (arith, x.above, y.above);
        left = λ q. omega (arith, x.best q, y.above);
        right = y.best;
      },
    )

-- ===== src/Sort/Merge/Laws.antt =====
-- algorithm_about/sort_about/merge_sort.cpp: the result is in order and holds the items of the input.
use demo_code.Prelude.{
  ℕ, zero, suc, ◌+◌, ◌/◌, ◌≤◌, ◌<◌, ltb, ℤ, ltb_ℤ, ◌≤ℤ◌, List, [], ◌∷◌, length, take, drop, some,
  ◌≡◌, refl, ap, ◌∙◌, arith, length-take, length-drop, take-append-drop, Bool-cases, inl, inr,
  ltb→lt,
}
use demo_code.Prelude.Sorted.{All, All-imp}
use demo_code.Prelude.Counts.{IsOrdered, SameItems, count, count-append}
use demo_code.Sort.Merge.{merge, merge_all, sort_range, merge_sort}

All-merge : (P : ℤ → Type 0) (n : ℕ) (xs ys : List ℤ) → All P xs → All P ys → All P (merge n xs ys)
unfolding merge
All-merge P zero xs ys p q = tt
All-merge P (suc n) [] ys p q = q
All-merge P (suc n) (x ∷ xs) [] p q = p
All-merge P (suc n) (x ∷ xs) (y ∷ ys) p q =
    ground (arith, All-merge P n xs (y ∷ ys) p.1 q, All-merge P n (x ∷ xs) ys p q.1)

merge-IsOrdered : (n : ℕ) (xs ys : List ℤ) → IsOrdered xs → IsOrdered ys → IsOrdered (merge n xs ys)
unfolding merge
merge-IsOrdered zero xs ys p q = tt
merge-IsOrdered (suc n) [] ys p q = q
merge-IsOrdered (suc n) (x ∷ xs) [] p q = p
merge-IsOrdered (suc n) (x ∷ xs) (y ∷ ys) p q = elim (Bool-cases (ltb_ℤ x y)) [
  | inl lt ↦
      let le : x ≤ℤ y = ground arith in
      let rest : All (λ z. x ≤ℤ z) ys = All-imp {P = λ z. y ≤ℤ z} (λ z h. omega arith) ys q.0 in
      rw lt
        (All-merge (λ z. x ≤ℤ z) n xs (y ∷ ys) p.0 (le, rest), merge-IsOrdered n xs (y ∷ ys) p.1 q)
  | inr ge ↦
      let le : y ≤ℤ x = ground arith in
      let rest : All (λ z. y ≤ℤ z) xs = All-imp {P = λ z. x ≤ℤ z} (λ z h. omega arith) xs p.0 in
      rw ge
        (All-merge (λ z. y ≤ℤ z) n (x ∷ xs) ys (le, rest) q.0, merge-IsOrdered n (x ∷ xs) ys p q.1)
]

count-merge :
    (a : ℤ) (n : ℕ) (xs ys : List ℤ)
    → length xs + length ys ≤ n
    → count a (merge n xs ys) ≡ count a xs + count a ys
unfolding merge count
count-merge a zero [] [] h = omega arith
count-merge a zero [] (y ∷ ys) h = absurd (omega arith)
count-merge a zero (x ∷ xs) ys h = absurd (omega arith)
count-merge a (suc n) [] ys h = omega arith
count-merge a (suc n) (x ∷ xs) [] h = omega arith
count-merge a (suc n) (x ∷ xs) (y ∷ ys) h = elim (Bool-cases (ltb_ℤ x y)) [
  | inl lt ↦ rw lt (omega (arith, count-merge a n xs (y ∷ ys) (omega arith)))
  | inr ge ↦ rw ge (omega (arith, count-merge a n (x ∷ xs) ys (omega arith)))
]

short-IsOrdered : (xs : List ℤ) → length xs ≤ 1 → IsOrdered xs
short-IsOrdered [] h = tt
short-IsOrdered (x ∷ []) h = (tt, tt)
short-IsOrdered (x ∷ y ∷ xs) h = absurd (omega arith)

sort_range_lem :
    (fuel : ℕ) (nums : List ℤ)
    → length nums < fuel
    → (out : List ℤ) × (sort_range fuel nums ≡ some out) × IsOrdered out × SameItems out nums
unfolding sort_range merge_all
sort_range_lem zero nums h = absurd (omega arith)
sort_range_lem (suc fuel) nums h = elim (Bool-cases (ltb 1 (length nums))) [
  | inl long ↦
      let two = ltb→lt 1 (length nums) long in
      let m = (length nums + 1) / 2 in
      let (left, e, p, same) =
        sort_range_lem fuel (take m nums) (omega (arith, length-take m nums)) in
      let (right, f, q, same') =
        sort_range_lem fuel (drop m nums) (omega (arith, length-drop m nums)) in
      (
        merge_all left right,
        rw (long, e, f),
        merge-IsOrdered (length left + length right) left right p q,
        λ a.
            count-merge a (length left + length right) left right (omega arith)
            ∙ omega (arith, same a, same' a, count-append a (take m nums) (drop m nums))
            ∙ ap (count a) (take-append-drop m nums),
      )
  | inr short ↦ (nums, rw short, short-IsOrdered nums (ground arith), λ a. refl)
]

-- `MergeSort` of a whole array returns the same items, each as often, in ascending order.
pub merge_sort-sorts :
    (nums : List ℤ)
    → (out : List ℤ) × (merge_sort nums ≡ some out) × IsOrdered out × SameItems out nums
unfolding merge_sort
merge_sort-sorts nums = sort_range_lem (suc (length nums)) nums (omega arith)

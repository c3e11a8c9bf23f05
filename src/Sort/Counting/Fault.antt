-- ===== src/Sort/Counting/Fault.antt =====
-- algorithm_about/sort_about/counting_sort.cpp: `CountingSort` writes past the end of `tmpVec`.
use mathlib.Core.List.{reverse, reverse-append, reverse-cons, append_assoc}
use demo_code.Prelude.{
  ℕ, zero, suc, ◌+◌, ◌-◌, ◌≤◌, ◌<◌, List, [], ◌∷◌, ◌++◌, get_elem?, set?, length, replicate, none,
  some, ◌>>=◌, ◌≡◌, ◌≢◌, refl, sym, ap, ◌∙◌, arith, Option-cases, inl, inr, length-replicate,
  ltb-false, ℕ_discrete,
}
use demo_code.Prelude.Sorted.{All}
use demo_code.Sort.Counting.{count_items, prefix_sums, place, counting_sort, max_number}

-- The sum of the first `n` counters.
abbrev sum_upto : ℕ → List ℕ → ℕ
sum_upto zero cs = 0
sum_upto (suc n) [] = 0
sum_upto (suc n) (c ∷ cs) = c + sum_upto n cs

sum_upto-zeros : (n k : ℕ) → sum_upto n (replicate k 0) ≡ 0
sum_upto-zeros zero k = refl
sum_upto-zeros (suc n) zero = refl
sum_upto-zeros (suc n) (suc k) = omega (arith, sum_upto-zeros n k)

-- A counter that is in range goes up by one.
record Bumped (n x : ℕ) (cs : List ℕ) : Type 0 where
  old : ℕ
  after : List ℕ
  read : get_elem? cs x ≡ some old
  written : set? cs x (old + 1) ≡ some after
  more : sum_upto n after ≡ sum_upto n cs + 1
  same : length after ≡ length cs

bump : (n x : ℕ) (cs : List ℕ) → x < n → x < length cs → Bumped n x cs
bump zero x cs p q = absurd (omega arith)
bump (suc n) x [] p q = absurd (omega arith)
bump (suc n) zero (c ∷ cs) p q = record {
  old = c;
  after = (c + 1) ∷ cs;
  read = refl;
  written = refl;
  more = omega arith;
  same = refl;
}
bump (suc n) (suc x) (c ∷ cs) p q =
    let b = bump n x cs (omega arith) (omega arith) in
    record {
      old = b.old;
      after = c ∷ b.after;
      read = b.read;
      written = rw b.written;
      more = omega (arith, b.more);
      same = ap suc b.same;
    }

-- The counters up to the largest item add up to the number of items.
count_items-sum :
    (m : ℕ) (xs cs : List ℕ)
    → All (λ x. x ≤ m) xs
    → m < length cs
    → (out : List ℕ) × (count_items (λ x. x) xs cs ≡ some out)
      × (sum_upto (suc m) out ≡ sum_upto (suc m) cs + length xs)
      × (length out ≡ length cs)
unfolding count_items
count_items-sum m [] cs h lt = (cs, refl, omega arith, refl)
count_items-sum m (x ∷ xs) cs h lt =
    let b = bump (suc m) x cs (omega arith) (omega arith) in
    let (out, e, total, size) = count_items-sum m xs b.after h.1 (omega (arith, b.same)) in
    (out, rw (b.read, b.written) e, omega (arith, b.more), omega (arith, b.same))

get-prefix_sums :
    (m acc : ℕ) (cs : List ℕ)
    → m < length cs
    → get_elem? (prefix_sums acc cs) m ≡ some (acc + sum_upto (suc m) cs)
unfolding prefix_sums
get-prefix_sums m acc [] h = absurd (omega arith)
get-prefix_sums zero acc (c ∷ cs) h = ground arith
get-prefix_sums (suc m) acc (c ∷ cs) h = ground (arith, get-prefix_sums m (acc + c) cs)

set?-length : (xs : List ℕ) (v : ℕ) → set? xs (length xs) v ≡ none
set?-length [] v = refl
set?-length (x ∷ xs) v = rw (set?-length xs v)

length-set? : (xs : List ℕ) (i v : ℕ) (ys : List ℕ) → set? xs i v ≡ some ys → length ys ≡ length xs
length-set? [] i v ys h = ground arith
length-set? (x ∷ xs) zero v ys h = ground arith
length-set? (x ∷ xs) (suc i) v ys h = elim (Option-cases (set? xs i v)) [
  | inl e ↦ ground arith
  | inr (zs, e) ↦ ground (arith, length-set? xs i v zs e)
]

get-set?_ne :
    (xs : List ℕ) (i j v : ℕ) (ys : List ℕ)
    → i ≢ j
    → set? xs i v ≡ some ys
    → get_elem? ys j ≡ get_elem? xs j
get-set?_ne [] i j v ys n h = ground arith
get-set?_ne (x ∷ xs) zero zero v ys n h = absurd (n refl)
get-set?_ne (x ∷ xs) zero (suc j) v ys n h = ground arith
get-set?_ne (x ∷ xs) (suc i) zero v ys n h = elim (Option-cases (set? xs i v)) [
  | inl e ↦ ground arith
  | inr (zs, e) ↦ ground arith
]
get-set?_ne (x ∷ xs) (suc i) (suc j) v ys n h = elim (Option-cases (set? xs i v)) [
  | inl e ↦ ground arith
  | inr (zs, e) ↦ ground (arith, get-set?_ne xs i j v zs (λ p. n (ap suc p)) e)
]

-- The placing loop stops at the item `m` whose counter is the length of the array: of the items
-- before it none is `m`, or it stops there.
place-none :
    (us vs tmp counts : List ℕ) (m : ℕ)
    → get_elem? counts m ≡ some (length tmp)
    → place (us ++ m ∷ vs) tmp counts ≡ none
unfolding place
place-none [] vs tmp counts m h = rw (h, ◌>>=◌) (rw (set?-length tmp m) refl)
place-none (x ∷ us) vs tmp counts m h = elim (ℕ_discrete x m) [
  | yes e ↦ rw e (rw (h, ◌>>=◌) (rw (set?-length tmp m) refl))
  | no n ↦ elim (Option-cases (get_elem? counts x)) [
    | inl p ↦ ground (arith, p)
    | inr (c, p) ↦ elim (Option-cases (set? tmp c x)) [
      | inl q ↦ ground (arith, p, q)
      | inr (tmp', q) ↦ elim (Option-cases (set? counts x (c - 1))) [
        | inl r ↦ ground (arith, p, q, r)
        | inr (counts', r) ↦
            rw (p, ◌>>=◌)
              (rw (q, ◌>>=◌)
                (rw (r, ◌>>=◌)
                  (place-none us vs tmp' counts' m (
                    get-set?_ne counts x m (c - 1) counts' n r
                    ∙ h
                    ∙ ap some (sym (length-set? tmp c x tmp' q))))))
      ]
    ]
  ]
]

-- `CountingSort` writes outside `tmpVec` on any two or more items of which the largest is below
-- `kMaxNumber`: the place it takes for the first largest item from the back is the count of all the
-- items.
pub counting_sort-faults :
    (us vs : List ℕ) (m : ℕ)
    → 1 < length (us ++ m ∷ vs)
    → All (λ x. x ≤ m) (us ++ m ∷ vs)
    → m < max_number
    → counting_sort (us ++ m ∷ vs) ≡ none
unfolding counting_sort
counting_sort-faults us vs m h all lt =
    let xs : List ℕ = us ++ m ∷ vs in
    let zeros : ℕ → List ℕ = λ k. replicate k 0 in
    let z : length (zeros max_number) ≡ max_number = length-replicate {A = ℕ} max_number 0 in
    let w : length (zeros (length xs)) ≡ length xs = length-replicate {A = ℕ} (length xs) 0 in
    let (cs, e, total, size) = count_items-sum m xs (zeros max_number) all (omega (arith, z)) in
    let at : get_elem? (prefix_sums 0 cs) m ≡ some (length (zeros (length xs))) =
      get-prefix_sums m 0 cs (omega (arith, z, size))
      ∙ ap (λ k. some k) (omega (arith, total, w, sum_upto-zeros (suc m) max_number)) in
    let back : reverse xs ≡ reverse vs ++ m ∷ reverse us =
      reverse-append us (m ∷ vs)
      ∙ rw (reverse-cons m vs) (append_assoc (reverse vs) (m ∷ []) (reverse us)) in
    rw (ltb-false (length xs) 2 h) (
      rw (e, ◌>>=◌)
        (rw back (
          rw (place-none (reverse vs) (reverse us) (zeros (length xs)) (prefix_sums 0 cs) m at)
            refl)))

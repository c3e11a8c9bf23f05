-- ===== src/Subarray/Spec.antt =====
-- algorithm_about/classic_problem/maximum_subarray.cpp: what a largest sum of a non-empty subarray
-- is, and a plain recursion that computes it.
use demo_code.Prelude.{
  ℤ, pos, ltb_ℤ, ◌+ℤ◌, ◌≤ℤ◌, if◌then◌else◌, List, [], ◌∷◌, ◌++◌, ◌≡◌, refl, ap, arith, +ℤ_parts,
  int_laws, eq_of_parts, Bool-cases, inl, inr,
}

unfoldable pub max_ℤ : ℤ → ℤ → ℤ
max_ℤ a b = if ltb_ℤ a b then b else a

abbrev pub sum_ℤ : List ℤ → ℤ
sum_ℤ [] = pos 0
sum_ℤ (x ∷ xs) = x +ℤ sum_ℤ xs

-- The largest sum of a non-empty prefix of `x ∷ xs`, and of a non-empty subarray.
unfoldable pub best_prefix : ℤ → List ℤ → ℤ
best_prefix x [] = x
best_prefix x (y ∷ ys) = max_ℤ x (x +ℤ best_prefix y ys)

unfoldable pub best : ℤ → List ℤ → ℤ
best x [] = x
best x (y ∷ ys) = max_ℤ (best_prefix x (y ∷ ys)) (best y ys)

-- `m` is the sum of a non-empty subarray, and no such sum is larger.
pub record IsMaxSum (xs : List ℤ) (m : ℤ) : Type 0 where
  pub before : List ℤ
  pub first : ℤ
  pub more : List ℤ
  pub after : List ℤ
  pub split : xs ≡ before ++ ((first ∷ more) ++ after)
  pub attained : sum_ℤ (first ∷ more) ≡ m
  pub bound :
      (ps : List ℤ) (y : ℤ) (ys qs : List ℤ) → xs ≡ ps ++ ((y ∷ ys) ++ qs) → sum_ℤ (y ∷ ys) ≤ℤ m

+ℤ-zero : (a : ℤ) → a +ℤ pos 0 ≡ a
+ℤ-zero a = omega int_laws

le-best_prefix : (y : ℤ) (ys qs : List ℤ) → sum_ℤ (y ∷ ys) ≤ℤ best_prefix y (ys ++ qs)
unfolding best_prefix max_ℤ
le-best_prefix y [] [] = omega int_laws
le-best_prefix y [] (q ∷ qs) = ground (arith, +ℤ_parts y (pos 0))
le-best_prefix y (z ∷ zs) qs = ground (
  arith,
  +ℤ_parts y (sum_ℤ (z ∷ zs)),
  +ℤ_parts y (best_prefix z (zs ++ qs)),
  le-best_prefix z zs qs,
)

best_prefix-le-best : (x : ℤ) (xs : List ℤ) → best_prefix x xs ≤ℤ best x xs
unfolding best_prefix best max_ℤ
best_prefix-le-best x [] = omega arith
best_prefix-le-best x (y ∷ ys) = ground arith

cons-injective : {x y : ℤ} {xs ys : List ℤ} → x ∷ xs ≡ y ∷ ys → (x ≡ y) × (xs ≡ ys)
cons-injective h = ground arith

best-bound :
    (x : ℤ) (xs ps : List ℤ) (y : ℤ) (ys qs : List ℤ)
    → x ∷ xs ≡ ps ++ ((y ∷ ys) ++ qs)
    → sum_ℤ (y ∷ ys) ≤ℤ best x xs
unfolding best max_ℤ
best-bound x xs [] y ys qs e =
    let (same, rest) = cons-injective e in
    let prefix : sum_ℤ (y ∷ ys) ≤ℤ best_prefix x xs = rw (same, rest) (le-best_prefix y ys qs) in
    let le = best_prefix-le-best x xs in omega arith
best-bound x [] (p ∷ []) y ys qs e = absurd (cc (cons-injective e).1)
best-bound x [] (p ∷ q ∷ ps) y ys qs e = absurd (cc (cons-injective e).1)
best-bound x (z ∷ zs) (p ∷ ps) y ys qs e =
    let below = best-bound z zs ps y ys qs (cons-injective e).1 in ground arith

best_prefix-attained :
    (x : ℤ) (xs : List ℤ)
    → (more : List ℤ) × (after : List ℤ) × (xs ≡ more ++ after)
      × (sum_ℤ (x ∷ more) ≡ best_prefix x xs)
unfolding best_prefix max_ℤ
best_prefix-attained x [] = ([], [], refl, +ℤ-zero x)
best_prefix-attained x (y ∷ ys) = elim (Bool-cases (ltb_ℤ x (x +ℤ best_prefix y ys))) [
  | inl longer ↦
      let (more, after, split, attained) = best_prefix-attained y ys in
      (y ∷ more, after, ap (λ l. y ∷ l) split, rw (longer, attained))
  | inr shorter ↦ ([], y ∷ ys, refl, rw shorter (+ℤ-zero x))
]

-- The recursion computes a largest sum.
pub best-IsMaxSum : (x : ℤ) (xs : List ℤ) → IsMaxSum (x ∷ xs) (best x xs)
unfolding best best_prefix max_ℤ
best-IsMaxSum x [] = record {
  before = [];
  first = x;
  more = [];
  after = [];
  split = refl;
  attained = +ℤ-zero x;
  bound = λ ps y ys qs e. best-bound x [] ps y ys qs e;
}
best-IsMaxSum x (y ∷ ys) = elim (Bool-cases (ltb_ℤ (best_prefix x (y ∷ ys)) (best y ys))) [
  | inl later ↦
      let ih = best-IsMaxSum y ys in
      record {
        before = x ∷ ih.before;
        first = ih.first;
        more = ih.more;
        after = ih.after;
        split = ap (λ l. x ∷ l) ih.split;
        attained = rw later ih.attained;
        bound = λ ps z zs qs e. best-bound x (y ∷ ys) ps z zs qs e;
      }
  | inr here ↦
      let (more, after, split, attained) = best_prefix-attained x (y ∷ ys) in
      record {
        before = [];
        first = x;
        more = more;
        after = after;
        split = ap (λ l. x ∷ l) split;
        attained = rw here attained;
        bound = λ ps z zs qs e. best-bound x (y ∷ ys) ps z zs qs e;
      }
]

-- The largest sum is one number.
pub IsMaxSum-unique : {xs : List ℤ} {m n : ℤ} → IsMaxSum xs m → IsMaxSum xs n → m ≡ n
IsMaxSum-unique {m} {n} p q =
    let a : m ≤ℤ n = rw p.attained at (q.bound p.before p.first p.more p.after p.split) in
    let b : n ≤ℤ m = rw q.attained at (p.bound q.before q.first q.more q.after q.split) in
    eq_of_parts m n (omega arith)

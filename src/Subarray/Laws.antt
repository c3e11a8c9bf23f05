-- ===== src/Subarray/Laws.antt =====
-- algorithm_about/classic_problem/maximum_subarray.cpp: the scans compute a largest sum.
use demo_code.Prelude.{
  ℤ, pos, ◌+ℤ◌, List, [], ◌∷◌, ◌≡◌, refl, sym, ap, ◌∙◌, arith, +ℤ_parts, eq_of_parts, int_laws,
  eq_of_parts,
}
use demo_code.Subarray.{
  violent_inner, violent_outer, violent_solution, kadane_loop, kadane_solution,
}
use demo_code.Subarray.Spec.{max_ℤ, best_prefix, best, IsMaxSum, best-IsMaxSum}

max_comm : (a b : ℤ) → max_ℤ a b ≡ max_ℤ b a
unfolding max_ℤ
max_comm a b = eq_of_parts _ _ (ground arith)

max_assoc : (a b c : ℤ) → max_ℤ (max_ℤ a b) c ≡ max_ℤ a (max_ℤ b c)
unfolding max_ℤ
max_assoc a b c = ground arith

max_swap : (a b c d : ℤ) → max_ℤ (max_ℤ a b) (max_ℤ c d) ≡ max_ℤ (max_ℤ a c) (max_ℤ b d)
max_swap a b c d =
    max_assoc a b (max_ℤ c d)
    ∙ ap (max_ℤ a) (sym (max_assoc b c d) ∙ ap (λ t. max_ℤ t d) (max_comm b c) ∙ max_assoc c b d)
    ∙ sym (max_assoc a c (max_ℤ b d))

add-max : (c a b : ℤ) → c +ℤ max_ℤ a b ≡ max_ℤ (c +ℤ a) (c +ℤ b)
unfolding max_ℤ
add-max c a b = eq_of_parts _ _ (ground (arith, +ℤ_parts c a, +ℤ_parts c b))

add_comm : (a b : ℤ) → a +ℤ b ≡ b +ℤ a
add_comm a b = omega int_laws

max-add : (a b c : ℤ) → max_ℤ a b +ℤ c ≡ max_ℤ (a +ℤ c) (b +ℤ c)
max-add a b c =
    add_comm (max_ℤ a b) c
    ∙ add-max c a b
    ∙ ap (λ t. max_ℤ t (c +ℤ b)) (add_comm c a)
    ∙ ap (max_ℤ (a +ℤ c)) (add_comm c b)

-- What one round adds to the comparison, against what the recursion compares.
max_regroup : (s rest a b : ℤ) → max_ℤ (max_ℤ a s) (max_ℤ b rest) ≡ max_ℤ s (max_ℤ (max_ℤ a b) rest)
max_regroup s rest a b =
    ap (λ t. max_ℤ t (max_ℤ b rest)) (max_comm a s)
    ∙ max_assoc s a (max_ℤ b rest)
    ∙ ap (max_ℤ s) (sym (max_assoc a b rest))

max_absorb :
    (h y bp rest : ℤ)
    → max_ℤ (max_ℤ (max_ℤ y (h +ℤ y)) (max_ℤ y (h +ℤ y) +ℤ bp)) rest
      ≡ max_ℤ (h +ℤ max_ℤ y (y +ℤ bp)) (max_ℤ (max_ℤ y (y +ℤ bp)) rest)
max_absorb h y bp rest =
    let e : h +ℤ y +ℤ bp ≡ h +ℤ (y +ℤ bp) = omega int_laws in
    ap (λ t. max_ℤ t rest)
      (ap (max_ℤ (max_ℤ y (h +ℤ y))) (max-add y (h +ℤ y) bp ∙ ap (max_ℤ (y +ℤ bp)) e)
        ∙ max_swap y (h +ℤ y) (y +ℤ bp) (h +ℤ (y +ℤ bp))
        ∙ max_comm (max_ℤ y (y +ℤ bp)) (max_ℤ (h +ℤ y) (h +ℤ (y +ℤ bp)))
        ∙ ap (λ t. max_ℤ t (max_ℤ y (y +ℤ bp))) (sym (add-max h y (y +ℤ bp))))
    ∙ max_assoc (h +ℤ max_ℤ y (y +ℤ bp)) (max_ℤ y (y +ℤ bp)) rest

-- One round, with its tests as maxima.
kadane_loop_step :
    (s h x : ℤ) (xs : List ℤ)
    → kadane_loop s h (x ∷ xs) ≡ kadane_loop (max_ℤ (max_ℤ x (h +ℤ x)) s) (max_ℤ x (h +ℤ x)) xs
unfolding kadane_loop max_ℤ
kadane_loop_step s h x xs = refl

kadane_loop_lem :
    (so_far ending_here y : ℤ) (ys : List ℤ)
    → kadane_loop so_far ending_here (y ∷ ys)
      ≡ max_ℤ so_far (max_ℤ (ending_here +ℤ best_prefix y ys) (best y ys))
kadane_loop_lem s h y [] =
    unfold kadane_loop best best_prefix max_ℤ in eq_of_parts _ _ (ground (arith, +ℤ_parts h y))
kadane_loop_lem s h y (z ∷ zs) =
    let h' = max_ℤ y (h +ℤ y) in
    let bp = best_prefix z zs in
    kadane_loop_step s h y (z ∷ zs)
    ∙ kadane_loop_lem (max_ℤ h' s) h' z zs
    ∙ max_regroup s (best z zs) h' (h' +ℤ bp)
    ∙ ap (max_ℤ s) (max_absorb h y bp (best z zs))
    ∙ unfold best best_prefix in refl

max_first : (x p b : ℤ) → max_ℤ x (max_ℤ p b) ≡ max_ℤ (max_ℤ x p) b
max_first x p b = sym (max_assoc x p b)

kadane-best : (x : ℤ) (xs : List ℤ) → kadane_loop x x xs ≡ best x xs
unfolding kadane_loop best best_prefix
kadane-best x [] = refl
kadane-best x (y ∷ ys) = kadane_loop_lem x x y ys ∙ max_first x (x +ℤ best_prefix y ys) (best y ys)

-- On a non-empty array `KadaneSolution` returns the largest sum of a non-empty subarray.
pub kadane_solution-IsMaxSum : (x : ℤ) (xs : List ℤ) → IsMaxSum (x ∷ xs) (kadane_solution (x ∷ xs))
unfolding kadane_solution
kadane_solution-IsMaxSum x xs = rw (kadane-best x xs) (best-IsMaxSum x xs)

violent_inner_step :
    (tmp top x : ℤ) (xs : List ℤ)
    → violent_inner tmp top (x ∷ xs) ≡ violent_inner (tmp +ℤ x) (max_ℤ top (tmp +ℤ x)) xs
unfolding violent_inner max_ℤ
violent_inner_step tmp top x xs = refl

violent_inner_lem :
    (tmp top y : ℤ) (ys : List ℤ)
    → violent_inner tmp top (y ∷ ys) ≡ max_ℤ top (tmp +ℤ best_prefix y ys)
violent_inner_lem tmp top y [] = unfold violent_inner best_prefix max_ℤ in refl
violent_inner_lem tmp top y (z ∷ zs) =
    let bp = best_prefix z zs in
    let e : tmp +ℤ y +ℤ bp ≡ tmp +ℤ (y +ℤ bp) = omega int_laws in
    violent_inner_step tmp top y (z ∷ zs)
    ∙ violent_inner_lem (tmp +ℤ y) (max_ℤ top (tmp +ℤ y)) z zs
    ∙ ap (max_ℤ (max_ℤ top (tmp +ℤ y))) e
    ∙ max_assoc top (tmp +ℤ y) (tmp +ℤ (y +ℤ bp))
    ∙ ap (max_ℤ top) (sym (add-max tmp y (y +ℤ bp)))
    ∙ unfold best_prefix in refl

zero_add : (a : ℤ) → pos 0 +ℤ a ≡ a
zero_add a = omega int_laws

violent_inner-best_prefix :
    (top x : ℤ) (xs : List ℤ) → violent_inner (pos 0) top (x ∷ xs) ≡ max_ℤ top (best_prefix x xs)
violent_inner-best_prefix top x xs =
    violent_inner_lem (pos 0) top x xs ∙ ap (max_ℤ top) (zero_add (best_prefix x xs))

violent_outer_lem : (top x : ℤ) (xs : List ℤ) → violent_outer top (x ∷ xs) ≡ max_ℤ top (best x xs)
unfolding violent_outer best
violent_outer_lem top x [] = violent_inner-best_prefix top x [] ∙ unfold best_prefix in refl
violent_outer_lem top x (y ∷ ys) =
    violent_outer_lem (violent_inner (pos 0) top (x ∷ y ∷ ys)) y ys
    ∙ ap (λ t. max_ℤ t (best y ys)) (violent_inner-best_prefix top x (y ∷ ys))
    ∙ max_assoc top (best_prefix x (y ∷ ys)) (best y ys)

-- `ViolentSolution` returns what `KadaneSolution` returns, or 0 where that is negative.
pub violent_solution-kadane_solution :
    (nums : List ℤ) → violent_solution nums ≡ max_ℤ (pos 0) (kadane_solution nums)
unfolding violent_solution kadane_solution max_ℤ
violent_solution-kadane_solution [] = refl
violent_solution-kadane_solution (x ∷ xs) =
    violent_outer_lem (pos 0) x xs ∙ ap (max_ℤ (pos 0)) (sym (kadane-best x xs))

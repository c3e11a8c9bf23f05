-- ===== src/Subarray/Tests.antt =====
-- The array of `main` in algorithm_about/classic_problem/maximum_subarray.cpp.
use demo_code.Prelude.{ℤ, pos, negsuc, ◌+ℤ◌, ◌-ℤ◌, ◌≡◌, refl, some, List, [], ◌∷◌}
use demo_code.Subarray.{violent_solution, divide_solution, kadane_solution}
use demo_code.Subarray.Spec.{IsMaxSum, max_ℤ}
use demo_code.Subarray.Laws.{kadane_solution-IsMaxSum, violent_solution-kadane_solution}

abbrev rest : List ℤ
rest = pos 1 ∷ negsuc 2 ∷ pos 4 ∷ negsuc 0 ∷ pos 2 ∷ pos 1 ∷ negsuc 4 ∷ pos 4 ∷ []

main_results :
    (violent_solution (negsuc 1 ∷ rest) ≡ pos 6)
    × (divide_solution (negsuc 1 ∷ rest) ≡ some (pos 6))
    × (kadane_solution (negsuc 1 ∷ rest) ≡ pos 6)
unfolding violent_solution divide_solution kadane_solution ◌+ℤ◌ ◌-ℤ◌
main_results = (refl, refl, refl)

kadane_solution-IsMaxSum_example : IsMaxSum (negsuc 1 ∷ rest) (kadane_solution (negsuc 1 ∷ rest))
kadane_solution-IsMaxSum_example = kadane_solution-IsMaxSum (negsuc 1) rest

violent_solution-kadane_solution_example :
    violent_solution (negsuc 1 ∷ rest) ≡ max_ℤ (pos 0) (kadane_solution (negsuc 1 ∷ rest))
violent_solution-kadane_solution_example = violent_solution-kadane_solution (negsuc 1 ∷ rest)

-- ===== src/Subarray.antt =====
-- algorithm_about/classic_problem/maximum_subarray.cpp: the three searches for the largest sum of a
-- contiguous subarray. A sum that fits in an `int` is an integer here; a sum that overflows is
-- outside the model, as it is undefined in the source.
pub mod Spec
pub mod Laws
mod Tests
use demo_code.Prelude.{
  ℕ, zero, suc, ◌+◌, ◌-◌, ◌/◌, ℤ, pos, ltb_ℤ, leb_ℤ, ◌+ℤ◌, ◌-ℤ◌, ◌==◌, ◌&&◌, if◌then◌else◌, Option,
  none, some, ◌>>=◌, List, [], ◌∷◌, get_elem?, length,
}

-- The inner loop of `ViolentSolution`, over the rest of the array: `tmp` and `maxSubArraySum`.
unfoldable pub violent_inner : ℤ → ℤ → List ℤ → ℤ
violent_inner tmp best [] = best
violent_inner tmp best (x ∷ xs) =
    let tmp' = tmp +ℤ x in violent_inner tmp' (if ltb_ℤ best tmp' then tmp' else best) xs

-- The outer loop: once from each position.
unfoldable pub violent_outer : ℤ → List ℤ → ℤ
unfolding violent_inner
violent_outer best [] = best
violent_outer best (x ∷ xs) = violent_outer (violent_inner (pos 0) best (x ∷ xs)) xs

-- `ViolentSolution`
unfoldable pub violent_solution : List ℤ → ℤ
unfolding violent_outer
violent_solution nums = violent_outer (pos 0) nums

-- The loop of `KadaneSolution`: `maxSoFar` and `maxEndingHere`.
unfoldable pub kadane_loop : ℤ → ℤ → List ℤ → ℤ
kadane_loop so_far ending_here [] = so_far
kadane_loop so_far ending_here (x ∷ xs) =
    let ending_here' = if ltb_ℤ x (ending_here +ℤ x) then ending_here +ℤ x else x in
    kadane_loop (if ltb_ℤ ending_here' so_far then so_far else ending_here') ending_here' xs

-- `KadaneSolution`
unfoldable pub kadane_solution : List ℤ → ℤ
unfolding kadane_loop
kadane_solution [] = pos 0
kadane_solution (x ∷ xs) = kadane_loop x x xs

-- The loops of `getMaxCrossArrayRes`, downwards and upwards: `n` rounds are left, from index `i`.
-- `none` is a read outside the array.
unfoldable pub cross_down : List ℤ → ℕ → ℕ → ℤ → ℤ → Option ℤ
cross_down arr zero i sum res = some res
cross_down arr (suc n) i sum res = do
  x ← get_elem? arr i
  let sum' = sum +ℤ x
  cross_down arr n (i - 1) sum' (if ltb_ℤ sum' res then res else sum')

unfoldable pub cross_up : List ℤ → ℕ → ℕ → ℤ → ℤ → Option ℤ
cross_up arr zero i sum res = some res
cross_up arr (suc n) i sum res = do
  x ← get_elem? arr i
  let sum' = sum +ℤ x
  cross_up arr n (i + 1) sum' (if ltb_ℤ sum' res then res else sum')

-- `getMaxCrossArrayRes`
unfoldable pub max_cross : List ℤ → ℕ → ℕ → ℕ → Option ℤ
unfolding cross_down cross_up
max_cross arr low mid high = do
  m ← get_elem? arr mid
  l_res ← cross_down arr (mid - low) (mid - 1) m m
  r_res ← cross_up arr (high - mid) (mid + 1) m m
  some (l_res +ℤ r_res -ℤ m)

-- The largest of the three results.
unfoldable pub largest : ℤ → ℤ → ℤ → ℤ
largest left right cross =
    if leb_ℤ right left && leb_ℤ cross left
    then left
    else if leb_ℤ left right && leb_ℤ cross right
    then right
    else cross

-- `getMaxSubArrayRes`, on fuel: `none` is also that the fuel ran out.
unfoldable pub max_sub : ℕ → List ℤ → ℕ → ℕ → Option ℤ
unfolding max_cross largest
max_sub zero arr low high = none
max_sub (suc fuel) arr low high =
    let mid = (low + high) / 2 in
    let rest = (do
      left ← max_sub fuel arr low mid
      right ← max_sub fuel arr (mid + 1) high
      cross ← max_cross arr low mid high
      some (largest left right cross)) in
    if low == high then get_elem? arr low else rest

-- `DivideSolution`
unfoldable pub divide_solution : List ℤ → Option ℤ
unfolding max_sub
divide_solution [] = some (pos 0)
divide_solution (x ∷ xs) = max_sub (length (x ∷ xs)) (x ∷ xs) 0 (length xs)

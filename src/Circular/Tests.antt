-- ===== src/Circular/Tests.antt =====
-- A buffer of three items, as a run of the operations builds it.
use demo_code.Prelude.{ℕ, ◌≡◌, refl, arith, some, List, [], ◌∷◌}
use demo_code.Circular.{CircularBuffer, new, resize}
use demo_code.Circular.Invariant.{IsValid}
use demo_code.Circular.Queue.{Op, add, take, run, replay, run-replay}
use demo_code.Circular.Resize.{resize-IsValid}

abbrev full : CircularBuffer ℕ
full = record {
  buffer_size = 3;
  data_size = 3;
  free_node_num = 1;
  data_lst = 2 ∷ 3 ∷ 4 ∷ [];
  free_lst = 0 ∷ [];
}

full_reached : run 0 (add 1 ∷ add 2 ∷ add 3 ∷ add 4 ∷ []) (new 0 3) ≡ some full
unfolding run new
full_reached = refl

full-IsValid : IsValid full
full-IsValid = omega arith

abbrev calls : List (Op ℕ)
calls = add 5 ∷ take ∷ take ∷ add 6 ∷ take ∷ []

run-replay_example :
    (c : CircularBuffer ℕ) × (run 0 calls full ≡ some c)
    × IsValid c
    × (c.data_lst ≡ replay 3 calls (2 ∷ 3 ∷ 4 ∷ []))
run-replay_example = run-replay 0 calls full full-IsValid

resize-IsValid_example :
    (c : CircularBuffer ℕ) × (resize 0 5 full ≡ some c)
    × IsValid c
    × (c.data_lst ≡ 2 ∷ 3 ∷ 4 ∷ [])
    × (c.buffer_size ≡ 5)
resize-IsValid_example =
    resize-IsValid 0 5 full full-IsValid (omega arith) (omega arith) (omega arith)

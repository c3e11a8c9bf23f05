-- ===== src/EvLoop/Tests.antt =====
-- Event loops at concrete inputs.
use demo_code.Prelude.{
  ℕ, ◌≡◌, refl, [], ◌∷◌, get_elem?, true, false, none, some, ◌+◌, ◌-◌, ◌*◌, negsuc, pos,
}
use demo_code.EvLoop.{
  EvLoop, created, initialize, add_bases, add_base, add_count, find_count, start, start_loops,
  release, change, increment, decrement, least, get_work_loop,
}
use demo_code.EvLoop.Balance.{get_work_loop-IsFirstLeast, IsFirstLeast}

-- Three loops, 5, 6 and 7, with the counts 2, 1 and 1.
abbrev three : EvLoop
three = record {
  is_initialize = true;
  is_exit = false;
  is_start = true;
  work_threads = 3;
  bases = 5 ∷ 6 ∷ 7 ∷ [];
  counts = (5, 2) ∷ (6, 1) ∷ (7, 1) ∷ [];
  timers = 9 ∷ 9 ∷ 9 ∷ [];
  threads = 5 ∷ 6 ∷ 7 ∷ [];
}

three_choice : get_work_loop three ≡ some 6
unfolding get_work_loop find_count least
three_choice = refl

busy_choice : get_work_loop (increment 6 three) ≡ some 7
unfolding get_work_loop find_count least increment change
busy_choice = refl

below_0 : find_count 6 (decrement 6 (decrement 6 three)).counts ≡ some 4294967295
unfolding find_count decrement change
below_0 = refl

initialized : (initialize (λ i. i + 5) 2 created).0.counts ≡ (6, 0) ∷ (5, 0) ∷ []
unfolding initialize add_bases add_base add_count find_count created
initialized = refl

out_of_loops : (initialize (λ i. 5 * (1 - i)) 2 created).1 ≡ negsuc 0
unfolding initialize add_bases add_base add_count find_count created
out_of_loops = refl

started :
    start (λ i. 9) (initialize (λ i. i + 5) 2 created).0
    ≡ some (
      record {
        is_initialize = true;
        is_exit = false;
        is_start = true;
        work_threads = 2;
        bases = 5 ∷ 6 ∷ [];
        counts = (6, 0) ∷ (5, 0) ∷ [];
        timers = 9 ∷ 9 ∷ [];
        threads = 5 ∷ 6 ∷ [];
      },
      pos 0,
    )
unfolding start start_loops initialize add_bases add_base add_count find_count created
started = refl

released : get_work_loop (release three) ≡ none
unfolding get_work_loop release
released = refl

get_work_loop-IsFirstLeast_example :
    (b : ℕ) × (k : ℕ) × (c : ℕ) × (get_work_loop three ≡ some b)
    × (get_elem? three.bases k ≡ some b)
    × IsFirstLeast three.counts three.bases k c
unfolding find_count
get_work_loop-IsFirstLeast_example =
    get_work_loop-IsFirstLeast three ((2, refl), ((1, refl), ((1, refl), tt))) (λ e. cc)

-- ===== src/EvLoop.antt =====
-- project_about/feedproxy/levservice/ev_loop.h and ev_loop.cpp: the event loops of the worker threads,
-- and the number of events that each is said to serve. An `event_base*` or an `event*` is a number, and
-- 0 is the null pointer; what libevent's constructors return is a parameter, by the index of the
-- call. `none` is an index or an iterator out of range.
pub mod Balance
pub mod Counts
mod Tests
use demo_code.Prelude.{
  ℕ, zero, suc, ◌+◌, ltb, ◌==◌, u32, sub_u32, ℤ, pos, negsuc, Bool, true, false, if◌then◌else◌,
  List, [], ◌∷◌, ◌++◌, get_elem?, Option, none, some, ◌>>=◌,
}

pub record EvLoop : Type 0 where
  pub is_initialize : Bool
  pub is_exit : Bool
  pub is_start : Bool
  pub work_threads : ℕ
  -- `lst_work_event_base_` and `mp_work_event_base_`
  pub bases : List ℕ
  pub counts : List (ℕ × ℕ)
  -- `lst_timer_event_`, and the loop that each of `arr_work_threads_` runs
  pub timers : List ℕ
  pub threads : List ℕ

-- The constructor.
unfoldable pub created : EvLoop
created = record {
  is_initialize = false;
  is_exit = false;
  is_start = false;
  work_threads = 1;
  bases = [];
  counts = [];
  timers = [];
  threads = [];
}

-- `find` of the map, `none` at its end.
unfoldable pub find_count : ℕ → List (ℕ × ℕ) → Option ℕ
find_count base [] = none
find_count base ((b, n) ∷ m) = if b == base then some n else find_count base m

-- `insert` of the map, which keeps an entry that is there.
unfoldable pub add_count : ℕ → List (ℕ × ℕ) → List (ℕ × ℕ)
unfolding find_count
add_count base m = elim (find_count base m) [ none ↦ (base, 0) ∷ m | some _ ↦ m ]

-- `item->second` at the entry of a loop, changed by `f`.
unfoldable pub change : (ℕ → ℕ) → ℕ → List (ℕ × ℕ) → List (ℕ × ℕ)
change f base [] = []
change f base ((b, n) ∷ m) = if b == base then (b, f n) ∷ m else (b, n) ∷ change f base m

-- One round of the loop of `Initialize`.
unfoldable pub add_base : ℕ → EvLoop → EvLoop
unfolding add_count
add_base base l = record l { bases = l.bases ++ base ∷ []; counts = add_count base l.counts }

-- The rest of the loop, with the index of the next round.
unfoldable pub add_bases : (ℕ → ℕ) → ℕ → ℕ → EvLoop → EvLoop × Bool
unfolding add_base
add_bases event_base_new zero i l = (l, true)
add_bases event_base_new (suc rounds) i l =
    let base = event_base_new i in
    let rest = add_bases event_base_new rounds (suc i) (add_base base l) in
    if base == 0 then (l, false) else rest

-- `Initialize`
unfoldable pub initialize : (ℕ → ℕ) → ℕ → EvLoop → EvLoop × ℤ
unfolding add_bases
initialize event_base_new work_threads l =
    let (l', made) =
      add_bases event_base_new work_threads 0 (record l { work_threads = work_threads }) in
    if l.is_initialize
    then (l, pos 0)
    else if made
    then (record l' { is_initialize = true }, pos 0)
    else (l', negsuc 0)

-- `Release`: the timers, the loops and the threads are gone, the map stays.
unfoldable pub release : EvLoop → EvLoop
release l =
    if l.is_exit then l else record l { is_exit = true; timers = []; bases = []; threads = [] }

-- The rounds of `Start` that are left, with the index of the next one: its timer is added to the loop,
-- and a thread runs it.
unfoldable pub start_loops : (ℕ → ℕ) → ℕ → ℕ → EvLoop → Option (EvLoop × Bool)
start_loops event_new zero i l = some (l, true)
start_loops event_new (suc rounds) i l = do
  base ← get_elem? l.bases i
  let timer = event_new i
  let l' = record l { timers = l.timers ++ timer ∷ []; threads = l.threads ++ base ∷ [] }
  let rest = start_loops event_new rounds (suc i) l'
  if timer == 0 then some (l, false) else rest

-- `Start`
unfoldable pub start : (ℕ → ℕ) → EvLoop → Option (EvLoop × ℤ)
unfolding start_loops
start event_new l =
    if l.is_initialize
    then (start_loops event_new l.work_threads 0 l >>= λ (r : EvLoop × Bool).
        if r.1 then some (record r.0 { is_start = true }, pos 0) else some (r.0, negsuc 0))
    else some (l, negsuc 0)

-- `Increment` and `Decrement`
unfoldable pub increment : ℕ → EvLoop → EvLoop
increment base l =
    if base == 0 then l else record l { counts = change (λ n. u32 (n + 1)) base l.counts }

unfoldable pub decrement : ℕ → EvLoop → EvLoop
decrement base l =
    if base == 0 then l else record l { counts = change (λ n. sub_u32 n 1) base l.counts }

-- The loop of `GetWorkLoop` over the loops from `index` on: the index of the first with the least count,
-- starting from `cnt` at `find_index`.
unfoldable pub least : List (ℕ × ℕ) → List ℕ → ℕ → ℕ → ℕ → Option ℕ
unfolding find_count
least counts [] index cnt find_index = some find_index
least counts (base ∷ bases) index cnt find_index = do
  n ← find_count base counts
  let better = ltb n cnt
  least counts bases (suc index) (if better then n else cnt) (if better then index else find_index)

-- `GetWorkLoop`
unfoldable pub get_work_loop : EvLoop → Option ℕ
get_work_loop l = do
  first ← get_elem? l.bases 0
  cnt ← find_count first l.counts
  index ← least l.counts l.bases 0 cnt 0
  get_elem? l.bases index

-- ===== src/Service/Tests.antt =====
-- A service at concrete inputs.
use demo_code.Prelude.{◌≡◌, refl, arith, [], ◌∷◌, Bool, true, false, none, some, Returns, map}
use demo_code.EvLoop.{EvLoop, find_count, least, get_work_loop}
use demo_code.Service.{Service, Bufferevent, put, close}
use demo_code.Service.Server.{
  new_service, set_auto_monitor_client, initialize_context, initialize, fill, new_context, stop,
  start, accept_helper,
}
use demo_code.Service.Pool.{IsPool, IsReady, lend-IsBalanced}
use demo_code.Service.Events.{arrives, lost, active, timer, run}
use demo_code.Service.Opening.{IsNew, new_service-IsNew, initialize-IsPool, run-initialize-IsPool}
use demo_code.Service.Load.{good, accept_helper-close-count, run-one_loop}
use demo_code.Service.Shutdown.{stop-faults, stop-start-faults}

-- Three loops, 5, 6 and 7, with the counts 2, 1 and 1.
abbrev three : EvLoop
three = record {
  is_initialize = true;
  is_exit = false;
  is_start = true;
  work_threads = 3;
  bases = 5 ∷ 6 ∷ 7 ∷ [];
  counts = (5, 2) ∷ (6, 1) ∷ (7, 1) ∷ [];
  timers = 9 ∷ 9 ∷ 9 ∷ [];
  threads = 5 ∷ 6 ∷ 7 ∷ [];
}

abbrev fresh : Service
fresh = set_auto_monitor_client true (new_service three)

three-IsReady : IsReady three
unfolding find_count
three-IsReady = (((2, refl), ((1, refl), ((1, refl), tt))), λ e. cc)

fresh-IsNew : IsNew fresh
fresh-IsNew = new_service-IsNew three true three-IsReady

-- At most one connection.
abbrev opened : Service
opened = (initialize true (λ _. true) 1 fresh).0

opened-IsPool : IsPool opened
opened-IsPool = initialize-IsPool (λ _. true) 1 fresh fresh-IsNew (omega arith)

-- The second connection is refused, and its socket is closed.
run-initialize-IsPool_example :
    Returns
      (run
        (arrives good 100 ∷ arrives good 101 ∷ active 0 ∷ lost 0 ∷ timer ∷ [])
        (initialize true (λ _. true) 1 (set_auto_monitor_client true (new_service three))).0)
      IsPool
run-initialize-IsPool_example =
    run-initialize-IsPool (arrives good 100 ∷ arrives good 101 ∷ active 0 ∷ lost 0 ∷ timer ∷ [])
      (λ _. true) 1 true three three-IsReady (omega arith)

accept_helper-close-count_example :
    (u : Service) × (accept_helper good 100 opened ≡ some u)
    × (u.loop ≡ opened.loop)
    × (find_count 6 (close 0 u).loop.counts ≡ some 0)
unfolding new_service set_auto_monitor_client initialize fill new_context initialize_context put
    find_count least get_work_loop
accept_helper-close-count_example =
    accept_helper-close-count 100 0 6 1 _ opened refl opened-IsPool (omega arith) refl (omega arith)
      refl (omega arith)

run-one_loop_example :
    (u : Service) × (run (map (arrives good) (100 ∷ 101 ∷ [])) opened ≡ some u)
    × (u.loop ≡ opened.loop)
    × (get_work_loop u.loop ≡ some 6)
unfolding new_service set_auto_monitor_client initialize fill new_context initialize_context put
    find_count least get_work_loop
run-one_loop_example = run-one_loop (100 ∷ 101 ∷ []) 6 opened opened-IsPool refl (omega arith)

abbrev bev_6 : Bufferevent
bev_6 = record { base = 6; fd = some 100 }

-- A started service with a client.
abbrev busy : Service
busy = record {
  loop = three;
  contexts = λ _. record new_context { is_connected = true; cli_bev = some bev_6 };
  is_initialize = true;
  is_start = true;
  is_exit = false;
  max_conn = 1;
  current_conn = 1;
  is_auto_monitor_client = true;
  listener = true;
  monitor = true;
  free_conn = 1 ∷ 2 ∷ 3 ∷ 4 ∷ 5 ∷ 6 ∷ 7 ∷ 8 ∷ 9 ∷ 10 ∷ [];
  clients = 0 ∷ [];
  entries = [];
  idle = fresh.idle;
  closed = [];
}

busy-IsPool : IsPool busy
unfolding new_service set_auto_monitor_client initialize fill new_context initialize_context put
busy-IsPool = record {
  balanced = lend-IsBalanced 0 busy.free_conn (omega arith) opened-IsPool.balanced;
  opened = λ i h. (refl, refl, (bev_6, refl));
  ready = three-IsReady;
  buffer = fresh-IsNew.buffered;
}

stop-faults_example : stop busy ≡ none
stop-faults_example = stop-faults busy refl refl (λ e. cc) busy-IsPool

stop-start-faults_example :
    (t : Service) × (u : Service) × (ok : Bool) × (stop
        (record fresh { is_initialize = true; is_start = true })
      ≡ some t)
    × (start true true t ≡ some (u, ok))
    × (accept_helper good 100 u ≡ none)
unfolding new_service set_auto_monitor_client
stop-start-faults_example =
    stop-start-faults good 100 true (record fresh { is_initialize = true; is_start = true }) refl
      refl refl (omega arith) three-IsReady

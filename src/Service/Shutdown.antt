-- ===== src/Service/Shutdown.antt =====
-- project_about/feedproxy/levservice/service.h: `Stop`, and a service that is started again.
use mathlib.Core.Path.{subst}
use demo_code.Prelude.{
  ℕ, ◌<◌, ◌≡◌, ◌≢◌, refl, sym, ◌∙◌, arith, if◌then◌else◌, leb, lt→leb, List, [], ◌∷◌, Bool, true,
  false, none, some, ◌>>=◌, Bool-cases, inl, inr,
}
use demo_code.Prelude.Occurs.{contains, contains-cons}
use demo_code.EvLoop.{get_work_loop}
use demo_code.EvLoop.Balance.{get_work_loop-IsFirstLeast}
use demo_code.Service.{Service, Net}
use demo_code.Service.Server.{close_all, stop, start, listen, accept_from, accept_helper}
use demo_code.Service.Pool.{IsPool, IsReady}
use demo_code.Service.Closing.{close-absent}

-- `Stop` clears its flags before it closes the clients.
abbrev leaving : Service → Service
leaving s = record s { is_exit = true; listener = false }

leaving-IsPool : (s : Service) → IsPool s → IsPool (leaving s)
leaving-IsPool s v = record {
  balanced = v.balanced;
  opened = v.opened;
  ready = v.ready;
  buffer = v.buffer;
}

close_all-faults :
    (i : ℕ) (clients : List ℕ) (s : Service)
    → s.clients ≡ i ∷ clients
    → IsPool s
    → close_all (i ∷ clients) s ≡ none
unfolding close_all
close_all-faults i clients s e v =
    let here : contains i s.clients ≡ true = ground (arith, e, contains-cons i i clients) in
    rw (close-absent i s here v) refl

stop_steps :
    (s : Service)
    → s.is_initialize ≡ true
    → s.is_start ≡ true
    → stop s ≡ (
        close_all s.clients (leaving s) >>= λ (t : Service). some (record t {
          free_conn = [];
          monitor = if t.is_auto_monitor_client then false else t.monitor;
          is_start = false;
        }))
unfolding stop
stop_steps s init started = simp (init, started) refl

-- `Stop` of a started service with a client in its map goes on from an iterator to an erased element: the
-- `Close` of the first client takes it out of the map that the loop walks over.
pub stop-faults :
    (s : Service)
    → s.is_initialize ≡ true
    → s.is_start ≡ true
    → s.clients ≢ []
    → IsPool s
    → stop s ≡ none
stop-faults s init started h v = go s.clients refl
  where
    go : (clients : List ℕ) → s.clients ≡ clients → stop s ≡ none
    go [] e = absurd (h e)
    go (i ∷ clients) e =
        let f = close_all-faults i clients (leaving s) e (leaving-IsPool s v) in
        stop_steps s init started ∙ rw (subst (λ c. close_all c (leaving s) ≡ none) (sym e) f) refl

-- What `Stop` leaves of a service with no client.
abbrev stopped : Service → Service
stopped s = record (leaving s) {
  free_conn = [];
  monitor = if s.is_auto_monitor_client then false else s.monitor;
  is_start = false;
}

stop_idle :
    (s : Service)
    → s.is_initialize ≡ true
    → s.is_start ≡ true
    → s.clients ≡ []
    → stop s ≡ some (stopped s)
unfolding close_all
stop_idle s init started e = stop_steps s init started ∙ simp (e) refl

start_steps :
    (timed : Bool) (base : ℕ) (s : Service)
    → s.is_initialize ≡ true
    → s.is_start ≡ false
    → get_work_loop s.loop ≡ some base
    → start true timed s ≡ some (listen true timed base s)
unfolding start
start_steps timed base s init off e = simp (init, off, e) refl

listen_pool :
    (timed : Bool) (base : ℕ) (s : Service)
    → let u = (listen true timed base s).0 in
      (u.free_conn ≡ s.free_conn) × (u.current_conn ≡ s.current_conn) × (u.max_conn ≡ s.max_conn)
unfolding listen
listen_pool timed base s = elim (Bool-cases s.is_auto_monitor_client) [
  | inl e ↦ elim (Bool-cases timed) [
    | inl t ↦ rw (e) (rw (t) (refl, refl, refl))
    | inr t ↦ rw (e) (rw (t) (refl, refl, refl))
  ]
  | inr e ↦ rw (e) (refl, refl, refl)
]

accept_empty :
    (net : Net) (fd : ℕ) (s : Service)
    → s.free_conn ≡ []
    → s.current_conn < s.max_conn
    → accept_helper net fd s ≡ none
unfolding accept_helper accept_from
accept_empty net fd s e h =
    let space : leb s.max_conn s.current_conn ≡ false = lt→leb _ _ h in rw (space) (rw (e) refl)

-- With no client `Stop` returns. When the service is then started again, the first connection that arrives
-- takes the front of an empty list: `Stop` cleared the free list, and neither it nor `Start` fills it.
pub stop-start-faults :
    (net : Net) (fd : ℕ) (timed : Bool) (s : Service)
    → s.is_initialize ≡ true
    → s.is_start ≡ true
    → s.clients ≡ []
    → s.current_conn < s.max_conn
    → IsReady s.loop
    → (t : Service) × (u : Service) × (ok : Bool) × (stop s ≡ some t)
      × (start true timed t ≡ some (u, ok))
      × (accept_helper net fd u ≡ none)
stop-start-faults net fd timed s init started none_left room r =
    let (base, _, _, e, _, _) = get_work_loop-IsFirstLeast s.loop r.0 r.1 in
    let (f, c, m) = listen_pool timed base (stopped s) in
    (
      stopped s,
      _,
      _,
      stop_idle s init started none_left,
      start_steps timed base (stopped s) init refl e,
      accept_empty net fd _ f (omega (arith, c, m)),
    )

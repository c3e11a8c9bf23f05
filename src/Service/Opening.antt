-- ===== src/Service/Opening.antt =====
-- project_about/feedproxy/levservice/service.h: `Initialize` fills the pool.
use demo_code.Prelude.{
  ℕ, zero, suc, ◌+◌, ◌<◌, ◌^◌, ◌≡◌, refl, ap, ◌∙◌, arith, u32, if◌then◌else◌, ltb, leb, List, [],
  ◌∷◌, ◌++◌, length, length-append, Bool, true, false, Returns,
}
use demo_code.Prelude.Occurs.{contains-nil, occurs, occurs-append, occurs-one, occurs-nil}
use demo_code.EvLoop.{EvLoop}
use demo_code.Circular.Invariant.{IsValid, new-IsValid}
use demo_code.Service.{Service, put}
use demo_code.Service.Server.{
  set_auto_monitor_client, new_context, initialize_context, new_service, fill, above_conn,
  initialize,
}
use demo_code.Service.Pool.{IsPool, IsReady}
use demo_code.Service.Events.{Event, run, run-IsPool}

-- What `fill` leaves alone.
record IsFilled (i rounds : ℕ) (s t : Service) : Type 0 where
  clients_kept : t.clients ≡ s.clients
  count_kept : t.current_conn ≡ s.current_conn
  max_kept : t.max_conn ≡ s.max_conn
  loop_kept : t.loop ≡ s.loop
  idle_kept : t.idle ≡ s.idle
  more : length t.free_conn ≡ length s.free_conn + rounds
  each :
      (j : ℕ)
      → occurs j t.free_conn
        ≡ occurs j s.free_conn + (if leb i j then (if ltb j (i + rounds) then 1 else 0) else 0)

fill-IsFilled :
    (evbuffer_new : ℕ → Bool) (rounds i : ℕ) (s : Service)
    → IsFilled i rounds s (fill evbuffer_new rounds i s)
unfolding fill put
fill-IsFilled ev zero i s = record {
  clients_kept = refl;
  count_kept = refl;
  max_kept = refl;
  loop_kept = refl;
  idle_kept = refl;
  more = omega arith;
  each = λ j. ground arith;
}
fill-IsFilled ev (suc rounds) i s =
    let c = initialize_context (ev i) new_context in
    let s1 = put i c (record s { free_conn = s.free_conn ++ i ∷ [] }) in
    let v = fill-IsFilled ev rounds (suc i) s1 in
    record {
      clients_kept = v.clients_kept;
      count_kept = v.count_kept;
      max_kept = v.max_kept;
      loop_kept = v.loop_kept;
      idle_kept = v.idle_kept;
      more = omega (arith, v.more, length-append s.free_conn (i ∷ []));
      each = λ j. ground (arith, v.each j, occurs-append j s.free_conn (i ∷ []), occurs-one j i);
    }

-- After `Initialize` of a new service with at most 2 ^ 32 - 11 connections, on loops of which each has a
-- count.
pub record IsNew (s : Service) : Type 0 where
  pub shut : s.is_initialize ≡ false
  pub none_free : s.free_conn ≡ []
  pub none_connected : s.clients ≡ []
  pub none_counted : s.current_conn ≡ 0
  pub loops : IsReady s.loop
  pub buffered : IsValid s.idle

filled-IsPool :
    (m : ℕ) (s t : Service)
    → IsNew s
    → m + above_conn < 2 ^ 32
    → IsFilled 0 (m + above_conn) (record s { max_conn = m }) t
    → IsPool (record t { is_initialize = true })
filled-IsPool m s t n h v =
    let no_client : t.clients ≡ [] = v.clients_kept ∙ n.none_connected in
    let size = ap length no_client in
    let before = ap length n.none_free in
    record {
      balanced = record {
        owned = λ j.
            let none_free : occurs j s.free_conn ≡ 0 = rw (n.none_free) (occurs-nil j) in
            let none_connected : occurs j t.clients ≡ 0 = rw (no_client) (occurs-nil j) in
            ground (arith, v.each j, v.max_kept);
        counted = omega (arith, v.count_kept, n.none_counted);
        bounded = omega (arith);
        sized = omega (arith, v.more, v.max_kept);
        small = omega (arith, v.max_kept);
      };
      opened = λ j g. absurd (ground (arith, g, no_client, contains-nil j));
      ready = rw (v.loop_kept) n.loops;
      buffer = rw (v.idle_kept) n.buffered;
    }

initialize_new :
    (evbuffer_new : ℕ → Bool) (max_conn : ℕ) (s : Service)
    → s.is_initialize ≡ false
    → max_conn + above_conn < 2 ^ 32
    → (initialize true evbuffer_new max_conn s).0
      ≡ record (fill evbuffer_new (max_conn + above_conn) 0 (record s { max_conn = max_conn })) {
        is_initialize = true;
      }
unfolding initialize
initialize_new ev m s e h =
    let all : u32 (m + above_conn) ≡ m + above_conn = omega arith in simp (e, all) refl

pub initialize-IsPool :
    (evbuffer_new : ℕ → Bool) (max_conn : ℕ) (s : Service)
    → IsNew s
    → max_conn + above_conn < 2 ^ 32
    → IsPool (initialize true evbuffer_new max_conn s).0
initialize-IsPool ev m s n h =
    rw (initialize_new ev m s n.shut h)
      (filled-IsPool m s _ n h (fill-IsFilled ev (m + above_conn) 0 (record s { max_conn = m })))

pub new_service-IsNew :
    (loop : EvLoop) (auto : Bool)
    → IsReady loop
    → IsNew (set_auto_monitor_client auto (new_service loop))
unfolding new_service set_auto_monitor_client
new_service-IsNew loop auto r = record {
  shut = refl;
  none_free = refl;
  none_connected = refl;
  none_counted = refl;
  loops = r;
  buffered = new-IsValid [] 10 (omega arith) (omega arith);
}

-- A new service, with or without the monitor, on loops of which each has a count, and which are not none,
-- is initialized with at most 2 ^ 32 - 11 connections. Whatever then happens, in whatever order (connections arrive, clients are lost, closed or seen active, the timer
-- runs), no operation faults: a context is always free for a connection that is accepted. At the end
-- each context of the pool is once in the free list or in the map, the count of connections is that of
-- the map and not above the maximum, and the clients in the map are connected.
pub run-initialize-IsPool :
    (es : List Event) (evbuffer_new : ℕ → Bool) (max_conn : ℕ) (auto : Bool) (loop : EvLoop)
    → IsReady loop
    → max_conn + above_conn < 2 ^ 32
    → let s = set_auto_monitor_client auto (new_service loop) in
      Returns (run es (initialize true evbuffer_new max_conn s).0) IsPool
run-initialize-IsPool es ev m auto loop r h =
    let s = set_auto_monitor_client auto (new_service loop) in
    let n = new_service-IsNew loop auto r in
    let (t, e, v) = run-IsPool es (initialize true ev m s).0 (initialize-IsPool ev m s n h) in
    rw (e) v

-- ===== src/Service/Server.antt =====
-- project_about/feedproxy/levservice/service.h: `Initialize`, `Start`, `Stop` and `AcceptHelper`.
use demo_code.Prelude.{
  ℕ, zero, suc, ◌+◌, leb, u32, Bool, true, false, if◌then◌else◌, List, [], ◌∷◌, ◌++◌, Option, none,
  some, ◌>>=◌,
}
use demo_code.Prelude.Occurs.{contains}
use demo_code.Circular.{new}
use demo_code.EvLoop.{EvLoop, increment, get_work_loop}
use demo_code.Service.{Service, Context, Net, put, close_socket, close, accept_client}
use demo_code.Service.Monitor.{watch_client}

-- The constructor of `CliContext`, and its `Initialize`, where `buffer` is that `evbuffer_new` is not null.
unfoldable pub new_context : Context
new_context = record {
  is_initialize = false;
  is_exit = false;
  is_connected = false;
  cli_bev = none;
  has_buffer = false;
  entry = none;
}

unfoldable pub initialize_context : Bool → Context → Context
initialize_context buffer c =
    if c.is_initialize
    then c
    else if buffer
    then record c { has_buffer = true; is_initialize = true; is_exit = false }
    else record c { has_buffer = false }

-- The constructor of `Service`, on its loop.
unfoldable pub new_service : EvLoop → Service
unfolding new_context
new_service loop = record {
  loop = loop;
  contexts = λ _. new_context;
  is_initialize = false;
  is_start = false;
  is_exit = false;
  max_conn = 3000;
  current_conn = 0;
  is_auto_monitor_client = false;
  listener = false;
  monitor = false;
  free_conn = [];
  clients = [];
  entries = [];
  idle = new [] 10;
  closed = [];
}

-- `SetAutoMonitorClient`
unfoldable pub set_auto_monitor_client : Bool → Service → Service
set_auto_monitor_client is_auto s = record s { is_auto_monitor_client = is_auto }

-- The rounds that are left of the loop that fills the pool, with the index of the next one.
unfoldable pub fill : (ℕ → Bool) → ℕ → ℕ → Service → Service
unfolding new_context initialize_context
fill evbuffer_new zero i s = s
fill evbuffer_new (suc rounds) i s = fill evbuffer_new rounds (suc i) (
    put i (initialize_context (evbuffer_new i) new_context)
      (record s { free_conn = s.free_conn ++ i ∷ [] }))

-- `DEFAULT_MAX_ABOVE_CONN`
abbrev pub above_conn : ℕ
above_conn = 10

-- `Initialize`, where `resolved` is that `getaddrinfo` returned 0.
unfoldable pub initialize : Bool → (ℕ → Bool) → ℕ → Service → Service × Bool
initialize resolved evbuffer_new max_conn s =
    let named = record s { max_conn = max_conn } in
    if s.is_initialize
    then (s, true)
    else if resolved
    then (
      record (fill evbuffer_new (u32 (max_conn + above_conn)) 0 named) { is_initialize = true },
      true,
    )
    else (named, false)

-- The part of `Start` that follows the choice of the loop: `bound` is that the listener was made,
-- `timed` that the timer was.
unfoldable pub listen : Bool → Bool → ℕ → Service → Service × Bool
listen bound timed base s =
    let counted = record s { loop = increment base s.loop; listener = bound } in
    if bound
    then (if s.is_auto_monitor_client
        then (if timed
            then (record counted { monitor = true; is_start = true }, true)
            else (record counted { monitor = false }, false))
        else (record counted { is_start = true }, true))
    else (counted, false)

-- `Start`; `false` is the returned -1.
unfoldable pub start : Bool → Bool → Service → Option (Service × Bool)
start bound timed s =
    if s.is_initialize
    then (if s.is_start
        then some (s, true)
        else (get_work_loop s.loop >>= λ (base : ℕ). some (listen bound timed base s)))
    else some (s, false)

-- The loop of `Stop` over the map, whose iterator is lost when `Close` erases its element.
unfoldable pub close_all : List ℕ → Service → Option Service
close_all [] s = some s
close_all (i ∷ clients) s =
    let s' = close i s in
    let rest = close_all clients s' in if contains i s'.clients then rest else none

-- `Stop`: the contexts of the free list are destroyed with it.
unfoldable pub stop : Service → Option Service
stop s =
    let leaving = record s { is_exit = true; listener = false } in
    if s.is_initialize
    then (if s.is_start
        then (close_all s.clients leaving >>= λ (t : Service). some (record t {
          free_conn = [];
          monitor = if t.is_auto_monitor_client then false else t.monitor;
          is_start = false;
        }))
        else some s)
    else some s

-- A connected context enters the map.
unfoldable pub join : ℕ → Service → Service
join i s = record s {
  current_conn = u32 (s.current_conn + 1);
  clients = if contains i s.clients then s.clients else i ∷ s.clients;
}

-- `AcceptHelper` after `AcceptClient`.
unfoldable pub accepted : ℕ → Service × Bool → Option Service
accepted i (s, true) =
    if s.is_auto_monitor_client then watch_client i (join i s) else some (join i s)
accepted i (s, false) = let t = close i s in some (record t { free_conn = t.free_conn ++ i ∷ [] })

unfoldable pub accept_from : Net → ℕ → List ℕ → Service → Option Service
accept_from net fd [] s = none
accept_from net fd (i ∷ rest) s =
    accept_client net i fd (record s { free_conn = rest }) >>= λ (r : Service × Bool). accepted i r

-- `AcceptHelper`
unfoldable pub accept_helper : Net → ℕ → Service → Option Service
accept_helper net fd s =
    if leb s.max_conn s.current_conn
    then some (close_socket (some fd) s)
    else accept_from net fd s.free_conn s

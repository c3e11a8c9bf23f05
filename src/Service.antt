-- ===== src/Service.antt =====
-- project_about/feedproxy/levservice/service.h and project_about/feedproxy/public/cli_context.h: a
-- server over libevent with a pool of connection contexts. The state of the service holds its
-- contexts, by the order in which they were made: a `CContext*` is such a number. A socket is a
-- number. What libevent answers is a parameter. `none` is undefined behaviour: `front` of an empty
-- list, an iterator whose element was erased, or a fault of the parts that are called. Each operation is
-- taken as one step, as it is where one thread runs the loop; the mutexes of the service guard one container each, and
-- `Close` takes none. The callbacks of the handle are taken not to call the service back, as those of
-- levservice/main.cpp, which only print.
pub mod Server
pub mod Monitor
pub mod Pool
pub mod Closing
pub mod Accepting
pub mod Watching
pub mod Events
pub mod Opening
pub mod Shutdown
pub mod Load
mod Tests
use demo_code.Prelude.{
  ℕ, ◌+◌, ◌==◌, u32, sub_u32, Bool, true, false, if◌then◌else◌, List, [], ◌∷◌, ◌++◌, Option, none,
  some, ◌>>=◌,
}
use demo_code.Prelude.Occurs.{contains, erase}
use demo_code.EvLoop.{EvLoop, decrement, get_work_loop}
use demo_code.Circular.{CircularBuffer}

-- `cli_bev_`: the loop that it stands in, and its socket, `none` for -1.
pub record Bufferevent : Type 0 where
  pub base : ℕ
  pub fd : Option ℕ

pub record Context : Type 0 where
  pub is_initialize : Bool
  pub is_exit : Bool
  pub is_connected : Bool
  pub cli_bev : Option Bufferevent
  -- `recv_buffer_` is not null.
  pub has_buffer : Bool
  -- `ctx_any_`: the idle entry that it points at weakly.
  pub entry : Option ℕ

pub record Service : Type 0 where
  pub loop : EvLoop
  pub contexts : ℕ → Context
  pub is_initialize : Bool
  pub is_start : Bool
  pub is_exit : Bool
  pub max_conn : ℕ
  pub current_conn : ℕ
  pub is_auto_monitor_client : Bool
  -- `listener_` and `monitor_cli_event_` are not null.
  pub listener : Bool
  pub monitor : Bool
  -- `lst_free_conn_`, and the keys of `mp_client_conn_`, each of which has itself as its value
  pub free_conn : List ℕ
  pub clients : List ℕ
  -- the context of each `IdleConnectEntry` that was made; entry 0 is the null pointer, the first is 1
  pub entries : List ℕ
  -- `idle_cricular_buffer_`: buckets of entries
  pub idle : CircularBuffer (List ℕ)
  -- the sockets that were given to `evutil_closesocket`, the last one first
  pub closed : List ℕ

-- A write to a context.
unfoldable pub put : ℕ → Context → Service → Service
put i c s = record s { contexts = λ j. if j == i then c else s.contexts j }

unfoldable pub close_socket : Option ℕ → Service → Service
close_socket none s = s
close_socket (some fd) s = record s { closed = fd ∷ s.closed }

-- `RecycleClientConn`
unfoldable pub recycle_client_conn : ℕ → Service → Service
recycle_client_conn i s =
    if contains i s.clients
    then record s {
      clients = erase i s.clients;
      current_conn = sub_u32 s.current_conn 1;
      free_conn = s.free_conn ++ i ∷ [];
    }
    else s

-- `CliContext::Close` where `cli_bev_` is `bev`: its socket is closed and forgotten, its loop is said to have
-- one event less, and the context is recycled.
unfoldable pub close_bev : ℕ → Bufferevent → Service → Service
close_bev i bev s =
    let off =
      put i (record (s.contexts i) { cli_bev = some (record bev { fd = none }) })
        (close_socket bev.fd s) in
    let less = record off { loop = decrement bev.base off.loop } in
    let back = recycle_client_conn i less in
    put i (record (back.contexts i) { is_connected = false; is_exit = true }) back

-- `CliContext::Close`
unfoldable pub close : ℕ → Service → Service
close i s =
    let c = s.contexts i in
    if c.is_exit then s else elim c.cli_bev [
      | none ↦ put i (record c { is_exit = true }) s
      | some bev ↦ close_bev i bev s
    ]

-- `CliContext::Error` with the end of the stream or an error among its flags.
unfoldable pub error : ℕ → Service → Service
error i s = recycle_client_conn i (close i s)

-- What libevent answers in `AcceptClient`: `bufferevent_socket_new` is not null, `bufferevent_base_set` and
-- `bufferevent_setfd` are 0.
pub record Net : Type 0 where
  pub socket_new : Bool
  pub base_set : Bool
  pub setfd : Bool

-- The context is connected to a socket; `true` stands for the returned 0, `false` for -1.
unfoldable pub connect : ℕ → ℕ → ℕ → Service → Service × Bool
connect i fd base s = (
  put i
      (record (s.contexts i) {
        cli_bev = some (record { base = base; fd = some fd });
        is_connected = true;
      })
      s,
  true,
)

unfoldable pub refuse : ℕ → Service → Service × Bool
refuse fd s = (close_socket (some fd) s, false)

-- The rest of `AcceptClient` for the loop that was chosen.
unfoldable pub accept_on : Net → ℕ → ℕ → ℕ → Service → Service × Bool
accept_on net i fd base s = if base == 0 then refuse fd s else elim (s.contexts i).cli_bev [
  | none ↦ if net.socket_new then connect i fd base s else refuse fd s
  | some bev ↦
      let moved = put i (record (s.contexts i) { cli_bev = some (record bev { base = base }) }) s in
      if net.base_set
      then (if net.setfd then connect i fd base moved else refuse fd moved)
      else refuse fd s
]

-- `AcceptClient`
unfoldable pub accept_client : Net → ℕ → ℕ → Service → Option (Service × Bool)
accept_client net i fd s =
    let opened = put i (record (s.contexts i) { is_exit = false }) s in
    get_work_loop opened.loop >>= λ (base : ℕ). some (accept_on net i fd base opened)

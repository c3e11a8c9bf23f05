-- ===== src/Service/Events.antt =====
-- project_about/feedproxy/levservice/service.h: what may happen to a service that was initialized and is not
-- stopped.
use demo_code.Prelude.{
  ℕ, ◌<◌, ◌≡◌, refl, sym, ap, ◌∙◌, arith, ◌==◌, ==_iff, leb, List, [], ◌∷◌, ◌++◌, length, Bool,
  true, false, Option, some, ◌>>=◌, Bool-cases, inl, inr, leb-false,
}
use demo_code.Prelude.Occurs.{contains, contains-cons}
use demo_code.Service.{Service, Bufferevent, Net, close, error}
use demo_code.Service.Monitor.{add_conn_to_monitor, process_idl_conn, watch_client}
use demo_code.Service.Server.{join, accepted, accept_from, accept_helper}
use demo_code.Service.Pool.{IsPool, IsOpen, head_absent, lend-IsBalanced}
use demo_code.Service.Closing.{close_socket-IsPool, close-IsPool, error-IsPool}
use demo_code.Service.Accepting.{
  IsHeld, IsAccepted, with_free, accept_client-IsAccepted, give_back-IsPool,
}
use demo_code.Service.Watching.{
  watch_client-IsPool, add_conn_to_monitor-IsPool, process_idl_conn-IsPool,
}

contains_tail :
    (i j : ℕ) (xs : List ℕ) → (i == j) ≡ false → contains j (i ∷ xs) ≡ true → contains j xs ≡ true
contains_tail i j xs e g = ground (arith, contains-cons j i xs)

join-IsPool :
    (i : ℕ) (s : Service)
    → IsHeld i s
    → s.current_conn < s.max_conn
    → IsOpen (s.contexts i)
    → IsPool (join i s)
unfolding join
join-IsPool i s v h o =
    let absent = head_absent i s.free_conn v.balanced in
    rw (absent) (record {
      balanced = lend-IsBalanced i s.free_conn h v.balanced;
      opened = λ j g. elim (Bool-cases (i == j)) [
        | inl e ↦ rw (sym ((==_iff i j).0 e)) o
        | inr e ↦ v.opened j (contains_tail i j s.clients e g)
      ];
      ready = v.ready;
      buffer = v.buffer;
    })

accepted_watched :
    (i : ℕ) (t u : Service)
    → t.is_auto_monitor_client ≡ true
    → watch_client i (join i t) ≡ some u
    → accepted i (t, true) ≡ some u
unfolding accepted
accepted_watched i t u m e = simp (m) e

accepted_plain :
    (i : ℕ) (t : Service)
    → t.is_auto_monitor_client ≡ false
    → accepted i (t, true) ≡ some (join i t)
unfolding accepted
accepted_plain i t m = simp (m) refl

accepted_failed :
    (i : ℕ) (t : Service)
    → accepted i (t, false) ≡ some (with_free ((close i t).free_conn ++ i ∷ []) (close i t))
unfolding accepted
accepted_failed i t = refl

-- The context `i` is connected in the loop, and no count of a loop has changed.
abbrev pub IsServed : ℕ → ℕ → Service → Service → Type 0
IsServed i base s u =
    (u.loop ≡ s.loop)
    × ((u.contexts i).is_exit ≡ false)
    × ((b : Bufferevent) × ((u.contexts i).cli_bev ≡ some b) × (b.base ≡ base))

join-IsServed :
    (i base : ℕ) (s t : Service)
    → IsAccepted i base s t true
    → IsServed i base s (join i t) × IsOpen ((join i t).contexts i)
unfolding join
join-IsServed i base s t v =
    let (is_on, is_in, (bev, e, f)) = v.connected refl in
    ((v.loop_kept, is_on, (bev, e, f)), (is_on, is_in, (bev, e)))

join-opens : (i : ℕ) (t : Service) → (join i t).contexts i ≡ t.contexts i
unfolding join
join-opens i t = refl

pub accepted-IsPool :
    (i base : ℕ) (s t : Service) (ok : Bool)
    → s.current_conn < s.max_conn
    → IsAccepted i base s t ok
    → (u : Service) × (accepted i (t, ok) ≡ some u) × IsPool u × (ok ≡ true → IsServed i base s u)
accepted-IsPool i base s t true h v =
    let less : t.current_conn < t.max_conn = omega (arith, v.count_kept, v.max_kept) in
    let (served, opened) = join-IsServed i base s t v in
    let joined = join-IsPool i t v.held less (rw (sym (join-opens i t)) opened) in
    elim (Bool-cases t.is_auto_monitor_client) [
      | inl m ↦
          let (u, g, p, l, x, c) = watch_client-IsPool i (join i t) opened joined in
          let (bev, e, f) = served.2 in
          (u, accepted_watched i t u m g, p, λ _. (l ∙ served.0, x ∙ served.1, (bev, c ∙ e, f)))
      | inr m ↦ (_, accepted_plain i t m, joined, λ _. served)
    ]
accepted-IsPool i base s t false h v =
    (_, accepted_failed i t, give_back-IsPool i t v.held, λ e. cc)

accept_from-IsPool :
    (net : Net) (fd : ℕ) (free : List ℕ) (s : Service)
    → s.free_conn ≡ free
    → s.current_conn < s.max_conn
    → IsPool s
    → (u : Service) × (accept_from net fd free s ≡ some u) × IsPool u
unfolding accept_from
accept_from-IsPool net fd [] s e h v =
    absurd (ground (arith, ap length e, v.balanced.sized, v.balanced.bounded))
accept_from-IsPool net fd (i ∷ rest) s e h v =
    let held : IsHeld i (with_free rest s) = record {
      balanced = rw (sym e) v.balanced;
      opened = v.opened;
      ready = v.ready;
      buffer = v.buffer;
    } in
    let (base, t, ok, _, f, a) = accept_client-IsAccepted net i fd (with_free rest s) held in
    let (u, g, p, _) = accepted-IsPool i base (with_free rest s) t ok h a in (u, rw (f) g, p)

-- `AcceptHelper` returns, and keeps the pool.
pub accept_helper-IsPool :
    (net : Net) (fd : ℕ) (s : Service)
    → IsPool s
    → (u : Service) × (accept_helper net fd s ≡ some u) × IsPool u
unfolding accept_helper
accept_helper-IsPool net fd s v = elim (Bool-cases (leb s.max_conn s.current_conn)) [
  | inl full ↦ (_, rw (full) refl, close_socket-IsPool (some fd) s v)
  | inr space ↦
      rw (space)
        (accept_from-IsPool net fd s.free_conn s refl (leb-false s.max_conn s.current_conn space) v)
]

-- A connection arrives, a client is lost, a client is closed by the program, a client is seen active, and
-- the timer runs.
pub data Event : Type 0 where
  arrives : Net → ℕ → Event
  lost : ℕ → Event
  closes : ℕ → Event
  active : ℕ → Event
  timer : Event

unfoldable pub happen : Event → Service → Option Service
happen (arrives net fd) s = accept_helper net fd s
happen (lost i) s = some (error i s)
happen (closes i) s = some (close i s)
happen (active i) s = add_conn_to_monitor i s
happen timer s = process_idl_conn s

unfoldable pub run : List Event → Service → Option Service
run [] s = some s
run (e ∷ es) s = do t ← happen e s; run es t

happen-IsPool :
    (e : Event) (s : Service) → IsPool s → (t : Service) × (happen e s ≡ some t) × IsPool t
unfolding happen
happen-IsPool (arrives net fd) s v = accept_helper-IsPool net fd s v
happen-IsPool (lost i) s v = (_, refl, error-IsPool i s v)
happen-IsPool (closes i) s v = (_, refl, close-IsPool i s v)
happen-IsPool (active i) s v = add_conn_to_monitor-IsPool i s v
happen-IsPool timer s v = process_idl_conn-IsPool s v

pub run-IsPool :
    (es : List Event) (s : Service) → IsPool s → (t : Service) × (run es s ≡ some t) × IsPool t
unfolding run
run-IsPool [] s v = (s, refl, v)
run-IsPool (e ∷ es) s v = let (t, f, w) = happen-IsPool e s v in rw (f) (run-IsPool es t w)

-- ===== src/Service/Accepting.antt =====
-- project_about/feedproxy/levservice/service.h: `AcceptHelper` keeps the pool, and finds a context in it.
use demo_code.Prelude.{
  ℕ, ◌≡◌, refl, sym, ◌∙◌, arith, ◌==◌, List, [], ◌∷◌, ◌++◌, Bool, true, false, some, Bool-cases,
  Option-cases, inl, inr,
}
use demo_code.Prelude.Occurs.{contains}
use demo_code.EvLoop.{get_work_loop}
use demo_code.EvLoop.Balance.{get_work_loop-IsFirstLeast}
use demo_code.Service.{
  Service, Context, Bufferevent, Net, put, close_socket, recycle_client_conn, close_bev, close,
  connect, refuse, accept_on, accept_client,
}
use demo_code.Service.Pool.{IsPool, head_absent, rotate-IsBalanced}
use demo_code.Service.Closing.{put_self, put-IsPool, close-IsPool}

-- A service that has taken `i` off its free list.
abbrev pub with_free : List ℕ → Service → Service
with_free free s = record s { free_conn = free }

abbrev pub IsHeld : ℕ → Service → Type 0
IsHeld i s = IsPool (with_free (i ∷ s.free_conn) s)

-- The context is connected, and stands in the loop.
abbrev pub IsOn : ℕ → Context → Type 0
IsOn base c =
    (c.is_exit ≡ false)
    × (c.is_connected ≡ true)
    × ((b : Bufferevent) × (c.cli_bev ≡ some b) × (b.base ≡ base))

-- What a part of `AcceptClient` for `i` makes of such a service: `i` is connected in the loop if it
-- succeeds.
pub record IsAccepted (i base : ℕ) (s t : Service) (success : Bool) : Type 0 where
  pub held : IsHeld i t
  pub count_kept : t.current_conn ≡ s.current_conn
  pub max_kept : t.max_conn ≡ s.max_conn
  pub loop_kept : t.loop ≡ s.loop
  pub connected : success ≡ true → IsOn base (t.contexts i)

put-IsHeld : (i : ℕ) (c : Context) (s : Service) → IsHeld i s → IsHeld i (put i c s)
unfolding put
put-IsHeld i c s v =
    put-IsPool i c (with_free (i ∷ s.free_conn) s)
      (λ h. absurd (cc (h, head_absent i s.free_conn v.balanced))) v

connect-IsAccepted :
    (i fd base : ℕ) (s : Service)
    → (s.contexts i).is_exit ≡ false
    → IsHeld i s
    → IsAccepted i base s (connect i fd base s).0 (connect i fd base s).1
unfolding connect
connect-IsAccepted i fd base s h v = record {
  held = put-IsHeld i _ s v;
  count_kept = unfold put in refl;
  max_kept = unfold put in refl;
  loop_kept = unfold put in refl;
  connected = λ _. rw (put_self i _ s) (h, refl, (_, refl, refl));
}

refuse-IsAccepted :
    (i fd base : ℕ) (s : Service) → IsHeld i s → IsAccepted i base s (refuse fd s).0 (refuse fd s).1
unfolding refuse close_socket
refuse-IsAccepted i fd base s v = record {
  held = record { balanced = v.balanced; opened = v.opened; ready = v.ready; buffer = v.buffer };
  count_kept = refl;
  max_kept = refl;
  loop_kept = refl;
  connected = λ e. cc;
}

-- A write to `i` before the rest.
put-IsAccepted :
    (i base : ℕ) (c : Context) (s t : Service) (success : Bool)
    → IsAccepted i base (put i c s) t success
    → IsAccepted i base s t success
unfolding put
put-IsAccepted i base c s t success v = record {
  held = v.held;
  count_kept = v.count_kept;
  max_kept = v.max_kept;
  loop_kept = v.loop_kept;
  connected = v.connected;
}

put-is_exit : (i : ℕ) (c : Context) (s : Service) → ((put i c s).contexts i).is_exit ≡ c.is_exit
unfolding put
put-is_exit i c s = ground arith

accept_on-IsAccepted :
    (net : Net) (i fd base : ℕ) (s : Service)
    → (s.contexts i).is_exit ≡ false
    → IsHeld i s
    → IsAccepted i base s (accept_on net i fd base s).0 (accept_on net i fd base s).1
unfolding accept_on
accept_on-IsAccepted net i fd base s h v = elim (Bool-cases (base == 0)) [
  | inl z ↦ rw z (refuse-IsAccepted i fd base s v)
  | inr z ↦ elim (Option-cases (s.contexts i).cli_bev) [
    | inl e ↦ elim (Bool-cases net.socket_new) [
      | inl n ↦ rw (z) (rw (e) (rw (n) (connect-IsAccepted i fd base s h v)))
      | inr n ↦ rw (z) (rw (e) (rw (n) (refuse-IsAccepted i fd base s v)))
    ]
    | inr (bev, e) ↦
        let c : Context = record (s.contexts i) { cli_bev = some (record bev { base = base }) } in
        let v' = put-IsHeld i c s v in
        elim (Bool-cases net.base_set) [
          | inl n ↦ elim (Bool-cases net.setfd) [
            | inl m ↦ rw (z) (
                rw (e) (
                  rw (n) (
                    rw (m) (
                      put-IsAccepted i base c s _ _
                        (connect-IsAccepted i fd base (put i c s) (put-is_exit i c s ∙ h) v')))))
            | inr m ↦ rw (z) (
                rw (e) (
                  rw (n) (
                    rw (m) (
                      put-IsAccepted i base c s _ _ (refuse-IsAccepted i fd base (put i c s) v')))))
          ]
          | inr n ↦ rw (z) (rw (e) (rw (n) (refuse-IsAccepted i fd base s v)))
        ]
  ]
]

-- `AcceptClient` returns, with the context connected to the loop that `GetWorkLoop` chose, or not.
pub accept_client-IsAccepted :
    (net : Net) (i fd : ℕ) (s : Service)
    → IsHeld i s
    → (base : ℕ) × (t : Service) × (ok : Bool) × (get_work_loop s.loop ≡ some base)
      × (accept_client net i fd s ≡ some (t, ok))
      × IsAccepted i base s t ok
unfolding accept_client
accept_client-IsAccepted net i fd s v =
    let c : Context = record (s.contexts i) { is_exit = false } in
    let v' = put-IsHeld i c s v in
    let (base, _, _, e, _, _) = get_work_loop-IsFirstLeast (put i c s).loop v'.ready.0 v'.ready.1 in
    (
      base,
      _,
      _,
      unfold put in e,
      rw e refl,
      put-IsAccepted i base c s _ _
          (accept_on-IsAccepted net i fd base (put i c s) (put-is_exit i c s) v'),
    )

-- `Close` of a context that is not in the map leaves the free list alone.
close_absent :
    (i : ℕ) (free : List ℕ) (s : Service)
    → contains i s.clients ≡ false
    → (close i (with_free free s) ≡ with_free free (close i s))
      × ((close i s).free_conn ≡ s.free_conn)
unfolding close close_bev put recycle_client_conn close_socket
close_absent i free s h = elim (Bool-cases (s.contexts i).is_exit) [
  | inl x ↦ rw (x) (refl, refl)
  | inr x ↦ elim (Option-cases (s.contexts i).cli_bev) [
    | inl e ↦ rw (x) (rw (e) (refl, refl))
    | inr (bev, e) ↦ elim (Option-cases bev.fd) [
      | inl f ↦ rw (x) (rw (e) (rw (f) (rw (h) (refl, refl))))
      | inr (fd, f) ↦ rw (x) (rw (e) (rw (f) (rw (h) (refl, refl))))
    ]
  ]
]

-- A context that was not connected goes back to the end of the free list.
pub give_back-IsPool :
    (i : ℕ) (s : Service)
    → IsHeld i s
    → IsPool (with_free ((close i s).free_conn ++ i ∷ []) (close i s))
give_back-IsPool i s v =
    let absent = head_absent i s.free_conn v.balanced in
    let free = s.free_conn ++ i ∷ [] in
    let r : IsPool (with_free free s) = record {
      balanced = rotate-IsBalanced i s.free_conn v.balanced;
      opened = v.opened;
      ready = v.ready;
      buffer = v.buffer;
    } in
    let (e, f) = close_absent i free s absent in rw (f, sym e) (close-IsPool i (with_free free s) r)

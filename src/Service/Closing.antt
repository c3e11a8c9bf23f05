-- ===== src/Service/Closing.antt =====
-- project_about/feedproxy/public/cli_context.h: `Close` keeps the pool.
use demo_code.Prelude.{
  ℕ, ◌≡◌, refl, sym, ap, ◌∙◌, arith, ◌==◌, List, [], ◌∷◌, true, false, Option, none, some,
  Bool-cases, Option-cases, inl, inr,
}
use demo_code.Prelude.Occurs.{contains, erase}
use demo_code.EvLoop.{EvLoop, decrement}
use demo_code.EvLoop.Counts.{decrement-AllCounted, decrement-bases}
use demo_code.Service.{
  Service, Context, Bufferevent, put, close_socket, recycle_client_conn, close_bev, close, error,
}
use demo_code.Service.Pool.{IsPool, IsOpen, IsReady, recycle-IsBalanced, recycled_absent}

decrement-IsReady : (b : ℕ) (l : EvLoop) → IsReady l → IsReady (decrement b l)
decrement-IsReady b l r = (decrement-AllCounted b l r.0, λ e. r.1 (sym (decrement-bases b l) ∙ e))

pub put_self : (i : ℕ) (c : Context) (s : Service) → (put i c s).contexts i ≡ c
unfolding put
put_self i c s = ground arith

-- A context may be written where it stays connected, or is not in the map.
pub put-IsPool :
    (i : ℕ) (c : Context) (s : Service)
    → (contains i s.clients ≡ true → IsOpen c)
    → IsPool s
    → IsPool (put i c s)
unfolding put
put-IsPool i c s h v = record {
  balanced = v.balanced;
  opened = λ j g. elim (Bool-cases (j == i)) [
    | inl e ↦ rw e (h (ground (arith, g)))
    | inr e ↦ rw e (v.opened j g)
  ];
  ready = v.ready;
  buffer = v.buffer;
}

pub close_socket-IsPool : (fd : Option ℕ) (s : Service) → IsPool s → IsPool (close_socket fd s)
unfolding close_socket
close_socket-IsPool none s v = v
close_socket-IsPool (some fd) s v = record {
  balanced = v.balanced;
  opened = v.opened;
  ready = v.ready;
  buffer = v.buffer;
}

pub close_socket-clients : (fd : Option ℕ) (s : Service) → (close_socket fd s).clients ≡ s.clients
unfolding close_socket
close_socket-clients none s = refl
close_socket-clients (some fd) s = refl

contains-erase : (j i : ℕ) (xs : List ℕ) → contains j (erase i xs) ≡ true → contains j xs ≡ true
unfolding contains erase
contains-erase j i [] h = h
contains-erase j i (x ∷ xs) h = ground (arith, contains-erase j i xs)

-- After `RecycleClientConn` the context is not in the map.
pub recycle_client_conn-absent :
    (i : ℕ) (s : Service) → IsPool s → contains i (recycle_client_conn i s).clients ≡ false
unfolding recycle_client_conn
recycle_client_conn-absent i s v = elim (Bool-cases (contains i s.clients)) [
  | inl h ↦ rw h (recycled_absent i s.free_conn h v.balanced)
  | inr h ↦ rw h h
]

pub recycle_client_conn-IsPool : (i : ℕ) (s : Service) → IsPool s → IsPool (recycle_client_conn i s)
unfolding recycle_client_conn
recycle_client_conn-IsPool i s v = elim (Bool-cases (contains i s.clients)) [
  | inl h ↦ rw h (record {
    balanced = recycle-IsBalanced i s.free_conn h v.balanced;
    opened = λ j g. v.opened j (contains-erase j i s.clients g);
    ready = v.ready;
    buffer = v.buffer;
  })
  | inr h ↦ rw h v
]

put-clients : (i : ℕ) (c : Context) (s : Service) → (put i c s).clients ≡ s.clients
unfolding put
put-clients i c s = refl

close_bev-IsPool :
    (i : ℕ) (bev : Bufferevent) (s : Service)
    → (s.contexts i).cli_bev ≡ some bev
    → IsPool s
    → IsPool (close_bev i bev s) × (contains i (close_bev i bev s).clients ≡ false)
unfolding close_bev
close_bev-IsPool i bev s e v =
    let s1 = close_socket bev.fd s in
    let bev' : Bufferevent = record bev { fd = none } in
    let c : Context = record (s.contexts i) { cli_bev = some bev' } in
    let off = put i c s1 in
    let still : contains i s1.clients ≡ true → IsOpen c = λ h.
      let o = v.opened i (rw (sym (close_socket-clients bev.fd s)) h) in (o.0, o.1, (bev', refl)) in
    let v1 : IsPool off = put-IsPool i c s1 still (close_socket-IsPool bev.fd s v) in
    let less : Service = record off { loop = decrement bev.base off.loop } in
    let v2 : IsPool less = record {
      balanced = v1.balanced;
      opened = v1.opened;
      ready = decrement-IsReady bev.base off.loop v1.ready;
      buffer = v1.buffer;
    } in
    let back = recycle_client_conn i less in
    let gone : contains i back.clients ≡ false = recycle_client_conn-absent i less v2 in
    let left : Context = record (back.contexts i) { is_connected = false; is_exit = true } in
    (
      put-IsPool i left back (λ h. absurd (cc (gone, h))) (recycle_client_conn-IsPool i less v2),
      ap (contains i) (put-clients i left back) ∙ gone,
    )

-- `Close` of a client takes it out of the map.
pub close-absent :
    (i : ℕ) (s : Service)
    → contains i s.clients ≡ true
    → IsPool s
    → contains i (close i s).clients ≡ false
unfolding close
close-absent i s h v =
    let (x, _, (bev, e)) = v.opened i h in rw (x) (rw (e) (close_bev-IsPool i bev s e v).1)

pub close-IsPool : (i : ℕ) (s : Service) → IsPool s → IsPool (close i s)
unfolding close
close-IsPool i s v = elim (Bool-cases (s.contexts i).is_exit) [
  | inl h ↦ rw h v
  | inr h ↦ rw h (elim (Option-cases (s.contexts i).cli_bev) [
    | inl e ↦ rw (e) (put-IsPool i _ s (λ h'. absurd (ground (arith, v.opened i h', e))) v)
    | inr (bev, e) ↦ rw (e) (close_bev-IsPool i bev s e v).0
  ])
]

pub error-IsPool : (i : ℕ) (s : Service) → IsPool s → IsPool (error i s)
unfolding error
error-IsPool i s v = recycle_client_conn-IsPool i (close i s) (close-IsPool i s v)

-- ===== src/Service/Watching.antt =====
-- project_about/feedproxy/levservice/service.h: the idle entries keep the pool.
use demo_code.Prelude.{
  ℕ, suc, ◌≡◌, refl, ap, ◌∙◌, arith, ◌==◌, if◌then◌else◌, List, [], ◌∷◌, ◌++◌, length, some,
  Bool-cases, Option-cases, inl, inr, ◌||◌,
}
use demo_code.Prelude.Occurs.{contains}
use demo_code.Circular.{CircularBuffer}
use demo_code.Circular.Invariant.{IsValid}
use demo_code.Circular.Queue.{push-Pushed}
use demo_code.Service.{Service, Context, put}
use demo_code.Service.Monitor.{
  insert_back, watch, watch_client, is_held, add_conn_to_monitor, target, expire, expire_all,
  let_go, process_idl_conn,
}
use demo_code.Service.Pool.{IsPool, IsOpen}
use demo_code.Service.Closing.{put_self, put-IsPool, close-IsPool}

length-insert_back : (e : ℕ) (bs : List (List ℕ)) → length (insert_back e bs) ≡ length bs
unfolding insert_back
length-insert_back e [] = refl
length-insert_back e (b ∷ []) = refl
length-insert_back e (b ∷ c ∷ bs) = ap suc (length-insert_back e (c ∷ bs))

-- A service with another buffer.
abbrev with_idle : CircularBuffer (List ℕ) → Service → Service
with_idle buffer s = record s { idle = buffer }

abbrev with_back : ℕ → CircularBuffer (List ℕ) → CircularBuffer (List ℕ)
with_back e b = record b { data_lst = insert_back e b.data_lst }

idle-IsPool :
    (b : CircularBuffer (List ℕ)) (s : Service) → IsValid b → IsPool s → IsPool (with_idle b s)
idle-IsPool b s h v = record {
  balanced = v.balanced;
  opened = v.opened;
  ready = v.ready;
  buffer = h;
}

insert_back-IsValid : (e : ℕ) (b : CircularBuffer (List ℕ)) → IsValid b → IsValid (with_back e b)
insert_back-IsValid e b v =
    let n = length-insert_back e b.data_lst in
    record {
      room = v.room;
      small = v.small;
      counted = omega (arith, v.counted);
      free_counted = v.free_counted;
      nodes = omega (arith, v.nodes);
      fits = omega (arith, v.fits);
    }

-- The buffer with a bucket at its end.
pub watch-IsPool :
    (e : ℕ) (s : Service)
    → IsPool s
    → (t : Service) × (watch e s ≡ some t)
      × IsPool t
      × (t.loop ≡ s.loop)
      × (t.contexts ≡ s.contexts)
unfolding watch
watch-IsPool e s v =
    let (c, pushed, made) = push-Pushed [] [] s.idle v.buffer in
    elim (Bool-cases (s.idle.data_size == 0)) [
      | inl z ↦ (
        _,
        rw (z) (rw (pushed) refl),
        idle-IsPool (with_back e c) s (insert_back-IsValid e c made.0) v,
        refl,
        refl,
      )
      | inr z ↦ (
        _,
        rw (z) refl,
        idle-IsPool (with_back e s.idle) s (insert_back-IsValid e s.idle v.buffer) v,
        refl,
        refl,
      )
    ]

pub watch_client-IsPool :
    (i : ℕ) (s : Service)
    → IsOpen (s.contexts i)
    → IsPool s
    → (t : Service) × (watch_client i s ≡ some t)
      × IsPool t
      × (t.loop ≡ s.loop)
      × ((t.contexts i).is_exit ≡ (s.contexts i).is_exit)
      × ((t.contexts i).cli_bev ≡ (s.contexts i).cli_bev)
unfolding watch_client
watch_client-IsPool i s h v =
    let e = suc (length s.entries) in
    let made : Service = record s { entries = s.entries ++ i ∷ [] } in
    let v' : IsPool made = record {
      balanced = v.balanced;
      opened = v.opened;
      ready = v.ready;
      buffer = v.buffer;
    } in
    let c : Context = record (s.contexts i) { entry = some e } in
    let (t, f, p, l, k) = watch-IsPool e (put i c made) (put-IsPool i c made (λ _. h) v') in
    let at_i : t.contexts i ≡ c = ap (λ (g : ℕ → Context). g i) k ∙ put_self i c made in
    (
      t,
      f,
      p,
      unfold put in l,
      ap (λ (x : Context). x.is_exit) at_i,
      ap (λ (x : Context). x.cli_bev) at_i,
    )

pub add_conn_to_monitor-IsPool :
    (i : ℕ) (s : Service) → IsPool s → (t : Service) × (add_conn_to_monitor i s ≡ some t) × IsPool t
unfolding add_conn_to_monitor
add_conn_to_monitor-IsPool i s v = elim (Option-cases (s.contexts i).entry) [
  | inl e ↦ (s, rw (e, add_conn_to_monitor) refl, v)
  | inr (x, e) ↦
      let (t, f, g, _, _) = watch-IsPool (if is_held x s.idle.data_lst then x else 0) s v in
      (t, rw (e, add_conn_to_monitor) f, g)
]

expire-IsPool : (e : ℕ) (s : Service) → IsPool s → IsPool (expire e s)
unfolding expire
expire-IsPool e s v = elim (Option-cases (target e s)) [
  | inl h ↦ rw (h, expire) v
  | inr (i, h) ↦ elim (Bool-cases (contains i s.free_conn || contains i s.clients)) [
    | inl x ↦ rw (h, expire) (rw (x) (close-IsPool i s v))
    | inr x ↦ rw (h, expire) (rw (x) v)
  ]
]

expire_all-IsPool :
    (es : List ℕ) (held : List (List ℕ)) (s : Service) → IsPool s → IsPool (expire_all es held s)
unfolding expire_all
expire_all-IsPool [] held s v = v
expire_all-IsPool (e ∷ es) held s v = elim (Bool-cases (is_held e held)) [
  | inl h ↦ rw (h) (expire_all-IsPool es held s v)
  | inr h ↦ rw (h) (expire_all-IsPool es held (expire e s) (expire-IsPool e s v))
]

pub process_idl_conn-IsPool :
    (s : Service) → IsPool s → (t : Service) × (process_idl_conn s ≡ some t) × IsPool t
unfolding process_idl_conn
process_idl_conn-IsPool s v =
    let (c, pushed, made) = push-Pushed [] [] s.idle v.buffer in
    (
      _,
      rw (pushed) refl,
      expire_all-IsPool (let_go s.idle.data_lst c.data_lst) c.data_lst (with_idle c s)
          (idle-IsPool c s made.0 v),
    )

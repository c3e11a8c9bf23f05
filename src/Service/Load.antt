-- ===== src/Service/Load.antt =====
-- project_about/feedproxy/levservice/service.h with ev_loop.cpp: the counts of the loops while clients come and
-- go. `AcceptClient` asks for the loop with the least count and does not increment it, `Close` decrements it.
use mathlib.Core.Path.{subst}
use demo_code.Prelude.{
  ℕ, ◌-◌, ◌<◌, ◌^◌, ◌≡◌, ◌≢◌, refl, sym, ap, ◌∙◌, arith, ◌==◌, sub_u32, if◌then◌else◌, leb,
  leb-false, lt→leb, List, [], ◌∷◌, length, map, Bool, true, false, some, Bool-cases, Option-cases,
  inl, inr,
}
use demo_code.Prelude.Occurs.{contains}
use demo_code.EvLoop.{EvLoop, find_count, decrement, get_work_loop}
use demo_code.EvLoop.Counts.{find_count-change}
use demo_code.Service.{
  Service, Bufferevent, Net, put, close_socket, recycle_client_conn, close_bev, close, connect,
  accept_on, accept_client,
}
use demo_code.Service.Server.{accept_from, accept_helper}
use demo_code.Service.Pool.{IsPool}
use demo_code.Service.Closing.{close_socket-IsPool}
use demo_code.Service.Accepting.{IsHeld, with_free, accept_client-IsAccepted}
use demo_code.Service.Events.{arrives, happen, run, IsServed, accepted-IsPool}

-- libevent does what it is asked for.
abbrev pub good : Net
good = record { socket_new = true; base_set = true; setfd = true }

accept_on-good : (i fd base : ℕ) (s : Service) → base ≢ 0 → (accept_on good i fd base s).1 ≡ true
unfolding accept_on connect
accept_on-good i fd base s h = ground arith

accept_client_chosen :
    (i fd base : ℕ) (s : Service)
    → get_work_loop s.loop ≡ some base
    → accept_client good i fd s
      ≡ some (accept_on good i fd base (put i (record (s.contexts i) { is_exit = false }) s))
unfolding accept_client put
accept_client_chosen i fd base s e = rw (e) refl

accept_client-good :
    (i fd base : ℕ) (s t : Service) (ok : Bool)
    → get_work_loop s.loop ≡ some base
    → base ≢ 0
    → accept_client good i fd s ≡ some (t, ok)
    → ok ≡ true
accept_client-good i fd base s t ok e h f =
    let opened = put i (record (s.contexts i) { is_exit = false }) s in
    let g = sym (accept_client_chosen i fd base s e) ∙ f in
    ground (arith, g, accept_on-good i fd base opened h)

-- A connection that arrives where there is room.
served :
    (fd i base : ℕ) (rest : List ℕ) (s : Service)
    → s.free_conn ≡ i ∷ rest
    → IsPool s
    → s.current_conn < s.max_conn
    → get_work_loop s.loop ≡ some base
    → base ≢ 0
    → (u : Service) × (accept_helper good fd s ≡ some u) × IsPool u × IsServed i base s u
unfolding accept_helper accept_from
served fd i base rest s e v room choice h =
    let held : IsHeld i (with_free rest s) = record {
      balanced = rw (sym e) v.balanced;
      opened = v.opened;
      ready = v.ready;
      buffer = v.buffer;
    } in
    let (base', t, ok, c, f, a) = accept_client-IsAccepted good i fd (with_free rest s) held in
    let same : base' ≡ base = ground (arith, c, choice) in
    let okay = accept_client-good i fd base (with_free rest s) t ok choice h f in
    let (u, g, p, q) = accepted-IsPool i base' (with_free rest s) t ok room a in
    let space : leb s.max_conn s.current_conn ≡ false = lt→leb _ _ room in
    (u, rw (space) (rw (e) (rw (f) g)), p, subst (λ b. IsServed i b s u) same (q okay))

close-loop :
    (i : ℕ) (bev : Bufferevent) (s : Service)
    → (s.contexts i).is_exit ≡ false
    → (s.contexts i).cli_bev ≡ some bev
    → (close i s).loop ≡ decrement bev.base s.loop
unfolding close close_bev put recycle_client_conn close_socket
close-loop i bev s x e = elim (Option-cases bev.fd) [
  | inl f ↦ elim (Bool-cases (contains i s.clients)) [
    | inl h ↦ rw (x) (rw (e) (rw (f) (rw (h) refl)))
    | inr h ↦ rw (x) (rw (e) (rw (f) (rw (h) refl)))
  ]
  | inr (fd, f) ↦ elim (Bool-cases (contains i s.clients)) [
    | inl h ↦ rw (x) (rw (e) (rw (f) (rw (h) refl)))
    | inr h ↦ rw (x) (rw (e) (rw (f) (rw (h) refl)))
  ]
]

-- `Decrement` takes one from the count of the loop, which goes round below 0.
decrement-count :
    (base n : ℕ) (l : EvLoop)
    → base ≢ 0
    → find_count base l.counts ≡ some n
    → find_count base (decrement base l).counts ≡ some (sub_u32 n 1)
unfolding decrement
decrement-count base n l h f =
    ground (arith, find_count-change (λ n. sub_u32 n 1) base base n l.counts f)

-- A connection arrives at a service that has room, `GetWorkLoop` chooses a loop with the count n, and
-- libevent does what it is asked for. Then the context `i` at the head of the free list is connected,
-- and no count of a loop has changed. When that client is closed, the count of its loop is n - 1, or
-- 2 ^ 32 - 1 if n was 0.
pub accept_helper-close-count :
    (fd i base n : ℕ) (rest : List ℕ) (s : Service)
    → s.free_conn ≡ i ∷ rest
    → IsPool s
    → s.current_conn < s.max_conn
    → get_work_loop s.loop ≡ some base
    → base ≢ 0
    → find_count base s.loop.counts ≡ some n
    → n < 2 ^ 32
    → (u : Service) × (accept_helper good fd s ≡ some u)
      × (u.loop ≡ s.loop)
      × (find_count base (close i u).loop.counts ≡ some (if n == 0 then 2 ^ 32 - 1 else n - 1))
accept_helper-close-count fd i base n rest s e v room choice h c small =
    let (u, f, p, s') = served fd i base rest s e v room choice h in
    let (l, x, (bev, g, k)) = s' in
    let at_base : (close i u).loop ≡ decrement base s.loop =
      close-loop i bev u x g ∙ ap (λ b. decrement b u.loop) k ∙ ap (decrement base) l in
    let word : sub_u32 n 1 ≡ (if n == 0 then 2 ^ 32 - 1 else n - 1) = ground (arith, small) in
    (
      u,
      f,
      l,
      ap (λ (x : EvLoop). find_count base x.counts) at_base
          ∙ decrement-count base n s.loop h c
          ∙ ap some word,
    )

full_closes :
    (fd : ℕ) (s : Service)
    → leb s.max_conn s.current_conn ≡ true
    → accept_helper good fd s ≡ some (close_socket (some fd) s)
unfolding accept_helper
full_closes fd s full = rw (full) refl

-- An arrival changes no count, whether there is room or not.
arrives-loop :
    (fd base : ℕ) (free : List ℕ) (s : Service)
    → s.free_conn ≡ free
    → IsPool s
    → get_work_loop s.loop ≡ some base
    → base ≢ 0
    → (u : Service) × (happen (arrives good fd) s ≡ some u) × IsPool u × (u.loop ≡ s.loop)
unfolding happen
arrives-loop fd base [] s e v choice h =
    absurd (ground (arith, ap length e, v.balanced.sized, v.balanced.bounded))
arrives-loop fd base (i ∷ rest) s e v choice h = elim (Bool-cases (leb s.max_conn s.current_conn)) [
  | inl full ↦ (
    close_socket (some fd) s,
    full_closes fd s full,
    close_socket-IsPool (some fd) s v,
    unfold close_socket in refl,
  )
  | inr space ↦
      let (u, f, p, s') =
        served fd i base rest s e v (leb-false s.max_conn s.current_conn space) choice h in
      (u, f, p, s'.0)
]

-- However many connections arrive while no client leaves, and libevent does what it is asked for, no count
-- of a loop changes, and `GetWorkLoop` chooses the same loop for the next one.
pub run-one_loop :
    (fds : List ℕ) (base : ℕ) (s : Service)
    → IsPool s
    → get_work_loop s.loop ≡ some base
    → base ≢ 0
    → (u : Service) × (run (map (arrives good) fds) s ≡ some u)
      × (u.loop ≡ s.loop)
      × (get_work_loop u.loop ≡ some base)
unfolding run
run-one_loop [] base s v choice h = (s, refl, refl, choice)
run-one_loop (fd ∷ fds) base s v choice h =
    let (t, e, p, l) = arrives-loop fd base s.free_conn s refl v choice h in
    let (u, f, k, c) = run-one_loop fds base t p (ap get_work_loop l ∙ choice) h in
    (u, rw (e) f, k ∙ l, c)

-- ===== src/LockFree/Laws.antt =====
-- Where the exchange of `m_tail` failed once, the tail does not move again while its node is there.
use demo_code.Prelude.{
  ℕ, ◌==◌, true, false, Option, none, some, ◌≡◌, ◌≢◌, ◌⊎◌, refl, arith, Bool-cases, inl, inr,
}
use demo_code.LockFree.{
  Queue, Place, idle, adding, read_tail, linked, counting, update, Step, make_node, load_tail, link,
  link_fails, swing, swing_fails, count_up, start_taking, load_head, empty_queue, not_empty,
  load_next, remove, remove_fails, count_down, take_item, delete_node, Config, Run, here, next, new,
}

-- The node at `t`, where `m_tail` points, has a node behind it that `m_tail` was not set to.
pub record IsBehind (t x : ℕ) (q : Queue) : Type 0 where
  pub tail : q.tail ≡ t
  pub more : q.next t ≡ some x
  pub there : q.live t ≡ true

-- `m_tail` points to a node that was deleted.
pub record IsDangling (t : ℕ) (q : Queue) : Type 0 where
  pub tail : q.tail ≡ t
  pub gone : q.live t ≡ false

-- The thread is not about to set `m_tail`, from `t`.
abbrev pub IsPast : ℕ → Place → Type 0
IsPast t p = (n : ℕ) → p ≢ linked n t

Step-IsBehind :
    {q r : Queue} {p s : Place} (t x : ℕ)
    → Step q p r s
    → IsBehind t x q
    → IsPast t p
    → (IsBehind t x r × IsPast t s) ⊎ IsDangling t r
unfolding update
Step-IsBehind t x (make_node q n v e) b h = inl (
  record {
    tail = b.tail;
    more = ground (arith, b.more, b.there, e);
    there = ground (arith, b.there);
  },
  λ n e. absurd (cc),
)
Step-IsBehind t x (load_tail q n) b h = inl (b, λ m e. absurd (cc))
Step-IsBehind t x (link q n t' l e) b h = inl (
  record { tail = b.tail; more = ground (arith, b.more, e); there = b.there },
  λ m k. absurd (ground (arith, b.more, e, k)),
)
Step-IsBehind t x (link_fails q n t' l) b h = inl (b, λ m e. absurd (cc))
Step-IsBehind t x (swing q n t' e) b h = absurd (h n (cc (b.tail)))
Step-IsBehind t x (swing_fails q n t') b h = inl (b, λ m e. absurd (cc))
Step-IsBehind t x (count_up q) b h =
    inl (record { tail = b.tail; more = b.more; there = b.there }, λ m e. absurd (cc))
Step-IsBehind t x (start_taking q) b h = inl (b, λ m e. absurd (cc))
Step-IsBehind t x (load_head q n e) b h = inl (b, λ m k. absurd (cc))
Step-IsBehind t x (empty_queue q n l e) b h = inl (b, λ m k. absurd (cc))
Step-IsBehind t x (not_empty q n m l e) b h = inl (b, λ m k. absurd (cc))
Step-IsBehind t x (load_next q n l) b h = inl (b, λ m k. absurd (cc))
Step-IsBehind t x (remove q n m e) b h =
    inl (record { tail = b.tail; more = b.more; there = b.there }, λ m k. absurd (cc))
Step-IsBehind t x (remove_fails q n m) b h = inl (b, λ m e. absurd (cc))
Step-IsBehind t x (count_down q n) b h =
    inl (record { tail = b.tail; more = b.more; there = b.there }, λ m e. absurd (cc))
Step-IsBehind t x (take_item q n l) b h = inl (b, λ m e. absurd (cc))
Step-IsBehind t x (delete_node q n v l) b h = elim (Bool-cases (n == t)) [
  | inl e ↦ inr (record { tail = b.tail; gone = rw (e) refl })
  | inr e ↦
      inl (record { tail = b.tail; more = b.more; there = rw (e) b.there }, λ m k. absurd (cc))
]

pub record IsStuck (t x : ℕ) (c : Config) : Type 0 where
  pub behind : IsBehind t x c.queue
  pub past : (i : ℕ) → IsPast t (c.place i)

-- On the way from `c` to `d` the node at `t` is deleted while `m_tail` points to it.
pub record Deletes (t : ℕ) (c d : Config) : Type 0 where
  pub middle : Config
  pub before : Run c middle
  pub dangling : IsDangling t middle.queue
  pub after : Run middle d

others-IsPast :
    (t i : ℕ) (p : Place) (f : ℕ → Place)
    → IsPast t p
    → ((j : ℕ) → IsPast t (f j))
    → (j : ℕ) → IsPast t (update f i p j)
unfolding update
others-IsPast t i p f h g j n = elim (Bool-cases (i == j)) [
  | inl same ↦ rw same (h n)
  | inr other ↦ rw other (g j n)
]

-- If `m_tail` points to the node `t`, which has the node `x` behind it, and no thread is about to set `m_tail` from
-- `t`, then after any steps of any threads all this is still so, or on the way the node was deleted while `m_tail`
-- pointed to it. So `m_tail` does not leave the node as long as that is not deleted.
pub Run-IsStuck : {c d : Config} (t x : ℕ) → IsStuck t x c → Run c d → IsStuck t x d ⊎ Deletes t c d
Run-IsStuck t x s here = inl s
Run-IsStuck t x s (next {d} i q p r st) = elim (Run-IsStuck t x s r) [
  | inr gone ↦ inr (record {
    middle = gone.middle;
    before = gone.before;
    dangling = gone.dangling;
    after = next i q p gone.after st;
  })
  | inl old ↦ elim (Step-IsBehind t x st old.behind (old.past i)) [
    | inl both ↦
        inl (record { behind = both.0; past = others-IsPast t i p d.place both.1 old.past })
    | inr dangling ↦ inr (record {
      middle = record { queue = q; place = update d.place i p };
      before = next i q p r st;
      dangling = dangling;
      after = here;
    })
  ]
]

-- No call has begun.
abbrev pub start : Config
start = record { queue = new; place = λ i. idle }

-- There is a run of one call of `EnQueue` on a new queue, with the exchange of `m_tail` failing, after
-- which every thread is idle and `m_tail` still points to the first node, with the new one behind it.
pub start-IsStuck :
    (v : Option ℕ) → (c : Config) × Run start c × ((i : ℕ) → c.place i ≡ idle) × IsStuck 0 1 c
unfolding update
start-IsStuck v =
    let q1 : Queue = record new {
      item = update new.item 1 v;
      next = update new.next 1 none;
      live = update new.live 1 true;
    } in
    let q2 : Queue = record q1 { next = update q1.next 0 (some 1) } in
    let q3 : Queue = record q2 { size = 1 } in
    let r1 = next 0 q1 (adding 1) here (make_node new 1 v refl) in
    let r2 = next 0 q1 (read_tail 1 0) r1 (load_tail q1 1) in
    let r3 = next 0 q2 (linked 1 0) r2 (link q1 1 0 refl refl) in
    let r4 = next 0 q2 counting r3 (swing_fails q2 1 0) in
    let r5 = next 0 q3 idle r4 (count_up q2) in
    (
      _,
      r5,
      λ i. ground arith,
      record {
        behind = record { tail = refl; more = refl; there = refl };
        past = λ i n e. absurd (ground (arith, e));
      },
    )

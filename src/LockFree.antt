-- ===== src/LockFree.antt =====
-- lock_free_queue/lock_free_queue.hpp: threads that call `EnQueue` and `DeQueue`, one access a step. A pointer
-- is the address of a node. A new node takes any address that no node has, also that of a deleted one.
-- `compare_exchange_weak` may fail with no reason. An access to a deleted node, or through a null
-- pointer, is undefined and has no step, so that a run is one without such an access.
pub mod Laws
mod Tests
use demo_code.Prelude.{
  ℕ, ◌+◌, ◌-◌, ◌^◌, ◌%◌, ◌==◌, if◌then◌else◌, Bool, true, false, Option, none, some, ◌≡◌, ◌≢◌,
}

-- The shared part: `next` and `data` of each node, and which addresses have a node.
pub record Queue : Type 0 where
  pub next : ℕ → Option ℕ
  pub item : ℕ → Option ℕ
  pub head : Option ℕ
  pub tail : ℕ
  pub size : ℕ
  pub live : ℕ → Bool

-- Where a thread stands in a call.
pub data Place : Type 0 where
  idle : Place
  -- `EnQueue`: with its node, with the tail that it read, and with the node linked
  adding : ℕ → Place
  read_tail : ℕ → ℕ → Place
  linked : ℕ → ℕ → Place
  counting : Place
  -- `DeQueue`: with the head that it read, with its successor checked, and with that read again
  taking : Place
  read_head : ℕ → Place
  checked : ℕ → Place
  read_next : ℕ → Option ℕ → Place
  removed : ℕ → Place
  -- with `m_size` reduced, and with what is returned
  counted : ℕ → Place
  returning : ℕ → Option ℕ → Place

unfoldable pub update {ℓ} : {A : Type ℓ} → (ℕ → A) → ℕ → A → ℕ → A
update f i v j = if i == j then v else f j

-- `RoughLockFreeQueue`
abbrev pub new : Queue
new = record {
  next = λ a. none;
  item = λ a. none;
  head = some 0;
  tail = 0;
  size = 0;
  live = λ a. a == 0;
}

-- One step of a thread.
pub data Step : Queue → Place → Queue → Place → Type 0 where
  make_node :
      (q : Queue) (n : ℕ) (t : Option ℕ)
      → q.live n ≡ false
      → Step q idle
          (record q {
            item = update q.item n t;
            next = update q.next n none;
            live = update q.live n true;
          })
          (adding n)
  load_tail : (q : Queue) (n : ℕ) → Step q (adding n) q (read_tail n q.tail)
  link :
      (q : Queue) (n t : ℕ)
      → q.live t ≡ true
      → q.next t ≡ none
      → Step q (read_tail n t) (record q { next = update q.next t (some n) }) (linked n t)
  link_fails : (q : Queue) (n t : ℕ) → q.live t ≡ true → Step q (read_tail n t) q (adding n)
  swing : (q : Queue) (n t : ℕ) → q.tail ≡ t → Step q (linked n t) (record q { tail = n }) counting
  swing_fails : (q : Queue) (n t : ℕ) → Step q (linked n t) q counting
  count_up : (q : Queue) → Step q counting (record q { size = (q.size + 1) % 2 ^ 32 }) idle
  start_taking : (q : Queue) → Step q idle q taking
  load_head : (q : Queue) (h : ℕ) → q.head ≡ some h → Step q taking q (read_head h)
  empty_queue :
      (q : Queue) (h : ℕ) → q.live h ≡ true → q.next h ≡ none → Step q (read_head h) q idle
  not_empty :
      (q : Queue) (h n : ℕ)
      → q.live h ≡ true
      → q.next h ≡ some n
      → Step q (read_head h) q (checked h)
  load_next : (q : Queue) (h : ℕ) → q.live h ≡ true → Step q (checked h) q (read_next h (q.next h))
  remove :
      (q : Queue) (h : ℕ) (n : Option ℕ)
      → q.head ≡ some h
      → Step q (read_next h n) (record q { head = n }) (removed h)
  remove_fails : (q : Queue) (h : ℕ) (n : Option ℕ) → Step q (read_next h n) q taking
  count_down :
      (q : Queue) (h : ℕ)
      → Step q (removed h) (record q { size = (q.size + (2 ^ 32 - 1)) % 2 ^ 32 }) (counted h)
  take_item : (q : Queue) (h : ℕ) → q.live h ≡ true → Step q (counted h) q (returning h (q.item h))
  delete_node :
      (q : Queue) (h : ℕ) (res : Option ℕ)
      → q.live h ≡ true
      → Step q (returning h res) (record q { live = update q.live h false }) idle

pub record Config : Type 0 where
  pub queue : Queue
  pub place : ℕ → Place

-- The steps of all threads, in any order.
pub data Run (c : Config) : Config → Type 0 where
  here : Run c c
  next :
      {d : Config} (i : ℕ) (q : Queue) (p : Place)
      → Run c d
      → Step d.queue (d.place i) q p
      → Run c (record { queue = q; place = update d.place i p })

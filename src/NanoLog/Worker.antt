-- ===== src/NanoLog/Worker.antt =====
-- project_about/nano_log/eddid_nano_logger.h: `NGNanoLogger`, which hands the lines to a thread that writes them.

pub mod Exit
pub mod Order
use demo_code.Prelude.{
  Bool, true, false, if◌then◌else◌, ◌&&◌, not, List, [], ◌∷◌, ◌++◌, Option, none, some, ◌≡◌,
}

-- What the logger uses of its queue (concurrentqueue.h), with the tokens of one producer and one consumer: the
-- items come out in the order in which they went in. That nothing comes out of a queue that is not empty is
-- allowed.
pub record LogQueue (A : Type 0) : Type 1 where
  pub Carrier : Type 0
  pub empty_queue : Carrier
  pub enqueue : A → Carrier → Carrier
  pub try_dequeue : Carrier → Option (A × Carrier)
  pub items : Carrier → List A
  pub items-empty_queue : items empty_queue ≡ []
  pub items-enqueue : (x : A) (q : Carrier) → items (enqueue x q) ≡ items q ++ x ∷ []
  pub items-try_dequeue :
      (q : Carrier) (x : A) (rest : Carrier)
      → try_dequeue q ≡ some (x, rest)
      → items q ≡ x ∷ items rest

-- Where the thread is: in the inner loop, in it after a `try_dequeue` that found nothing, behind it with what
-- `log_ptr` points to, behind the test of `is_exit_` as well with the line to write, or at its end.
pub data Worker (A : Type 0) : Type 0 where
  no_thread : Worker A
  looking : Worker A
  missed : Worker A
  holding : (log_ptr : Option A) → Worker A
  writing : (x : A) → Worker A
  ended : Worker A

module _ (A : Type 0) (queue : LogQueue A) where
  -- `NGNanoLogger`. `is_releasing` is that a `Release` waits for the thread, and `written` what went to the
  -- writer.
  pub record NanoLogger : Type 0 where
    pub is_initialize : Bool
    pub is_exit : Bool
    pub is_releasing : Bool
    pub log_content : queue.Carrier
    pub log_worker : Worker A
    pub written : List A

  unfoldable pub new_logger : NanoLogger
  new_logger = record {
    is_initialize = false;
    is_exit = false;
    is_releasing = false;
    log_content = queue.empty_queue;
    log_worker = no_thread;
    written = [];
  }

  unfoldable pub start_thread : Worker A → Worker A
  start_thread no_thread = looking
  start_thread w = w

  -- `Initialize`
  unfoldable pub initialize : NanoLogger → NanoLogger
  unfolding start_thread
  initialize s =
      if s.is_initialize
      then s
      else record s { log_worker = start_thread s.log_worker; is_initialize = true }

  -- `Release` up to `join`, and from there on once the thread is at its end. What the writer and the semaphore
  -- do is left out.
  unfoldable pub release : NanoLogger → NanoLogger
  release s = if s.is_initialize then record s { is_exit = true; is_releasing = true } else s

  unfoldable pub has_ended : Worker A → Bool
  has_ended no_thread = true
  has_ended ended = true
  has_ended w = false

  unfoldable pub joined : NanoLogger → NanoLogger
  unfolding has_ended
  joined s =
      if s.is_releasing && has_ended s.log_worker
      then record s { log_worker = no_thread; is_initialize = false; is_releasing = false }
      else s

  -- `Push`
  unfoldable pub push : A → NanoLogger → NanoLogger
  push x s = if s.is_initialize then record s { log_content = queue.enqueue x s.log_content } else s

  -- `try_dequeue` in the inner loop of `thread_func`. A thread that waits for the semaphore may look again at
  -- any time.
  unfoldable pub look : NanoLogger → NanoLogger
  look s = elim (queue.try_dequeue s.log_content) [
    | some p ↦ record s { log_worker = holding (some p.0); log_content = p.1 }
    | none ↦ record s { log_worker = missed }
  ]

  -- The test of `is_exit_` behind the inner loop. `log_ptr` is null only where `is_exit_` is set.
  unfoldable pub next_of : Option A → Worker A
  next_of none = looking
  next_of (some x) = writing x

  unfoldable pub test_exit : Option A → NanoLogger → NanoLogger
  unfolding next_of
  test_exit log_ptr s = record s { log_worker = if s.is_exit then ended else next_of log_ptr }

  -- `Write`, which no test of `is_exit_` stops any more, and the next round
  unfoldable pub write_log : A → NanoLogger → NanoLogger
  write_log x s = record s { log_worker = looking; written = s.written ++ x ∷ [] }

  unfoldable pub work_at : Worker A → NanoLogger → NanoLogger
  unfolding look test_exit write_log
  work_at no_thread s = s
  work_at looking s = look s
  work_at missed s = record s { log_worker = if s.is_exit then holding none else looking }
  work_at (holding log_ptr) s = test_exit log_ptr s
  work_at (writing x) s = write_log x s
  work_at ended s = s

  -- What the threads of the program do, in any order.
  pub data Event : Type 0 where
    initializes : Event
    releases : Event
    joins : Event
    pushes : (x : A) → Event
    works : Event

  unfoldable pub step : Event → NanoLogger → NanoLogger
  unfolding initialize release joined push work_at
  step initializes s = initialize s
  step releases s = release s
  step joins s = joined s
  step (pushes x) s = push x s
  step works s = work_at s.log_worker s

  unfoldable pub run : List Event → NanoLogger → NanoLogger
  unfolding step
  run [] s = s
  run (e ∷ es) s = run es (step e s)

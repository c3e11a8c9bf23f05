-- ===== src/NanoLog/Worker/Order.antt =====
-- project_about/nano_log/eddid_nano_logger.h: `NGNanoLogger` writes the lines in the order of `Push`, until
-- `Release`.
use mathlib.Core.List.{append_assoc, append-nil}
use demo_code.Prelude.{
  Bool, true, false, Bool-cases, if◌then◌else◌, ◌&&◌, List, [], ◌∷◌, ◌++◌, none, some, Option-cases,
  ◌≡◌, refl, sym, ap, ◌∙◌, inl, inr, arith,
}
use demo_code.NanoLog.Worker.{
  LogQueue, Worker, no_thread, looking, missed, holding, writing, ended, NanoLogger, initialize,
  release, joined, has_ended, start_thread, push, look, test_exit, next_of, write_log, work_at,
  Event, initializes, releases, joins, pushes, works, step, run,
}
use demo_code.NanoLog.Worker.Exit.{either, run-exit}

module _ (A : Type 0) (queue : LogQueue A) where
  -- The lines that the thread has taken and not yet written, and those in the queue.
  unfoldable pub in_hand : Worker A → List A
  in_hand (holding (some x)) = x ∷ []
  in_hand (writing x) = x ∷ []
  in_hand w = []

  unfoldable pub pending : NanoLogger A queue → List A
  unfolding in_hand
  pending s = in_hand s.log_worker ++ queue.items s.log_content

  -- The lines that a step adds, and those that a run adds: those of `Push` on an initialized logger.
  unfoldable pub added : Event A queue → NanoLogger A queue → List A
  added (pushes x) s = if s.is_initialize then x ∷ [] else []
  added ev s = []

  unfoldable pub accepted : List (Event A queue) → NanoLogger A queue → List A
  unfolding added
  accepted [] s = []
  accepted (ev ∷ events) s = added ev s ++ accepted events (step A queue ev s)

  -- What is written and what is to be written.
  unfoldable pub all_lines : NanoLogger A queue → List A
  unfolding pending
  all_lines s = s.written ++ pending s

  in_hand-start_thread : (w : Worker A) → in_hand (start_thread A queue w) ≡ in_hand w
  unfolding in_hand start_thread
  in_hand-start_thread no_thread = refl
  in_hand-start_thread looking = refl
  in_hand-start_thread missed = refl
  in_hand-start_thread (holding none) = refl
  in_hand-start_thread (holding (some x)) = refl
  in_hand-start_thread (writing x) = refl
  in_hand-start_thread ended = refl

  in_hand_ended : (w : Worker A) → has_ended A queue w ≡ true → in_hand w ≡ []
  unfolding in_hand has_ended
  in_hand_ended no_thread e = refl
  in_hand_ended looking e = cc
  in_hand_ended missed e = cc
  in_hand_ended (holding o) e = cc
  in_hand_ended (writing x) e = cc
  in_hand_ended ended e = refl

  in_hand-if :
      (b : Bool) (v w : Worker A)
      → in_hand v ≡ []
      → in_hand w ≡ []
      → in_hand (if b then v else w) ≡ []
  in_hand-if true v w e f = e
  in_hand-if false v w e f = f

  look-all_lines :
      (s : NanoLogger A queue) → all_lines (look A queue s) ≡ s.written ++ queue.items s.log_content
  unfolding look all_lines pending in_hand
  look-all_lines s = elim (Option-cases (queue.try_dequeue s.log_content)) [
    | inl e ↦ rw (e, look) refl
    | inr (p, e) ↦
        rw (e, look)
          (ap (λ xs. s.written ++ xs) (sym (queue.items-try_dequeue s.log_content p.0 p.1 e)))
  ]

  in_hand-if_not :
      (b : Bool) (v w : Worker A) → b ≡ false → in_hand (if b then v else w) ≡ in_hand w
  in_hand-if_not true v w e = cc
  in_hand-if_not false v w e = refl

  work_at-all_lines :
      (w : Worker A) (s : NanoLogger A queue)
      → s.log_worker ≡ w
      → (work_at A queue w s).is_exit ≡ false
      → all_lines (work_at A queue w s) ≡ s.written ++ (in_hand w ++ queue.items s.log_content)
  unfolding work_at test_exit next_of write_log all_lines pending in_hand
  work_at-all_lines no_thread s h e =
      ap (λ v. s.written ++ (in_hand v ++ queue.items s.log_content)) h
  work_at-all_lines looking s h e = look-all_lines s
  work_at-all_lines missed s h e =
      ap (λ xs. s.written ++ (xs ++ queue.items s.log_content))
        (in_hand-if s.is_exit (holding none) looking refl refl)
  work_at-all_lines (holding none) s h e =
      ap (λ xs. s.written ++ (xs ++ queue.items s.log_content))
        (in_hand-if s.is_exit ended looking refl refl)
  work_at-all_lines (holding (some x)) s h e =
      ap (λ xs. s.written ++ (xs ++ queue.items s.log_content))
        (in_hand-if_not s.is_exit ended (writing x) e)
  work_at-all_lines (writing x) s h e = append_assoc s.written (x ∷ []) (queue.items s.log_content)
  work_at-all_lines ended s h e = ap (λ v. s.written ++ (in_hand v ++ queue.items s.log_content)) h

  push-all_lines :
      (x : A) (s : NanoLogger A queue)
      → all_lines (push A queue x s) ≡ all_lines s ++ added (pushes x) s
  unfolding push added all_lines pending
  push-all_lines x s = elim (Bool-cases s.is_initialize) [
    | inl e ↦
        rw (e, push, added)
          (ap (λ xs. s.written ++ (in_hand s.log_worker ++ xs))
              (queue.items-enqueue x s.log_content)
            ∙ ap (λ xs. s.written ++ xs)
                (sym (append_assoc (in_hand s.log_worker) (queue.items s.log_content) (x ∷ [])))
            ∙ sym (append_assoc s.written (pending s) (x ∷ [])))
    | inr e ↦ rw (e, push, added) (sym (append-nil (all_lines s)))
  ]

  joined-all_lines : (s : NanoLogger A queue) → all_lines (joined A queue s) ≡ all_lines s
  unfolding joined all_lines pending in_hand
  joined-all_lines s = elim (Bool-cases (s.is_releasing && has_ended A queue s.log_worker)) [
    | inl e ↦
        let over : has_ended A queue s.log_worker ≡ true = ground (arith, e) in
        rw (e, joined)
          (ap (λ xs. s.written ++ (xs ++ queue.items s.log_content))
            (sym (in_hand_ended s.log_worker over)))
    | inr e ↦ rw (e, joined) refl
  ]

  step-all_lines :
      (ev : Event A queue) (s : NanoLogger A queue)
      → (step A queue ev s).is_exit ≡ false
      → all_lines (step A queue ev s) ≡ all_lines s ++ added ev s
  unfolding step added all_lines pending initialize release
  step-all_lines initializes s e =
      either A queue (λ t. all_lines t ≡ all_lines s) s.is_initialize _ _ refl
        (ap (λ xs. s.written ++ (xs ++ queue.items s.log_content))
          (in_hand-start_thread s.log_worker))
      ∙ sym (append-nil (all_lines s))
  step-all_lines releases s e =
      either A queue (λ t. all_lines t ≡ all_lines s) s.is_initialize _ _ refl refl
      ∙ sym (append-nil (all_lines s))
  step-all_lines joins s e = joined-all_lines s ∙ sym (append-nil (all_lines s))
  step-all_lines (pushes x) s e = push-all_lines x s
  step-all_lines works s e =
      work_at-all_lines s.log_worker s refl e ∙ sym (append-nil (all_lines s))

  -- As long as no `Release` of an initialized logger has begun, what is written and what is still to be written
  -- are the lines of `Push` in their order, after those that were there before: none is lost and none is
  -- written twice.
  pub run-all_lines :
      (events : List (Event A queue)) (s : NanoLogger A queue)
      → (run A queue events s).is_exit ≡ false
      → all_lines (run A queue events s) ≡ all_lines s ++ accepted events s
  unfolding run accepted
  run-all_lines [] s e = sym (append-nil (all_lines s))
  run-all_lines (ev ∷ events) s e = elim (Bool-cases (step A queue ev s).is_exit) [
    | inl d ↦ let stays = (run-exit A queue events (step A queue ev s) d).0 in cc
    | inr d ↦
        run-all_lines events (step A queue ev s) e
        ∙ ap (λ xs. xs ++ accepted events (step A queue ev s)) (step-all_lines ev s d)
        ∙ append_assoc (all_lines s) (added ev s) (accepted events (step A queue ev s))
  ]

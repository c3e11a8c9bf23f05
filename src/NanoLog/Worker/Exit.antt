-- ===== src/NanoLog/Worker/Exit.antt =====
-- project_about/nano_log/eddid_nano_logger.h: `NGNanoLogger` after `Release`.
use mathlib.Core.List.{append-nil}
use demo_code.Prelude.{
  Bool, true, false, if◌then◌else◌, ◌&&◌, List, [], ◌∷◌, ◌++◌, none, Option-cases, ◌≡◌, refl, sym,
  ap, ◌∙◌, inl, inr, Bool-cases, arith,
}
use demo_code.NanoLog.Worker.{
  LogQueue, Worker, no_thread, looking, missed, holding, writing, ended, NanoLogger, initialize,
  release, joined, has_ended, start_thread, push, look, next_of, test_exit, write_log, work_at,
  Event, initializes, releases, joins, pushes, works, step, run,
}

module _ (A : Type 0) (queue : LogQueue A) where
  -- The line that the thread is about to write, behind its last test of `is_exit_`.
  unfoldable pub passed : Worker A → List A
  passed (writing x) = x ∷ []
  passed w = []

  unfoldable pub written_or_passed : NanoLogger A queue → List A
  unfolding passed
  written_or_passed s = s.written ++ passed s.log_worker

  passed-start_thread : (w : Worker A) → passed (start_thread A queue w) ≡ passed w
  unfolding passed start_thread
  passed-start_thread no_thread = refl
  passed-start_thread looking = refl
  passed-start_thread missed = refl
  passed-start_thread (holding o) = refl
  passed-start_thread (writing x) = refl
  passed-start_thread ended = refl

  passed_ended : (w : Worker A) → has_ended A queue w ≡ true → passed w ≡ []
  unfolding passed has_ended
  passed_ended no_thread e = refl
  passed_ended looking e = cc
  passed_ended missed e = cc
  passed_ended (holding o) e = cc
  passed_ended (writing x) e = cc
  passed_ended ended e = refl

  passed-if :
      (b : Bool) (v w : Worker A) → b ≡ true → passed v ≡ [] → passed (if b then v else w) ≡ []
  passed-if true v w e f = f
  passed-if false v w e f = cc

  -- Nothing that happens undoes the exit, or lets another line pass the test after it.
  abbrev Kept : List A → NanoLogger A queue → Type 0
  Kept lines s = (s.is_exit ≡ true) × (written_or_passed s ≡ lines)

  look-Kept : (s : NanoLogger A queue) → s.is_exit ≡ true → Kept (s.written ++ []) (look A queue s)
  unfolding look written_or_passed passed
  look-Kept s e = elim (Option-cases (queue.try_dequeue s.log_content)) [
    | inl d ↦ rw (d, look) (e, refl)
    | inr (p, d) ↦ rw (d, look) (e, refl)
  ]

  work_at-Kept :
      (w : Worker A) (s : NanoLogger A queue)
      → s.log_worker ≡ w
      → s.is_exit ≡ true
      → Kept (s.written ++ passed w) (work_at A queue w s)
  unfolding work_at test_exit write_log written_or_passed passed
  work_at-Kept no_thread s h e = (e, ap (λ v. s.written ++ passed v) h)
  work_at-Kept looking s h e = look-Kept s e
  work_at-Kept missed s h e =
      (e, ap (λ xs. s.written ++ xs) (passed-if s.is_exit (holding none) looking e refl))
  work_at-Kept (holding o) s h e =
      (e, ap (λ xs. s.written ++ xs) (passed-if s.is_exit ended (next_of A queue o) e refl))
  work_at-Kept (writing x) s h e = (e, append-nil (s.written ++ x ∷ []))
  work_at-Kept ended s h e = (e, ap (λ v. s.written ++ passed v) h)

  -- Two ways on that a test chooses from.
  pub either :
      (P : NanoLogger A queue → Type 0) (b : Bool) (s t : NanoLogger A queue)
      → P s
      → P t
      → P (if b then s else t)
  either P true s t p q = p
  either P false s t p q = q

  joined-Kept :
      (s : NanoLogger A queue) → s.is_exit ≡ true → Kept (written_or_passed s) (joined A queue s)
  unfolding joined written_or_passed
  joined-Kept s e = elim (Bool-cases (s.is_releasing && has_ended A queue s.log_worker)) [
    | inl d ↦
        let over : has_ended A queue s.log_worker ≡ true = ground (arith, d) in
        rw (d, joined) (e, ap (λ xs. s.written ++ xs) (sym (passed_ended s.log_worker over)))
    | inr d ↦ rw (d, joined) (e, refl)
  ]

  step-Kept :
      (ev : Event A queue) (s : NanoLogger A queue)
      → s.is_exit ≡ true
      → Kept (written_or_passed s) (step A queue ev s)
  unfolding step initialize release push written_or_passed
  step-Kept initializes s e =
      either (Kept (written_or_passed s)) s.is_initialize _ _ (e, refl)
        (e, ap (λ xs. s.written ++ xs) (passed-start_thread s.log_worker))
  step-Kept releases s e =
      either (Kept (written_or_passed s)) s.is_initialize _ _ (refl, refl) (e, refl)
  step-Kept joins s e = joined-Kept s e
  step-Kept (pushes x) s e =
      either (Kept (written_or_passed s)) s.is_initialize _ _ (e, refl) (e, refl)
  step-Kept works s e = work_at-Kept s.log_worker s refl e

  -- Once `is_exit_` is set, it stays set, and what is written, with the line that the thread is about to write
  -- behind its last test of `is_exit_`, stays the same, whatever is pushed, started or released afterwards: of
  -- all the lines that are in the queue or are pushed later none is written, also not by a logger that is
  -- initialized again.
  pub run-exit :
      (events : List (Event A queue)) (s : NanoLogger A queue)
      → s.is_exit ≡ true
      → ((run A queue events s).is_exit ≡ true)
        × (written_or_passed (run A queue events s) ≡ written_or_passed s)
  unfolding run
  run-exit [] s e = (e, refl)
  run-exit (ev ∷ events) s e =
      let (e₁, w₁) = step-Kept ev s e in
      let (e₂, w₂) = run-exit events (step A queue ev s) e₁ in (e₂, w₂ ∙ w₁)

-- ===== src/Debug/Session/Steps/Final.antt =====
-- A terminal debug Session stays as it is, and a requested termination is never forgotten.
use ferretd.Prelude.{
  ◌≡◌, refl, Bool, true, false, Option, none, some, List, [], ◌∷◌, done, arith, Keeps, Keeps-bind,
  Keeps-mono, Keeps-all, Keeps-if, ◌>>=◌, Outcome, nat_key,
}
use ferretd.Errors.{Error}
use ferretd.Lifecycle.CloseOperation
use ferretd.Lifecycle.CloseOperation.{
  started, CloseState, close_idle, close_started, close_finished,
}
use ferretd.Exec.Snapshots.{RuntimeFailure}
use ferretd.Exec.DebugRuntime
use ferretd.Debug.Values.{State, state_created, state_stopped, terminal, SessionSnapshot}
use ferretd.Debug.Session.{
  Session, Reply, replied, failed, subscribe, unsubscribe, begin_close, settle_rest, complete_close,
}
use ferretd.Debug.Session.Commands.{
  RuntimeEvent, start_command, run_command, request_termination, finish_termination,
}
use ferretd.Debug.Session.Steps.{
  World, Action, starts, resumes, answers, terminates, finishes_termination, subscribes,
  begins_close, unsubscribes, receives, receives_detached, closes_runtime, settles, completes_close,
  after_start, with_session, answered, step, run,
}
use ferretd.Debug.Session.Steps.Kept.{
  SameOutcome, Kept, Kept-refl, Kept-trans, run_command-Kept, start_command-Kept,
  finish_termination-Kept,
}

module _ {L : Type 0} where
  -- The Session of the world is kept.
  abbrev pub KeptIn : World L → World L → Type 0
  KeptIn w u = Kept w.session u.session

  after_start-Kept :
      (w : World L) (flag : Bool) (r : Session L × Reply (SessionSnapshot L))
      → Kept w.session r.0
      → KeptIn w (after_start w flag r)
  after_start-Kept w flag (d, replied s) k = k
  after_start-Kept w flag (d, failed e) k = k

  starts-Kept :
      (w : World L) (expected : State) (flag : Bool) (before locked : Option Error)
      → terminal expected ≡ false
      → Keeps
          (KeptIn w)
          (do r ← start_command w.session expected before locked; done (after_start w flag r))
  starts-Kept w expected flag before locked t =
      Keeps-bind (λ (r : Session L × Reply (SessionSnapshot L)). Kept w.session r.0) (KeptIn w)
        (start_command w.session expected before locked) (λ r. done (after_start w flag r))
        (start_command-Kept w.session expected before locked t) (λ r k. after_start-Kept w flag r k)

  answers-Kept :
      (materialize : Error → RuntimeFailure) (w : World L) (c : Option Bool)
      (event : Option (RuntimeEvent L)) (err : Option Error)
      → Keeps (KeptIn w) (answered materialize w c event err)
  answers-Kept materialize w none event err = Kept-refl w.session
  answers-Kept materialize w (some flag) event err =
      Keeps-bind (Kept w.session) (KeptIn w) (run_command materialize w.session event err flag)
        (λ d. done (record { session = d; command = none }))
        (run_command-Kept materialize w.session event err flag) (λ d k. k)

  with_session-Kept :
      (w : World L) (m : Outcome (Session L))
      → Keeps (Kept w.session) m
      → Keeps (KeptIn w) (do d ← m; done (with_session w d))
  with_session-Kept w m h =
      Keeps-bind (Kept w.session) (KeptIn w) m (λ d. done (with_session w d)) h (λ d k. k)

  same :
      (e d : Session L) → SameOutcome e d → (e.terminating ≡ true → d.terminating ≡ true) → Kept e d
  same e d s t = (λ u. s, t)

  complete_close-Kept :
      (d : Session L) (answer : Option Error) → Keeps (Kept d) (complete_close d answer)
  unfolding complete_close
  complete_close-Kept d answer =
      Keeps-bind (λ _. Unit {0}) (Kept d)
        (CloseOperation.finish d.close (DebugRuntime.close d.runtime answer).1)
        (λ c. done (record d { runtime = (DebugRuntime.close d.runtime answer).0; close = c }))
        (Keeps-all (λ _. Unit {0})
          (CloseOperation.finish d.close (DebugRuntime.close d.runtime answer).1) (λ _. tt))
        (λ c _. Kept-refl d)

  completes-Kept :
      (w : World L) (answer : Option Error) (s : CloseState)
      → w.session.close.state ≡ s
      → Keeps (KeptIn w) (elim w.session.close.state [
        | close_idle ↦ done w
        | close_started ↦ (do d ← complete_close w.session answer; done (with_session w d))
        | close_finished ↦ done w
      ])
  completes-Kept w answer close_idle s = rw s (Kept-refl w.session)
  completes-Kept w answer close_started s =
      rw s (
        with_session-Kept w (complete_close w.session answer)
          (complete_close-Kept w.session answer))
  completes-Kept w answer close_finished s = rw s (Kept-refl w.session)

  step-Kept :
      (materialize : Error → RuntimeFailure) (w : World L) (a : Action L)
      → Keeps (KeptIn w) (step materialize w a)
  unfolding step
  step-Kept materialize w (starts before locked) =
      starts-Kept w state_created false before locked (unfold terminal in refl)
  step-Kept materialize w (resumes flag before locked) =
      starts-Kept w state_stopped flag before locked (unfold terminal in refl)
  step-Kept materialize w (answers event err) = answers-Kept materialize w w.command event err
  step-Kept materialize w terminates = unfold request_termination in ground arith
  step-Kept materialize w finishes_termination =
      Keeps-if (KeptIn w) w.session.terminating _ _
        (λ t.
          with_session-Kept w (finish_termination w.session) (finish_termination-Kept w.session))
        (λ t. Kept-refl w.session)
  step-Kept materialize w subscribes = unfold subscribe in ground arith
  step-Kept materialize w begins_close = unfold begin_close in Kept-refl w.session
  step-Kept materialize w (unsubscribes id) = unfold unsubscribe in ground arith
  step-Kept materialize w (receives id) = Kept-refl w.session
  step-Kept materialize w (receives_detached id) = Kept-refl w.session
  step-Kept materialize w (closes_runtime answer) = Kept-refl w.session
  step-Kept materialize w (settles answer) =
      Keeps-if (KeptIn w) w.session.terminal_done _ _
        (λ t. unfold settle_rest in Kept-refl w.session) (λ t. Kept-refl w.session)
  step-Kept materialize w (completes_close answer) =
      completes-Kept w answer w.session.close.state refl

  pub run-Kept :
      (materialize : Error → RuntimeFailure) (w : World L) (actions : List (Action L))
      → Keeps (KeptIn w) (run materialize w actions)
  unfolding run
  run-Kept materialize w [] = Kept-refl w.session
  run-Kept materialize w (a ∷ rest) =
      Keeps-bind (KeptIn w) (KeptIn w) (step materialize w a) (λ u. run materialize u rest)
        (step-Kept materialize w a)
        (λ u k.
          Keeps-mono (KeptIn u) (KeptIn w) (run materialize u rest)
            (λ x j. Kept-trans w.session u.session x.session k j) (run-Kept materialize u rest))

-- ===== src/Debug/Session/Steps/Preserves.antt =====
-- Every step keeps the invariant of a debug Session and never panics.
use ferretd.Prelude.{
  u64, ◌+◌, ◌≡◌, refl, Bool, false, Option, none, some, List, [], ◌∷◌, done, Ensures, Ensures-bind,
  Ensures-if, nat_key, String, Outcome, ◌>>=◌,
}
use ferretd.Errors.{Error}
use ferretd.Lifecycle.CloseOperation.{CloseState, close_idle, close_started, close_finished}
use ferretd.Exec.Snapshots.{RuntimeFailure}
use ferretd.Exec.DebugRuntime.{DebugRuntime}
use ferretd.Debug.Values.{State, state_created, state_stopped, terminal, SessionSnapshot}
use ferretd.Debug.Watchers.Streams.{IsCurrent, IsSettled}
use ferretd.Debug.Session.{Session, Reply, replied, failed, complete_close, new_session}
use ferretd.Debug.Session.Commands.{RuntimeEvent, start_command, run_command, finish_termination}
use ferretd.Debug.Session.Steps.{
  World, Action, starts, resumes, answers, terminates, finishes_termination, subscribes,
  begins_close, unsubscribes, receives, receives_detached, closes_runtime, settles, completes_close,
  receive, after_start, with_session, answered, step, run, life,
}
use ferretd.Debug.Session.Steps.Invariant.{Inv, new_session-Inv}
use ferretd.Debug.Session.Steps.Transitions.{
  start_command-Inv, run_command-Inv, finish_termination-Inv,
}
use ferretd.Debug.Session.Steps.Observers.{
  watchers-Inv, subscribe-Inv, unsubscribe-Inv, drop_first-IsCurrent, drop_first-IsSettled,
  receive-All, receive-empty, close_runtime-Inv, request_termination-Inv, begin_close-Inv,
  settle_rest-Inv, complete_close-Inv,
}

module _ {L : Type 0} where
  -- The Session of the world satisfies the invariant.
  abbrev pub Holds : World L → Type 0
  Holds w = Inv w.session

  after_start-Holds :
      (w : World L) (flag : Bool) (r : Session L × Reply (SessionSnapshot L))
      → Inv r.0
      → Holds (after_start w flag r)
  after_start-Holds w flag (d, replied s) i = i
  after_start-Holds w flag (d, failed e) i = i

  starts-Holds :
      (w : World L) (expected : State) (flag : Bool) (before locked : Option Error)
      → terminal expected ≡ false
      → Holds w
      → Ensures Holds
          (do r ← start_command w.session expected before locked; done (after_start w flag r))
  starts-Holds w expected flag before locked t v =
      Ensures-bind (λ (r : Session L × Reply (SessionSnapshot L)). Inv r.0) Holds
        (start_command w.session expected before locked) (λ r. done (after_start w flag r))
        (start_command-Inv w.session expected before locked t v)
        (λ r i. after_start-Holds w flag r i)

  with_session-Holds :
      (w : World L) (m : Outcome (Session L))
      → Ensures Inv m
      → Ensures Holds (do d ← m; done (with_session w d))
  with_session-Holds w m h = Ensures-bind Inv Holds m (λ d. done (with_session w d)) h (λ d i. i)

  answers-Holds :
      (materialize : Error → RuntimeFailure) (w : World L) (c : Option Bool)
      (event : Option (RuntimeEvent L)) (err : Option Error)
      → Holds w
      → Ensures Holds (answered materialize w c event err)
  answers-Holds materialize w none event err v = v
  answers-Holds materialize w (some flag) event err v =
      Ensures-bind Inv Holds (run_command materialize w.session event err flag)
        (λ d. done (record { session = d; command = none }))
        (run_command-Inv materialize w.session event err flag v) (λ d i. i)

  completes-Holds :
      (w : World L) (answer : Option Error) (s : CloseState)
      → Holds w
      → w.session.close.state ≡ s
      → Ensures Holds (elim w.session.close.state [
        | close_idle ↦ done w
        | close_started ↦ (do d ← complete_close w.session answer; done (with_session w d))
        | close_finished ↦ done w
      ])
  completes-Holds w answer close_idle v s = rw s v
  completes-Holds w answer close_started v s = rw s (
      with_session-Holds w (complete_close w.session answer)
        (complete_close-Inv w.session answer v s))
  completes-Holds w answer close_finished v s = rw s v

  pub step-Holds :
      (materialize : Error → RuntimeFailure) (w : World L) (a : Action L)
      → Holds w
      → Ensures Holds (step materialize w a)
  unfolding step
  step-Holds materialize w (starts before locked) v =
      starts-Holds w state_created false before locked (unfold terminal in refl) v
  step-Holds materialize w (resumes flag before locked) v =
      starts-Holds w state_stopped flag before locked (unfold terminal in refl) v
  step-Holds materialize w (answers event err) v = answers-Holds materialize w w.command event err v
  step-Holds materialize w terminates v = request_termination-Inv w.session v
  step-Holds materialize w finishes_termination v =
      Ensures-if Holds w.session.terminating _ _
        (λ t.
          with_session-Holds w (finish_termination w.session) (finish_termination-Inv w.session v))
        (λ t. v)
  step-Holds materialize w subscribes v = subscribe-Inv w.session v
  step-Holds materialize w begins_close v = begin_close-Inv w.session v
  step-Holds materialize w (unsubscribes id) v = unsubscribe-Inv w.session id v
  step-Holds materialize w (receives id) v =
      let d = w.session in
      watchers-Inv d d.next_watcher (receive id d.watchers) d.detached v
        (receive-All (IsCurrent (u64 (d.sequence + 1))) id d.watchers
          (λ x h. drop_first-IsCurrent (u64 (d.sequence + 1)) x x.events refl h) v.current)
        (λ t. receive-empty id d.watchers (v.left t)) v.gone
  step-Holds materialize w (receives_detached id) v =
      let d = w.session in
      watchers-Inv d d.next_watcher d.watchers (receive id d.detached) v v.current v.left
        (receive-All IsSettled id d.detached (λ x h. drop_first-IsSettled x x.events refl h) v.gone)
  step-Holds materialize w (closes_runtime answer) v = close_runtime-Inv w.session answer v
  step-Holds materialize w (settles answer) v =
      Ensures-if Holds w.session.terminal_done _ _ (λ t. settle_rest-Inv w.session answer v)
        (λ t. v)
  step-Holds materialize w (completes_close answer) v =
      completes-Holds w answer w.session.close.state v refl

  pub run-Holds :
      (materialize : Error → RuntimeFailure) (w : World L) (actions : List (Action L))
      → Holds w
      → Ensures Holds (run materialize w actions)
  unfolding run
  run-Holds materialize w [] v = v
  run-Holds materialize w (a ∷ rest) v =
      Ensures-bind Holds Holds (step materialize w a) (λ u. run materialize u rest)
        (step-Holds materialize w a v) (λ u i. run-Holds materialize u rest i)

  pub life-Holds :
      (materialize : Error → RuntimeFailure) (id : String) (runtime : DebugRuntime)
      (actions : List (Action L))
      → Ensures Holds (life materialize id runtime actions)
  unfolding life
  life-Holds materialize id runtime actions =
      Ensures-bind Inv Holds (new_session id runtime)
        (λ d. run materialize (record { session = d; command = none }) actions)
        (new_session-Inv L id runtime)
        (λ d v. run-Holds materialize (record { session = d; command = none }) actions v)

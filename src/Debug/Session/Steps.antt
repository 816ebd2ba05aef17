-- ===== src/Debug/Session/Steps.antt =====
-- A debug Session and all that happens to it, in any order: the calls of the manager's methods, the
-- goroutines that run a command and that terminate, the close, and the receives of the subscribers.
pub mod Invariant
pub mod Transitions
pub mod Observers
pub mod Preserves
pub mod Kept
pub mod Final
pub mod Life
use ferretd.Prelude.{
  ℕ, Bool, true, false, Option, none, some, List, [], ◌∷◌, Outcome, done, ◌>>=◌, lookup, insert,
  nat_key, if◌then◌else◌, String,
}
use ferretd.Errors.{Error}
use ferretd.Lifecycle.CloseOperation.{close_idle, close_started, close_finished}
use ferretd.Exec.Snapshots.{RuntimeFailure}
use ferretd.Exec.DebugRuntime
use ferretd.Exec.DebugRuntime.{DebugRuntime}
use ferretd.Debug.Values.{State, state_created, state_stopped, SessionSnapshot}
use ferretd.Debug.Watchers.{DebugEventWatcher}
use ferretd.Debug.Session.{
  Session, Reply, replied, failed, new_session, subscribe, unsubscribe, begin_close, settle_rest,
  complete_close,
}
use ferretd.Debug.Session.Commands.{
  RuntimeEvent, start_command, run_command, request_termination, finish_termination,
}

-- `command` is the command whose goroutine waits for the debugger: the flag that it passes on.
pub record World (L : Type 0) : Type 0 where
  pub session : Session L
  pub command : Option Bool

-- The flag of a resumption was read at any earlier time, so it is any.
pub data Action (L : Type 0) : Type 0 where
  starts : Option Error → Option Error → Action L
  resumes : Bool → Option Error → Option Error → Action L
  answers : Option (RuntimeEvent L) → Option Error → Action L
  terminates finishes_termination subscribes begins_close : Action L
  unsubscribes receives receives_detached : ℕ → Action L
  closes_runtime settles completes_close : Option Error → Action L

module _ {L : Type 0} where
  abbrev pub drop_first : DebugEventWatcher L → DebugEventWatcher L
  drop_first w = elim w.events [ [] ↦ w | e ∷ es ↦ record w { events = es } ]

  unfoldable pub receive : ℕ → List (ℕ × DebugEventWatcher L) → List (ℕ × DebugEventWatcher L)
  receive id ws = elim (lookup id ws) [ none ↦ ws | some w ↦ insert id (drop_first w) ws ]

  -- The command's goroutine is started when the reply is a snapshot.
  abbrev pub after_start : World L → Bool → Session L × Reply (SessionSnapshot L) → World L
  after_start w flag (d, replied s) = record { session = d; command = some flag }
  after_start w flag (d, failed e) = record { session = d; command = w.command }

  abbrev pub with_session : World L → Session L → World L
  with_session w d = record w { session = d }

  abbrev pub answered :
      (Error → RuntimeFailure)
      → World L
      → Option Bool
      → Option (RuntimeEvent L)
      → Option Error
      → Outcome (World L)
  answered materialize w none event err = done w
  answered materialize w (some flag) event err = do
    d ← run_command materialize w.session event err flag
    done (record { session = d; command = none })

  -- What is not enabled changes nothing: the goroutine of `terminate` is there once termination was
  -- requested, `settleClose` goes on once `terminalDone` is closed, and only the owner completes.
  unfoldable pub step : (Error → RuntimeFailure) → World L → Action L → Outcome (World L)
  step materialize w (starts before locked) = do
    r ← start_command w.session state_created before locked
    done (after_start w false r)
  step materialize w (resumes flag before locked) = do
    r ← start_command w.session state_stopped before locked
    done (after_start w flag r)
  step materialize w (answers event err) = answered materialize w w.command event err
  step materialize w terminates = done (with_session w (request_termination w.session).0)
  step materialize w finishes_termination =
      if w.session.terminating
      then (do d ← finish_termination w.session; done (with_session w d))
      else done w
  step materialize w subscribes = done (with_session w (subscribe w.session).0)
  step materialize w begins_close = done (with_session w (begin_close w.session).0)
  step materialize w (unsubscribes id) = done (with_session w (unsubscribe id w.session))
  step materialize w (receives id) =
      done (with_session w (record w.session { watchers = receive id w.session.watchers }))
  step materialize w (receives_detached id) =
      done (with_session w (record w.session { detached = receive id w.session.detached }))
  step materialize w (closes_runtime answer) = done (
      with_session w
        (record w.session { runtime = (DebugRuntime.close w.session.runtime answer).0 }))
  step materialize w (settles answer) =
      if w.session.terminal_done
      then done (with_session w (settle_rest w.session answer))
      else done w
  step materialize w (completes_close answer) = elim w.session.close.state [
    | close_idle ↦ done w
    | close_started ↦ (do d ← complete_close w.session answer; done (with_session w d))
    | close_finished ↦ done w
  ]

  unfoldable pub run : (Error → RuntimeFailure) → World L → List (Action L) → Outcome (World L)
  run materialize w [] = done w
  run materialize w (a ∷ rest) = do v ← step materialize w a; run materialize v rest

  -- A new debug Session and what happens to it.
  unfoldable pub life :
      (Error → RuntimeFailure) → String → DebugRuntime → List (Action L) → Outcome (World L)
  life materialize id runtime actions = do
    d ← new_session id runtime
    run materialize (record { session = d; command = none }) actions

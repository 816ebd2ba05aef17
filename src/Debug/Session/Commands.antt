-- ===== src/Debug/Session/Commands.antt =====
-- The commands of a debug Session and the events that end them: session_commands.go,
-- session_lifecycle.go, session_inspection.go and session_breakpoints.go.
use ferretd.Prelude.{
  ℕ, Bool, true, false, not, ◌&&◌, ◌||◌, Option, none, some, List, [], ◌∷◌, Outcome, done, ◌>>=◌,
  if◌then◌else◌, is_some,
}
use ferretd.Errors.{
  Error, debug_session_running, debug_session_not_running, debug_session_terminal, other,
}
use ferretd.Diagnostics.{copy_slice}
use ferretd.Lifecycle.CloseOperation.{started}
use ferretd.Exec.Snapshots.{Output, RuntimeFailure, clone_output}
use ferretd.Debug.Values.{
  State, state_created, state_running, state_stopped, state_completed, state_failed,
  state_terminated, terminal, event_running, event_stopped, event_completed, event_failed,
  event_terminated, Reason, no_reason, reason_entry, reason_breakpoint, reason_step, reason_pause,
  reason_runtime_error, reason_completed, reason_terminated, other_reason, SessionSnapshot, Scope,
  scope_locals, scope_parameters,
}
use ferretd.Debug.Session.{
  Session, Reply, replied, failed, snapshot, publish, require_active, require_stopped,
}

-- The debugger's Event.
pub record RuntimeEvent (L : Type 0) : Type 0 where
  pub reason : Reason
  pub location : L
  pub hit_breakpoint_ids : List ℕ
  pub output : Option Output
  pub error : Option Error

abbrev pub is_state : State → State → Bool
is_state state_created state_created = true
is_state state_running state_running = true
is_state state_stopped state_stopped = true
is_state state_completed state_completed = true
is_state state_failed state_failed = true
is_state state_terminated state_terminated = true
is_state _ _ = false

abbrev pub is_runtime_error : Reason → Bool
is_runtime_error reason_runtime_error = true
is_runtime_error _ = false

abbrev pub materialized : (Error → RuntimeFailure) → Option Error → Option RuntimeFailure
materialized materialize none = none
materialized materialize (some e) = some (materialize e)

abbrev pub unknown_event : Option Error
unknown_event = some (other "debug execution returned an unknown event")

abbrev pub no_event : Option Error
no_event = some (other "debug execution returned no event")

module _ {L : Type 0} where
  -- `startCommand`: the context's error before and after the wait for the control mutex, and the state
  -- that the command expects. A reply with a snapshot means that the command was started.
  unfoldable pub enter_running : Session L → Session L
  enter_running d = record d {
    state = state_running;
    reason = no_reason;
    location = none;
    hit_breakpoint_ids = [];
    failure = none;
  }

  unfoldable pub start_command :
      Session L
      → State
      → Option Error
      → Option Error
      → Outcome (Session L × Reply (SessionSnapshot L))
  unfolding started publish enter_running snapshot
  start_command d expected (some e) locked = done (d, failed e)
  start_command d expected none (some e) = done (d, failed e)
  start_command d expected none none =
      if d.terminating || started d.close
      then done (d, failed debug_session_terminal)
      else if is_state d.state expected
      then (do r ← publish event_running false (enter_running d); done (r, replied (snapshot r)))
      else if is_state d.state state_running
      then done (d, failed debug_session_running)
      else done (d, failed debug_session_terminal)

  unfoldable pub start :
      Session L → Option Error → Option Error → Outcome (Session L × Reply (SessionSnapshot L))
  unfolding start_command
  start d before locked = start_command d state_created before locked

  -- `resumeCommand`, for continue and the three steps: the flag that it reads first, and the command.
  unfoldable pub resumes_runtime_error : Session L → Bool
  resumes_runtime_error d = is_state d.state state_stopped && is_runtime_error d.reason

  unfoldable pub resume_command :
      Session L → Option Error → Option Error → Outcome (Session L × Reply (SessionSnapshot L))
  unfolding start_command
  resume_command d before locked = start_command d state_stopped before locked

  -- `pause`: `d` is the Session at the check, and `later` when the debugger has answered.
  unfoldable pub pause :
      Session L → Session L → Option Error → Option Error → Reply (SessionSnapshot L)
  unfolding snapshot
  pause d later (some e) answer = failed e
  pause d later none answer =
      if is_state d.state state_running
      then elim answer [ some e ↦ failed e | none ↦ replied (snapshot later) ]
      else failed debug_session_not_running

  unfoldable pub stop : Reason → Session L → Outcome (Session L)
  unfolding publish
  stop reason d =
      publish event_stopped false
        (record d { reason = reason; failure = none; state = state_stopped })

  unfoldable pub fail : (Error → RuntimeFailure) → Option Error → Session L → Outcome (Session L)
  unfolding publish
  fail materialize err d =
      publish event_failed true
        (record d { state = state_failed; failure = materialized materialize err })

  unfoldable pub terminated : Session L → Outcome (Session L)
  unfolding publish
  terminated d = publish event_terminated true (record d { state = state_terminated })

  unfoldable pub apply_reason :
      (Error → RuntimeFailure) → Bool → RuntimeEvent L → Reason → Session L → Outcome (Session L)
  unfolding stop fail terminated publish copy_slice clone_output
  apply_reason materialize resumed event reason_entry d = stop reason_entry d
  apply_reason materialize resumed event reason_breakpoint d =
      stop reason_breakpoint (record d { hit_breakpoint_ids = copy_slice event.hit_breakpoint_ids })
  apply_reason materialize resumed event reason_step d = stop reason_step d
  apply_reason materialize resumed event reason_pause d = stop reason_pause d
  apply_reason materialize resumed event reason_runtime_error d =
      publish event_stopped false (record d {
        reason = reason_runtime_error;
        state = state_stopped;
        failure = materialized materialize event.error;
      })
  apply_reason materialize resumed event reason_completed d =
      publish event_completed true
        (record d { state = state_completed; output = clone_output event.output })
  apply_reason materialize resumed event reason_terminated d =
      if resumed && (is_some event.error && not d.terminating)
      then fail materialize event.error d
      else terminated d
  apply_reason materialize resumed event no_reason d = fail materialize unknown_event d
  apply_reason materialize resumed event (other_reason r) d = fail materialize unknown_event d

  unfoldable pub apply_runtime_event :
      (Error → RuntimeFailure) → Option (RuntimeEvent L) → Bool → Session L → Outcome (Session L)
  unfolding apply_reason fail
  apply_runtime_event materialize none resumed d = fail materialize no_event d
  apply_runtime_event materialize (some event) resumed d =
      apply_reason materialize resumed event event.reason
        (record d { location = some event.location })

  -- The output that came with an error is kept.
  abbrev pub keep_output : Option (RuntimeEvent L) → Session L → Session L
  keep_output none d = d
  keep_output (some event) d = record d { output = clone_output event.output }

  -- `runCommand` after the debugger's answer, an event and an error.
  unfoldable pub command_result :
      (Error → RuntimeFailure)
      → Option (RuntimeEvent L)
      → Option Error
      → Bool
      → Session L
      → Outcome (Session L)
  unfolding terminated fail apply_runtime_event
  command_result materialize event none resumed d = apply_runtime_event materialize event resumed d
  command_result materialize event (some e) resumed d =
      if d.terminating
      then terminated (keep_output event d)
      else fail materialize (some e) (keep_output event d)

  unfoldable pub run_command :
      (Error → RuntimeFailure)
      → Session L
      → Option (RuntimeEvent L)
      → Option Error
      → Bool
      → Outcome (Session L)
  unfolding command_result
  run_command materialize d event err resumed =
      if is_state d.state state_running
      then command_result materialize event err resumed d
      else done d

  -- `requestTermination`; the reply is whether the goroutine of `terminate` is started.
  unfoldable pub request_termination : Session L → Session L × Bool
  unfolding terminal
  request_termination d =
      if terminal d.state || d.terminating
      then (d, false)
      else (record d { terminating = true }, true)

  -- `terminate` after its `runtime.Close`.
  unfoldable pub finish_termination : Session L → Outcome (Session L)
  unfolding terminal publish
  finish_termination d =
      if terminal d.state
      then done d
      else publish event_terminated true (record d {
        state = state_terminated;
        reason = no_reason;
        location = none;
        failure = none;
      })

  -- `terminateExecution` up to its snapshot, which a later critical section takes.
  unfoldable pub terminate_execution : Session L → Option Error → Session L × Option Error
  unfolding request_termination
  terminate_execution d (some e) = (d, some e)
  terminate_execution d none = ((request_termination d).0, none)

  -- A method of session_inspection.go: the debugger's answer is asked for only while stopped.
  unfoldable pub inspect : {A : Type 0} → Session L → Option Error → Reply A → Reply A
  unfolding require_stopped
  inspect d (some e) answer = failed e
  inspect d none answer = elim (require_stopped d) [ some e ↦ failed e | none ↦ answer ]

  unfoldable pub replace_breakpoints : {A : Type 0} → Session L → Option Error → Reply A → Reply A
  unfolding require_active
  replace_breakpoints d (some e) answer = failed e
  replace_breakpoints d none answer = elim (require_active d) [ some e ↦ failed e | none ↦ answer ]

-- The loop of `scopes`: those variables that are parameters, or those that are not.
unfoldable pub select : {V : Type 0} → (V → Bool) → Bool → List V → List V
select param wanted [] = []
select param wanted (v ∷ vs) =
    let rest = select param wanted vs in
    if param v then (if wanted then v ∷ rest else rest) else (if wanted then rest else v ∷ rest)

abbrev scopes_of : {V : Type 0} → (V → Bool) → Reply (List V) → Reply (List (Scope V))
scopes_of param (failed e) = failed e
scopes_of param (replied vs) = replied (
    record { kind = scope_locals; name = "Locals"; variables = select param false vs }
    ∷ record { kind = scope_parameters; name = "Parameters"; variables = select param true vs }
    ∷ [])

unfoldable pub scopes :
    {L V : Type 0} → (V → Bool) → Session L → Option Error → Reply (List V) → Reply (List (Scope V))
unfolding inspect select
scopes param d ctx_err answer = inspect d ctx_err (scopes_of param answer)

-- ===== src/Debug/Values.antt =====
-- internal/debug/session_state.go, event.go, session_snapshot.go, scope.go and output.go. `L` is the
-- debugger's Location, and none the zero Location.
use ferretd.Prelude.{ℕ, String, Bool, true, false, Option, none, some, List}
use ferretd.Diagnostics.{copy_slice}
use ferretd.Exec.Parameters
use ferretd.Exec.Parameters.{Parameters}
use ferretd.Exec.Snapshots.{
  Output, RuntimeOptions, RuntimeFailure, clone_output, clone_runtime_failure,
}

pub data State : Type 0 where
  state_created state_running state_stopped state_completed state_failed state_terminated : State

unfoldable pub terminal : State → Bool
terminal state_created = false
terminal state_running = false
terminal state_stopped = false
terminal state_completed = true
terminal state_failed = true
terminal state_terminated = true

pub data EventKind : Type 0 where
  event_created event_running event_stopped event_completed event_failed event_terminated :
      EventKind

-- The debugger's Reason, the empty one first.
pub data Reason : Type 0 where
  no_reason reason_entry reason_breakpoint reason_step reason_pause : Reason
  reason_runtime_error reason_completed reason_terminated : Reason
  other_reason : String → Reason

pub record SessionSnapshot (L : Type 0) : Type 0 where
  pub id : String
  pub execution_session : String
  pub state : State
  pub reason : Reason
  pub location : Option L
  pub hit_breakpoint_ids : List ℕ
  pub parameters : Parameters
  pub options : RuntimeOptions
  pub output : Option Output
  pub failure : Option RuntimeFailure

unfoldable pub clone_failure : Option RuntimeFailure → Option RuntimeFailure
unfolding clone_runtime_failure
clone_failure none = none
clone_failure (some f) = some (clone_runtime_failure f)

pub record Event (L : Type 0) : Type 0 where
  pub session : String
  pub sequence : ℕ
  pub kind : EventKind
  pub snapshot : SessionSnapshot L

pub data ScopeKind : Type 0 where
  scope_locals scope_parameters : ScopeKind

pub record Scope (V : Type 0) : Type 0 where
  pub kind : ScopeKind
  pub name : String
  pub variables : List V

module _ {L : Type 0} where
  unfoldable pub clone : SessionSnapshot L → SessionSnapshot L
  unfolding clone_failure clone_output copy_slice
  clone s = record s {
    hit_breakpoint_ids = copy_slice s.hit_breakpoint_ids;
    parameters = Parameters.clone s.parameters;
    output = clone_output s.output;
    failure = clone_failure s.failure;
  }

  unfoldable pub clone_event : Event L → Event L
  clone_event e = record e { snapshot = clone e.snapshot }

-- ===== src/Exec/Snapshots.antt =====
-- internal/exec/execution_state.go, execution_snapshot.go, runtime_result.go, output.go and event.go.
use ferretd.Prelude.{ℕ, String, Bool, true, false, Option, none, some, List, map, ◌≡◌, refl}
use ferretd.Diagnostics
use ferretd.Diagnostics.{Diagnostic, copy_slice, copy_slice_lem, map-clone}
use ferretd.Exec.Parameters
use ferretd.Exec.Parameters.{Parameters}

pub data State : Type 0 where
  state_created state_running state_completed state_failed state_cancelled : State

unfoldable pub terminal : State → Bool
terminal state_created = false
terminal state_running = false
terminal state_completed = true
terminal state_failed = true
terminal state_cancelled = true

pub data EventKind : Type 0 where
  event_created event_started event_completed event_failed event_cancelled : EventKind

pub data FailureCategory : Type 0 where
  failure_session_creation failure_runtime failure_cleanup : FailureCategory

-- api.Output
pub record Output : Type 0 where
  pub content_type : String
  pub content : List ℕ

unfoldable pub clone_output : Option Output → Option Output
clone_output none = none
clone_output (some o) =
    some (record { content_type = o.content_type; content = copy_slice o.content })

pub record RuntimeOptions : Type 0 where
  pub output_content_type : String
  pub working_directory : String

pub record RuntimeFailure : Type 0 where
  pub message : String
  pub diagnostics : List Diagnostic

unfoldable pub clone_runtime_failure : RuntimeFailure → RuntimeFailure
clone_runtime_failure f = record {
  message = f.message;
  diagnostics = map Diagnostics.clone f.diagnostics;
}

pub record Failure : Type 0 where
  pub category : FailureCategory
  pub details : RuntimeFailure

unfoldable pub clone_failure : Option Failure → Option Failure
clone_failure none = none
clone_failure (some f) =
    some (record { category = f.category; details = clone_runtime_failure f.details })

pub record ExecutionSnapshot : Type 0 where
  pub id : String
  pub session : String
  pub state : State
  pub parameters : Parameters
  pub options : RuntimeOptions
  pub output : Option Output
  pub failure : Option Failure

unfoldable pub clone : ExecutionSnapshot → ExecutionSnapshot
clone s = record s {
  parameters = Parameters.clone s.parameters;
  output = clone_output s.output;
  failure = clone_failure s.failure;
}

pub record Event : Type 0 where
  pub execution : String
  pub sequence : ℕ
  pub kind : EventKind
  pub snapshot : ExecutionSnapshot

unfoldable pub clone_event : Event → Event
clone_event e = record e { snapshot = clone e.snapshot }

clone_output_eq : (o : Option Output) → clone_output o ≡ o
unfolding clone_output
clone_output_eq none = refl
clone_output_eq (some o) = rw copy_slice_lem

clone_failure_eq : (f : Option Failure) → clone_failure f ≡ f
unfolding clone_failure clone_runtime_failure
clone_failure_eq none = refl
clone_failure_eq (some f) = rw map-clone

-- A snapshot's copy shows the same values, in its parameters, its output and its failure.
pub clone_lem : (s : ExecutionSnapshot) → clone s ≡ s
unfolding clone
clone_lem s = rw (Parameters.clone_lem, clone_output_eq, clone_failure_eq)

pub clone_event_lem : (e : Event) → clone_event e ≡ e
unfolding clone_event
clone_event_lem e = rw clone_lem

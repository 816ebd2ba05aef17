-- ===== src/Exec/DebugRuntime.antt =====
-- internal/exec/debug_runtime.go: a runtime that holds the session of the debugger, and its lease.
-- CreateDebugRuntime, a method of the manager, is outside this file.
use ferretd.Prelude.{String, Bool, true, false, Option, Outcome, done, ◌>>=◌, if◌then◌else◌}
use ferretd.Errors.{Error, err_execution_canceled}
use ferretd.Exec.Parameters
use ferretd.Exec.Parameters.{Parameters}
use ferretd.Exec.Snapshots.{RuntimeOptions}
use ferretd.Exec.Runtime
use ferretd.Exec.Runtime.{ExecutionRuntime, close_session}
use ferretd.Exec.Session.{Session, release_debug_runtime}

-- `lease_released` is whether the lease's `once` has run.
pub record DebugRuntime : Type 0 where
  pub runtime : ExecutionRuntime
  pub lease_released : Bool

-- The runtime holds the debugger's session from its creation on.
unfoldable pub new_debug_runtime : ExecutionRuntime → DebugRuntime
new_debug_runtime runtime = record {
  runtime = record runtime { session = true };
  lease_released = false;
}

unfoldable pub session_id : DebugRuntime → String
session_id r = r.runtime.target.session_id

unfoldable pub parameters : DebugRuntime → Parameters
parameters r = Parameters.clone r.runtime.input.parameters

unfoldable pub options : DebugRuntime → RuntimeOptions
options r = r.runtime.input.options

-- `Close` up to its effect on the parent; `answer` is what the debugger session's Close would return.
-- The last component is whether the lease is released by this call.
unfoldable pub close : DebugRuntime → Option Error → DebugRuntime × Option Error × Bool
unfolding close_session Runtime.cancel
close r answer =
    let (closed, err) = close_session (Runtime.cancel r.runtime err_execution_canceled) answer in
    (
      record { runtime = closed; lease_released = true },
      err,
      if r.lease_released then false else true,
    )

-- `Close` with the parent Session.
unfoldable pub close_in :
    Session → DebugRuntime → Option Error → Outcome (Session × DebugRuntime × Option Error)
unfolding release_debug_runtime close
close_in parent r answer =
    let (closed, err, releases) = close r answer in
    if releases
    then (do p ← release_debug_runtime parent; done (p, closed, err))
    else done (parent, closed, err)

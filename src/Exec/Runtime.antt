-- ===== src/Exec/Runtime.antt =====
-- internal/exec/runtime.go: the context, the runtime session and the retained input of one run. What
-- the Universal runtime answers to each call is an argument.
use ferretd.Prelude.{
  ℕ, ◌+◌, String, Bool, true, false, Option, none, some, ◌≡◌, if◌then◌else◌, is_some, arith, ◌↔◌,
}
use text.Mathlib.Text.{◌==◌}
use ferretd.Errors.{Error, other, join}
use ferretd.Exec.Parameters.{Parameters}
use ferretd.Exec.Snapshots.{
  FailureCategory, failure_session_creation, failure_runtime, failure_cleanup, Output, clone_output,
  RuntimeOptions,
}

-- workspace.SourceSnapshot
pub record SourceSnapshot : Type 0 where
  pub workspace : String
  pub relative_path : String
  pub uri : String
  pub revision : ℕ

-- A Plan is known by its address.
pub record RuntimeTarget : Type 0 where
  pub session_id : String
  pub source : SourceSnapshot
  pub text : String
  pub fs_root : String
  pub plan : Option ℕ

pub record RuntimeInput : Type 0 where
  pub parameters : Parameters
  pub options : RuntimeOptions

-- `cause` is the cancellation cause of the run's context, `session` whether a runtime session is
-- held, and `close_done` whether `closeOnce` has run. `closes` counts the calls of the runtime
-- session's Close.
pub record ExecutionRuntime : Type 0 where
  pub target : RuntimeTarget
  pub input : RuntimeInput
  pub cause : Option Error
  pub session : Bool
  pub close_done : Bool
  pub close_err : Option Error
  pub closes : ℕ

pub record RuntimeRunResult : Type 0 where
  pub output : Option Output
  pub err : Option Error
  pub category : FailureCategory

-- The answers of the Universal runtime to one run: of Plan.NewSession, of Session.Run and of
-- Session.Close.
pub record RuntimeAnswers : Type 0 where
  pub session_returned : Bool
  pub session_err : Option Error
  pub run_output : Option Output
  pub run_err : Option Error
  pub session_close_err : Option Error

unfoldable pub new_execution_runtime : RuntimeTarget → RuntimeInput → ExecutionRuntime
new_execution_runtime target input = record {
  target = target;
  input = input;
  cause = none;
  session = false;
  close_done = false;
  close_err = none;
  closes = 0;
}

-- A context keeps the cause of its first cancellation.
unfoldable pub cancel : ExecutionRuntime → Error → ExecutionRuntime
cancel r cause = elim r.cause [ none ↦ record r { cause = some cause } | some c ↦ r ]

-- `closeSession`: `answer` is what Session.Close would return. The first call settles the result.
unfoldable pub close_session : ExecutionRuntime → Option Error → ExecutionRuntime × Option Error
close_session r answer =
    if r.close_done
    then (r, r.close_err)
    else (if r.session
        then (record r { close_done = true; close_err = answer; closes = r.closes + 1 }, answer)
        else (record r { close_done = true }, r.close_err))

-- NewSession failed: a session that came with the error is closed.
unfoldable pub creation_failed :
    ExecutionRuntime → RuntimeAnswers → Error → ExecutionRuntime × RuntimeRunResult
unfolding join
creation_failed r a e =
    if a.session_returned
    then (
      record r { closes = r.closes + 1 },
      record {
        output = none;
        err = join (some e) a.session_close_err;
        category = failure_session_creation;
      },
    )
    else (r, record { output = none; err = some e; category = failure_session_creation })

abbrev pub is_cleanup : Option Error → Option Error → FailureCategory
is_cleanup none (some e) = failure_cleanup
is_cleanup _ _ = failure_runtime

unfoldable pub session_ran : ExecutionRuntime → RuntimeAnswers → ExecutionRuntime × RuntimeRunResult
unfolding close_session clone_output join
session_ran r a =
    let (r', close_err) = close_session (record r { session = true }) a.session_close_err in
    (
      r',
      record {
        output = clone_output a.run_output;
        err = join a.run_err close_err;
        category = is_cleanup a.run_err close_err;
      },
    )

unfoldable pub run : ExecutionRuntime → RuntimeAnswers → ExecutionRuntime × RuntimeRunResult
unfolding creation_failed session_ran
run r a = elim a.session_err [
  | some e ↦ creation_failed r a e
  | none ↦ if a.session_returned then session_ran r a else (
    r,
    record {
      output = none;
      err = some (other "runtime returned no session");
      category = failure_session_creation;
    },
  )
]

-- `sessionOptions`: the FS root that the run gets, none when the option is left out.
unfoldable pub fs_root_option : ExecutionRuntime → Option String
fs_root_option r =
    let override = r.input.options.working_directory in
    let fs_root = if override == "" then r.target.fs_root else override in
    if fs_root == "" then none else some fs_root

-- A run succeeds exactly when a session was created without an error and both its Run and its Close
-- succeeded; it is blamed on the cleanup exactly when Close alone failed.
pub run_outcome :
    (t : RuntimeTarget) (i : RuntimeInput) (a : RuntimeAnswers)
    → let res = (run (new_execution_runtime t i) a).1 in
      ((res.err ≡ none) ↔ (
        (a.session_err ≡ none)
        × (a.session_returned ≡ true)
        × (a.run_err ≡ none)
        × (a.session_close_err ≡ none)))
      × ((res.category ≡ failure_cleanup) ↔ (
          (a.session_err ≡ none)
          × (a.session_returned ≡ true)
          × (a.run_err ≡ none)
          × (is_some a.session_close_err ≡ true)))
unfolding run new_execution_runtime
run_outcome t i a = (ground arith, ground arith)

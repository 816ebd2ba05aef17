-- ===== src/Examples/DebugSessions.antt =====
-- internal/debug/session.go and its commands at concrete inputs.
use ferretd.Prelude.{ℕ, ◌≡◌, refl, true, false, none, some, List, [], ◌∷◌, done, Ensures, ◌>>=◌}
use ferretd.Errors.{Error, other}
use ferretd.Exec.Parameters.{Parameters}
use ferretd.Exec.Snapshots.{RuntimeFailure}
use ferretd.Exec.Runtime.{RuntimeTarget, RuntimeInput, new_execution_runtime}
use ferretd.Exec.DebugRuntime.{DebugRuntime, new_debug_runtime}
use ferretd.Debug.Values.{Event, terminal, state_terminated, reason_entry}
use ferretd.Debug.Session.{snapshot, unpublished, subscribe}
use ferretd.Lifecycle.CloseOperation
use ferretd.Lifecycle.CloseOperation.{started}
use ferretd.Debug.Session.Steps.Kept.{SameOutcome}
use ferretd.Debug.Session.Commands.{RuntimeEvent, start_command, finish_termination}
use ferretd.Debug.Session.Steps.{
  World, Action, starts, resumes, answers, terminates, finishes_termination, subscribes, receives,
  step, run, life,
}
use ferretd.Debug.Session.Steps.Invariant.{kind_of}
use ferretd.Debug.Session.Steps.Life.{life_shows, termination_ends, terminal_session_final}

abbrev target : RuntimeTarget
target = record {
  session_id = "session";
  source = record {
    workspace = "w";
    relative_path = "a.fql";
    uri = "file:///w/a.fql";
    revision = 1;
  };
  text = "RETURN 1";
  fs_root = "/w";
  plan = some 0;
}

abbrev input : RuntimeInput
input = record {
  parameters = Parameters.absent;
  options = record { output_content_type = "application/json"; working_directory = "" };
}

abbrev runtime : DebugRuntime
runtime = new_debug_runtime (new_execution_runtime target input)

abbrev details : Error → RuntimeFailure
details e = record { message = "failed"; diagnostics = [] }

abbrev at_entry : RuntimeEvent ℕ
at_entry = record {
  reason = reason_entry;
  location = 3;
  hit_breakpoint_ids = [];
  output = none;
  error = none;
}

-- It stops at its entry, is resumed, and is then terminated while the command runs.
abbrev calls : List (Action ℕ)
calls =
    subscribes
    ∷ starts none none
    ∷ answers (some at_entry) none
    ∷ receives 1
    ∷ resumes false none none
    ∷ terminates
    ∷ []

life_shows_example :
    Ensures
      (λ w.
        ((event : Event ℕ) × (w.session.last_event ≡ some event)
          × (event.sequence ≡ w.session.sequence)
          × (event.kind ≡ kind_of w.session.state)
          × (event.snapshot ≡ snapshot w.session))
        × (w.session.terminal_done ≡ terminal w.session.state))
      (life details "d" runtime calls)
life_shows_example = life_shows details "d" runtime calls

termination_ends_example :
    Ensures
      (λ u. u.session.terminal_done ≡ true)
      (do
        w ← life details "d" runtime calls
        v ← step details w terminates
        x ← run details v (answers none (some (other "aborted")) ∷ [])
        step details x finishes_termination)
termination_ends_example =
    termination_ends details "d" runtime calls (answers none (some (other "aborted")) ∷ [])

abbrev over : World ℕ
unfolding unpublished
over = record {
  session = record (unpublished "d" runtime) {
    state = state_terminated;
    terminating = true;
    terminal_done = true;
  };
  command = none;
}

abbrev late : List (Action ℕ)
late =
    resumes true none none ∷ answers (some at_entry) none ∷ finishes_termination ∷ subscribes ∷ []

late_changes_nothing : run details over late ≡ done over
unfolding run step start_command finish_termination subscribe started terminal unpublished
    CloseOperation.zero_value
late_changes_nothing = refl

terminal_session_final_example : SameOutcome over.session over.session
unfolding terminal unpublished
terminal_session_final_example =
    terminal_session_final details over over late refl late_changes_nothing

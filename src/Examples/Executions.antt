-- ===== src/Examples/Executions.antt =====
-- internal/exec/execution.go at concrete inputs.
use ferretd.Lifecycle.CloseOperation.{close_started}
use ferretd.Prelude.{
  Option, ◌≡◌, ◌≢◌, refl, ◌≤◌, true, false, none, some, List, [], ◌∷◌, Outcome, done, panic,
  Ensures, All, length, ◌>>=◌, ◌↔◌, is_some, ℕ_discrete, suc, arith, lookup, ◌++◌, nat_key,
}
use ferretd.Errors.{Error, other, context_canceled}
use ferretd.Exec.Parameters.{Parameters}
use ferretd.Exec.Snapshots.{
  state_created, state_running, state_completed, terminal, failure_runtime, failure_cleanup,
  RuntimeFailure, Event,
}
use ferretd.Exec.Runtime.{
  ExecutionRuntime, RuntimeTarget, RuntimeInput, RuntimeAnswers, new_execution_runtime, run_outcome,
}
use ferretd.Exec.Runtime
use ferretd.Exec.Execution.{
  Execution, snapshot, cancel, finish, unpublished, new_execution, start, start_created, publish,
  notify, complete_close, cancel_runtime, subscribe,
}
use ferretd.Exec.Execution.Steps.{
  Action, starts, cancels, subscribes, unsubscribes, finishes, settles, step, run, life,
}
use ferretd.Exec.Execution.Bystanders.{Other}
use ferretd.Exec.Execution.Streams.{Follows}
use ferretd.Exec.Execution.Watchers.{EventWatcher}
use ferretd.Exec.Execution.Invariant.{kind_of}
use ferretd.Exec.Execution.Life.{
  life_never_panics, last_event_current, watchers_never_lag, watchers_miss_nothing,
}
use ferretd.Exec.Execution.Graph.{◌⟶◌, step-⟶}
use ferretd.Exec.Execution.Terminal.{terminal_is_final}
use ferretd.Exec.Execution.Ending.{Verdict, cancel-cancel, finish_classifies, teardown_ends}

abbrev target : RuntimeTarget
target = record {
  session_id = "session";
  source = record {
    workspace = "w";
    relative_path = "a.fql";
    uri = "file:///w/a.fql";
    revision = 1;
  };
  text = "RETURN 1";
  fs_root = "/w";
  plan = some 0;
}

abbrev input : RuntimeInput
input = record {
  parameters = Parameters.absent;
  options = record { output_content_type = "application/json"; working_directory = "" };
}

-- The session ran, and only its Close failed.
abbrev bad_close : RuntimeAnswers
bad_close = record {
  session_returned = true;
  session_err = none;
  run_output = none;
  run_err = none;
  session_close_err = some (other "close");
}

abbrev runtime : ExecutionRuntime
runtime = record {
  target = target;
  input = input;
  cause = none;
  session = false;
  close_done = false;
  close_err = none;
  closes = 0;
}

abbrev details : ExecutionRuntime → Error → RuntimeFailure
details r e = record { message = "failed"; diagnostics = [] }

abbrev watched : List Action
watched = subscribes ∷ starts none none ∷ subscribes ∷ []

life_never_panics_example :
    Ensures
      (λ e. (err : Option Error) → (complete_close e err ≡ panic) ↔ (e.close.state ≢ close_started))
      (life details "x" runtime watched)
life_never_panics_example = life_never_panics details "x" runtime watched

abbrev ended : Outcome Execution → Execution
ended (done e) = e
ended panic = unpublished "none" runtime

abbrev watched_execution : Execution
watched_execution = ended (life details "x" runtime watched)

ended-done : (P : Execution → Type 0) (m : Outcome Execution) → Ensures P m → m ≡ done (ended m)
ended-done P (done e) n = refl
ended-done P panic n = absurd n

watched_done : life details "x" runtime watched ≡ done watched_execution
watched_done =
    ended-done _ (life details "x" runtime watched) (life_never_panics details "x" runtime watched)

last_event_current_example :
    ((event : Event) × (watched_execution.last_event ≡ some event)
      × (event.sequence ≡ watched_execution.sequence)
      × (event.kind ≡ kind_of watched_execution.state)
      × (event.snapshot ≡ snapshot watched_execution))
    × (watched_execution.run_done ≡ terminal watched_execution.state)
last_event_current_example =
    last_event_current details "x" runtime watched watched_execution watched_done

watchers_never_lag_example :
    All (λ p. (p.1.errors ≡ []) × (length p.1.events ≤ 2)) watched_execution.watchers
    × All (λ p. p.1.errors ≡ []) watched_execution.detached
watchers_never_lag_example =
    watchers_never_lag details "x" runtime watched watched_execution watched_done

-- A subscriber that waits through the start and the end of a run, while another one comes and goes.
abbrev waited : List Action
waited =
    subscribes
    ∷ starts none none
    ∷ unsubscribes 4
    ∷ finishes none none failure_runtime
    ∷ settles none
    ∷ []

abbrev new_run : Execution
new_run = ended (life details "x" runtime (subscribes ∷ subscribes ∷ []))

new_run_done : life details "x" runtime (subscribes ∷ subscribes ∷ []) ≡ done new_run
new_run_done = ended-done _ _ (life_never_panics details "x" runtime (subscribes ∷ subscribes ∷ []))

new_run_lem : (new_run.next_watcher ≡ 2) × ((subscribe new_run).1.watcher ≡ some 3)
unfolding life run step new_execution unpublished publish notify subscribe ℕ_discrete terminal
new_run_lem = (refl, refl)

three_of_four : All (Other 3) waited
three_of_four = (tt, (tt, (omega arith, (tt, (tt, tt)))))

watchers_miss_nothing_example :
    ((event : Event) × ((subscribe new_run).1.current ≡ some event)
      × (event.sequence ≡ new_run.sequence))
    × Ensures
        (λ d.
          (w : EventWatcher) × (lookup 3 (d.watchers ++ d.detached) ≡ some w)
          × (w.closed ≡ terminal d.state)
          × Follows (suc new_run.sequence) w.events d.sequence)
        (run details (subscribe new_run).0 waited)
watchers_miss_nothing_example =
    watchers_miss_nothing details "x" runtime (subscribes ∷ subscribes ∷ []) waited new_run 3
      new_run_done new_run_lem.1 (omega (arith, new_run_lem.0)) three_of_four

-- Two watchers are registered, and the first of them holds the start event.
watched_counts :
    (length watched_execution.watchers ≡ 2)
    × (watched_execution.sequence ≡ 2)
    × (watched_execution.state ≡ state_running)
unfolding life run step new_execution unpublished start start_created publish notify subscribe
    ℕ_discrete
watched_counts = (refl, refl, refl)

abbrev created : Execution
unfolding unpublished
created = unpublished "x" runtime

created_cancelled : Execution
created_cancelled = ended (cancel created)

cancel-created : cancel created ≡ done created_cancelled
unfolding created_cancelled cancel unpublished publish notify
cancel-created = refl

cancel-cancel_example : cancel created_cancelled ≡ done created_cancelled
cancel-cancel_example = cancel-cancel created created_cancelled cancel-created

step-⟶_example : state_created ⟶ created_cancelled.state
unfolding unpublished
step-⟶_example = step-⟶ details created created_cancelled cancels (unfold step in cancel-created)

teardown_ends_example :
    Ensures
      (λ d. d.run_done ≡ true)
      (cancel watched_execution >>= λ c.
        finish details c none (some context_canceled) failure_runtime)
teardown_ends_example =
    teardown_ends details "x" runtime watched watched_execution none (some context_canceled)
      failure_runtime watched_done

-- A running Execution whose cancellation was requested.
abbrev interrupted : Execution
unfolding unpublished
interrupted = record (cancel_runtime (unpublished "x" runtime)) { state = state_running }

interrupted_result : Execution
interrupted_result = ended (finish details interrupted none (some context_canceled) failure_runtime)

finish-interrupted :
    finish details interrupted none (some context_canceled) failure_runtime
    ≡ done interrupted_result
unfolding interrupted_result finish publish notify unpublished Runtime.cancel
finish-interrupted = refl

finish_classifies_example :
    Verdict details interrupted none (some context_canceled) failure_runtime interrupted_result
finish_classifies_example =
    finish_classifies details interrupted interrupted_result none (some context_canceled)
      failure_runtime finish-interrupted

abbrev complete : Execution
unfolding unpublished
complete = record (unpublished "x" runtime) { state = state_completed; run_done = true }

complete_runs : run details complete (starts none none ∷ cancels ∷ []) ≡ done complete
unfolding run step start cancel unpublished
complete_runs = refl

terminal_is_final_example :
    (complete.state ≡ complete.state)
    × (complete.output ≡ complete.output)
    × (complete.failure ≡ complete.failure)
    × (complete.sequence ≡ complete.sequence)
    × (complete.last_event ≡ complete.last_event)
    × (complete.run_done ≡ complete.run_done)
unfolding unpublished terminal
terminal_is_final_example =
    terminal_is_final details complete complete (starts none none ∷ cancels ∷ []) refl complete_runs

run_outcome_example :
    let res = (Runtime.run (new_execution_runtime target input) bad_close).1 in
    ((res.err ≡ none) ↔ (
      (bad_close.session_err ≡ none)
      × (bad_close.session_returned ≡ true)
      × (bad_close.run_err ≡ none)
      × (bad_close.session_close_err ≡ none)))
    × ((res.category ≡ failure_cleanup) ↔ (
        (bad_close.session_err ≡ none)
        × (bad_close.session_returned ≡ true)
        × (bad_close.run_err ≡ none)
        × (is_some bad_close.session_close_err ≡ true)))
run_outcome_example = run_outcome target input bad_close

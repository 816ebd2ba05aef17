-- ===== src/Exec/Execution/Ending.antt =====
-- How an Execution ends: cancelling is idempotent, a finished run is classified, and a requested
-- teardown never waits in vain.
use ferretd.Prelude.{
  ◌⊎◌, ◌≢◌, ◌≡◌, refl, sym, subst, ◌∙◌, ap, Bool, true, false, Option, none, some, List, ◌>>=◌,
  done, arith, Keeps, Keeps-mono, Keeps-done, inl, inr, Bool-cases, Ensures, Ensures-bind,
  Ensures-mono, Ensures-Keeps, String,
}
use ferretd.Errors.{Error, is_canceled, err_execution_canceled}
use ferretd.Exec.Snapshots.{
  State, state_created, state_running, state_completed, state_failed, state_cancelled, terminal,
  event_cancelled, event_completed, event_failed, RuntimeFailure, FailureCategory, Output,
}
use ferretd.Exec.Runtime
use ferretd.Exec.Runtime.{ExecutionRuntime}
use ferretd.Exec.Execution.{
  Execution, publish, cancel, finish, finish_failed, was_cancelled, cancel_runtime,
}
use ferretd.Exec.Execution.Steps.{Action, life}
use ferretd.Exec.Execution.Invariant.{Inv}
use ferretd.Exec.Execution.Transitions.{cancel-Inv, finish-Inv}
use ferretd.Exec.Execution.Graph.{Same, publish-Same}
use ferretd.Exec.Execution.Life.{lived}

cancel-terminal : (e : Execution) → terminal e.state ≡ true → cancel e ≡ done e
unfolding cancel terminal
cancel-terminal e t = ground arith

runtime_twice :
    (r : ExecutionRuntime) (x : Error) → Runtime.cancel (Runtime.cancel r x) x ≡ Runtime.cancel r x
unfolding Runtime.cancel
runtime_twice r x = ground arith

cancel_twice : (e : Execution) → cancel_runtime (cancel_runtime e) ≡ cancel_runtime e
cancel_twice e = ap (λ r. record e { runtime = r }) (runtime_twice e.runtime err_execution_canceled)

cancel_running : (e : Execution) → e.state ≡ state_running → cancel e ≡ done (cancel_runtime e)
unfolding cancel
cancel_running e s = ground arith

settled_at : (e : Execution) (s : State) → e.state ≡ s → Keeps (λ d. cancel d ≡ done d) (cancel e)
unfolding cancel terminal
settled_at e state_created p =
    let gone : Execution = record (cancel_runtime e) { state = state_cancelled } in
    rw (p, cancel)
      (Keeps-mono (Same gone) (λ d. cancel d ≡ done d) (publish event_cancelled true gone)
        (λ d same. cancel-terminal d (ap terminal same.0)) (publish-Same event_cancelled true gone))
settled_at e state_running p =
    rw (p, cancel) (cancel_running (cancel_runtime e) p ∙ ap done (cancel_twice e))
settled_at e s p = rw (p, cancel) (cancel-terminal e (ap terminal p))

-- Cancelling again changes nothing, from any state.
pub cancel-cancel : (e d : Execution) → cancel e ≡ done d → cancel d ≡ done d
cancel-cancel e d h = Keeps-done (λ x. cancel x ≡ done x) (cancel e) d (settled_at e e.state refl) h

-- Not waiting to be started.
abbrev is_begun : State → Bool
is_begun state_created = false
is_begun _ = true

cancel_begun_at :
    (e : Execution) (s : State) → e.state ≡ s → Keeps (λ d. is_begun d.state ≡ true) (cancel e)
unfolding cancel
cancel_begun_at e state_created p =
    let gone : Execution = record (cancel_runtime e) { state = state_cancelled } in
    rw (p, cancel)
      (Keeps-mono (Same gone) (λ d. is_begun d.state ≡ true) (publish event_cancelled true gone)
        (λ d same. ap is_begun same.0) (publish-Same event_cancelled true gone))
cancel_begun_at e s p = rw (p, cancel) (ap is_begun p)

module _ (materialize : ExecutionRuntime → Error → RuntimeFailure) where
  -- How a finished run is classified.
  abbrev IsClassified :
      Execution → Option Output → Option Error → FailureCategory → Execution → Type 0
  IsClassified e output none category d =
      (d.state ≡ state_completed) × (d.output ≡ output) × (d.failure ≡ e.failure)
  IsClassified e output (some err) category d =
      (d.output ≡ output)
      × (was_cancelled e err ≡ true → (d.state ≡ state_cancelled) × (d.failure ≡ e.failure))
      × (was_cancelled e err ≡ false
          → (d.state ≡ state_failed)
            × (d.failure
                ≡ some (record { category = category; details = materialize e.runtime err })))

  IsClassified-error :
      (e : Execution) (err : Error) (category : FailureCategory)
      → Keeps
          (IsClassified e e.output (some err) category)
          (finish_failed materialize e err category)
  unfolding finish_failed
  IsClassified-error e err category =
      let stopped : Execution = record e { state = state_cancelled } in
      let broken : Execution = record e {
        state = state_failed;
        failure = some (record { category = category; details = materialize e.runtime err });
      } in
      elim (Bool-cases (was_cancelled e err)) [
        | inl c ↦ rw c (
            Keeps-mono (Same stopped) _ (publish event_cancelled true stopped)
              (λ d same. (same.1, λ _. (same.0, same.2), λ x. cc))
              (publish-Same event_cancelled true stopped))
        | inr c ↦ rw c (
            Keeps-mono (Same broken) _ (publish event_failed true broken)
              (λ d same. (same.1, λ x. cc, λ _. (same.0, same.2)))
              (publish-Same event_failed true broken))
      ]

  classified :
      (e : Execution) (output : Option Output) (err : Option Error) (category : FailureCategory)
      → e.state ≡ state_running
      → Keeps (IsClassified e output err category) (finish materialize e output err category)
  unfolding finish
  classified e output none category p =
      let ended : Execution = record e { output = output; state = state_completed } in
      rw (p, finish)
        (Keeps-mono (Same ended) (IsClassified e output none category)
          (publish event_completed true ended) (λ d same. (same.0, same.1, same.2))
          (publish-Same event_completed true ended))
  classified e output (some err) category p =
      rw (p, finish) (IsClassified-error (record e { output = output }) err category)

  -- How a run that ended with an error leaves the Execution.
  abbrev pub Broken : Execution → Error → FailureCategory → Execution → Type 0
  Broken e x category d =
      ((is_canceled x ≡ true)
        × ((c : Error) × (e.runtime.cause ≡ some c))
        × (d.state ≡ state_cancelled)
        × (d.failure ≡ e.failure))
      ⊎ (((is_canceled x ≡ false) ⊎ (e.runtime.cause ≡ none))
          × (d.state ≡ state_failed)
          × (d.failure ≡ some (record { category = category; details = materialize e.runtime x })))

  -- The end of a run, from any state.
  abbrev pub Verdict :
      Execution → Option Output → Option Error → FailureCategory → Execution → Type 0
  Verdict e output err category d =
      ((e.state ≢ state_running) × (d ≡ e))
      ⊎ ((e.state ≡ state_running)
          × (d.output ≡ output)
          × (((err ≡ none) × (d.state ≡ state_completed) × (d.failure ≡ e.failure))
              ⊎ ((x : Error) × (err ≡ some x) × Broken e x category d)))

  Broken_lem :
      (e d : Execution) (output : Option Output) (x : Error) (category : FailureCategory)
      (canceled : Bool) (cause : Option Error)
      → is_canceled x ≡ canceled
      → e.runtime.cause ≡ cause
      → IsClassified e output (some x) category d
      → Broken e x category d
  unfolding was_cancelled
  Broken_lem e d output x category true (some c) p q (o, stopped, broken) =
      let (s, f) = stopped (rw (p, q) refl) in inl (p, (c, q), s, f)
  Broken_lem e d output x category true none p q (o, stopped, broken) =
      let (s, f) = broken (rw (p, q) refl) in inr (inr q, s, f)
  Broken_lem e d output x category false cause p q (o, stopped, broken) =
      let (s, f) = broken (rw p refl) in inr (inl p, s, f)

  Verdict_lem :
      (e d : Execution) (output : Option Output) (err : Option Error) (category : FailureCategory)
      → e.state ≡ state_running
      → IsClassified e output err category d
      → Verdict e output err category d
  Verdict_lem e d output none category p (s, o, f) = inr (p, o, inl (refl, s, f))
  Verdict_lem e d output (some x) category p k =
      inr (p, k.0, inr (x, refl, Broken_lem e d output x category _ _ refl refl k))

  abbrev is_running : State → Bool
  is_running state_running = true
  is_running _ = false

  not_running :
      (e : Execution) (output : Option Output) (err : Option Error) (category : FailureCategory)
      (s : State)
      → e.state ≡ s
      → is_running s ≡ false
      → finish materialize e output err category ≡ done e
  unfolding finish
  not_running e output err category state_running p n = cc
  not_running e output err category s p n = ground arith

  at-Verdict :
      (e : Execution) (output : Option Output) (err : Option Error) (category : FailureCategory)
      (s : State)
      → e.state ≡ s
      → Keeps (Verdict e output err category) (finish materialize e output err category)
  unfolding finish
  at-Verdict e output err category state_running p =
      Keeps-mono (IsClassified e output err category) (Verdict e output err category)
        (finish materialize e output err category) (λ d. Verdict_lem e d output err category p)
        (classified e output err category p)
  at-Verdict e output err category s p =
      subst (Keeps (Verdict e output err category))
        (sym (not_running e output err category s p refl)) (inl ((λ q. cc), refl))

  -- The end of a run changes an Execution that is not running in nothing. A running one keeps the output,
  -- and no error completes it; an error that is a cancellation, while the run's context has a cause,
  -- cancels it; any other error, or one without a cause, fails it with the category and the details.
  pub finish_classifies :
      (e d : Execution) (output : Option Output) (err : Option Error) (category : FailureCategory)
      → finish materialize e output err category ≡ done d
      → Verdict e output err category d
  finish_classifies e d output err category h =
      Keeps-done (Verdict e output err category) (finish materialize e output err category) d
        (at-Verdict e output err category e.state refl) h

  IsClassified-terminal :
      (e d : Execution) (output : Option Output) (err : Option Error) (category : FailureCategory)
      → IsClassified e output err category d
      → terminal d.state ≡ true
  unfolding terminal
  IsClassified-terminal e d output none category (s, _, _) = rw s
  IsClassified-terminal e d output (some err) category (o, stopped, broken) =
      elim (Bool-cases (was_cancelled e err)) [
        | inl c ↦ rw ((stopped c).0)
        | inr c ↦ rw ((broken c).0)
      ]

  ended_at :
      (e : Execution) (output : Option Output) (err : Option Error) (category : FailureCategory)
      (s : State)
      → e.state ≡ s
      → is_begun s ≡ true
      → Keeps (λ d. terminal d.state ≡ true) (finish materialize e output err category)
  unfolding finish terminal
  ended_at e output err category state_created p b = cc
  ended_at e output err category state_running p b =
      Keeps-mono (IsClassified e output err category) (λ d. terminal d.state ≡ true)
        (finish materialize e output err category)
        (λ d. IsClassified-terminal e d output err category) (classified e output err category p)
  ended_at e output err category s p b = rw (p, finish) (ap terminal p)

  -- A teardown never waits in vain. `settleClose` cancels and then waits for `run_done`: from every
  -- reachable Execution, whether or not it was started, once it is cancelled and the run, if there is
  -- one, returns with any result, the channel is closed, with no panic.
  pub teardown_ends :
      (id : String) (runtime : ExecutionRuntime) (actions : List Action) (e : Execution)
      (output : Option Output) (err : Option Error) (category : FailureCategory)
      → life materialize id runtime actions ≡ done e
      → Ensures
          (λ d. d.run_done ≡ true)
          (cancel e >>= λ c. finish materialize c output err category)
  teardown_ends id runtime actions e output err category h =
      Ensures-bind (λ c. Inv c × (is_begun c.state ≡ true)) (λ d. d.run_done ≡ true) (cancel e)
        (λ c. finish materialize c output err category)
        (Ensures-Keeps Inv (λ c. is_begun c.state ≡ true) (cancel e)
          (cancel-Inv e (lived materialize id runtime actions h)) (cancel_begun_at e e.state refl))
        (λ c k.
          Ensures-mono (λ d. Inv d × (terminal d.state ≡ true)) (λ d. d.run_done ≡ true)
            (finish materialize c output err category) (λ d i. i.0.settled ∙ i.1)
            (Ensures-Keeps Inv (λ d. terminal d.state ≡ true)
              (finish materialize c output err category)
              (finish-Inv materialize c output err category k.0)
              (ended_at c output err category c.state refl k.1)))

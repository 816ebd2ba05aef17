-- ===== src/Exec/Execution/Terminal.antt =====
-- Terminal states are final, cancelling is idempotent, and a finished run is told apart from a
-- cancelled one.
use ferretd.Prelude.{
  ◌≡◌, refl, ◌∙◌, ap, true, false, Option, List, [], ◌∷◌, done, arith, Keeps, Keeps-bind,
  Keeps-mono, Keeps-done, Keeps-all, if◌then◌else◌,
}
use ferretd.Errors.{Error}
use ferretd.Lifecycle.CloseOperation
use ferretd.Lifecycle.CloseOperation.{close_idle, close_started, close_finished}
use ferretd.Exec.Snapshots.{terminal, RuntimeFailure, FailureCategory, Output, ExecutionSnapshot}
use ferretd.Exec.Runtime.{ExecutionRuntime}
use ferretd.Exec.Execution.{
  Execution, Reply, start, cancel, subscribe, unsubscribe, finish, begin_close, settle_rest,
  complete_close,
}
use ferretd.Exec.Execution.Steps.{
  Action, starts, cancels, subscribes, begins_close, unsubscribes, receives, receives_detached,
  finishes, settles, completes_close, step, run,
}

-- The observable outcome of an Execution.
abbrev pub SameOutcome : Execution → Execution → Type 0
SameOutcome e d =
    (d.state ≡ e.state)
    × (d.output ≡ e.output)
    × (d.failure ≡ e.failure)
    × (d.sequence ≡ e.sequence)
    × (d.last_event ≡ e.last_event)
    × (d.run_done ≡ e.run_done)

frozen_start :
    (e : Execution) (before locked : Option Error)
    → terminal e.state ≡ true
    → Keeps (λ r. SameOutcome e r.0) (start e before locked)
unfolding start terminal
frozen_start e before locked t = ground arith

frozen_cancel : (e : Execution) → terminal e.state ≡ true → Keeps (SameOutcome e) (cancel e)
unfolding cancel terminal
frozen_cancel e t = ground arith

frozen_finish :
    (materialize : ExecutionRuntime → Error → RuntimeFailure) (e : Execution)
    (output : Option Output) (err : Option Error) (category : FailureCategory)
    → terminal e.state ≡ true
    → Keeps (SameOutcome e) (finish materialize e output err category)
unfolding finish terminal
frozen_finish materialize e output err category t = ground arith

frozen_runtime : (e : Execution) (r : ExecutionRuntime) → SameOutcome e (record e { runtime = r })
frozen_runtime e r = (refl, refl, refl, refl, refl, refl)

frozen_complete :
    (e : Execution) (err : Option Error) → Keeps (SameOutcome e) (complete_close e err)
unfolding complete_close
frozen_complete e err =
    Keeps-bind (λ _. Unit {0}) (SameOutcome e) (CloseOperation.finish e.close err)
      (λ c. done (record e { close = c }))
      (Keeps-all (λ _. Unit {0}) (CloseOperation.finish e.close err) (λ _. tt))
      (λ c _. (refl, refl, refl, refl, refl, refl))

trans_outcome : (e d x : Execution) → SameOutcome e d → SameOutcome d x → SameOutcome e x
trans_outcome e d x (a, b, c, f, g, h) (a', b', c', f', g', h') =
    (a' ∙ a, b' ∙ b, c' ∙ c, f' ∙ f, g' ∙ g, h' ∙ h)

module _ (materialize : ExecutionRuntime → Error → RuntimeFailure) where
  frozen :
      (e : Execution) (a : Action)
      → terminal e.state ≡ true
      → Keeps (SameOutcome e) (step materialize e a)
  unfolding step
  frozen e (starts before locked) t =
      Keeps-bind (λ (r : Execution × Reply ExecutionSnapshot). SameOutcome e r.0) (SameOutcome e)
        (start e before locked) (λ r. done r.0) (frozen_start e before locked t) (λ r h. h)
  frozen e cancels t = frozen_cancel e t
  frozen e subscribes t = unfold subscribe in ground arith
  frozen e (unsubscribes id) t = unfold unsubscribe in ground arith
  frozen e (receives id) t = (refl, refl, refl, refl, refl, refl)
  frozen e (receives_detached id) t = (refl, refl, refl, refl, refl, refl)
  frozen e (finishes output err category) t = frozen_finish materialize e output err category t
  frozen e begins_close t = unfold begin_close in (refl, refl, refl, refl, refl, refl)
  frozen e (settles answer) t =
      elim e.run_done
        as (λ b. Keeps (SameOutcome e) (if b then done (settle_rest e answer).0 else done e)) [
          | true ↦ unfold settle_rest in (refl, refl, refl, refl, refl, refl)
          | false ↦ (refl, refl, refl, refl, refl, refl)
        ]
  frozen e (completes_close err) t =
      elim e.close.state
        as (λ c. Keeps (SameOutcome e) (elim c [
          | close_idle ↦ done e
          | close_started ↦ complete_close e err
          | close_finished ↦ done e
        ])) [
          | close_idle ↦ (refl, refl, refl, refl, refl, refl)
          | close_started ↦ frozen_complete e err
          | close_finished ↦ (refl, refl, refl, refl, refl, refl)
        ]

  frozen_run :
      (e : Execution) (actions : List Action)
      → terminal e.state ≡ true
      → Keeps (SameOutcome e) (run materialize e actions)
  unfolding run
  frozen_run e [] t = (refl, refl, refl, refl, refl, refl)
  frozen_run e (a ∷ rest) t =
      Keeps-bind (SameOutcome e) (SameOutcome e) (step materialize e a)
        (λ d. run materialize d rest) (frozen e a t)
        (λ d h.
          Keeps-mono (SameOutcome d) (SameOutcome e) (run materialize d rest)
            (λ x k. trans_outcome e d x h k) (frozen_run d rest (ap terminal h.0 ∙ t)))

  -- A terminal Execution is final: whatever is called afterwards, its state, output, failure, last
  -- event and event number stay as they are.
  pub terminal_is_final :
      (e d : Execution) (actions : List Action)
      → terminal e.state ≡ true
      → run materialize e actions ≡ done d
      → (d.state ≡ e.state)
        × (d.output ≡ e.output)
        × (d.failure ≡ e.failure)
        × (d.sequence ≡ e.sequence)
        × (d.last_event ≡ e.last_event)
        × (d.run_done ≡ e.run_done)
  terminal_is_final e d actions t h =
      Keeps-done (SameOutcome e) (run materialize e actions) d (frozen_run e actions t) h

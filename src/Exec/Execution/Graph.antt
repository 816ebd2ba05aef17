-- ===== src/Exec/Execution/Graph.antt =====
-- The state diagram of an Execution, and what its terminal states fix.
use ferretd.Prelude.{
  sym, ◌≡◌, refl, Bool, true, false, Option, none, some, done, panic, arith, subst, Keeps,
  Keeps-bind, Keeps-mono, Keeps-done, Keeps-all, if◌then◌else◌,
}
use ferretd.Errors.{Error}
use ferretd.Lifecycle.CloseOperation
use ferretd.Lifecycle.CloseOperation.{close_idle, close_started, close_finished}
use ferretd.Exec.Snapshots.{
  State, state_created, state_running, state_completed, state_failed, state_cancelled, EventKind,
  event_started, event_cancelled, event_completed, event_failed, RuntimeFailure, FailureCategory,
  Output, ExecutionSnapshot,
}
use ferretd.Exec.Runtime.{ExecutionRuntime}
use ferretd.Exec.Execution.{
  Execution, Reply, replied, publish, notify, start, start_created, cancel, subscribe, unsubscribe,
  finish, finish_failed, was_cancelled, begin_close, settle_rest, close_run_done, complete_close,
  snapshot, cancel_runtime,
}
use ferretd.Exec.Execution.Steps.{
  Action, starts, cancels, subscribes, begins_close, unsubscribes, receives, receives_detached,
  finishes, settles, completes_close, step,
}

infix 40 ◌⟶◌
pub data ◌⟶◌ : State → State → Type 0 where
  stay : {s : State} → s ⟶ s
  launch : state_created ⟶ state_running
  withdraw : state_created ⟶ state_cancelled
  complete : state_running ⟶ state_completed
  break : state_running ⟶ state_failed
  interrupt : state_running ⟶ state_cancelled

-- What a publication leaves alone.
abbrev pub Same : Execution → Execution → Type 0
Same e d =
    (d.state ≡ e.state)
    × (d.output ≡ e.output)
    × (d.failure ≡ e.failure)
    × (d.id ≡ e.id)
    × (d.runtime ≡ e.runtime)

close_run_done-Same : (e x : Execution) → Same e x → Keeps (Same e) (close_run_done x)
close_run_done-Same e x h =
    elim x.run_done
      as (λ r. Keeps (Same e) (if r then panic else done (record x { run_done = true }))) [
        | true ↦ tt
        | false ↦ h
      ]

pub publish-Same : (kind : EventKind) (b : Bool) (e : Execution) → Keeps (Same e) (publish kind b e)
unfolding publish notify
publish-Same kind true e = close_run_done-Same e _ (refl, refl, refl, refl, refl)
publish-Same kind false e = (refl, refl, refl, refl, refl)

pub to : (s t u : State) → s ⟶ t → u ≡ t → s ⟶ u
to s t u h e = subst (λ x. s ⟶ x) (sym e) h

start_at-⟶ :
    (e : Execution) (s : State) → e.state ≡ s → Keeps (λ r. s ⟶ r.0.state) (start e none none)
unfolding start start_created
start_at-⟶ e state_created p =
    let launched : Execution = record e { state = state_running } in
    rw (p, start)
      (Keeps-bind (Same launched)
        (λ (r : Execution × Reply ExecutionSnapshot). state_created ⟶ r.0.state)
        (publish event_started false launched) (λ x. done (x, replied (snapshot x)))
        (publish-Same event_started false launched)
        (λ x same. to state_created state_running x.state launch same.0))
start_at-⟶ e state_running p = rw (p, start) (to state_running state_running e.state stay p)
start_at-⟶ e s p = rw (p, start) (to s s e.state stay p)

start-⟶ :
    (e : Execution) (before locked : Option Error)
    → Keeps (λ r. e.state ⟶ r.0.state) (start e before locked)
unfolding start
start-⟶ e (some x) locked = stay
start-⟶ e none (some x) = stay
start-⟶ e none none = start_at-⟶ e e.state refl

cancel_at-⟶ : (e : Execution) (s : State) → e.state ≡ s → Keeps (λ d. s ⟶ d.state) (cancel e)
unfolding cancel
cancel_at-⟶ e state_created p =
    let gone : Execution = record (cancel_runtime e) { state = state_cancelled } in
    rw (p, cancel)
      (Keeps-mono (Same gone) (λ d. state_created ⟶ d.state) (publish event_cancelled true gone)
        (λ d same. to state_created state_cancelled d.state withdraw same.0)
        (publish-Same event_cancelled true gone))
cancel_at-⟶ e state_running p = rw (p, cancel) (to state_running state_running e.state stay p)
cancel_at-⟶ e s p = rw (p, cancel) (to s s e.state stay p)

cancel-⟶ : (e : Execution) → Keeps (λ d. e.state ⟶ d.state) (cancel e)
cancel-⟶ e = cancel_at-⟶ e e.state refl

-- A publication from a running Execution that was moved to `s`.
publish-⟶ :
    (e : Execution) (kind : EventKind)
    → state_running ⟶ e.state
    → Keeps (λ d. state_running ⟶ d.state) (publish kind true e)
publish-⟶ e kind h =
    Keeps-mono (Same e) (λ d. state_running ⟶ d.state) (publish kind true e)
      (λ d same. to state_running e.state d.state h same.0) (publish-Same kind true e)

module _ (materialize : ExecutionRuntime → Error → RuntimeFailure) where
  finish_failed-⟶ :
      (e : Execution) (err : Error) (category : FailureCategory)
      → Keeps (λ d. state_running ⟶ d.state) (finish_failed materialize e err category)
  unfolding finish_failed
  finish_failed-⟶ e err category =
      let stopped : Execution = record e { state = state_cancelled } in
      let broken : Execution = record e {
        state = state_failed;
        failure = some (record { category = category; details = materialize e.runtime err });
      } in
      elim (was_cancelled e err)
        as (λ b.
          Keeps (λ (d : Execution). state_running ⟶ d.state)
            (if b
              then publish event_cancelled true stopped
              else publish event_failed true broken)) [
                | true ↦ publish-⟶ stopped event_cancelled interrupt
                | false ↦ publish-⟶ broken event_failed break
              ]

  finish_at-⟶ :
      (e : Execution) (output : Option Output) (err : Option Error) (category : FailureCategory)
      (s : State)
      → e.state ≡ s
      → Keeps (λ d. s ⟶ d.state) (finish materialize e output err category)
  unfolding finish
  finish_at-⟶ e output none category state_running p =
      let ended : Execution = record e { output = output; state = state_completed } in
      rw (p, finish) (publish-⟶ ended event_completed complete)
  finish_at-⟶ e output (some err) category state_running p =
      rw (p, finish) (finish_failed-⟶ (record e { output = output }) err category)
  finish_at-⟶ e output err category s p = rw (p, finish) (to s s e.state stay p)

  moves : (e : Execution) (a : Action) → Keeps (λ d. e.state ⟶ d.state) (step materialize e a)
  unfolding step
  moves e (starts before locked) =
      Keeps-bind (λ (r : Execution × Reply ExecutionSnapshot). e.state ⟶ r.0.state)
        (λ d. e.state ⟶ d.state) (start e before locked) (λ r. done r.0) (start-⟶ e before locked)
        (λ r h. h)
  moves e cancels = cancel-⟶ e
  moves e subscribes = to e.state e.state _ stay (unfold subscribe in ground arith)
  moves e (unsubscribes id) = to e.state e.state _ stay (unfold unsubscribe in ground arith)
  moves e (receives id) = stay
  moves e (receives_detached id) = stay
  moves e (finishes output err category) = finish_at-⟶ e output err category e.state refl
  moves e begins_close = unfold begin_close in stay
  moves e (settles answer) =
      elim e.run_done
        as (λ b.
          Keeps (λ (d : Execution). e.state ⟶ d.state)
            (if b then done (settle_rest e answer).0 else done e)) [
              | true ↦ unfold settle_rest in stay
              | false ↦ stay
            ]
  moves e (completes_close err) =
      elim e.close.state
        as (λ c.
          Keeps (λ (d : Execution). e.state ⟶ d.state)
            (elim c [
              | close_idle ↦ done e
              | close_started ↦ complete_close e err
              | close_finished ↦ done e
            ])) [
              | close_idle ↦ stay
              | close_started ↦
                  unfold complete_close in
                  Keeps-bind (λ _. Unit {0}) (λ (d : Execution). e.state ⟶ d.state)
                    (CloseOperation.finish e.close err) (λ c. done (record e { close = c }))
                    (Keeps-all (λ _. Unit {0}) (CloseOperation.finish e.close err) (λ _. tt))
                    (λ c _. stay)
              | close_finished ↦ stay
            ]

  -- Every call follows an edge of the diagram.
  pub step-⟶ : (e d : Execution) (a : Action) → step materialize e a ≡ done d → e.state ⟶ d.state
  step-⟶ e d a h = Keeps-done (λ x. e.state ⟶ x.state) (step materialize e a) d (moves e a) h

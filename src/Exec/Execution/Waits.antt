-- ===== src/Exec/Execution/Waits.antt =====
-- A subscriber that waits keeps its watcher through every call that is not its own.
use ferretd.Prelude.{
  ℕ, ◌≤◌, sym, ap, ◌∙◌, ◌≡◌, refl, inl, inr, Bool, true, false, Option, none, some, Ensures,
  Ensures-bind, done, arith, nat_key, lookup, none-some, Bool-cases,
}
use ferretd.Errors.{Error}
use ferretd.Lifecycle.CloseOperation.{close_idle, close_started, close_finished, CloseState}
use ferretd.Lifecycle.CloseOperation.History
use ferretd.Exec.Snapshots.{
  terminal, State, state_created, state_running, state_completed, state_failed, state_cancelled,
  Output, FailureCategory, RuntimeFailure, ExecutionSnapshot,
}
use ferretd.Exec.Runtime.{ExecutionRuntime}
use ferretd.Exec.Execution.Watchers.{close_all, live, released}
use ferretd.Exec.Execution.{
  Execution, Reply, snapshot, publish, start, start_created, cancel, cancel_runtime, finish,
  finish_failed, was_cancelled, begin_close, settle_rest, complete_close,
}
use ferretd.Exec.Execution.Invariant.{Inv, kind_of}
use ferretd.Exec.Execution.Transitions.{to_running-Ready, to_terminal-Ready}
use ferretd.Exec.Execution.Awaited.{Listening, Waiting, publish-Waiting}

differ : (b : Bool) → b ≡ false → b ≡ true → ⊥
differ b p q = cc

-- Until the run is over the watcher is registered.
still :
    (id n k : ℕ) (e : Execution)
    → Inv e
    → terminal e.state ≡ false
    → Waiting id n k e
    → (id ≤ e.next_watcher) × (e.next_watcher ≤ k) × Listening id n e
still id n k e v t (low, high, inl l) = (low, high, l)
still id n k e v t (low, high, inr (over, l)) = absurd (differ e.run_done (v.settled ∙ t) over)

module _ (id n k : ℕ) where
  start_at-Waiting :
      (e : Execution) (s : State)
      → Inv e
      → e.state ≡ s
      → Waiting id n k e
      → Ensures (λ r. Waiting id n k r.0) (start e none none)
  unfolding start start_created kind_of terminal
  start_at-Waiting e state_created v s w =
      let d : Execution = record e { state = state_running } in
      rw (s, start)
        (Ensures-bind (Waiting id n k)
          (λ (r : Execution × Reply ExecutionSnapshot). Waiting id n k r.0)
          (publish (kind_of d.state) false d) (λ c. done (c, Reply.replied (snapshot c)))
          (publish-Waiting id n k d false (to_running-Ready e v s)
            (still id n k e v (ap terminal s) w))
          (λ c i. i))
  start_at-Waiting e _ v s w = rw (s, start) w

  pub start-Waiting :
      (e : Execution) (before locked : Option Error)
      → Inv e
      → Waiting id n k e
      → Ensures (λ r. Waiting id n k r.0) (start e before locked)
  unfolding start
  start-Waiting e (some x) locked v w = w
  start-Waiting e none (some x) v w = w
  start-Waiting e none none v w = start_at-Waiting e e.state v refl w

  cancel_at-Waiting :
      (e : Execution) (s : State)
      → Inv e
      → e.state ≡ s
      → Waiting id n k e
      → Ensures (Waiting id n k) (cancel e)
  unfolding cancel kind_of terminal
  cancel_at-Waiting e state_created v s w =
      let d : Execution = record (cancel_runtime e) { state = state_cancelled } in
      rw (s, cancel)
        (publish-Waiting id n k d true
          (to_terminal-Ready e d state_cancelled v (ground arith) refl (ground arith) (ground arith)
            (refl, refl, refl, refl, refl, refl))
          (still id n k e v (ap terminal s) w))
  cancel_at-Waiting e _ v s w = rw (s, cancel) w

  pub cancel-Waiting :
      (e : Execution) → Inv e → Waiting id n k e → Ensures (Waiting id n k) (cancel e)
  cancel-Waiting e v w = cancel_at-Waiting e e.state v refl w

  pub settle_rest-Waiting :
      (e : Execution) (a : Option Error)
      → Inv e
      → e.run_done ≡ true
      → Waiting id n k e
      → Waiting id n k (settle_rest e a).0
  unfolding settle_rest close_all live released lookup
  settle_rest-Waiting e a v over (low, high, inl (w, at, f)) =
      absurd (none-some (sym (ap (lookup id) (v.left (sym v.settled ∙ over))) ∙ at))
  settle_rest-Waiting e a v over (low, high, inr (o, (w, at, f))) =
      (low, high, inr (o, (w, rw (v.left (sym v.settled ∙ over)) at, f)))

  pub begin_close-Waiting : (e : Execution) → Waiting id n k e → Waiting id n k (begin_close e).0
  unfolding begin_close
  begin_close-Waiting e w = w

  pub completes-Waiting :
      (e : Execution) (err : Option Error) (s : CloseState)
      → Inv e
      → e.close.state ≡ s
      → Waiting id n k e
      → Ensures (Waiting id n k) (elim e.close.state [
        | close_idle ↦ done e
        | close_started ↦ complete_close e err
        | close_finished ↦ done e
      ])
  unfolding complete_close
  completes-Waiting e err close_idle v s w = rw s w
  completes-Waiting e err close_started v s w =
      rw (s, complete_close, History.finish-done e.close err v.closing s) w
  completes-Waiting e err close_finished v s w = rw s w

  module _ (materialize : ExecutionRuntime → Error → RuntimeFailure) where
    finish_failed-Waiting :
        (e : Execution) (output : Option Output) (err : Error) (category : FailureCategory)
        → Inv e
        → e.state ≡ state_running
        → Waiting id n k e
        → Ensures
            (Waiting id n k)
            (finish_failed materialize (record e { output = output }) err category)
    unfolding finish_failed kind_of terminal
    finish_failed-Waiting e output err category v s w =
        let cancelled : Execution = record e { output = output; state = state_cancelled } in
        let failed_run : Execution = record e {
          output = output;
          state = state_failed;
          failure = some (record { category = category; details = materialize e.runtime err });
        } in
        let l = still id n k e v (ap terminal s) w in
        elim (Bool-cases (was_cancelled (record e { output = output }) err)) [
          | inl c ↦ rw c (
              publish-Waiting id n k cancelled true
                (to_terminal-Ready e cancelled state_cancelled v (ground arith) refl (ground arith)
                  (ground arith) (refl, refl, refl, refl, refl, refl))
                l)
          | inr c ↦ rw c (
              publish-Waiting id n k failed_run true
                (to_terminal-Ready e failed_run state_failed v (ground arith) refl (ground arith)
                  refl (refl, refl, refl, refl, refl, refl))
                l)
        ]

    pub finish_at-Waiting :
        (e : Execution) (output : Option Output) (err : Option Error) (category : FailureCategory)
        (s : State)
        → Inv e
        → e.state ≡ s
        → Waiting id n k e
        → Ensures (Waiting id n k) (finish materialize e output err category)
    unfolding finish kind_of terminal
    finish_at-Waiting e output none category state_running v s w =
        let d : Execution = record e { output = output; state = state_completed } in
        rw (s, finish)
          (publish-Waiting id n k d true
            (to_terminal-Ready e d state_completed v (ground arith) refl (ground arith)
              (ground arith) (refl, refl, refl, refl, refl, refl))
            (still id n k e v (ap terminal s) w))
    finish_at-Waiting e output (some err) category state_running v s w =
        rw (s, finish) (finish_failed-Waiting e output err category v s w)
    finish_at-Waiting e output err category _ v s w = rw (s, finish) w

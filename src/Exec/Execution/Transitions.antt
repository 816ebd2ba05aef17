-- ===== src/Exec/Execution/Transitions.antt =====
-- The calls that change the state of an Execution keep its invariant and never panic.
use ferretd.Prelude.{
  suc, ap, sym, ◌∙◌, ◌≡◌, refl, inl, inr, true, false, Option, none, some, String, done, Ensures,
  Ensures-bind, arith, is_some, nat_key, Bool-cases,
}
use ferretd.Errors.{Error}
use ferretd.Lifecycle.CloseOperation
use ferretd.Exec.Snapshots.{
  State, state_created, state_running, state_completed, state_failed, state_cancelled, terminal,
  event_started, FailureCategory, Output, RuntimeFailure, Event, ExecutionSnapshot,
}
use ferretd.Exec.Runtime
use ferretd.Exec.Runtime.{ExecutionRuntime}
use ferretd.Exec.Execution.{
  Execution, Reply, snapshot, publish, new_execution, start, start_created, cancel, finish,
  unpublished, replied, cancel_runtime, finish_failed, was_cancelled,
}
use ferretd.Exec.Execution.Invariant.{
  Inv, Ready, kind_of, publish-Inv, Ranked, LastShows, is_failed,
}

pub new_execution-Inv : (id : String) (r : ExecutionRuntime) → Ensures Inv (new_execution id r)
unfolding new_execution unpublished CloseOperation.zero_value kind_of terminal
new_execution-Inv id r = publish-Inv (unpublished id r) false (record {
  open_run = refl;
  ends = refl;
  next = refl;
  listeners = tt;
  past = tt;
  blame = refl;
  close_fits = refl;
})

pub to_running-Ready :
    (e : Execution)
    → Inv e
    → e.state ≡ state_created
    → Ready (record e { state = state_running }) false
unfolding terminal
to_running-Ready e v s = record {
  open_run = ground arith;
  ends = refl;
  next = ground arith;
  listeners = v.current;
  past = v.gone;
  blame = ground arith;
  close_fits = v.closing;
}

-- Leaving a state in which the run is not over, for one in which it is.
pub to_terminal-Ready :
    (e d : Execution) (s : State)
    → Inv e
    → e.run_done ≡ false
    → terminal s ≡ true
    → Ranked s (suc e.sequence)
    → is_some d.failure ≡ is_failed s
    → (d.state ≡ s)
      × (d.run_done ≡ e.run_done)
      × (d.sequence ≡ e.sequence)
      × (d.watchers ≡ e.watchers)
      × (d.detached ≡ e.detached)
      × (d.close ≡ e.close)
    → Ready d true
to_terminal-Ready e d s v o t n b (ds, dr, dq, dw, dd, dc) = record {
  open_run = dr ∙ o;
  ends = ap terminal ds ∙ t;
  next = rw (ds, dq) n;
  listeners = rw (dq, dw) v.current;
  past = rw dd v.gone;
  blame = rw ds b;
  close_fits = rw dc v.closing;
}

start_created-Inv :
    (e : Execution) → Inv e → e.state ≡ state_created → Ensures (λ r. Inv r.0) (start_created e)
unfolding start_created kind_of
start_created-Inv e v s =
    let run : Execution = record e { state = state_running } in
    Ensures-bind Inv (λ (r : Execution × Reply ExecutionSnapshot). Inv r.0)
      (publish event_started false run) (λ x. done (x, replied (snapshot x)))
      (publish-Inv run false (to_running-Ready e v s)) (λ x i. i)

start_at-Inv :
    (e : Execution) (s : State) → Inv e → e.state ≡ s → Ensures (λ r. Inv r.0) (start e none none)
unfolding start
start_at-Inv e state_created v s = rw (s, start) (start_created-Inv e v s)
start_at-Inv e state_running v s = rw (s, start) v
start_at-Inv e _ v s = rw (s, start) v

pub start-Inv :
    (e : Execution) (before locked : Option Error)
    → Inv e
    → Ensures (λ r. Inv r.0) (start e before locked)
unfolding start
start-Inv e (some x) locked v = v
start-Inv e none (some x) v = v
start-Inv e none none v = start_at-Inv e e.state v refl

-- The last event still shows an Execution whose observable part has not changed.
pub LastShows-same :
    (e d : Execution) (le : Option Event)
    → (d.id ≡ e.id) × (d.sequence ≡ e.sequence) × (d.state ≡ e.state) × (snapshot d ≡ snapshot e)
    → LastShows e le
    → LastShows d le
LastShows-same e d none same h = h
LastShows-same e d (some event) (i, q, s, n) (a, b, c, f) =
    (a ∙ sym i, b ∙ sym q, c ∙ ap kind_of (sym s), f ∙ sym n)

cancel-target : (r : ExecutionRuntime) (x : Error) → (Runtime.cancel r x).target ≡ r.target
unfolding Runtime.cancel
cancel-target r x = ground arith

cancel-input : (r : ExecutionRuntime) (x : Error) → (Runtime.cancel r x).input ≡ r.input
unfolding Runtime.cancel
cancel-input r x = ground arith

cancel_runtime-snapshot : (e : Execution) → snapshot (cancel_runtime e) ≡ snapshot e
unfolding snapshot
cancel_runtime-snapshot e = rw (cancel-target, cancel-input)

cancel_runtime-Inv : (e : Execution) → Inv e → Inv (cancel_runtime e)
cancel_runtime-Inv e v = record {
  ranked = v.ranked;
  settled = v.settled;
  shown =
      LastShows-same e (cancel_runtime e) e.last_event (refl, refl, refl, cancel_runtime-snapshot e)
        v.shown;
  current = v.current;
  left = v.left;
  gone = v.gone;
  blamed = v.blamed;
  closing = v.closing;
}

cancel_at-Inv : (e : Execution) (s : State) → Inv e → e.state ≡ s → Ensures Inv (cancel e)
unfolding cancel kind_of terminal
cancel_at-Inv e state_created v s =
    let d : Execution = record (cancel_runtime e) { state = state_cancelled } in
    rw (s, cancel)
      (publish-Inv d true (
        to_terminal-Ready e d state_cancelled v (ground arith) refl (ground arith) (ground arith)
          (refl, refl, refl, refl, refl, refl)))
cancel_at-Inv e state_running v s = rw (s, cancel) (cancel_runtime-Inv e v)
cancel_at-Inv e _ v s = rw (s, cancel) v

pub cancel-Inv : (e : Execution) → Inv e → Ensures Inv (cancel e)
cancel-Inv e v = cancel_at-Inv e e.state v refl

module _ (materialize : ExecutionRuntime → Error → RuntimeFailure) where
  finish_failed-Inv :
      (e : Execution) (output : Option Output) (err : Error) (category : FailureCategory)
      → Inv e
      → e.state ≡ state_running
      → Ensures Inv (finish_failed materialize (record e { output = output }) err category)
  unfolding finish_failed kind_of terminal
  finish_failed-Inv e output err category v s =
      let cancelled : Execution = record e { output = output; state = state_cancelled } in
      let failed_run : Execution = record e {
        output = output;
        state = state_failed;
        failure = some (record { category = category; details = materialize e.runtime err });
      } in
      elim (Bool-cases (was_cancelled (record e { output = output }) err)) [
        | inl c ↦ rw c (
            publish-Inv cancelled true (
              to_terminal-Ready e cancelled state_cancelled v (ground arith) refl (ground arith)
                (ground arith) (refl, refl, refl, refl, refl, refl)))
        | inr c ↦ rw c (
            publish-Inv failed_run true (
              to_terminal-Ready e failed_run state_failed v (ground arith) refl (ground arith) refl
                (refl, refl, refl, refl, refl, refl)))
      ]

  finish_at-Inv :
      (e : Execution) (output : Option Output) (err : Option Error) (category : FailureCategory)
      (s : State)
      → Inv e
      → e.state ≡ s
      → Ensures Inv (finish materialize e output err category)
  unfolding finish kind_of terminal
  finish_at-Inv e output none category state_running v s =
      let d : Execution = record e { output = output; state = state_completed } in
      rw (s, finish)
        (publish-Inv d true (
          to_terminal-Ready e d state_completed v (ground arith) refl (ground arith) (ground arith)
            (refl, refl, refl, refl, refl, refl)))
  finish_at-Inv e output (some err) category state_running v s =
      rw (s, finish) (finish_failed-Inv e output err category v s)
  finish_at-Inv e output err category _ v s = rw (s, finish) v

  pub finish-Inv :
      (e : Execution) (output : Option Output) (err : Option Error) (category : FailureCategory)
      → Inv e
      → Ensures Inv (finish materialize e output err category)
  finish-Inv e output err category v = finish_at-Inv e output err category e.state v refl

-- ===== src/Exec/Execution/Preserves.antt =====
-- Every call keeps the invariant of an Execution and never panics, in any order of the calls.
use ferretd.Prelude.{
  ◌≡◌, refl, true, false, Option, List, [], ◌∷◌, done, Ensures, Ensures-bind, arith, nat_key,
  All-append, if◌then◌else◌,
}
use ferretd.Errors.{Error}
use ferretd.Lifecycle.CloseOperation
use ferretd.Lifecycle.CloseOperation.{close_idle, close_started, close_finished, CloseState}
use ferretd.Lifecycle.CloseOperation.History
use ferretd.Exec.Snapshots.{RuntimeFailure, ExecutionSnapshot}
use ferretd.Exec.Runtime
use ferretd.Exec.Runtime.{ExecutionRuntime}
use ferretd.Exec.Execution.Streams.{IsCurrent, IsSettled, close_all-AllSettled}
use ferretd.Exec.Execution.{
  Execution, Reply, snapshot, start, begin_close, settle_rest, complete_close,
}
use ferretd.Exec.Execution.Steps.{
  Action, starts, cancels, subscribes, begins_close, unsubscribes, receives, receives_detached,
  finishes, settles, completes_close, receive, step, run,
}
use ferretd.Exec.Execution.Invariant.{Inv}
use ferretd.Exec.Execution.Observers.{
  watchers-Inv, subscribe-Inv, unsubscribe-Inv, drop_first-IsCurrent, drop_first-IsSettled,
  receive-All, receive-empty,
}
use ferretd.Exec.Execution.Transitions.{LastShows-same, start-Inv, cancel-Inv, finish-Inv}

-- The close operation may move on, if it stays valid.
close-Inv :
    (e : Execution) (c : CloseOperation.CloseOperation)
    → Inv e
    → History.IsValid c
    → Inv (record e { close = c })
unfolding snapshot
close-Inv e c v k = record {
  ranked = v.ranked;
  settled = v.settled;
  shown = LastShows-same e (record e { close = c }) e.last_event (refl, refl, refl, refl) v.shown;
  current = v.current;
  left = v.left;
  gone = v.gone;
  blamed = v.blamed;
  closing = k;
}

close_session-target :
    (r : ExecutionRuntime) (a : Option Error) → (Runtime.close_session r a).0.target ≡ r.target
unfolding Runtime.close_session
close_session-target r a = ground arith

close_session-input :
    (r : ExecutionRuntime) (a : Option Error) → (Runtime.close_session r a).0.input ≡ r.input
unfolding Runtime.close_session
close_session-input r a = ground arith

runtime-Inv :
    (e : Execution) (r : ExecutionRuntime)
    → Inv e
    → (r.target ≡ e.runtime.target) × (r.input ≡ e.runtime.input)
    → Inv (record e { runtime = r })
unfolding snapshot
runtime-Inv e r v (t, i) = record {
  ranked = v.ranked;
  settled = v.settled;
  shown =
      LastShows-same e (record e { runtime = r }) e.last_event (refl, refl, refl, rw (t, i))
        v.shown;
  current = v.current;
  left = v.left;
  gone = v.gone;
  blamed = v.blamed;
  closing = v.closing;
}

settle_rest-Inv : (e : Execution) (a : Option Error) → Inv e → Inv (settle_rest e a).0
unfolding settle_rest
settle_rest-Inv e a v =
    let r = (Runtime.close_session e.runtime a).0 in
    let u = runtime-Inv e r v (close_session-target e.runtime a, close_session-input e.runtime a) in
    let closed = close_all-AllSettled e.sequence e.watchers v.current in
    watchers-Inv (record e { runtime = r }) e.next_watcher _ _ u (rw (closed.0) tt) (λ _. closed.0)
      (All-append (λ p. IsSettled p.1) _ e.detached closed.1 v.gone)

complete_at-Inv :
    (e : Execution) (err : Option Error)
    → Inv e
    → e.close.state ≡ close_started
    → Ensures Inv (complete_close e err)
unfolding complete_close
complete_at-Inv e err v s = rw (History.finish-done e.close err v.closing s) (close-Inv e _ v refl)

begin_close-Inv : (e : Execution) → Inv e → Inv (begin_close e).0
unfolding begin_close
begin_close-Inv e v =
    close-Inv e (CloseOperation.begin e.close).0 v (History.begin-IsValid e.close v.closing)

completes-Inv :
    (e : Execution) (err : Option Error) (s : CloseState)
    → Inv e
    → e.close.state ≡ s
    → Ensures Inv (elim e.close.state [
      | close_idle ↦ done e
      | close_started ↦ complete_close e err
      | close_finished ↦ done e
    ])
completes-Inv e err close_idle v s = rw s v
completes-Inv e err close_started v s = rw s (complete_at-Inv e err v s)
completes-Inv e err close_finished v s = rw s v

module _ (materialize : ExecutionRuntime → Error → RuntimeFailure) where
  -- No call panics, and every call keeps the invariant.
  pub step-Inv : (e : Execution) (a : Action) → Inv e → Ensures Inv (step materialize e a)
  unfolding step
  step-Inv e (starts before locked) v =
      Ensures-bind (λ (r : Execution × Reply ExecutionSnapshot). Inv r.0) Inv
        (start e before locked) (λ r. done r.0) (start-Inv e before locked v) (λ r i. i)
  step-Inv e cancels v = cancel-Inv e v
  step-Inv e subscribes v = subscribe-Inv e v
  step-Inv e (unsubscribes id) v = unsubscribe-Inv e id v
  step-Inv e (receives id) v =
      watchers-Inv e e.next_watcher (receive id e.watchers) e.detached v
        (receive-All (IsCurrent e.sequence) id e.watchers
          (λ w h. drop_first-IsCurrent e.sequence w w.events refl h) v.current)
        (λ t. receive-empty id e.watchers (v.left t)) v.gone
  step-Inv e (receives_detached id) v =
      watchers-Inv e e.next_watcher e.watchers (receive id e.detached) v v.current v.left
        (receive-All IsSettled id e.detached (λ w h. drop_first-IsSettled w w.events refl h) v.gone)
  step-Inv e (finishes output err category) v = finish-Inv materialize e output err category v
  step-Inv e begins_close v = begin_close-Inv e v
  step-Inv e (settles answer) v =
      elim e.run_done as (λ b. Ensures Inv (if b then done (settle_rest e answer).0 else done e)) [
        | true ↦ settle_rest-Inv e answer v
        | false ↦ v
      ]
  step-Inv e (completes_close err) v = completes-Inv e err e.close.state v refl

  pub run-Inv :
      (e : Execution) (actions : List Action) → Inv e → Ensures Inv (run materialize e actions)
  unfolding run
  run-Inv e [] v = v
  run-Inv e (a ∷ rest) v =
      Ensures-bind Inv Inv (step materialize e a) (λ d. run materialize d rest) (step-Inv e a v)
        (λ d i. run-Inv d rest i)

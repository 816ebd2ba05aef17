-- ===== src/Exec/Execution/Life.antt =====
-- What holds in every life of an Execution: all calls, in all orders, from its creation on.
use ferretd.Prelude.{
  All-map, ℕ, ◌≤◌, ◌≡◌, ◌≢◌, refl, Option, none, some, String, List, [], All, done, panic, Ensures,
  Ensures-bind, Ensures-mono, ◌↔◌, Outcome, ◌>>=◌, arith, subst, length, suc, ◌+◌, ◌<◌, ◌^◌, ◌++◌,
  lookup, nat_key, ap, inl, inr, Bool-cases,
}
use ferretd.Errors.{Error}
use ferretd.Exec.Snapshots.{terminal, RuntimeFailure, Event, clone_event}
use ferretd.Exec.Runtime.{ExecutionRuntime}
use ferretd.Exec.Execution.Streams.{Follows, length-Follows}
use ferretd.Exec.Execution.{
  Execution, new_execution, snapshot, complete_close, subscribe, clone_last,
}
use ferretd.Lifecycle.CloseOperation
use ferretd.Lifecycle.CloseOperation.{CloseOperation, close_started}
use ferretd.Lifecycle.CloseOperation.History
use ferretd.Exec.Execution.Steps.{Action, run, life}
use ferretd.Exec.Execution.Invariant.{Inv, Ranked-le, LastShows, kind_of}
use ferretd.Exec.Execution.Transitions.{new_execution-Inv}
use ferretd.Exec.Execution.Preserves.{run-Inv}
use ferretd.Exec.Execution.Observers.{subscribe-Inv}
use ferretd.Exec.Execution.Awaited.{Awaits}
use ferretd.Exec.Execution.Bystanders.{Other, Awaits-found, run-Waiting, subscribed-Waiting}
use ferretd.Exec.Execution.Watchers.{EventWatcher}

few :
    (es : List Event) (last : ℕ) → last ≤ 3 → (n : ℕ) × (2 ≤ n) × Follows n es last → length es ≤ 2
few es last b (n, two, f) = omega (arith, length-Follows n es last f)

shown :
    (e : Execution) (le : Option Event)
    → e.last_event ≡ le
    → LastShows e le
    → (event : Event) × (e.last_event ≡ some event)
      × (event.sequence ≡ e.sequence)
      × (event.kind ≡ kind_of e.state)
      × (event.snapshot ≡ snapshot e)
shown e none p h = absurd h
shown e (some event) p (a, b, c, d) = (event, p, b, c, d)

closed_panic :
    (e : Execution) (o : Outcome CloseOperation)
    → (do c ← o; done (record e { close = c })) ≡ panic
    → o ≡ panic
closed_panic e (done c) p = cc
closed_panic e panic p = refl

complete_close-panic :
    (e : Execution) (err : Option Error)
    → Inv e
    → (complete_close e err ≡ panic) ↔ (e.close.state ≢ close_started)
unfolding complete_close
complete_close-panic e err v =
    let (there, back) = History.finish-panic e.close err e.close.state refl v.closing in
    (λ p. there (closed_panic e (CloseOperation.finish e.close err) p), λ n. rw (back n) refl)

-- `subscribe` hands out the last event.
handed_out :
    (e : Execution)
    → Inv e
    → (event : Event) × ((subscribe e).1.current ≡ some event) × (event.sequence ≡ e.sequence)
unfolding subscribe clone_event
handed_out e v =
    let (event, last, same, _, _) = shown e e.last_event refl v.shown in
    elim (Bool-cases (terminal e.state)) [
      | inl t ↦ rw t (clone_event event, ap clone_last last, same)
      | inr t ↦ rw t (clone_event event, ap clone_last last, same)
    ]

-- The lives of one Execution: `materialize` makes failure details, `actions` are the calls.
module _ (materialize : ExecutionRuntime → Error → RuntimeFailure) where
  life-Inv :
      (id : String) (runtime : ExecutionRuntime) (actions : List Action)
      → Ensures Inv (life materialize id runtime actions)
  unfolding life
  life-Inv id runtime actions =
      Ensures-bind Inv Inv (new_execution id runtime) (λ e. run materialize e actions)
        (new_execution-Inv id runtime) (λ e v. run-Inv materialize e actions v)

  pub lived :
      (id : String) (runtime : ExecutionRuntime) (actions : List Action) {e : Execution}
      → life materialize id runtime actions ≡ done e
      → Inv e
  lived id runtime actions h = subst (Ensures Inv) h (life-Inv id runtime actions)

  -- Whatever is called in whatever order, completeClose by the owner of a close in progress only, no
  -- panic is raised; and at every moment completeClose panics exactly when no close is in progress.
  pub life_never_panics :
      (id : String) (runtime : ExecutionRuntime) (actions : List Action)
      → Ensures
          (λ e.
            (err : Option Error) → (complete_close e err ≡ panic) ↔ (e.close.state ≢ close_started))
          (life materialize id runtime actions)
  life_never_panics id runtime actions =
      Ensures-mono Inv _ (life materialize id runtime actions)
        (λ e v err. complete_close-panic e err v) (life-Inv id runtime actions)

  -- At every moment the last event shows the Execution as it is, with the kind of its state, and the
  -- channel `run_done` is closed exactly when the state is terminal.
  pub last_event_current :
      (id : String) (runtime : ExecutionRuntime) (actions : List Action) (e : Execution)
      → life materialize id runtime actions ≡ done e
      → ((event : Event) × (e.last_event ≡ some event)
          × (event.sequence ≡ e.sequence)
          × (event.kind ≡ kind_of e.state)
          × (event.snapshot ≡ snapshot e))
        × (e.run_done ≡ terminal e.state)
  last_event_current id runtime actions e h =
      let v = lived id runtime actions h in (shown e e.last_event refl v.shown, v.settled)

  -- No watcher ever lags, even if its subscriber never reads: a registered watcher holds at most two
  -- events, of the eight that fit, and no watcher, registered or removed, has been given an error.
  pub watchers_never_lag :
      (id : String) (runtime : ExecutionRuntime) (actions : List Action) (e : Execution)
      → life materialize id runtime actions ≡ done e
      → All (λ p. (p.1.errors ≡ []) × (length p.1.events ≤ 2)) e.watchers
        × All (λ p. p.1.errors ≡ []) e.detached
  watchers_never_lag id runtime actions e h =
      let v = lived id runtime actions h in
      (
        All-map _ _ e.watchers
            (λ p c. (c.1, few p.1.events e.sequence (Ranked-le e.state e.sequence v.ranked) c.2))
            v.current,
        All-map _ _ e.detached (λ p c. c.1) v.gone,
      )

  -- A subscription that is granted misses nothing. The event handed out with it has the number of the
  -- last one published so far. After any later calls, none of them a receive from this subscription or its
  -- Cancel, and completeClose by the owner of a close in progress only, as long as the subscriptions so
  -- far, this one and the later calls are fewer than 2^64: no panic was raised, its channel holds events
  -- numbered from the next one to the last one published, each once, in their order, and the channel is
  -- closed exactly when the state is terminal.
  pub watchers_miss_nothing :
      (rid : String) (runtime : ExecutionRuntime) (before later : List Action) (e : Execution)
      (id : ℕ)
      → life materialize rid runtime before ≡ done e
      → (subscribe e).1.watcher ≡ some id
      → e.next_watcher + 1 + length later < 2 ^ 64
      → All (Other id) later
      → ((event : Event) × ((subscribe e).1.current ≡ some event) × (event.sequence ≡ e.sequence))
        × Ensures
            (λ d.
              (w : EventWatcher) × (lookup id (d.watchers ++ d.detached) ≡ some w)
              × (w.closed ≡ terminal d.state)
              × Follows (suc e.sequence) w.events d.sequence)
            (run materialize (subscribe e).0 later)
  watchers_miss_nothing rid runtime before later e id reached granted room others =
      let v = lived rid runtime before reached in
      (
        handed_out e v,
        Ensures-mono (λ d. Inv d × Awaits id (suc e.sequence) d) _
            (run materialize (subscribe e).0 later) (Awaits-found id (suc e.sequence))
            (run-Waiting materialize id (suc e.sequence) (e.next_watcher + 1) (subscribe e).0 later
              room others (subscribe-Inv e v)
              (subscribed-Waiting id e (omega (arith, room)) granted)),
      )

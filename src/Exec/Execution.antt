-- ===== src/Exec/Execution.antt =====
-- internal/exec/execution.go: one isolated, one-shot invocation, its lifecycle events and their
-- watchers. Each method body between two releases of the mutex is one function.
pub mod Watchers
pub mod Streams
pub mod Steps
pub mod Invariant
pub mod Transitions
pub mod Observers
pub mod Preserves
pub mod Awaited
pub mod Waits
pub mod Bystanders
pub mod Life
pub mod Graph
pub mod Terminal
pub mod Ending
use ferretd.Prelude.{
  u64, ℕ, suc, ◌+◌, ◌%◌, ◌^◌, String, Bool, true, false, Option, none, some, List, [], ◌∷◌, ◌++◌,
  map, Outcome, done, panic, ◌>>=◌, if◌then◌else◌, ltb, length, insert, delete, lookup, nat_key,
  is_some,
}
use ferretd.Errors.{
  Error, err_watcher_lagged, err_execution_running, err_execution_terminal, err_execution_canceled,
  is_canceled,
}
use ferretd.Lifecycle.CloseOperation
use ferretd.Lifecycle.CloseOperation.{CloseOperation}
use ferretd.Exec.Snapshots
use ferretd.Exec.Snapshots.{
  State, state_created, state_running, state_completed, state_failed, state_cancelled, terminal,
  EventKind, event_created, event_started, event_completed, event_failed, event_cancelled,
  FailureCategory, Output, RuntimeFailure, Failure, ExecutionSnapshot, Event, clone_event,
}
use ferretd.Exec.Runtime
use ferretd.Exec.Runtime.{ExecutionRuntime, RuntimeRunResult}
use Watchers.{EventWatcher, new_watcher, deliver_all, live, released, close_watcher}

-- `watchers` is the map of registered watchers; `detached` holds those that were removed from it and
-- that their subscribers may still read. `run_done` tells whether the channel is closed.
pub record Execution : Type 0 where
  pub id : String
  pub runtime : ExecutionRuntime
  pub state : State
  pub output : Option Output
  pub failure : Option Failure
  pub run_done : Bool
  pub close : CloseOperation
  pub sequence : ℕ
  pub last_event : Option Event
  pub next_watcher : ℕ
  pub watchers : List (ℕ × EventWatcher)
  pub detached : List (ℕ × EventWatcher)

-- A method's result: a value, or the error that it returns.
pub data Reply (A : Type 0) : Type 0 where
  replied : A → Reply A
  failed : Error → Reply A

unfoldable pub snapshot : Execution → ExecutionSnapshot
snapshot e = Snapshots.clone (record {
  id = e.id;
  session = e.runtime.target.session_id;
  state = e.state;
  parameters = e.runtime.input.parameters;
  options = e.runtime.input.options;
  output = e.output;
  failure = e.failure;
})

-- `close(e.runDone)`.
abbrev pub close_run_done : Execution → Outcome Execution
close_run_done e = if e.run_done then panic else done (record e { run_done = true })

-- The loop over the watchers and the deletions that it makes.
unfoldable pub notify : Event → Bool → Execution → Execution
unfolding deliver_all live released
notify event is_terminal e =
    let ws = deliver_all event is_terminal e.watchers in
    record e { watchers = live ws; detached = released ws ++ e.detached }

unfoldable pub publish : EventKind → Bool → Execution → Outcome Execution
unfolding snapshot notify
publish kind is_terminal e =
    let next = u64 (e.sequence + 1) in
    let event : Event = record {
      execution = e.id;
      sequence = next;
      kind = kind;
      snapshot = snapshot e;
    } in
    let told = notify event is_terminal (record e { sequence = next; last_event = some event }) in
    if is_terminal then close_run_done told else done told

-- The literal that `newExecution` begins with.
unfoldable pub unpublished : String → ExecutionRuntime → Execution
unfolding CloseOperation.zero_value
unpublished id runtime = record {
  id = id;
  runtime = runtime;
  state = state_created;
  output = none;
  failure = none;
  run_done = false;
  close = CloseOperation.zero_value;
  sequence = 0;
  last_event = none;
  next_watcher = 0;
  watchers = [];
  detached = [];
}

unfoldable pub new_execution : String → ExecutionRuntime → Outcome Execution
unfolding publish unpublished
new_execution id runtime = publish event_created false (unpublished id runtime)

-- `start` under the mutex. With `replied` the goroutine of `run` has been started.
unfoldable pub start_created : Execution → Outcome (Execution × Reply ExecutionSnapshot)
unfolding publish
start_created e = do
  e' ← publish event_started false (record e { state = state_running })
  done (e', replied (snapshot e'))

-- `ctx_before` and `ctx_locked` are the context's error at the two points where `start` reads it.
unfoldable pub start :
    Execution → Option Error → Option Error → Outcome (Execution × Reply ExecutionSnapshot)
unfolding start_created
start e (some err) ctx_locked = done (e, failed err)
start e none (some err) = done (e, failed err)
start e none none = elim e.state [
  | state_created ↦ start_created e
  | state_running ↦ done (e, failed err_execution_running)
  | state_completed ↦ done (e, failed err_execution_terminal)
  | state_failed ↦ done (e, failed err_execution_terminal)
  | state_cancelled ↦ done (e, failed err_execution_terminal)
]

abbrev pub cancel_runtime : Execution → Execution
cancel_runtime e = record e { runtime = Runtime.cancel e.runtime err_execution_canceled }

-- `cancel`; the snapshot that it returns is that of the new state.
unfoldable pub cancel : Execution → Outcome Execution
unfolding publish
cancel e = elim e.state [
  | state_created ↦
      publish event_cancelled true (record (cancel_runtime e) { state = state_cancelled })
  | state_running ↦ done (cancel_runtime e)
  | state_completed ↦ done e
  | state_failed ↦ done e
  | state_cancelled ↦ done e
]

-- What `subscribe` hands out: the current event, and the watcher, none when the channels that it
-- returns are closed from the start.
pub record Subscription : Type 0 where
  pub current : Option Event
  pub watcher : Option ℕ

abbrev pub clone_last : Option Event → Option Event
clone_last none = none
clone_last (some event) = some (clone_event event)

unfoldable pub subscribe : Execution → Execution × Subscription
unfolding terminal new_watcher insert
subscribe e =
    let current = clone_last e.last_event in
    if terminal e.state
    then (e, record { current = current; watcher = none })
    else (let id = u64 (e.next_watcher + 1) in
        (
          record e { next_watcher = id; watchers = insert id new_watcher e.watchers },
          record { current = current; watcher = some id },
        ))

-- `unsubscribe`, which a subscription's Cancel calls at most once.
unfoldable pub unsubscribe : ℕ → Execution → Execution
unfolding lookup delete close_watcher
unsubscribe id e = elim (lookup id e.watchers) [
  | none ↦ e
  | some w ↦ record e {
    watchers = delete id e.watchers;
    detached = (id, close_watcher w none) ∷ e.detached;
  }
]

-- The invocation was cancelled: its error is a cancellation and its context has a cause.
unfoldable pub was_cancelled : Execution → Error → Bool
unfolding is_canceled
was_cancelled e err = if is_canceled err then is_some e.runtime.cause else false

-- `finish`. `materialize` makes the details of a failure: error texts and diagnostics come from
-- elsewhere.
unfoldable pub finish_failed :
    (ExecutionRuntime → Error → RuntimeFailure)
    → Execution
    → Error
    → FailureCategory
    → Outcome Execution
unfolding publish was_cancelled
finish_failed materialize e err category =
    if was_cancelled e err
    then publish event_cancelled true (record e { state = state_cancelled })
    else publish event_failed true (record e {
      state = state_failed;
      failure = some (record { category = category; details = materialize e.runtime err });
    })

unfoldable pub finish :
    (ExecutionRuntime → Error → RuntimeFailure)
    → Execution
    → Option Output
    → Option Error
    → FailureCategory
    → Outcome Execution
unfolding publish finish_failed
finish materialize e output err category = elim e.state [
  | state_running ↦ elim err [
    | none ↦ publish event_completed true (record e { output = output; state = state_completed })
    | some x ↦ finish_failed materialize (record e { output = output }) x category
  ]
  | state_created ↦ done e
  | state_completed ↦ done e
  | state_failed ↦ done e
  | state_cancelled ↦ done e
]

unfoldable pub begin_close : Execution → Execution × Bool
unfolding CloseOperation.begin
begin_close e = let (c, owner) = CloseOperation.begin e.close in (record e { close = c }, owner)

-- `settleClose` after `<-e.runDone`; `answer` is what the runtime session's Close would return.
unfoldable pub settle_rest : Execution → Option Error → Execution × Option Error
unfolding Watchers.close_all live released
settle_rest e answer =
    let (r, close_err) = Runtime.close_session e.runtime answer in
    let ws = Watchers.close_all e.watchers in
    (record e { runtime = r; watchers = live ws; detached = released ws ++ e.detached }, close_err)

-- `settleClose` up to the receive from `run_done`.
unfoldable pub settle_cancel : Execution → Outcome Execution
unfolding cancel
settle_cancel e = cancel e

unfoldable pub complete_close : Execution → Option Error → Outcome Execution
unfolding CloseOperation.finish
complete_close e err = do c ← CloseOperation.finish e.close err; done (record e { close = c })

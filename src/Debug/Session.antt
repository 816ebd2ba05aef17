-- ===== src/Debug/Session.antt =====
-- internal/debug/session.go, session_commands.go, session_lifecycle.go, session_watch.go,
-- session_snapshot.go, session_inspection.go and session_breakpoints.go. A method that releases the
-- mutex is one definition for each critical section; `terminal_done` is whether that channel is closed.
-- What the debugger answers to a call is an argument, and `materialize` is
-- DebugRuntime.MaterializeFailure on an error.
pub mod Commands
pub mod Steps
use ferretd.Prelude.{
  u64, ℕ, ◌+◌, String, Bool, true, false, not, ◌||◌, Option, none, some, List, [], ◌∷◌, ◌++◌,
  Outcome, done, panic, ◌>>=◌, if◌then◌else◌, lookup, insert, delete, nat_key,
}
use ferretd.Errors.{Error, debug_session_running, debug_session_not_stopped, debug_session_terminal}
use ferretd.Diagnostics.{copy_slice}
use ferretd.Lifecycle.CloseOperation
use ferretd.Lifecycle.CloseOperation.{CloseOperation, started}
use ferretd.Exec.Snapshots.{Output, RuntimeFailure, clone_output}
use ferretd.Exec.DebugRuntime
use ferretd.Exec.DebugRuntime.{DebugRuntime}
use ferretd.Debug.Values.{
  State, state_created, state_running, state_stopped, state_completed, state_failed,
  state_terminated, terminal, EventKind, event_created, event_running, event_stopped,
  event_completed, event_failed, event_terminated, Reason, no_reason, SessionSnapshot, Event,
  clone_event, clone_failure,
}
use ferretd.Debug.Watchers.{
  DebugEventWatcher, new_watcher, close_watcher, deliver_all, close_all, live, released,
}

pub record Session (L : Type 0) : Type 0 where
  pub id : String
  pub runtime : DebugRuntime
  pub state : State
  pub reason : Reason
  pub location : Option L
  pub hit_breakpoint_ids : List ℕ
  pub output : Option Output
  pub failure : Option RuntimeFailure
  pub terminating : Bool
  pub close : CloseOperation
  pub terminal_done : Bool
  pub sequence : ℕ
  pub last_event : Option (Event L)
  pub next_watcher : ℕ
  pub watchers : List (ℕ × DebugEventWatcher L)
  pub detached : List (ℕ × DebugEventWatcher L)

-- A method's result: a value, or the error that it returns.
pub data Reply (A : Type 0) : Type 0 where
  replied : A → Reply A
  failed : Error → Reply A

pub record Subscription (L : Type 0) : Type 0 where
  pub current : Option (Event L)
  pub watcher : Option ℕ

abbrev pub stopped_or : State → Bool → Option Error
stopped_or state_running closing = some debug_session_running
stopped_or state_stopped closing = if closing then some debug_session_not_stopped else none
stopped_or _ closing = some debug_session_not_stopped

module _ {L : Type 0} where
  unfoldable pub snapshot : Session L → SessionSnapshot L
  unfolding copy_slice clone_output clone_failure
  snapshot d = record {
    id = d.id;
    execution_session = DebugRuntime.session_id d.runtime;
    state = d.state;
    reason = d.reason;
    location = d.location;
    hit_breakpoint_ids = copy_slice d.hit_breakpoint_ids;
    parameters = DebugRuntime.parameters d.runtime;
    options = DebugRuntime.options d.runtime;
    output = clone_output d.output;
    failure = clone_failure d.failure;
  }

  -- The event that `publishLocked` makes next.
  unfoldable pub next_event : EventKind → Session L → Event L
  next_event kind d = record {
    session = d.id;
    sequence = u64 (d.sequence + 1);
    kind = kind;
    snapshot = snapshot d;
  }

  -- The loop over the watchers and the deletions that it makes.
  unfoldable pub notify : Event L → Bool → Session L → Session L
  unfolding deliver_all live released
  notify event is_terminal d =
      let ws = deliver_all event is_terminal d.watchers in
      record d { watchers = live ws; detached = released ws ++ d.detached }

  unfoldable pub publish : EventKind → Bool → Session L → Outcome (Session L)
  unfolding notify next_event
  publish kind is_terminal d =
      let event = next_event kind d in
      let told =
        notify event is_terminal
          (record d { sequence = u64 (d.sequence + 1); last_event = some event }) in
      if is_terminal
      then (if told.terminal_done then panic else done (record told { terminal_done = true }))
      else done told

  -- The literal that `newSession` begins with.
  unfoldable pub unpublished : String → DebugRuntime → Session L
  unfolding CloseOperation.zero_value
  unpublished id runtime = record {
    id = id;
    runtime = runtime;
    state = state_created;
    reason = no_reason;
    location = none;
    hit_breakpoint_ids = [];
    output = none;
    failure = none;
    terminating = false;
    close = CloseOperation.zero_value;
    terminal_done = false;
    sequence = 0;
    last_event = none;
    next_watcher = 0;
    watchers = [];
    detached = [];
  }

  unfoldable pub new_session : String → DebugRuntime → Outcome (Session L)
  unfolding publish unpublished
  new_session id runtime = publish event_created false (unpublished id runtime)

  abbrev clone_last : Option (Event L) → Option (Event L)
  clone_last none = none
  clone_last (some e) = some (clone_event e)

  unfoldable pub subscribe : Session L → Session L × Subscription L
  unfolding terminal new_watcher insert
  subscribe d =
      let current = clone_last d.last_event in
      if terminal d.state
      then (d, record { current = current; watcher = none })
      else (let id = u64 (d.next_watcher + 1) in
          (
            record d { next_watcher = id; watchers = insert id new_watcher d.watchers },
            record { current = current; watcher = some id },
          ))

  -- `unsubscribe`, which a subscription's Cancel calls at most once.
  unfoldable pub unsubscribe : ℕ → Session L → Session L
  unfolding lookup delete close_watcher
  unsubscribe id d = elim (lookup id d.watchers) [
    | none ↦ d
    | some w ↦ record d {
      watchers = delete id d.watchers;
      detached = (id, close_watcher w none) ∷ d.detached;
    }
  ]

  unfoldable pub require_active : Session L → Option Error
  unfolding terminal started
  require_active d =
      if terminal d.state || (d.terminating || started d.close)
      then some debug_session_terminal
      else none

  unfoldable pub require_stopped : Session L → Option Error
  unfolding started
  require_stopped d = stopped_or d.state (started d.close)

  unfoldable pub begin_close : Session L → Session L × Bool
  unfolding CloseOperation.begin
  begin_close d = let (c, owner) = CloseOperation.begin d.close in (record d { close = c }, owner)

  -- `settleClose` after `<-d.terminalDone`; `answer` is what the debugger session's Close would return.
  unfoldable pub settle_rest : Session L → Option Error → Session L
  unfolding close_all live released DebugRuntime.close
  settle_rest d answer =
      let ws = close_all d.watchers in
      record d {
        runtime = (DebugRuntime.close d.runtime answer).0;
        watchers = live ws;
        detached = released ws ++ d.detached;
      }

  unfoldable pub complete_close : Session L → Option Error → Outcome (Session L)
  unfolding CloseOperation.finish DebugRuntime.close
  complete_close d answer =
      let (runtime, err, releases) = DebugRuntime.close d.runtime answer in
      (do c ← CloseOperation.finish d.close err; done (record d { runtime = runtime; close = c }))

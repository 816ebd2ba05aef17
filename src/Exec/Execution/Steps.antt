-- ===== src/Exec/Execution/Steps.antt =====
-- The calls that change an Execution, in any order: those of the daemon's methods, of the goroutine
-- that runs it, of its close, and the receives of the subscribers.
use ferretd.Prelude.{
  ℕ, Option, none, some, List, [], ◌∷◌, Outcome, done, ◌>>=◌, lookup, insert, nat_key,
  if◌then◌else◌, String,
}
use ferretd.Errors.{Error}
use ferretd.Lifecycle.CloseOperation.{close_idle, close_started, close_finished}
use ferretd.Exec.Snapshots.{FailureCategory, Output, RuntimeFailure}
use ferretd.Exec.Runtime.{ExecutionRuntime}
use ferretd.Exec.Execution.Watchers.{EventWatcher}
use ferretd.Exec.Execution.{
  Execution, new_execution, start, cancel, subscribe, unsubscribe, finish, begin_close, settle_rest,
  complete_close,
}

pub data Action : Type 0 where
  starts : Option Error → Option Error → Action
  cancels subscribes begins_close : Action
  unsubscribes receives receives_detached : ℕ → Action
  finishes : Option Output → Option Error → FailureCategory → Action
  settles completes_close : Option Error → Action

abbrev pub drop_first : EventWatcher → EventWatcher
drop_first w = elim w.events [ [] ↦ w | e ∷ es ↦ record w { events = es } ]

-- A subscriber takes the oldest event out of its channel.
unfoldable pub receive : ℕ → List (ℕ × EventWatcher) → List (ℕ × EventWatcher)
receive id ws = elim (lookup id ws) [ none ↦ ws | some w ↦ insert id (drop_first w) ws ]

-- The receive from `run_done` holds `settles` up until the run is over, and `completes_close` is for
-- the owner of the close alone: where they are not enabled they change nothing.
unfoldable pub step :
    (ExecutionRuntime → Error → RuntimeFailure) → Execution → Action → Outcome Execution
step materialize e (starts before locked) = do r ← start e before locked; done r.0
step materialize e cancels = cancel e
step materialize e subscribes = done (subscribe e).0
step materialize e (unsubscribes id) = done (unsubscribe id e)
step materialize e (receives id) = done (record e { watchers = receive id e.watchers })
step materialize e (receives_detached id) = done (record e { detached = receive id e.detached })
step materialize e (finishes output err category) = finish materialize e output err category
step materialize e begins_close = done (begin_close e).0
step materialize e (settles answer) = if e.run_done then done (settle_rest e answer).0 else done e
step materialize e (completes_close err) = elim e.close.state [
  | close_idle ↦ done e
  | close_started ↦ complete_close e err
  | close_finished ↦ done e
]

unfoldable pub run :
    (ExecutionRuntime → Error → RuntimeFailure) → Execution → List Action → Outcome Execution
run materialize e [] = done e
run materialize e (a ∷ rest) = do e' ← step materialize e a; run materialize e' rest

-- A new Execution and what happens to it.
unfoldable pub life :
    (ExecutionRuntime → Error → RuntimeFailure)
    → String
    → ExecutionRuntime
    → List Action
    → Outcome Execution
life materialize id runtime actions = do e ← new_execution id runtime; run materialize e actions

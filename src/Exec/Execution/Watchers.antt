-- ===== src/Exec/Execution/Watchers.antt =====
-- The event watchers of internal/exec/execution.go. `events` is what the buffered channel of eight
-- events holds, oldest first, and `errors` what the channel of one error holds.
use ferretd.Prelude.{
  ℕ, Bool, true, false, Option, none, some, List, [], ◌∷◌, ◌++◌, if◌then◌else◌, ltb, length,
}
use ferretd.Errors.{Error, err_watcher_lagged}
use ferretd.Exec.Snapshots.{Event, clone_event}

pub record EventWatcher : Type 0 where
  pub events : List Event
  pub errors : List Error
  pub closed : Bool

abbrev pub watcher_buffer_size : ℕ
watcher_buffer_size = 8

unfoldable pub new_watcher : EventWatcher
new_watcher = record { events = []; errors = []; closed = false }

abbrev append_error : List Error → Option Error → List Error
append_error errors none = errors
append_error errors (some e) = errors ++ e ∷ []

-- `closeWatcherLocked` on the watcher itself. Its removal from the map is `live` and `released`.
unfoldable pub close_watcher : EventWatcher → Option Error → EventWatcher
close_watcher w err =
    if w.closed then w else record w { closed = true; errors = append_error w.errors err }

-- One round of the loop in `publishLocked`: a send that does not block, or the lagged close.
unfoldable pub deliver : Event → Bool → EventWatcher → EventWatcher
unfolding close_watcher
deliver event terminal w =
    if ltb (length w.events) watcher_buffer_size
    then (let sent = record w { events = w.events ++ clone_event event ∷ [] } in
        if terminal then close_watcher sent none else sent)
    else close_watcher w (some err_watcher_lagged)

-- The loop. Go lets a `range` delete entries of the map that it visits.
unfoldable pub deliver_all : Event → Bool → List (ℕ × EventWatcher) → List (ℕ × EventWatcher)
unfolding deliver
deliver_all event terminal [] = []
deliver_all event terminal ((id, w) ∷ ws) =
    (id, deliver event terminal w) ∷ deliver_all event terminal ws

-- Every watcher, closed with no error.
unfoldable pub close_all : List (ℕ × EventWatcher) → List (ℕ × EventWatcher)
unfolding close_watcher
close_all [] = []
close_all ((id, w) ∷ ws) = (id, close_watcher w none) ∷ close_all ws

-- A closed watcher is deleted from the map; `live` are those that stay, `released` those that leave.
unfoldable pub live : List (ℕ × EventWatcher) → List (ℕ × EventWatcher)
live [] = []
live ((id, w) ∷ ws) = let rest = live ws in if w.closed then rest else (id, w) ∷ rest

unfoldable pub released : List (ℕ × EventWatcher) → List (ℕ × EventWatcher)
released [] = []
released ((id, w) ∷ ws) = let rest = released ws in if w.closed then (id, w) ∷ rest else rest

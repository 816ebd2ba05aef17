-- ===== src/Debug/Watchers.antt =====
-- internal/debug/debug_event_watcher.go and the watchers of session_watch.go. `events` is what the
-- buffered channel of eight events holds, oldest first, and `errors` what the channel of one error
-- holds.
pub mod Streams
use ferretd.Prelude.{
  ℕ, Bool, true, false, Option, none, some, List, [], ◌∷◌, ◌++◌, if◌then◌else◌, ltb, length,
}
use ferretd.Errors.{Error, debug_watcher_lagged}
use ferretd.Debug.Values.{Event, clone_event}

pub record DebugEventWatcher (L : Type 0) : Type 0 where
  pub events : List (Event L)
  pub errors : List Error
  pub closed : Bool

abbrev pub watcher_buffer_size : ℕ
watcher_buffer_size = 8

abbrev append_error : List Error → Option Error → List Error
append_error errors none = errors
append_error errors (some e) = errors ++ e ∷ []

module _ {L : Type 0} where
  unfoldable pub new_watcher : DebugEventWatcher L
  new_watcher = record { events = []; errors = []; closed = false }

  -- `closeWatcherLocked` on the watcher itself; `live` and `released` are its removal from the map.
  unfoldable pub close_watcher : DebugEventWatcher L → Option Error → DebugEventWatcher L
  close_watcher w err =
      if w.closed then w else record w { closed = true; errors = append_error w.errors err }

  -- One round of the loop in `publishLocked`: a send that does not block, or the lagged close.
  unfoldable pub deliver : Event L → Bool → DebugEventWatcher L → DebugEventWatcher L
  unfolding close_watcher clone_event
  deliver event is_terminal w =
      if ltb (length w.events) watcher_buffer_size
      then (let sent = record w { events = w.events ++ clone_event event ∷ [] } in
          if is_terminal then close_watcher sent none else sent)
      else close_watcher w (some debug_watcher_lagged)

  unfoldable pub deliver_all :
      Event L → Bool → List (ℕ × DebugEventWatcher L) → List (ℕ × DebugEventWatcher L)
  unfolding deliver
  deliver_all event is_terminal [] = []
  deliver_all event is_terminal ((id, w) ∷ ws) =
      (id, deliver event is_terminal w) ∷ deliver_all event is_terminal ws

  unfoldable pub close_all : List (ℕ × DebugEventWatcher L) → List (ℕ × DebugEventWatcher L)
  unfolding close_watcher
  close_all [] = []
  close_all ((id, w) ∷ ws) = (id, close_watcher w none) ∷ close_all ws

  -- A closed watcher is deleted from the map.
  unfoldable pub live : List (ℕ × DebugEventWatcher L) → List (ℕ × DebugEventWatcher L)
  live [] = []
  live ((id, w) ∷ ws) = let rest = live ws in if w.closed then rest else (id, w) ∷ rest

  unfoldable pub released : List (ℕ × DebugEventWatcher L) → List (ℕ × DebugEventWatcher L)
  released [] = []
  released ((id, w) ∷ ws) = let rest = released ws in if w.closed then (id, w) ∷ rest else rest

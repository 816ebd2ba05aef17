-- ===== src/Lifecycle/Gate.antt =====
-- internal/lifecycle/gate.go. `channels` is the heap of the channels that the gate has made, and
-- `creates_done` the address of the current one, none for nil.
pub mod Protocol
use ferretd.Prelude.{
  ℕ, zero, suc, ◌-◌, ◌+◌, Bool, true, false, Option, none, some, List, [], Outcome, done, panic,
  ◌>>=◌, if◌then◌else◌, ◌==◌,
}
use ferretd.Errors.{Error}
use ferretd.Lifecycle.Channels.{make_channel, close_channel, is_closed}
use ferretd.Lifecycle.CloseOperation
use ferretd.Lifecycle.CloseOperation.{CloseOperation, started}

pub record Gate : Type 0 where
  pub close : CloseOperation
  pub creating : ℕ
  pub creates_done : Option ℕ
  pub channels : List Bool

-- The zero value.
unfoldable pub zero_gate : Gate
unfolding CloseOperation.zero_value
zero_gate = record {
  close = CloseOperation.zero_value;
  creating = 0;
  creates_done = none;
  channels = [];
}

-- `if g.creating == 0 { g.createsDone = make(chan struct{}) }`.
unfoldable pub ensure_channel : Gate → Gate
unfolding make_channel
ensure_channel g =
    if g.creating == 0
    then (let (heap, c) = make_channel g.channels in
        record g { creates_done = some c; channels = heap })
    else g

unfoldable pub begin_create : Gate → Gate × Bool
unfolding started ensure_channel
begin_create g =
    if started g.close
    then (g, false)
    else (record (ensure_channel g) { creating = g.creating + 1 }, true)

unfoldable pub end_create : Gate → Outcome (Gate × Bool)
unfolding close_channel
end_create g =
    if g.creating == 0
    then panic
    else let left = g.creating - 1 in
      if left == 0
      then (do
        heap ← close_channel g.channels g.creates_done
        done (record g { creating = left; creates_done = none; channels = heap }, true))
      else done (record g { creating = left }, false)

unfoldable pub begin_close : Gate → Gate × Bool
unfolding CloseOperation.begin
begin_close g = let (c, owner) = CloseOperation.begin g.close in (record g { close = c }, owner)

unfoldable pub accepting : Gate → Bool
unfolding started
accepting g = if started g.close then false else true

unfoldable pub idle : Gate → Bool
idle g = g.creating == 0

-- `WaitForCreates` up to the point where it releases the mutex: the channel to receive from, none
-- when it returns at once.
unfoldable pub wait_for_creates : Gate → Outcome (Option ℕ)
unfolding started
wait_for_creates g = if started g.close then done g.creates_done else panic

-- The receive of `WaitForCreates` lets the caller go on.
unfoldable pub creates_left : Gate → Option ℕ → Bool
unfolding is_closed
creates_left g none = true
creates_left g (some c) = is_closed g.channels (some c)

unfoldable pub finish_close : Gate → Option Error → Outcome Gate
unfolding CloseOperation.finish
finish_close g err =
    if g.creating == 0
    then (do c ← CloseOperation.finish g.close err; done (record g { close = c }))
    else panic

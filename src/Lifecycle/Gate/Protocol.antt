-- ===== src/Lifecycle/Gate/Protocol.antt =====
-- The gate as its callers use it: a creator that was admitted leaves once, and whoever owns the close
-- waits for the creators and then publishes the result. Any interleaving of these steps is a run.
pub mod Invariant
pub mod Drain
use ferretd.Prelude.{
  ℕ, suc, ◌-◌, ◌+◌, Bool, true, false, Option, none, some, List, [], ◌∷◌, Outcome, done, panic,
  ◌>>=◌, if◌then◌else◌, ◌==◌,
}
use ferretd.Errors.{Error}
use ferretd.Lifecycle.Gate.{
  Gate, zero_gate, begin_create, end_create, begin_close, wait_for_creates, creates_left,
  finish_close,
}

-- Where the owner of the close stands; `waiting` holds the channel that it read.
pub data Phase : Type 0 where
  running committed drained closed : Phase
  waiting : Option ℕ → Phase

pub record World : Type 0 where
  pub gate : Gate
  pub inside : ℕ
  pub phase : Phase

pub data Action : Type 0 where
  enter leave commit capture drain : Action
  publish : Option Error → Action

unfoldable pub initial : World
unfolding zero_gate
initial = record { gate = zero_gate; inside = 0; phase = running }

abbrev pub try_capture : World → Phase → Outcome World
try_capture w committed = do c ← wait_for_creates w.gate; done (record w { phase = waiting c })
try_capture w _ = done w

abbrev pub try_drain : World → Phase → Outcome World
try_drain w (waiting c) = done (if creates_left w.gate c then record w { phase = drained } else w)
try_drain w _ = done w

abbrev pub try_publish : Option Error → World → Phase → Outcome World
try_publish err w drained = do
  g ← finish_close w.gate err
  done (record w { gate = g; phase = closed })
try_publish err w _ = done w

-- A step that is not enabled changes nothing.
unfoldable pub step : World → Action → Outcome World
step w enter =
    let (g, admitted) = begin_create w.gate in
    done (record w { gate = g; inside = if admitted then w.inside + 1 else w.inside })
step w leave =
    if w.inside == 0
    then done w
    else (do left ← end_create w.gate; done (record w { gate = left.0; inside = w.inside - 1 }))
step w commit =
    let (g, owner) = begin_close w.gate in
    done (record w { gate = g; phase = if owner then committed else w.phase })
step w capture = try_capture w w.phase
step w drain = try_drain w w.phase
step w (publish err) = try_publish err w w.phase

unfoldable pub run : World → List Action → Outcome World
run w [] = done w
run w (a ∷ rest) = do v ← step w a; run v rest

-- ===== src/Lifecycle/Gate/Protocol/Invariant.antt =====
-- What holds of the gate and its callers in every reachable state.
use ferretd.Prelude.{
  ℕ, ◌<◌, ◌≡◌, ◌≢◌, refl, ◌⊎◌, inl, inr, Bool, true, false, Option, none, some, List, [], ◌∷◌,
  subst, panic, Ensures, Ensures-bind, arith, Option-cases,
}
use ferretd.Errors.{Error}
use ferretd.Lifecycle.Channels.{
  IsOpen, close_channel, is_closed, get_elem?-append_end, get_elem?-set_self, make_channel,
}
use ferretd.Lifecycle.CloseOperation
use ferretd.Lifecycle.CloseOperation.{
  CloseOperation, close_idle, close_started, close_finished, started,
}
use ferretd.Lifecycle.Gate.{
  Gate, zero_gate, begin_create, end_create, begin_close, wait_for_creates, creates_left,
  finish_close, ensure_channel,
}
use ferretd.Lifecycle.Gate.Protocol.{
  Phase, running, committed, drained, closed, waiting, World, Action, enter, leave, commit, capture,
  drain, publish, initial, step, run,
}

-- There is a channel, and it is open, exactly while creators are inside.
abbrev pub ChannelInv : List Bool → ℕ → Option ℕ → Type 0
ChannelInv heap n none = n ≡ 0
ChannelInv heap n (some c) = (0 < n) × IsOpen heap c

-- The channel that the owner waits for is the current one, or it is closed and nobody is inside.
abbrev pub WaitInv : List Bool → ℕ → Option ℕ → Option ℕ → Type 0
WaitInv heap n current none = n ≡ 0
WaitInv heap n current (some c) =
    ((is_closed heap (some c) ≡ true) × (n ≡ 0))
    ⊎ ((current ≡ some c) × (is_closed heap (some c) ≡ false))

abbrev pub IsTearing : CloseOperation → Type 0
IsTearing c = (c.state ≡ close_started) × (c.done_channel ≡ some false)

abbrev pub PhaseInv : Gate → Phase → Type 0
PhaseInv g running = (g.close.state ≡ close_idle)
PhaseInv g committed = IsTearing g.close
PhaseInv g (waiting c) = IsTearing g.close × WaitInv g.channels g.creating g.creates_done c
PhaseInv g drained = IsTearing g.close × (g.creating ≡ 0)
PhaseInv g closed = (g.close.state ≡ close_finished) × (g.creating ≡ 0)

pub record Inv (w : World) : Type 0 where
  pub counted : w.gate.creating ≡ w.inside
  pub channel : ChannelInv w.gate.channels w.gate.creating w.gate.creates_done
  pub phase : PhaseInv w.gate w.phase

pub initial-Inv : Inv initial
unfolding initial zero_gate CloseOperation.zero_value
initial-Inv = record { counted = refl; channel = refl; phase = refl }

enter-Inv : (w : World) → Inv w → Ensures Inv (step w enter)
unfolding step begin_create started make_channel ensure_channel
enter-Inv w v = ground (arith, get_elem?-append_end w.gate.channels false)

pub leave-Inv : (w : World) → Inv w → Ensures Inv (step w leave)
unfolding step end_create close_channel is_closed
leave-Inv w v = elim (Option-cases w.gate.creates_done) [
  | inl e ↦ ground arith
  | inr (c, e) ↦ ground (arith, get_elem?-set_self w.gate.channels c true false)
]

commit-Inv : (w : World) → Inv w → Ensures Inv (step w commit)
unfolding step begin_close CloseOperation.begin
commit-Inv w v = ground arith

capture-Inv : (w : World) → Inv w → Ensures Inv (step w capture)
unfolding step wait_for_creates started is_closed
capture-Inv w v = ground arith

pub drain-Inv : (w : World) → Inv w → Ensures Inv (step w drain)
unfolding step creates_left
drain-Inv w v = ground arith

publish-Inv : (w : World) (err : Option Error) → Inv w → Ensures Inv (step w (publish err))
unfolding step finish_close CloseOperation.finish
publish-Inv w err v = ground arith

-- No step of any caller panics, and every step keeps the invariant.
pub step-Inv : (w : World) (a : Action) → Inv w → Ensures Inv (step w a)
step-Inv w enter v = enter-Inv w v
step-Inv w leave v = leave-Inv w v
step-Inv w commit v = commit-Inv w v
step-Inv w capture v = capture-Inv w v
step-Inv w drain v = drain-Inv w v
step-Inv w (publish err) v = publish-Inv w err v

pub run-Inv : (w : World) (actions : List Action) → Inv w → Ensures Inv (run w actions)
unfolding run
run-Inv w [] v = v
run-Inv w (a ∷ rest) v =
    Ensures-bind Inv Inv (step w a) (λ u. run u rest) (step-Inv w a v) (λ u i. run-Inv u rest i)

-- In every interleaving of creators and closers from the zero value, none of the gate's panics is
-- raised.
pub gate_never_panics : (actions : List Action) → run initial actions ≢ panic
gate_never_panics actions h = subst (Ensures Inv) h (run-Inv initial actions initial-Inv)

-- ===== src/Examples/Closing.antt =====
-- internal/lifecycle at concrete inputs.
use ferretd.Prelude.{
  ◌↔◌, ◌⊎◌, Bool, false, ℕ, ◌≡◌, ◌≢◌, refl, ◌≤◌, true, false, Option, none, some, List, [], ◌∷◌,
  ◌++◌, Outcome, done, panic, Ensures, replicate, if◌then◌else◌,
}
use ferretd.Errors.{Error, other, context_canceled}
use ferretd.Lifecycle.CloseOperation
use ferretd.Lifecycle.CloseOperation.{
  CloseOperation, close_started, zero_value, begin, finish, started, wait, result, wait_cancelled,
  returned,
}
use ferretd.Lifecycle.CloseOperation.History.{
  History, here, begins, one_owner, no_panics, finish-wait,
}
use ferretd.Lifecycle.Gate.{
  zero_gate, begin_create, end_create, begin_close, wait_for_creates, creates_left,
}
use ferretd.Lifecycle.Gate.Protocol.{
  World, waiting, drained, closed, Action, enter, leave, commit, capture, drain, publish, initial,
  step, run,
}
use ferretd.Lifecycle.Gate.Protocol.Invariant.{gate_never_panics}
use ferretd.Lifecycle.Gate.Protocol.Drain.{committed_admits_none, drained_stays_empty, wait_ends}

abbrev failure : Option Error
failure = some (other "teardown failed")

-- A second `Begin` does not own the close.
abbrev begun : CloseOperation
begun = (begin zero_value).0

abbrev begun_history : History zero_value 1 begun
unfolding begin zero_value
begun_history = begins here

one_owner_example : ◌≡◌ {A = ℕ} 1 (if started begun then 1 else 0)
one_owner_example = one_owner begun_history

no_panics_example :
    ((finish begun failure ≡ panic) ↔ (begun.state ≢ close_started))
    × ((context : Bool)
        → (wait begun context ≡ panic) ↔ ((context ≡ false) ⊎ (started begun ≡ false)))
    × ((result begun ≡ panic) ↔ (begun.done_channel ≢ some true))
no_panics_example = no_panics begun_history failure

abbrev closed_operation : CloseOperation
closed_operation = record {
  state = CloseOperation.close_finished;
  done_channel = some true;
  err = failure;
}

finish-begun : finish begun failure ≡ done closed_operation
unfolding finish begin zero_value
finish-begun = refl

finish-wait_example :
    (wait (begin closed_operation).0 true ≡ done (returned failure))
    × (result (begin closed_operation).0 ≡ done failure)
    × ((x : Error) → wait_cancelled (begin closed_operation).0 x ≡ failure)
finish-wait_example = finish-wait begun failure finish-begun (begins here)

-- The caller's cancellation shows only while the teardown is in progress.
cancelled_wait : wait_cancelled begun context_canceled ≡ some context_canceled
unfolding begin zero_value wait_cancelled
cancelled_wait = refl

abbrev ended : {A : Type 0} → A → Outcome A → A
ended a (done b) = b
ended a panic = a

abbrev two_inside : List Action
two_inside = enter ∷ enter ∷ commit ∷ capture ∷ []

abbrev waiting_world : World
waiting_world = record {
  gate = record {
    close = record { state = close_started; done_channel = some false; err = none };
    creating = 2;
    creates_done = some 0;
    channels = false ∷ [];
  };
  inside = 2;
  phase = waiting (some 0);
}

two_inside-run : run initial two_inside ≡ done waiting_world
unfolding run initial step begin_create begin_close wait_for_creates zero_gate begin
two_inside-run = refl

gate_never_panics_example : run initial two_inside ≢ panic
gate_never_panics_example = gate_never_panics two_inside

committed_admits_none_example :
    Ensures
      (λ u. (started u.gate.close ≡ true) × (u.inside ≤ 2))
      (run waiting_world (enter ∷ leave ∷ []))
unfolding started
committed_admits_none_example =
    committed_admits_none two_inside (enter ∷ leave ∷ []) waiting_world two_inside-run refl

wait_ends_example :
    Ensures
      (λ u. (u.phase ≡ closed) × (u.gate.close.err ≡ failure))
      (run waiting_world (replicate 2 leave ++ drain ∷ publish failure ∷ []))
wait_ends_example = wait_ends two_inside waiting_world (some 0) failure two_inside-run refl

abbrev drained_run : List Action
drained_run = enter ∷ commit ∷ capture ∷ leave ∷ drain ∷ []

abbrev drained_world : World
drained_world = record {
  gate = record {
    close = record { state = close_started; done_channel = some false; err = none };
    creating = 0;
    creates_done = none;
    channels = true ∷ [];
  };
  inside = 0;
  phase = drained;
}

drained_run_lem : run initial drained_run ≡ done drained_world
unfolding run initial step begin_create begin_close wait_for_creates end_create creates_left
    zero_gate
drained_run_lem = refl

drained_stays_empty_example :
    Ensures (λ u. u.inside ≡ 0) (run drained_world (enter ∷ publish failure ∷ []))
drained_stays_empty_example =
    drained_stays_empty drained_run (enter ∷ publish failure ∷ []) drained_world drained_run_lem
      refl

-- ===== src/Debug/Session/Steps/Transitions.antt =====
-- The commands, their ends and the termination keep the invariant of a debug Session and never panic.
use ferretd.Prelude.{
  ap, ◌∙◌, ◌≡◌, refl, Bool, true, false, Option, none, some, Ensures, Ensures-bind, Ensures-if,
  ◌||◌, ◌&&◌, not, is_some, done, arith,
}
use ferretd.Errors.{Error}
use ferretd.Diagnostics.{copy_slice}
use ferretd.Lifecycle.CloseOperation.{started}
use ferretd.Exec.Snapshots.{RuntimeFailure}
use ferretd.Debug.Values.{
  State, state_created, state_running, state_stopped, state_completed, state_failed,
  state_terminated, terminal, event_running, Reason, no_reason, reason_entry, reason_breakpoint,
  reason_step, reason_pause, reason_runtime_error, reason_completed, reason_terminated,
  other_reason, SessionSnapshot,
}
use ferretd.Debug.Session.{Session, Reply, replied, publish, snapshot}
use ferretd.Debug.Session.Commands.{
  RuntimeEvent, unknown_event, no_event, is_state, enter_running, start_command, stop, fail,
  terminated, apply_reason, apply_runtime_event, keep_output, run_command, command_result,
  finish_termination,
}
use ferretd.Debug.Session.Steps.Invariant.{Inv, Same, kind_of, publish-Inv}

pub is_state-eq : (s t : State) → is_state s t ≡ true → s ≡ t
is_state-eq state_created t e = ground arith
is_state-eq state_running t e = ground arith
is_state-eq state_stopped t e = ground arith
is_state-eq state_completed t e = ground arith
is_state-eq state_failed t e = ground arith
is_state-eq state_terminated t e = ground arith

module _ {L : Type 0} where
  -- A command starts from a state that is not terminal.
  pub start_command-Inv :
      (d : Session L) (expected : State) (before locked : Option Error)
      → terminal expected ≡ false
      → Inv d
      → Ensures (λ r. Inv r.0) (start_command d expected before locked)
  unfolding start_command enter_running kind_of terminal
  start_command-Inv d expected (some e) locked t v = v
  start_command-Inv d expected none (some e) t v = v
  start_command-Inv d expected none none t v =
      let P : Session L × Reply (SessionSnapshot L) → Type 0 = λ r. Inv r.0 in
      Ensures-if P (d.terminating || started d.close) _ _ (λ c. v)
        (λ c.
          Ensures-if P (is_state d.state expected) _ _
            (λ here.
              Ensures-bind Inv P (publish event_running false (enter_running d))
                (λ x. done (x, replied (snapshot x)))
                (publish-Inv d (enter_running d) state_running false v
                  (ap terminal (is_state-eq d.state expected here) ∙ t)
                  (refl, refl, refl, refl, refl) refl refl)
                (λ r i. i))
            (λ other. Ensures-if P (is_state d.state state_running) _ _ (λ r. v) (λ r. v)))

  stop-Inv :
      (e d : Session L) (why : Reason)
      → Inv e
      → terminal e.state ≡ false
      → Same e d
      → Ensures Inv (stop why d)
  unfolding stop kind_of terminal
  stop-Inv e d why v t s = publish-Inv e _ state_stopped false v t s refl refl

  fail-Inv :
      (materialize : Error → RuntimeFailure) (err : Option Error) (e d : Session L)
      → Inv e
      → terminal e.state ≡ false
      → Same e d
      → Ensures Inv (fail materialize err d)
  unfolding fail kind_of terminal
  fail-Inv materialize err e d v t s = publish-Inv e _ state_failed true v t s refl refl

  terminated-Inv :
      (e d : Session L) → Inv e → terminal e.state ≡ false → Same e d → Ensures Inv (terminated d)
  unfolding terminated kind_of terminal
  terminated-Inv e d v t s = publish-Inv e _ state_terminated true v t s refl refl

  -- Whatever the debugger reports, the event is published without a panic.
  apply_reason-Inv :
      (materialize : Error → RuntimeFailure) (resumed : Bool) (event : RuntimeEvent L)
      (why : Reason) (e d : Session L)
      → Inv e
      → terminal e.state ≡ false
      → Same e d
      → Ensures Inv (apply_reason materialize resumed event why d)
  unfolding apply_reason kind_of terminal
  apply_reason-Inv materialize resumed event reason_entry e d v t s =
      stop-Inv e d reason_entry v t s
  apply_reason-Inv materialize resumed event reason_breakpoint e d v t s =
      stop-Inv e (record d { hit_breakpoint_ids = copy_slice event.hit_breakpoint_ids })
        reason_breakpoint v t s
  apply_reason-Inv materialize resumed event reason_step e d v t s = stop-Inv e d reason_step v t s
  apply_reason-Inv materialize resumed event reason_pause e d v t s =
      stop-Inv e d reason_pause v t s
  apply_reason-Inv materialize resumed event reason_runtime_error e d v t s =
      publish-Inv e _ state_stopped false v t s refl refl
  apply_reason-Inv materialize resumed event reason_completed e d v t s =
      publish-Inv e _ state_completed true v t s refl refl
  apply_reason-Inv materialize resumed event reason_terminated e d v t s =
      Ensures-if Inv (resumed && (is_some event.error && not d.terminating)) _ _
        (λ c. fail-Inv materialize event.error e d v t s) (λ c. terminated-Inv e d v t s)
  apply_reason-Inv materialize resumed event no_reason e d v t s =
      fail-Inv materialize unknown_event e d v t s
  apply_reason-Inv materialize resumed event (other_reason r) e d v t s =
      fail-Inv materialize unknown_event e d v t s

  apply_runtime_event-Inv :
      (materialize : Error → RuntimeFailure) (event : Option (RuntimeEvent L)) (resumed : Bool)
      (d : Session L)
      → Inv d
      → terminal d.state ≡ false
      → Ensures Inv (apply_runtime_event materialize event resumed d)
  unfolding apply_runtime_event
  apply_runtime_event-Inv materialize none resumed d v t =
      fail-Inv materialize no_event d d v t (refl, refl, refl, refl, refl)
  apply_runtime_event-Inv materialize (some event) resumed d v t =
      apply_reason-Inv materialize resumed event event.reason d _ v t (refl, refl, refl, refl, refl)

  keep_output-Same :
      (event : Option (RuntimeEvent L)) (d : Session L) → Same d (keep_output event d)
  keep_output-Same none d = (refl, refl, refl, refl, refl)
  keep_output-Same (some event) d = (refl, refl, refl, refl, refl)

  command_result-Inv :
      (materialize : Error → RuntimeFailure) (event : Option (RuntimeEvent L)) (err : Option Error)
      (resumed : Bool) (d : Session L)
      → Inv d
      → terminal d.state ≡ false
      → Ensures Inv (command_result materialize event err resumed d)
  unfolding command_result
  command_result-Inv materialize event none resumed d v t =
      apply_runtime_event-Inv materialize event resumed d v t
  command_result-Inv materialize event (some e) resumed d v t =
      Ensures-if Inv d.terminating _ _
        (λ c. terminated-Inv d (keep_output event d) v t (keep_output-Same event d))
        (λ c. fail-Inv materialize (some e) d (keep_output event d) v t (keep_output-Same event d))

  pub run_command-Inv :
      (materialize : Error → RuntimeFailure) (d : Session L) (event : Option (RuntimeEvent L))
      (err : Option Error) (resumed : Bool)
      → Inv d
      → Ensures Inv (run_command materialize d event err resumed)
  unfolding run_command terminal
  run_command-Inv materialize d event err resumed v =
      Ensures-if Inv (is_state d.state state_running) _ _
        (λ here.
          command_result-Inv materialize event err resumed d v
            (ap terminal (is_state-eq d.state state_running here)))
        (λ other. v)

  pub finish_termination-Inv : (d : Session L) → Inv d → Ensures Inv (finish_termination d)
  unfolding finish_termination kind_of
  finish_termination-Inv d v =
      Ensures-if Inv (terminal d.state) _ _ (λ t. v)
        (λ t.
          publish-Inv d _ state_terminated true v t (refl, refl, refl, refl, refl) refl
            (unfold terminal in refl))

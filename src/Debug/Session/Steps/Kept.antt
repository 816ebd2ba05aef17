-- ===== src/Debug/Session/Steps/Kept.antt =====
-- What every method leaves of a debug Session: the outcome of a terminal one, and a requested
-- termination.
use ferretd.Prelude.{
  ◌≡◌, refl, ◌∙◌, ap, Bool, true, false, Option, none, some, done, Keeps, Keeps-bind, Keeps-if,
  nat_key, is_some, not, ◌&&◌, ◌||◌,
}
use ferretd.Errors.{Error}
use ferretd.Lifecycle.CloseOperation.{started}
use ferretd.Exec.Snapshots.{RuntimeFailure}
use ferretd.Debug.Values.{
  State, state_running, terminal, SessionSnapshot, EventKind, event_running, event_stopped,
  event_completed, event_failed, event_terminated, Reason, no_reason, reason_entry,
  reason_breakpoint, reason_step, reason_pause, reason_runtime_error, reason_completed,
  reason_terminated, other_reason,
}
use ferretd.Debug.Session.{Session, snapshot, Reply, replied, publish, notify}
use ferretd.Debug.Session.Commands.{
  RuntimeEvent, unknown_event, no_event, is_state, start_command, enter_running, run_command,
  command_result, apply_runtime_event, apply_reason, stop, fail, terminated, finish_termination,
  keep_output,
}
use ferretd.Debug.Session.Steps.Transitions.{is_state-eq}

contradict : (b : Bool) → b ≡ false → b ≡ true → ⊥
contradict b p q = cc

module _ {L : Type 0} where
  abbrev pub SameOutcome : Session L → Session L → Type 0
  SameOutcome e d =
      (d.state ≡ e.state)
      × (d.output ≡ e.output)
      × (d.failure ≡ e.failure)
      × (d.sequence ≡ e.sequence)
      × (d.last_event ≡ e.last_event)
      × (d.terminal_done ≡ e.terminal_done)

  -- What every step leaves: the outcome of a terminal Session, and a requested termination.
  abbrev pub Kept : Session L → Session L → Type 0
  Kept e d =
      (terminal e.state ≡ true → SameOutcome e d) × (e.terminating ≡ true → d.terminating ≡ true)

  pub Kept-refl : (d : Session L) → Kept d d
  Kept-refl d = (λ t. (refl, refl, refl, refl, refl, refl), λ t. t)

  pub Kept-trans : (e d x : Session L) → Kept e d → Kept d x → Kept e x
  Kept-trans e d x (a, b) (f, g) = (
    λ t.
        let p = a t in
        let q = f (ap terminal p.0 ∙ t) in
        (q.0 ∙ p.0, q.1 ∙ p.1, q.2 ∙ p.2, q.3 ∙ p.3, q.4 ∙ p.4, q.5 ∙ p.5),
    λ t. g (b t),
  )

  -- A publication from a state that is not terminal, if a requested termination stays requested.
  publish-Kept :
      (e d : Session L) (k : EventKind) (b : Bool)
      → terminal e.state ≡ false
      → d.terminating ≡ e.terminating
      → Keeps (Kept e) (publish k b d)
  unfolding publish notify
  publish-Kept e d k b t s =
      Keeps-if (Kept e) b _ _
        (λ ends.
          Keeps-if (Kept e) d.terminal_done _ _ (λ c. tt)
            (λ c. (λ u. absurd (contradict (terminal e.state) t u), λ u. s ∙ u)))
        (λ goes. (λ u. absurd (contradict (terminal e.state) t u), λ u. s ∙ u))

  fail-Kept :
      (materialize : Error → RuntimeFailure) (err : Option Error) (e d : Session L)
      → terminal e.state ≡ false
      → d.terminating ≡ e.terminating
      → Keeps (Kept e) (fail materialize err d)
  unfolding fail
  fail-Kept materialize err e d t s = publish-Kept e _ event_failed true t s

  apply_reason-Kept :
      (materialize : Error → RuntimeFailure) (resumed : Bool) (event : RuntimeEvent L)
      (why : Reason) (e d : Session L)
      → terminal e.state ≡ false
      → d.terminating ≡ e.terminating
      → Keeps (Kept e) (apply_reason materialize resumed event why d)
  unfolding apply_reason stop terminated
  apply_reason-Kept materialize resumed event reason_entry e d t s =
      publish-Kept e _ event_stopped false t s
  apply_reason-Kept materialize resumed event reason_breakpoint e d t s =
      publish-Kept e _ event_stopped false t s
  apply_reason-Kept materialize resumed event reason_step e d t s =
      publish-Kept e _ event_stopped false t s
  apply_reason-Kept materialize resumed event reason_pause e d t s =
      publish-Kept e _ event_stopped false t s
  apply_reason-Kept materialize resumed event reason_runtime_error e d t s =
      publish-Kept e _ event_stopped false t s
  apply_reason-Kept materialize resumed event reason_completed e d t s =
      publish-Kept e _ event_completed true t s
  apply_reason-Kept materialize resumed event reason_terminated e d t s =
      Keeps-if (Kept e) (resumed && (is_some event.error && not d.terminating)) _ _
        (λ c. fail-Kept materialize event.error e d t s)
        (λ c. publish-Kept e _ event_terminated true t s)
  apply_reason-Kept materialize resumed event no_reason e d t s =
      fail-Kept materialize unknown_event e d t s
  apply_reason-Kept materialize resumed event (other_reason r) e d t s =
      fail-Kept materialize unknown_event e d t s

  keep_output-terminating :
      (event : Option (RuntimeEvent L)) (d : Session L)
      → (keep_output event d).terminating ≡ d.terminating
  keep_output-terminating none d = refl
  keep_output-terminating (some event) d = refl

  command_result-Kept :
      (materialize : Error → RuntimeFailure) (event : Option (RuntimeEvent L)) (err : Option Error)
      (resumed : Bool) (d : Session L)
      → terminal d.state ≡ false
      → Keeps (Kept d) (command_result materialize event err resumed d)
  unfolding command_result apply_runtime_event terminated
  command_result-Kept materialize none none resumed d t = fail-Kept materialize no_event d d t refl
  command_result-Kept materialize (some event) none resumed d t =
      apply_reason-Kept materialize resumed event event.reason d _ t refl
  command_result-Kept materialize event (some e) resumed d t =
      Keeps-if (Kept d) d.terminating _ _
        (λ c. publish-Kept d _ event_terminated true t (keep_output-terminating event d))
        (λ c.
          fail-Kept materialize (some e) d (keep_output event d) t
            (keep_output-terminating event d))

  pub run_command-Kept :
      (materialize : Error → RuntimeFailure) (d : Session L) (event : Option (RuntimeEvent L))
      (err : Option Error) (resumed : Bool)
      → Keeps (Kept d) (run_command materialize d event err resumed)
  unfolding run_command terminal
  run_command-Kept materialize d event err resumed =
      Keeps-if (Kept d) (is_state d.state state_running) _ _
        (λ here.
          command_result-Kept materialize event err resumed d
            (ap terminal (is_state-eq d.state state_running here)))
        (λ other. Kept-refl d)

  pub start_command-Kept :
      (d : Session L) (expected : State) (before locked : Option Error)
      → terminal expected ≡ false
      → Keeps (λ r. Kept d r.0) (start_command d expected before locked)
  unfolding start_command enter_running
  start_command-Kept d expected (some e) locked t = Kept-refl d
  start_command-Kept d expected none (some e) t = Kept-refl d
  start_command-Kept d expected none none t =
      let P : Session L × Reply (SessionSnapshot L) → Type 0 = λ r. Kept d r.0 in
      Keeps-if P (d.terminating || started d.close) _ _ (λ c. Kept-refl d)
        (λ c.
          Keeps-if P (is_state d.state expected) _ _
            (λ here.
              Keeps-bind (Kept d) P (publish event_running false (enter_running d))
                (λ x. done (x, replied (snapshot x)))
                (publish-Kept d (enter_running d) event_running false
                  (ap terminal (is_state-eq d.state expected here) ∙ t) refl)
                (λ x k. k))
            (λ other.
              Keeps-if P (is_state d.state state_running) _ _ (λ r. Kept-refl d)
                (λ r. Kept-refl d)))

  pub finish_termination-Kept : (d : Session L) → Keeps (Kept d) (finish_termination d)
  unfolding finish_termination
  finish_termination-Kept d =
      Keeps-if (Kept d) (terminal d.state) _ _ (λ t. Kept-refl d)
        (λ t. publish-Kept d _ event_terminated true t refl)

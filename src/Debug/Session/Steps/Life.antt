-- ===== src/Debug/Session/Steps/Life.antt =====
-- What holds in every life of a debug Session: all calls, in all orders, from its creation on.
use ferretd.Prelude.{
  ◌≡◌, refl, ap, ◌∙◌, ◌⊎◌, inl, inr, true, false, Option, none, some, List, done, Ensures,
  Ensures-bind, Ensures-mono, Ensures-if, Ensures-Keeps, Keeps-done, arith, String, ◌>>=◌,
  Bool-cases,
}
use ferretd.Errors.{Error}
use ferretd.Exec.Snapshots.{RuntimeFailure}
use ferretd.Exec.DebugRuntime.{DebugRuntime}
use ferretd.Debug.Values.{Event, terminal}
use ferretd.Debug.Session.{Session, snapshot, publish, notify}
use ferretd.Debug.Session.Commands.{request_termination, finish_termination}
use ferretd.Debug.Session.Steps.{
  World, Action, terminates, finishes_termination, with_session, step, run, life,
}
use ferretd.Debug.Session.Steps.Invariant.{Inv, LastShows, kind_of}
use ferretd.Debug.Session.Steps.Preserves.{Holds, run-Holds, life-Holds}
use ferretd.Debug.Session.Steps.Observers.{request_termination-Inv}
use ferretd.Debug.Session.Steps.Kept.{SameOutcome, Kept}
use ferretd.Debug.Session.Steps.Final.{KeptIn, run-Kept}

module _ {L : Type 0} (materialize : Error → RuntimeFailure) where
  shown :
      (d : Session L) (le : Option (Event L))
      → d.last_event ≡ le
      → LastShows d le
      → (event : Event L) × (d.last_event ≡ some event)
        × (event.sequence ≡ d.sequence)
        × (event.kind ≡ kind_of d.state)
        × (event.snapshot ≡ snapshot d)
  shown d none p h = absurd h
  shown d (some event) p (a, b, c, e) = (event, p, b, c, e)

  -- Whatever is called in whatever order, and whatever the debugger answers, no panic is raised; the last
  -- event shows the Session as it is, with the kind of its state; and the channel that a close waits for
  -- is closed exactly when the state is terminal.
  pub life_shows :
      (id : String) (runtime : DebugRuntime) (actions : List (Action L))
      → Ensures
          (λ w.
            ((event : Event L) × (w.session.last_event ≡ some event)
              × (event.sequence ≡ w.session.sequence)
              × (event.kind ≡ kind_of w.session.state)
              × (event.snapshot ≡ snapshot w.session))
            × (w.session.terminal_done ≡ terminal w.session.state))
          (life materialize id runtime actions)
  life_shows id runtime actions =
      Ensures-mono Holds _ (life materialize id runtime actions)
        (λ w v. (shown w.session w.session.last_event refl v.shown, v.settled))
        (life-Holds materialize id runtime actions)

  -- Termination was requested, or there is nothing left to terminate.
  abbrev Asked : Session L → Type 0
  Asked d = (terminal d.state ≡ true) ⊎ (d.terminating ≡ true)

  request_termination-Asked : (d : Session L) → Asked (request_termination d).0
  unfolding request_termination
  request_termination-Asked d = elim (Bool-cases (terminal d.state)) [
    | inl t ↦ inl (ground arith)
    | inr t ↦ inr (ground arith)
  ]

  Kept-Asked : (e d : Session L) → Asked e → Kept e d → Asked d
  Kept-Asked e d (inl t) k = inl (ap terminal (k.0 t).0 ∙ t)
  Kept-Asked e d (inr t) k = inr (k.1 t)

  over : (d : Session L) → Asked d → d.terminating ≡ false → terminal d.state ≡ true
  over d (inl t) n = t
  over d (inr t) n = cc

  finish_termination-done :
      (d : Session L) → Inv d → Ensures (λ x. x.terminal_done ≡ true) (finish_termination d)
  unfolding finish_termination publish notify
  finish_termination-done d v =
      Ensures-if (λ x. x.terminal_done ≡ true) (terminal d.state) _ _ (λ t. v.settled ∙ t)
        (λ t.
          Ensures-if (λ x. x.terminal_done ≡ true) d.terminal_done _ _ (λ c. cc (v.settled, t, c))
            (λ c. refl))

  finishes_lem :
      (w : World L)
      → Holds w
      → Asked w.session
      → Ensures (λ u. u.session.terminal_done ≡ true) (step materialize w finishes_termination)
  unfolding step
  finishes_lem w v a =
      Ensures-if (λ u. u.session.terminal_done ≡ true) w.session.terminating _ _
        (λ t.
          Ensures-bind (λ x. x.terminal_done ≡ true) (λ u. u.session.terminal_done ≡ true)
            (finish_termination w.session) (λ d. done (with_session w d))
            (finish_termination-done w.session v) (λ d h. h))
        (λ t. v.settled ∙ over w.session a t)

  ends_from :
      (w : World L) (between : List (Action L))
      → Holds w
      → Ensures
          (λ u. u.session.terminal_done ≡ true)
          (do
            v ← step materialize w terminates
            x ← run materialize v between
            step materialize x finishes_termination)
  unfolding step
  ends_from w between h =
      let v = with_session w (request_termination w.session).0 in
      let i = request_termination-Inv w.session h in
      Ensures-bind (λ x. Holds x × KeptIn v x) (λ u. u.session.terminal_done ≡ true)
        (run materialize v between) (λ x. step materialize x finishes_termination)
        (Ensures-Keeps Holds (KeptIn v) (run materialize v between)
          (run-Holds materialize v between i) (run-Kept materialize v between))
        (λ x k.
          finishes_lem x k.0
            (Kept-Asked v.session x.session (request_termination-Asked w.session) k.1))

  -- Once termination is requested, whatever else is called and whatever a running command reports, the
  -- goroutine that terminates ends with the channel closed that a close waits for.
  pub termination_ends :
      (id : String) (runtime : DebugRuntime) (before between : List (Action L))
      → Ensures
          (λ u. u.session.terminal_done ≡ true)
          (do
            w ← life materialize id runtime before
            v ← step materialize w terminates
            x ← run materialize v between
            step materialize x finishes_termination)
  termination_ends id runtime before between =
      Ensures-bind Holds (λ u. u.session.terminal_done ≡ true) (life materialize id runtime before)
        _ (life-Holds materialize id runtime before) (λ w v. ends_from w between v)

  -- A terminal debug Session is final: whatever is called afterwards, its state, output, failure, event
  -- number, last event and the closed channel stay as they are.
  pub terminal_session_final :
      (w u : World L) (actions : List (Action L))
      → terminal w.session.state ≡ true
      → run materialize w actions ≡ done u
      → SameOutcome w.session u.session
  terminal_session_final w u actions t e =
      (Keeps-done (KeptIn w) (run materialize w actions) u (run-Kept materialize w actions) e).0 t

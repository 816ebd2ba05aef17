-- ===== src/Debug/Session/Steps/Invariant.antt =====
-- What holds of a debug Session between two steps.
use ferretd.Prelude.{
  u64, ◌+◌, ap, sym, subst, ◌∙◌, ◌≡◌, refl, Bool, true, false, Option, none, some, [], Ensures,
  nat_key, All-append, String,
}
use ferretd.Lifecycle.CloseOperation
use ferretd.Lifecycle.CloseOperation.History
use ferretd.Exec.DebugRuntime.{DebugRuntime}
use ferretd.Debug.Values.{
  State, state_created, state_running, state_stopped, state_completed, state_failed,
  state_terminated, terminal, EventKind, event_created, event_running, event_stopped,
  event_completed, event_failed, event_terminated, Event,
}
use ferretd.Debug.Watchers.Streams.{
  IsSettled, AllCurrent, AllSettled, deliver_all-AllCurrent, deliver_all-AllSettled,
}
use ferretd.Debug.Session.{Session, snapshot, notify, publish, next_event, new_session, unpublished}

unfoldable pub kind_of : State → EventKind
kind_of state_created = event_created
kind_of state_running = event_running
kind_of state_stopped = event_stopped
kind_of state_completed = event_completed
kind_of state_failed = event_failed
kind_of state_terminated = event_terminated

contradict : (b : Bool) → b ≡ false → b ≡ true → ⊥
contradict b p q = cc

module _ {L : Type 0} where
  abbrev pub Shows : Session L → Event L → Type 0
  Shows d event =
      (event.session ≡ d.id)
      × (event.sequence ≡ d.sequence)
      × (event.kind ≡ kind_of d.state)
      × (event.snapshot ≡ snapshot d)

  -- The last event shows the Session as it is.
  abbrev pub LastShows : Session L → Option (Event L) → Type 0
  LastShows d none = ⊥
  LastShows d (some event) = Shows d event

  pub record Inv (d : Session L) : Type 0 where
    pub settled : d.terminal_done ≡ terminal d.state
    pub shown : LastShows d d.last_event
    pub current : AllCurrent (u64 (d.sequence + 1)) d.watchers
    pub left : terminal d.state ≡ true → d.watchers ≡ []
    pub gone : AllSettled d.detached
    pub closing : History.IsValid d.close

  -- What a publication takes over from the Session before.
  abbrev pub Same : Session L → Session L → Type 0
  Same e d =
      (d.terminal_done ≡ e.terminal_done)
      × (d.sequence ≡ e.sequence)
      × (d.watchers ≡ e.watchers)
      × (d.detached ≡ e.detached)
      × (d.close ≡ e.close)

  -- What `publish` needs.
  pub record Ready (d : Session L) : Type 0 where
    pub open_done : d.terminal_done ≡ false
    pub listeners : AllCurrent (u64 (d.sequence + 1)) d.watchers
    pub past : AllSettled d.detached
    pub close_fits : History.IsValid d.close

  publish-Ready :
      (b : Bool) (d : Session L)
      → Ready d
      → terminal d.state ≡ b
      → Ensures Inv (publish (kind_of d.state) b d)
  unfolding publish notify next_event snapshot
  publish-Ready true d r t =
      let told =
        deliver_all-AllSettled (u64 (d.sequence + 1)) (next_event (kind_of d.state) d) d.watchers
          refl r.listeners in
      rw (r.open_done) (record {
        settled = sym t;
        shown = (refl, refl, refl, refl);
        current = rw told.0 tt;
        left = λ _. told.0;
        gone = All-append (λ p. IsSettled p.1) _ d.detached told.1 r.past;
        closing = r.close_fits;
      })
  publish-Ready false d r t =
      let told =
        deliver_all-AllCurrent (u64 (d.sequence + 1)) (next_event (kind_of d.state) d) d.watchers
          refl r.listeners in
      record {
        settled = r.open_done ∙ sym t;
        shown = (refl, refl, refl, refl);
        current = told.0;
        left = λ u. absurd (contradict (terminal d.state) t u);
        gone = All-append (λ p. IsSettled p.1) _ d.detached told.1 r.past;
        closing = r.close_fits;
      }

  -- From a Session that is not terminal, any change of what the debugger said can be published.
  pub publish-Inv :
      (e d : Session L) (s : State) (b : Bool)
      → Inv e
      → terminal e.state ≡ false
      → Same e d
      → d.state ≡ s
      → terminal s ≡ b
      → Ensures Inv (publish (kind_of s) b d)
  publish-Inv e d s b v t (done_same, seq, ws, ds, c) state ends =
      subst (λ k. Ensures Inv (publish (kind_of k) b d)) state
        (publish-Ready b d
          (record {
            open_done = done_same ∙ (v.settled ∙ t);
            listeners = rw (seq, ws) v.current;
            past = rw ds v.gone;
            close_fits = rw c v.closing;
          })
          (ap terminal state ∙ ends))

  -- The last event still shows a Session whose observable part has not changed.
  pub LastShows-same :
      (e d : Session L) (le : Option (Event L))
      → (d.id ≡ e.id) × (d.sequence ≡ e.sequence) × (d.state ≡ e.state) × (snapshot d ≡ snapshot e)
      → LastShows e le
      → LastShows d le
  LastShows-same e d none same h = h
  LastShows-same e d (some event) (i, q, s, n) (a, b, c, f) =
      (a ∙ sym i, b ∙ sym q, c ∙ ap kind_of (sym s), f ∙ sym n)

pub new_session-Inv :
    (L : Type 0) (id : String) (runtime : DebugRuntime)
    → Ensures Inv (new_session {L = L} id runtime)
unfolding new_session unpublished CloseOperation.zero_value kind_of terminal
new_session-Inv L id runtime =
    publish-Ready false (unpublished id runtime)
      (record { open_done = refl; listeners = tt; past = tt; close_fits = refl }) refl

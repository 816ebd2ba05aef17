-- ===== src/Exec/Execution/Invariant.antt =====
-- What holds of an Execution between two calls, and that every call keeps it.
use ferretd.Prelude.{
  u64, ℕ, suc, ◌+◌, ◌≤◌, sym, ◌∙◌, ◌≡◌, refl, ◌⊎◌, Bool, true, false, Option, none, some, [],
  Ensures, arith, is_some, nat_key, All-append,
}
use ferretd.Lifecycle.CloseOperation.History
use ferretd.Exec.Snapshots.{
  State, state_created, state_running, state_completed, state_failed, state_cancelled, terminal,
  EventKind, event_created, event_started, event_completed, event_failed, event_cancelled, Event,
}
use ferretd.Exec.Execution.Streams.{
  IsSettled, AllCurrent, AllSettled, deliver_all-AllCurrent, deliver_all-AllSettled,
}
use ferretd.Exec.Execution.{Execution, snapshot, notify, publish}

-- One event is published for each transition.
abbrev pub Ranked : State → ℕ → Type 0
Ranked state_created n = n ≡ 1
Ranked state_running n = n ≡ 2
Ranked state_completed n = n ≡ 3
Ranked state_failed n = n ≡ 3
Ranked state_cancelled n = (n ≡ 2) ⊎ (n ≡ 3)

unfoldable pub kind_of : State → EventKind
kind_of state_created = event_created
kind_of state_running = event_started
kind_of state_completed = event_completed
kind_of state_failed = event_failed
kind_of state_cancelled = event_cancelled

abbrev pub is_failed : State → Bool
is_failed state_failed = true
is_failed _ = false

-- The last event shows the Execution as it is.
abbrev pub Shows : Execution → Event → Type 0
Shows e event =
    (event.execution ≡ e.id)
    × (event.sequence ≡ e.sequence)
    × (event.kind ≡ kind_of e.state)
    × (event.snapshot ≡ snapshot e)

abbrev pub LastShows : Execution → Option Event → Type 0
LastShows e none = ⊥
LastShows e (some event) = Shows e event

pub record Inv (e : Execution) : Type 0 where
  pub ranked : Ranked e.state e.sequence
  pub settled : e.run_done ≡ terminal e.state
  pub shown : LastShows e e.last_event
  pub current : AllCurrent e.sequence e.watchers
  pub left : terminal e.state ≡ true → e.watchers ≡ []
  pub gone : AllSettled e.detached
  pub blamed : is_some e.failure ≡ is_failed e.state
  pub closing : History.IsValid e.close

-- What `publish` needs: the state is set, the rest is still as the last event left it.
pub record Ready (e : Execution) (is_terminal : Bool) : Type 0 where
  pub open_run : e.run_done ≡ false
  pub ends : terminal e.state ≡ is_terminal
  pub next : Ranked e.state (suc e.sequence)
  pub listeners : AllCurrent e.sequence e.watchers
  pub past : AllSettled e.detached
  pub blame : is_some e.failure ≡ is_failed e.state
  pub close_fits : History.IsValid e.close

pub Ranked-le : (s : State) (n : ℕ) → Ranked s n → n ≤ 3
Ranked-le state_created n h = omega arith
Ranked-le state_running n h = omega arith
Ranked-le state_completed n h = omega arith
Ranked-le state_failed n h = omega arith
Ranked-le state_cancelled n h = omega arith

pub counts : (n : ℕ) → suc n ≤ 3 → u64 (n + 1) ≡ suc n
counts n h = omega arith

contradict : (b : Bool) → b ≡ false → b ≡ true → ⊥
contradict b p q = cc

-- The event that the next publication announces.
abbrev announced : Execution → Event
announced e = record {
  execution = e.id;
  sequence = suc e.sequence;
  kind = kind_of e.state;
  snapshot = snapshot e;
}

pub publish-Inv :
    (e : Execution) (b : Bool) → Ready e b → Ensures Inv (publish (kind_of e.state) b e)
unfolding publish notify
publish-Inv e true r =
    let bound = Ranked-le e.state (suc e.sequence) r.next in
    let told =
      deliver_all-AllSettled e.sequence (announced e) e.watchers (omega arith) refl r.listeners in
    rw (counts e.sequence bound, r.open_run)
      (record {
        ranked = r.next;
        settled = sym r.ends;
        shown = (refl, refl, refl, refl);
        current = rw told.0 tt;
        left = λ _. told.0;
        gone = All-append (λ p. IsSettled p.1) _ e.detached told.1 r.past;
        blamed = r.blame;
        closing = r.close_fits;
      })
publish-Inv e false r =
    let bound = Ranked-le e.state (suc e.sequence) r.next in
    let told =
      deliver_all-AllCurrent e.sequence (announced e) e.watchers (omega arith) refl r.listeners in
    rw (counts e.sequence bound) (record {
      ranked = r.next;
      settled = r.open_run ∙ sym r.ends;
      shown = (refl, refl, refl, refl);
      current = told.0;
      left = λ t. absurd (contradict (terminal e.state) r.ends t);
      gone = All-append (λ p. IsSettled p.1) _ e.detached told.1 r.past;
      blamed = r.blame;
      closing = r.close_fits;
    })

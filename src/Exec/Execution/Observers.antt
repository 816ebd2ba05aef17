-- ===== src/Exec/Execution/Observers.antt =====
-- Subscribing, unsubscribing and receiving keep the invariant of an Execution.
use ferretd.Prelude.{
  u64, ℕ, suc, ◌+◌, ◌≤◌, ◌≡◌, refl, inl, inr, Bool, true, false, List, [], ◌∷◌, All, arith, lookup,
  insert, delete, nat_key, Option-cases, AllValues-insert, AllValues-delete, AllValues-lookup,
  Bool-cases,
}
use ferretd.Exec.Snapshots.{State, terminal, Event}
use ferretd.Exec.Execution.Watchers.{EventWatcher, new_watcher}
use ferretd.Exec.Execution.Streams.{
  IsCurrent, IsSettled, AllCurrent, AllSettled, close_watcher-IsSettled, new_watcher-IsCurrent,
}
use ferretd.Exec.Execution.{Execution, snapshot, subscribe, unsubscribe}
use ferretd.Exec.Execution.Steps.{drop_first, receive}
use ferretd.Exec.Execution.Invariant.{Inv, Ranked}
use ferretd.Exec.Execution.Transitions.{LastShows-same}

Ranked-pos : (s : State) (n : ℕ) → Ranked s n → 1 ≤ n
Ranked-pos State.state_created n h = omega arith
Ranked-pos State.state_running n h = omega arith
Ranked-pos State.state_completed n h = omega arith
Ranked-pos State.state_failed n h = omega arith
Ranked-pos State.state_cancelled n h = omega arith

-- The watchers may change as long as they stay what the invariant says.
pub watchers-Inv :
    (e : Execution) (next : ℕ) (ws ds : List (ℕ × EventWatcher))
    → Inv e
    → AllCurrent e.sequence ws
    → (terminal e.state ≡ true → ws ≡ [])
    → AllSettled ds
    → Inv (record e { next_watcher = next; watchers = ws; detached = ds })
unfolding snapshot
watchers-Inv e next ws ds v c l g = record {
  ranked = v.ranked;
  settled = v.settled;
  shown =
      LastShows-same e (record e { next_watcher = next; watchers = ws; detached = ds }) e.last_event
        (refl, refl, refl, refl) v.shown;
  current = c;
  left = l;
  gone = g;
  blamed = v.blamed;
  closing = v.closing;
}

pub subscribe-Inv : (e : Execution) → Inv e → Inv (subscribe e).0
unfolding subscribe
subscribe-Inv e v = elim (Bool-cases (terminal e.state)) [
  | inl t ↦ rw t v
  | inr t ↦
      let id = u64 (e.next_watcher + 1) in
      rw t (
        watchers-Inv e id (insert id new_watcher e.watchers) e.detached v
          (AllValues-insert (IsCurrent e.sequence) id new_watcher e.watchers
            (new_watcher-IsCurrent e.sequence (Ranked-pos e.state e.sequence v.ranked)) v.current)
          (λ u. absurd (contradict (terminal e.state) t u)) v.gone)
]
  where
    contradict : (b : Bool) → b ≡ false → b ≡ true → ⊥
    contradict b p q = cc

delete-empty : (id : ℕ) (ws : List (ℕ × EventWatcher)) → ws ≡ [] → delete id ws ≡ []
unfolding delete
delete-empty id ws h = rw h

pub unsubscribe-Inv : (e : Execution) (id : ℕ) → Inv e → Inv (unsubscribe id e)
unfolding unsubscribe
unsubscribe-Inv e id v = elim (Option-cases (lookup id e.watchers)) [
  | inl n ↦ rw (n, unsubscribe) v
  | inr (w, s) ↦
      rw (s, unsubscribe)
        (watchers-Inv e e.next_watcher (delete id e.watchers) _ v
          (AllValues-delete (IsCurrent e.sequence) id e.watchers v.current)
          (λ t. delete-empty id e.watchers (v.left t))
          (
            close_watcher-IsSettled e.sequence w
                (AllValues-lookup (IsCurrent e.sequence) id w e.watchers v.current s),
            v.gone,
          ))
]

pub drop_first-IsCurrent :
    (last : ℕ) (w : EventWatcher) (es : List Event)
    → w.events ≡ es
    → IsCurrent last w
    → IsCurrent last (drop_first w)
drop_first-IsCurrent last w [] e (c, r, (n, two, f)) =
    (ground arith, ground arith, (n, two, ground arith))
drop_first-IsCurrent last w (x ∷ es) e (c, r, (n, two, f)) =
    (ground arith, ground arith, (suc n, omega arith, ground arith))

pub drop_first-IsSettled :
    (w : EventWatcher) (es : List Event) → w.events ≡ es → IsSettled w → IsSettled (drop_first w)
drop_first-IsSettled w [] e (c, r, (n, last, f)) =
    (ground arith, ground arith, (n, last, ground arith))
drop_first-IsSettled w (x ∷ es) e (c, r, (n, last, f)) =
    (ground arith, ground arith, (suc n, last, ground arith))

-- A receive keeps what holds of every watcher, if it holds of a watcher with one event less.
pub receive-All :
    (P : EventWatcher → Type 0) (id : ℕ) (ws : List (ℕ × EventWatcher))
    → ((w : EventWatcher) → P w → P (drop_first w))
    → All (λ p. P p.1) ws
    → All (λ p. P p.1) (receive id ws)
unfolding receive
receive-All P id ws keep h = elim (Option-cases (lookup id ws)) [
  | inl n ↦ rw (n, receive) h
  | inr (w, s) ↦
      rw (s, receive)
        (AllValues-insert P id (drop_first w) ws (keep w (AllValues-lookup P id w ws h s)) h)
]

pub receive-empty : (id : ℕ) (ws : List (ℕ × EventWatcher)) → ws ≡ [] → receive id ws ≡ []
unfolding receive lookup
receive-empty id ws h = rw h

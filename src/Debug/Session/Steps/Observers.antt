-- ===== src/Debug/Session/Steps/Observers.antt =====
-- Subscribing, unsubscribing, receiving and closing keep the invariant of a debug Session.
use ferretd.Prelude.{
  u64, ℕ, ◌+◌, ◌≡◌, refl, inl, inr, Bool, true, false, Option, List, [], ◌∷◌, All, arith, lookup,
  insert, delete, nat_key, Option-cases, AllValues-insert, AllValues-delete, AllValues-lookup,
  Bool-cases, All-append, Ensures, ◌||◌,
}
use ferretd.Errors.{Error}
use ferretd.Lifecycle.CloseOperation
use ferretd.Lifecycle.CloseOperation.{close_started}
use ferretd.Lifecycle.CloseOperation.History
use ferretd.Exec.Runtime
use ferretd.Exec.Runtime.{ExecutionRuntime}
use ferretd.Exec.DebugRuntime
use ferretd.Exec.DebugRuntime.{DebugRuntime}
use ferretd.Debug.Values.{Event, terminal}
use ferretd.Debug.Watchers.{DebugEventWatcher, new_watcher}
use ferretd.Debug.Watchers.Streams.{
  IsCurrent, IsSettled, AllCurrent, AllSettled, close_watcher-IsSettled, close_all-AllSettled,
  new_watcher-IsCurrent,
}
use ferretd.Debug.Session.{
  Session, snapshot, subscribe, unsubscribe, begin_close, settle_rest, complete_close,
}
use ferretd.Debug.Session.Commands.{request_termination}
use ferretd.Debug.Session.Steps.{receive, drop_first}
use ferretd.Debug.Session.Steps.Invariant.{Inv, LastShows-same}

contradict : (b : Bool) → b ≡ false → b ≡ true → ⊥
contradict b p q = cc

-- A close changes nothing of what a snapshot shows.
close-target :
    (r : DebugRuntime) (a : Option Error)
    → ((DebugRuntime.close r a).0.runtime.target ≡ r.runtime.target)
      × ((DebugRuntime.close r a).0.runtime.input ≡ r.runtime.input)
unfolding DebugRuntime.close Runtime.close_session Runtime.cancel
close-target r a = (ground arith, ground arith)

module _ {L : Type 0} where
  -- The watchers may change as long as they stay what the invariant says.
  pub watchers-Inv :
      (d : Session L) (next : ℕ) (ws ds : List (ℕ × DebugEventWatcher L))
      → Inv d
      → AllCurrent (u64 (d.sequence + 1)) ws
      → (terminal d.state ≡ true → ws ≡ [])
      → AllSettled ds
      → Inv (record d { next_watcher = next; watchers = ws; detached = ds })
  unfolding snapshot
  watchers-Inv d next ws ds v c l g = record {
    settled = v.settled;
    shown =
        LastShows-same d (record d { next_watcher = next; watchers = ws; detached = ds })
          d.last_event (refl, refl, refl, refl) v.shown;
    current = c;
    left = l;
    gone = g;
    closing = v.closing;
  }

  pub subscribe-Inv : (d : Session L) → Inv d → Inv (subscribe d).0
  unfolding subscribe
  subscribe-Inv d v = elim (Bool-cases (terminal d.state)) [
    | inl t ↦ rw t v
    | inr t ↦
        let id = u64 (d.next_watcher + 1) in
        rw t (
          watchers-Inv d id (insert id new_watcher d.watchers) d.detached v
            (AllValues-insert (IsCurrent (u64 (d.sequence + 1))) id new_watcher d.watchers
              (new_watcher-IsCurrent L (u64 (d.sequence + 1))) v.current)
            (λ u. absurd (contradict (terminal d.state) t u)) v.gone)
  ]

  delete-empty : (id : ℕ) (ws : List (ℕ × DebugEventWatcher L)) → ws ≡ [] → delete id ws ≡ []
  unfolding delete
  delete-empty id ws h = rw h

  pub unsubscribe-Inv : (d : Session L) (id : ℕ) → Inv d → Inv (unsubscribe id d)
  unfolding unsubscribe
  unsubscribe-Inv d id v = elim (Option-cases (lookup id d.watchers)) [
    | inl n ↦ rw (n, unsubscribe) v
    | inr (w, s) ↦
        let next = u64 (d.sequence + 1) in
        rw (s, unsubscribe)
          (watchers-Inv d d.next_watcher (delete id d.watchers) _ v
            (AllValues-delete (IsCurrent next) id d.watchers v.current)
            (λ t. delete-empty id d.watchers (v.left t))
            (
              close_watcher-IsSettled next w
                  (AllValues-lookup (IsCurrent next) id w d.watchers v.current s),
              v.gone,
            ))
  ]

  pub drop_first-IsCurrent :
      (next : ℕ) (w : DebugEventWatcher L) (es : List (Event L))
      → w.events ≡ es
      → IsCurrent next w
      → IsCurrent next (drop_first w)
  drop_first-IsCurrent next w [] e (c, r, (n, f)) = (ground arith, ground arith, (n, ground arith))
  drop_first-IsCurrent next w (x ∷ es) e (c, r, (n, f)) =
      (ground arith, ground arith, (u64 (n + 1), ground arith))

  pub drop_first-IsSettled :
      (w : DebugEventWatcher L) (es : List (Event L))
      → w.events ≡ es
      → IsSettled w
      → IsSettled (drop_first w)
  drop_first-IsSettled w [] e (c, r, (n, next, f)) =
      (ground arith, ground arith, (n, next, ground arith))
  drop_first-IsSettled w (x ∷ es) e (c, r, (n, next, f)) =
      (ground arith, ground arith, (u64 (n + 1), next, ground arith))

  -- A receive keeps what holds of every watcher, if it holds of a watcher with one event less.
  pub receive-All :
      (P : DebugEventWatcher L → Type 0) (id : ℕ) (ws : List (ℕ × DebugEventWatcher L))
      → ((w : DebugEventWatcher L) → P w → P (drop_first w))
      → All (λ p. P p.1) ws
      → All (λ p. P p.1) (receive id ws)
  unfolding receive
  receive-All P id ws keep h = elim (Option-cases (lookup id ws)) [
    | inl n ↦ rw (n, receive) h
    | inr (w, s) ↦
        rw (s, receive)
          (AllValues-insert P id (drop_first w) ws (keep w (AllValues-lookup P id w ws h s)) h)
  ]

  pub receive-empty : (id : ℕ) (ws : List (ℕ × DebugEventWatcher L)) → ws ≡ [] → receive id ws ≡ []
  unfolding receive lookup
  receive-empty id ws h = rw h

  -- Fields that no snapshot shows may change.
  pub hidden-Inv :
      (d : Session L) (r : DebugRuntime) (c : CloseOperation.CloseOperation) (t : Bool)
      → Inv d
      → (r.runtime.target ≡ d.runtime.runtime.target) × (r.runtime.input ≡ d.runtime.runtime.input)
      → History.IsValid c
      → Inv (record d { runtime = r; close = c; terminating = t })
  unfolding snapshot DebugRuntime.session_id DebugRuntime.parameters DebugRuntime.options
  hidden-Inv d r c t v (same_target, same_input) k = record {
    settled = v.settled;
    shown =
        LastShows-same d (record d { runtime = r; close = c; terminating = t }) d.last_event
          (refl, refl, refl, rw (same_target, same_input)) v.shown;
    current = v.current;
    left = v.left;
    gone = v.gone;
    closing = k;
  }

  pub close_runtime-Inv :
      (d : Session L) (a : Option Error)
      → Inv d
      → Inv (record d { runtime = (DebugRuntime.close d.runtime a).0 })
  close_runtime-Inv d a v =
      hidden-Inv d (DebugRuntime.close d.runtime a).0 d.close d.terminating v
        (close-target d.runtime a) v.closing

  pub request_termination-Inv : (d : Session L) → Inv d → Inv (request_termination d).0
  unfolding request_termination
  request_termination-Inv d v = elim (Bool-cases (terminal d.state || d.terminating)) [
    | inl t ↦ rw t v
    | inr t ↦ rw t (hidden-Inv d d.runtime d.close true v (refl, refl) v.closing)
  ]

  pub begin_close-Inv : (d : Session L) → Inv d → Inv (begin_close d).0
  unfolding begin_close
  begin_close-Inv d v =
      hidden-Inv d d.runtime (CloseOperation.begin d.close).0 d.terminating v (refl, refl)
        (History.begin-IsValid d.close v.closing)

  pub settle_rest-Inv : (d : Session L) (a : Option Error) → Inv d → Inv (settle_rest d a)
  unfolding settle_rest
  settle_rest-Inv d a v =
      let r = (DebugRuntime.close d.runtime a).0 in
      let closed = close_all-AllSettled (u64 (d.sequence + 1)) d.watchers v.current in
      watchers-Inv (record d { runtime = r }) d.next_watcher _ _ (close_runtime-Inv d a v)
        (rw (closed.0) tt) (λ _. closed.0)
        (All-append (λ p. IsSettled p.1) _ d.detached closed.1 v.gone)

  pub complete_close-Inv :
      (d : Session L) (a : Option Error)
      → Inv d
      → d.close.state ≡ close_started
      → Ensures Inv (complete_close d a)
  unfolding complete_close
  complete_close-Inv d a v s =
      rw (History.finish-done d.close (DebugRuntime.close d.runtime a).1 v.closing s) (
        hidden-Inv d (DebugRuntime.close d.runtime a).0 _ d.terminating v (close-target d.runtime a)
          refl)

-- ===== src/Exec/Execution/Bystanders.antt =====
-- A subscriber keeps its watcher, and all that is published, while others call what they like.
use ferretd.Prelude.{
  u64, ℕ, suc, ◌+◌, ◌<◌, ◌^◌, sym, ap, ◌∙◌, ◌≡◌, ◌≢◌, refl, inl, inr, Bool, true, Option, none,
  some, List, [], ◌∷◌, ◌++◌, Ensures, Ensures-bind, Ensures-both, Ensures-if, Ensures-mono, done,
  Outcome, arith, nat_key, lookup, none-some, some-same, AllValues-lookup, ℕ_discrete, if_pos,
  if_neg, insert, delete, lookup-insert, lookup-delete, length, Bool-cases, Option-cases,
  if◌then◌else◌, All,
}
use ferretd.Errors.{Error}
use ferretd.Exec.Snapshots.{terminal, RuntimeFailure, ExecutionSnapshot}
use ferretd.Exec.Runtime.{ExecutionRuntime}
use ferretd.Exec.Execution.Watchers.{EventWatcher, new_watcher, close_watcher}
use ferretd.Exec.Execution.Streams.{Follows, IsCurrent, IsSettled}
use ferretd.Exec.Execution.{
  Execution, Reply, start, cancel, subscribe, unsubscribe, begin_close, settle_rest,
}
use ferretd.Exec.Execution.Invariant.{Inv}
use ferretd.Exec.Execution.Steps.{
  Action, starts, cancels, subscribes, begins_close, unsubscribes, receives, receives_detached,
  finishes, settles, completes_close, receive, step, run,
}
use ferretd.Exec.Execution.Awaited.{Awaits, Waiting, lookup-append}
use ferretd.Exec.Execution.Preserves.{step-Inv}
use ferretd.Exec.Execution.Waits.{
  cancel-Waiting, settle_rest-Waiting, begin_close-Waiting, completes-Waiting, start-Waiting,
  finish_at-Waiting,
}

-- What other subscribers do leaves the watcher alone.
lookup-receive :
    (id j : ℕ) (ws : List (ℕ × EventWatcher)) → j ≢ id → lookup id (receive j ws) ≡ lookup id ws
unfolding receive
lookup-receive id j ws other = elim (Option-cases (lookup j ws)) [
  | inl e ↦ rw (e, receive) refl
  | inr (w, e) ↦ rw (e, receive) (lookup-insert j id _ ws ∙ if_neg (ℕ_discrete j id) other _ _)
]

unsubscribe-Waiting :
    (id n k j : ℕ) (e : Execution) → j ≢ id → Waiting id n k e → Waiting id n k (unsubscribe j e)
unfolding unsubscribe lookup
unsubscribe-Waiting id n k j e other (low, high, a) = elim (Option-cases (lookup j e.watchers)) [
  | inl g ↦ rw (g, unsubscribe) (low, high, a)
  | inr (x, g) ↦ rw (g, unsubscribe) (low, high, kept x a)
]
  where
    kept :
        (x : EventWatcher)
        → Awaits id n e
        → Awaits id n (record e {
          watchers = delete j e.watchers;
          detached = (j, close_watcher x none) ∷ e.detached;
        })
    kept x (inl (w, at, f)) =
        inl (w, lookup-delete j id e.watchers ∙ if_neg (ℕ_discrete j id) other _ _ ∙ at, f)
    kept x (inr (o, (w, at, f))) = inr (o, (w, if_neg (ℕ_discrete j id) other _ _ ∙ at, f))

subscribe-Waiting :
    (id n k : ℕ) (e : Execution)
    → suc k < 2 ^ 64
    → Waiting id n k e
    → Waiting id n (suc k) (subscribe e).0
unfolding subscribe
subscribe-Waiting id n k e room (low, high, a) = elim (Bool-cases (terminal e.state)) [
  | inl t ↦ rw t (low, omega (arith, high), a)
  | inr t ↦ rw t (omega (arith, low, high, room), omega (arith, low, high, room), kept a)
]
  where
    other : u64 (e.next_watcher + 1) ≢ id
    other p = omega (arith, low, high, room, p)

    kept :
        Awaits id n e
        → Awaits id n (record e {
          next_watcher = u64 (e.next_watcher + 1);
          watchers = insert (u64 (e.next_watcher + 1)) new_watcher e.watchers;
        })
    kept (inl (w, at, f)) = inl (
      w,
      lookup-insert (u64 (e.next_watcher + 1)) id new_watcher e.watchers
          ∙ if_neg (ℕ_discrete (u64 (e.next_watcher + 1)) id) other _ _
          ∙ at,
      f,
    )
    kept (inr o) = inr o

-- A call that is not one of the subscriber's own on its subscription.
abbrev pub Other : ℕ → Action → Type 0
Other id (receives j) = j ≢ id
Other id (receives_detached j) = j ≢ id
Other id (unsubscribes j) = j ≢ id
Other id _ = Unit

later : (id n k : ℕ) (e : Execution) → Waiting id n k e → Waiting id n (suc k) e
later id n k e (low, high, a) = (low, omega (arith, high), a)

module _ (materialize : ExecutionRuntime → Error → RuntimeFailure) (id n : ℕ) where
  mono :
      (k : ℕ) (o : Outcome Execution)
      → Ensures (Waiting id n k) o
      → Ensures (Waiting id n (suc k)) o
  mono k o = Ensures-mono (Waiting id n k) (Waiting id n (suc k)) o (later id n k)

  step-Waiting :
      (k : ℕ) (e : Execution) (a : Action)
      → suc k < 2 ^ 64
      → Other id a
      → Inv e
      → Waiting id n k e
      → Ensures (Waiting id n (suc k)) (step materialize e a)
  unfolding step
  step-Waiting k e (starts before locked) room q v w =
      Ensures-bind (λ (r : Execution × Reply ExecutionSnapshot). Waiting id n k r.0)
        (Waiting id n (suc k)) (start e before locked) (λ r. done r.0)
        (start-Waiting id n k e before locked v w) (λ r i. later id n k r.0 i)
  step-Waiting k e cancels room q v w = mono k (cancel e) (cancel-Waiting id n k e v w)
  step-Waiting k e subscribes room q v w = subscribe-Waiting id n k e room w
  step-Waiting k e (unsubscribes j) room q v w =
      later id n k (unsubscribe j e) (unsubscribe-Waiting id n k j e q w)
  step-Waiting k e (receives j) room q v (low, high, inl (w, at, f)) =
      (low, omega (arith, high), inl (w, lookup-receive id j e.watchers q ∙ at, f))
  step-Waiting k e (receives j) room q v (low, high, inr d) = (low, omega (arith, high), inr d)
  step-Waiting k e (receives_detached j) room q v (low, high, inl l) =
      (low, omega (arith, high), inl l)
  step-Waiting k e (receives_detached j) room q v (low, high, inr (o, (w, at, f))) =
      (low, omega (arith, high), inr (o, (w, lookup-receive id j e.detached q ∙ at, f)))
  step-Waiting k e (finishes output err category) room q v w =
      mono k _ (finish_at-Waiting id n k materialize e output err category e.state v refl w)
  step-Waiting k e begins_close room q v w =
      later id n k (begin_close e).0 (begin_close-Waiting id n k e w)
  step-Waiting k e (settles answer) room q v w =
      Ensures-if (Waiting id n (suc k)) e.run_done (done (settle_rest e answer).0) (done e)
        (λ o. later id n k (settle_rest e answer).0 (settle_rest-Waiting id n k e answer v o w))
        (λ o. later id n k e w)
  step-Waiting k e (completes_close err) room q v w =
      mono k _ (completes-Waiting id n k e err e.close.state v refl w)

  pub run-Waiting :
      (k : ℕ) (e : Execution) (rest : List Action)
      → k + length rest < 2 ^ 64
      → All (Other id) rest
      → Inv e
      → Waiting id n k e
      → Ensures (λ d. Inv d × Awaits id n d) (run materialize e rest)
  unfolding run
  run-Waiting k e [] room q v w = (v, w.2)
  run-Waiting k e (a ∷ rest) room q v w =
      Ensures-bind (λ d. Inv d × Waiting id n (suc k) d) (λ d. Inv d × Awaits id n d)
        (step materialize e a) (λ d. run materialize d rest)
        (Ensures-both Inv (Waiting id n (suc k)) (step materialize e a) (step-Inv materialize e a v)
          (step-Waiting k e a (omega (arith, room)) q.0 v w))
        (λ d i. run-Waiting (suc k) d rest (omega (arith, room)) q.1 i.0 i.1)

-- What the subscriber finds in the end, wherever the watcher is.
pub Awaits-found :
    (id n : ℕ) (e : Execution)
    → Inv e × Awaits id n e
    → (w : EventWatcher) × (lookup id (e.watchers ++ e.detached) ≡ some w)
      × (w.closed ≡ terminal e.state)
      × Follows n w.events e.sequence
unfolding lookup
Awaits-found id n e (v, inl (w, at, f)) =
    let unshut = (AllValues-lookup (IsCurrent e.sequence) id w e.watchers v.current at).0 in
    elim (Bool-cases (terminal e.state)) [
      | inl t ↦ absurd (none-some (sym (ap (lookup id) (v.left t)) ∙ at))
      | inr t ↦ (w, lookup-append id e.watchers e.detached w at, unshut ∙ sym t, f)
    ]
Awaits-found id n e (v, inr (o, (w, at, f))) =
    let shut = (AllValues-lookup IsSettled id w e.detached v.gone at).0 in
    let t : terminal e.state ≡ true = sym v.settled ∙ o in
    (w, ap (λ ws. lookup id (ws ++ e.detached)) (v.left t) ∙ at, shut ∙ sym t, f)

granted_watcher :
    (e : Execution)
    → (subscribe e).1.watcher ≡ (if terminal e.state then none else some (u64 (e.next_watcher + 1)))
unfolding subscribe
granted_watcher e = elim (Bool-cases (terminal e.state)) [
  | inl t ↦ rw (subscribe, t) refl
  | inr t ↦ rw (subscribe, t) refl
]

-- A subscription begins with an empty channel, and waits for the next event.
pub subscribed-Waiting :
    (id : ℕ) (e : Execution)
    → e.next_watcher + 1 < 2 ^ 64
    → (subscribe e).1.watcher ≡ some id
    → Waiting id (suc e.sequence) (e.next_watcher + 1) (subscribe e).0
unfolding subscribe new_watcher
subscribed-Waiting id e room granted = elim (Bool-cases (terminal e.state)) [
  | inl t ↦ absurd (none-some (sym (granted_watcher e ∙ ap handed t) ∙ granted))
  | inr t ↦
      let given : u64 (e.next_watcher + 1) ≡ id =
        some-same (sym (granted_watcher e ∙ ap handed t) ∙ granted) in
      rw t (
        omega (arith, given, room),
        omega (arith, given, room),
        inl (
          new_watcher,
          lookup-insert (u64 (e.next_watcher + 1)) id new_watcher e.watchers
              ∙ if_pos (ℕ_discrete (u64 (e.next_watcher + 1)) id) given _ _,
          refl,
        ),
      )
]
  where
    handed : Bool → Option ℕ
    handed b = if b then none else some (u64 (e.next_watcher + 1))

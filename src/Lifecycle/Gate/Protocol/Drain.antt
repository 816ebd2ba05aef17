-- ===== src/Lifecycle/Gate/Protocol/Drain.antt =====
-- Teardown: after the close is committed nobody is admitted, and the owner gets past its wait as soon
-- as the creators inside have left.
use ferretd.Prelude.{
  ℕ, zero, suc, ◌≤◌, ◌≡◌, refl, inl, inr, true, Option, List, [], ◌∷◌, ◌++◌, subst, Option-cases,
  done, Ensures, Ensures-bind, Ensures-both, Ensures-mono, arith, replicate,
}
use ferretd.Errors.{Error}
use ferretd.Lifecycle.Channels.{close_channel}
use ferretd.Lifecycle.CloseOperation
use ferretd.Lifecycle.CloseOperation.{close_idle, started}
use ferretd.Lifecycle.Gate.{
  begin_create, end_create, begin_close, wait_for_creates, creates_left, finish_close,
}
use ferretd.Lifecycle.Gate.Protocol.{
  drained, closed, waiting, World, Action, enter, leave, commit, capture, drain, publish, initial,
  step, run,
}
use ferretd.Lifecycle.Gate.Protocol.Invariant.{
  Inv, initial-Inv, step-Inv, leave-Inv, drain-Inv, run-Inv,
}

-- What a started close fixes: it stays started, and the number of creators inside does not grow.
abbrev Shrinks : ℕ → World → Type 0
Shrinks n u = (started u.gate.close ≡ true) × (u.inside ≤ n)

step-Shrinks :
    (w : World) (a : Action)
    → Inv w
    → started w.gate.close ≡ true
    → Ensures (Shrinks w.inside) (step w a)
unfolding step begin_create started
step-Shrinks w enter v s = ground arith
step-Shrinks w leave v s =
    unfold end_create close_channel in
    elim (Option-cases w.gate.creates_done) [ inl e ↦ ground arith | inr (c, e) ↦ ground arith ]
step-Shrinks w commit v s = unfold begin_close CloseOperation.begin in ground arith
step-Shrinks w capture v s = unfold wait_for_creates in ground arith
step-Shrinks w drain v s = ground arith
step-Shrinks w (publish err) v s = unfold finish_close CloseOperation.finish in ground arith

run-Shrinks :
    (w : World) (actions : List Action)
    → Inv w
    → started w.gate.close ≡ true
    → Ensures (Shrinks w.inside) (run w actions)
unfolding run
run-Shrinks w [] v s = (s, omega arith)
run-Shrinks w (a ∷ rest) v s =
    Ensures-bind (λ u. Inv u × Shrinks w.inside u) (Shrinks w.inside) (step w a) (λ u. run u rest)
      (Ensures-both Inv (Shrinks w.inside) (step w a) (step-Inv w a v) (step-Shrinks w a v s))
      (λ u h.
        Ensures-mono (Shrinks u.inside) (Shrinks w.inside) (run u rest) (λ x k. (k.0, omega arith))
          (run-Shrinks u rest h.0 h.1.0))

-- Once the close is committed, whatever happens afterwards, it stays committed and no creator is
-- admitted: the number of creators inside never grows again.
pub committed_admits_none :
    (before after : List Action) (w : World)
    → run initial before ≡ done w
    → started w.gate.close ≡ true
    → Ensures (λ u. (started u.gate.close ≡ true) × (u.inside ≤ w.inside)) (run w after)
committed_admits_none before after w r s =
    run-Shrinks w after (subst (Ensures Inv) r (run-Inv initial before initial-Inv)) s

-- After the owner's wait has ended, nobody is inside, then or ever later, so the publication of the
-- teardown result meets no active creator.
pub drained_stays_empty :
    (before after : List Action) (w : World)
    → run initial before ≡ done w
    → w.phase ≡ drained
    → Ensures (λ u. u.inside ≡ 0) (run w after)
unfolding started
drained_stays_empty before after w r d =
    let v = subst (Ensures Inv) r (run-Inv initial before initial-Inv) in
    Ensures-mono (Shrinks w.inside) (λ u. u.inside ≡ 0) (run w after) (λ u k. ground arith)
      (run-Shrinks w after v (ground arith))

abbrev IsAt : Option ℕ → ℕ → World → Type 0
IsAt c n u = (u.phase ≡ waiting c) × (u.inside ≡ n)

abbrev Waits : Option ℕ → ℕ → World → Type 0
Waits c n u = Inv u × IsAt c n u

leave-IsAt :
    (w : World) (c : Option ℕ) (n : ℕ)
    → Inv w
    → IsAt c (suc n) w
    → Ensures (IsAt c n) (step w leave)
unfolding step end_create close_channel
leave-IsAt w c n v at = elim (Option-cases w.gate.creates_done) [
  | inl e ↦ ground arith
  | inr (d, e) ↦ ground arith
]

leave-Waits :
    (w : World) (c : Option ℕ) (n : ℕ) → Waits c (suc n) w → Ensures (Waits c n) (step w leave)
leave-Waits w c n (v, at) =
    Ensures-both Inv (IsAt c n) (step w leave) (leave-Inv w v) (leave-IsAt w c n v at)

abbrev IsPublished : Option Error → World → Type 0
IsPublished err u = (u.phase ≡ closed) × (u.gate.close.err ≡ err)

drain-drained :
    (w : World) (c : Option ℕ)
    → Waits c 0 w
    → Ensures (λ u. Inv u × (u.phase ≡ drained)) (step w drain)
unfolding step creates_left
drain-drained w c (v, at) =
    Ensures-both Inv (λ u. u.phase ≡ drained) (step w drain) (drain-Inv w v) (ground arith)

publish-IsPublished :
    (w : World) (err : Option Error)
    → Inv w
    → w.phase ≡ drained
    → Ensures (IsPublished err) (step w (publish err))
unfolding step finish_close CloseOperation.finish
publish-IsPublished w err v p = ground arith

teardown :
    (w : World) (c : Option ℕ) (err : Option Error)
    → Waits c 0 w
    → Ensures (IsPublished err) (run w (drain ∷ publish err ∷ []))
unfolding run
teardown w c err at =
    Ensures-bind (λ u. Inv u × (u.phase ≡ drained)) (IsPublished err) (step w drain)
      (λ u. run u (publish err ∷ [])) (drain-drained w c at)
      (λ u h.
        Ensures-bind (IsPublished err) (IsPublished err) (step u (publish err)) done
          (publish-IsPublished u err h.0 h.1) (λ x k. k))

leaves-teardown :
    (n : ℕ) (w : World) (c : Option ℕ) (err : Option Error)
    → Waits c n w
    → Ensures (IsPublished err) (run w (replicate n leave ++ drain ∷ publish err ∷ []))
unfolding run
leaves-teardown zero w c err at = teardown w c err at
leaves-teardown (suc n) w c err at =
    Ensures-bind (Waits c n) (IsPublished err) (step w leave)
      (λ u. run u (replicate n leave ++ drain ∷ publish err ∷ [])) (leave-Waits w c n at)
      (λ u h. leaves-teardown n u c err h)

-- From any reachable state in which the owner waits for `n` creators inside, it needs exactly their
-- leaving: after `n` departures it passes its wait and publishes the result, with no panic.
pub wait_ends :
    (before : List Action) (w : World) (c : Option ℕ) (err : Option Error)
    → run initial before ≡ done w
    → w.phase ≡ waiting c
    → Ensures
        (λ u. (u.phase ≡ closed) × (u.gate.close.err ≡ err))
        (run w (replicate w.inside leave ++ drain ∷ publish err ∷ []))
wait_ends before w c err r p =
    leaves-teardown w.inside w c err
      (subst (Ensures Inv) r (run-Inv initial before initial-Inv), (p, refl))

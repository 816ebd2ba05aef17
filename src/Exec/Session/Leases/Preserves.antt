-- ===== src/Exec/Session/Leases/Preserves.antt =====
-- The moves of the Session's gate, and all moves together, keep the invariant.
use ferretd.Prelude.{
  ℕ, suc, ◌+◌, ◌-◌, ◌≤◌, ◌≡◌, refl, ◌⊎◌, Bool, true, false, Option, List, [], ◌∷◌, Outcome, done,
  panic, ◌>>=◌, Ensures, Ensures-bind, Ensures-mono, Ensures-both, Keeps, Ensures-Keeps, arith,
  if◌then◌else◌, ◌==◌, is_some,
}
use ferretd.Errors.{Error}
use ferretd.Lifecycle.Gate.{Gate, end_create, begin_close, wait_for_creates, finish_close}
use ferretd.Lifecycle.CloseOperation
use ferretd.Lifecycle.CloseOperation.{started}
use ferretd.Lifecycle.Gate.Protocol
use ferretd.Lifecycle.Gate.Protocol.{
  World, Action, Phase, running, committed, waiting, drained, closed, enter, leave, commit, capture,
  drain, publish,
}
use ferretd.Lifecycle.Gate.Protocol.Invariant
use ferretd.Lifecycle.Gate.Protocol.Invariant.{ChannelInv, WaitInv}
use ferretd.Exec.Session.Leases.{
  Leases, Move, enters, leaves, commits, captures, drains, acquires_target, releases_target, reads,
  takes, compiled, publishes, Release, held, reading, released, gate_world, with_gate, gate_step,
  free, try_publish, move, moves,
}
use ferretd.Exec.Session.Leases.Invariant.{
  Inv, acquires-Inv, releases-Inv, reads-Inv, takes-Inv, compiled-Inv,
}

-- A gate that is drained or closed stays so, and at most `d` creators leave.
abbrev Frame : World → ℕ → World → Type 0
Frame w d u =
    (w.phase ≡ drained → u.phase ≡ drained)
    × (w.phase ≡ closed → u.phase ≡ closed)
    × (w.inside ≤ u.inside + d)

enter-Frame : (w : World) → Ensures (Frame w 0) (Protocol.step w enter)
unfolding Protocol.step
enter-Frame w = (λ e. e, λ e. e, ground arith)

leave_kept :
    (w : World) (t : Bool) (o : Outcome (Gate × Bool))
    → Keeps (Frame w 1) (
        if t
        then done w
        else (do left ← o; done (record w { gate = left.0; inside = w.inside - 1 })))
leave_kept w true o = (λ e. e, λ e. e, omega arith)
leave_kept w false (done left) = (λ e. e, λ e. e, omega arith)
leave_kept w false panic = tt

leave-Frame : (w : World) → Invariant.Inv w → Ensures (Frame w 1) (Protocol.step w leave)
unfolding Protocol.step
leave-Frame w v =
    Ensures-mono _ _ (Protocol.step w leave) (λ u h. h.1)
      (Ensures-Keeps Invariant.Inv (Frame w 1) (Protocol.step w leave) (Invariant.leave-Inv w v)
        (leave_kept w (w.inside == 0) (end_create w.gate)))

commit-Frame : (w : World) → Invariant.Inv w → Ensures (Frame w 0) (Protocol.step w commit)
unfolding Protocol.step begin_close CloseOperation.begin
commit-Frame w v = ground arith

capture-Frame : (w : World) → Invariant.Inv w → Ensures (Frame w 0) (Protocol.step w capture)
unfolding Protocol.step wait_for_creates started
capture-Frame w v = ground arith

drain-Frame : (w : World) → Invariant.Inv w → Ensures (Frame w 0) (Protocol.step w drain)
unfolding Protocol.step
drain-Frame w v = ground arith

with_gate-Inv :
    (w : Leases) (d : ℕ) (u : World)
    → Inv w
    → (is_some w.compiler ≡ true → suc d ≤ w.inside)
    → Invariant.Inv u × Frame (gate_world w) d u
    → Inv (with_gate w u)
with_gate-Inv w d u v enough (i, frame) = record {
  gate = i;
  leased = v.leased;
  runtime_channel = v.runtime_channel;
  compile_channel = ground (arith, v.compile_channel, frame, enough);
  release = ground (arith, v.release, frame);
}

gate_step-Inv :
    (w : Leases) (a : Action) (d : ℕ)
    → Inv w
    → (is_some w.compiler ≡ true → suc d ≤ w.inside)
    → Ensures (Frame (gate_world w) d) (Protocol.step (gate_world w) a)
    → Ensures Inv (gate_step w a)
unfolding gate_step
gate_step-Inv w a d v enough frame =
    Ensures-bind (λ u. Invariant.Inv u × Frame (gate_world w) d u) Inv
      (Protocol.step (gate_world w) a) (λ u. done (with_gate w u))
      (Ensures-both Invariant.Inv (Frame (gate_world w) d) (Protocol.step (gate_world w) a)
        (Invariant.step-Inv (gate_world w) a v.gate) frame)
      (λ u h. with_gate-Inv w d u v enough h)

-- Once the plans are released the worker publishes the result, and the gate stays closed.
abbrev Published : World → World → Type 0
Published w u =
    ((w.phase ≡ drained) ⊎ (w.phase ≡ closed) → (u.phase ≡ drained) ⊎ (u.phase ≡ closed))
    × (u.inside ≡ w.inside)

publish-Published :
    (w : World) (err : Option Error)
    → Invariant.Inv w
    → Ensures (Published w) (Protocol.step w (publish err))
unfolding Protocol.step finish_close CloseOperation.finish
publish-Published w err v = ground arith

Published-Inv :
    (w : Leases) (u : World)
    → Inv w
    → w.release ≡ released
    → Invariant.Inv u × Published (gate_world w) u
    → Inv (with_gate w u)
Published-Inv w u v r (i, p) = record {
  gate = i;
  leased = v.leased;
  runtime_channel = v.runtime_channel;
  compile_channel = ground (arith, v.compile_channel, p.1);
  release = ground (arith, v.release, p.0);
}

publishes_at :
    (w : Leases) (err : Option Error) (r : Release)
    → w.release ≡ r
    → Inv w
    → Ensures Inv (try_publish w err r)
unfolding gate_step
publishes_at w err held e v = v
publishes_at w err (reading c d) e v = v
publishes_at w err released e v =
    Ensures-bind (λ u. Invariant.Inv u × Published (gate_world w) u) Inv
      (Protocol.step (gate_world w) (publish err)) (λ u. done (with_gate w u))
      (Ensures-both Invariant.Inv (Published (gate_world w))
        (Protocol.step (gate_world w) (publish err))
        (Invariant.step-Inv (gate_world w) (publish err) v.gate)
        (publish-Published (gate_world w) err v.gate))
      (λ u h. Published-Inv w u v e h)

leaves_at :
    (w : Leases) (t : Bool)
    → (free w == 0) ≡ t
    → Inv w
    → Ensures Inv (if t then done w else gate_step w leave)
leaves_at w true e v = v
leaves_at w false e v =
    gate_step-Inv w leave 1 v (λ busy. ground arith) (leave-Frame (gate_world w) v.gate)

publishes-Inv : (w : Leases) (err : Option Error) → Inv w → Ensures Inv (move w (publishes err))
unfolding move
publishes-Inv w err v = publishes_at w err w.release refl v

pub move-Inv : (w : Leases) (m : Move) → Inv w → Ensures Inv (move w m)
move-Inv w enters v =
    unfold move in
    gate_step-Inv w enter 0 v (ground (arith, v.compile_channel)) (enter-Frame (gate_world w))
move-Inv w leaves v = unfold move in leaves_at w (free w == 0) refl v
move-Inv w commits v =
    unfold move in
    gate_step-Inv w commit 0 v (ground (arith, v.compile_channel))
      (commit-Frame (gate_world w) v.gate)
move-Inv w captures v =
    unfold move in
    gate_step-Inv w capture 0 v (ground (arith, v.compile_channel))
      (capture-Frame (gate_world w) v.gate)
move-Inv w drains v =
    unfold move in
    gate_step-Inv w drain 0 v (ground (arith, v.compile_channel))
      (drain-Frame (gate_world w) v.gate)
move-Inv w acquires_target v = acquires-Inv w v
move-Inv w (compiled plan err close_err) v = compiled-Inv w plan err close_err v
move-Inv w releases_target v = releases-Inv w v
move-Inv w reads v = reads-Inv w v
move-Inv w takes v = takes-Inv w v
move-Inv w (publishes err) v = publishes-Inv w err v

pub moves-Inv : (w : Leases) (ms : List Move) → Inv w → Ensures Inv (moves w ms)
unfolding moves
moves-Inv w [] v = v
moves-Inv w (m ∷ ms) v =
    Ensures-bind Inv Inv (move w m) (λ u. moves u ms) (move-Inv w m v) (λ u i. moves-Inv u ms i)

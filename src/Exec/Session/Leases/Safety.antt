-- ===== src/Exec/Session/Leases/Safety.antt =====
-- No plan is released under a running debug runtime, and the release does not wait in vain.
use ferretd.Prelude.{
  ℕ, zero, suc, ◌≡◌, refl, inl, inr, Bool, true, false, String, Option, none, some, List, [], ◌∷◌,
  ◌++◌, subst, Outcome, done, Ensures, Ensures-bind, Ensures-mono, Ensures-both, Keeps, Keeps-bind,
  Keeps-all, Ensures-Keeps, arith, Option-cases, if◌then◌else◌, ◌==◌, replicate,
}
use ferretd.Errors.{Error}
use ferretd.Lifecycle.Channels.{is_closed, close_channel}
use ferretd.Lifecycle.Gate.Protocol
use ferretd.Lifecycle.Gate.Protocol.{
  running, committed, waiting, drained, closed, Action, enter, leave, commit, capture, drain,
  publish,
}
use ferretd.Lifecycle.Gate.{zero_gate}
use ferretd.Lifecycle.CloseOperation
use ferretd.Exec.Runtime.{SourceSnapshot}
use ferretd.Exec.Session.{
  Session, Acquired, acquires, fails, waits, compiles, acquire_debug_runtime_target,
  finish_debug_compile, new_session, release_debug_runtime, may_release, take_plans,
}
use ferretd.Exec.Session.Leases.{
  Leases, Move, enters, leaves, commits, captures, drains, acquires_target, releases_target, reads,
  takes, compiled, publishes, Release, held, reading, released, gate_step, move, moves, acquired,
  free, finish_compiler, gate_world, with_gate, try_publish,
}
use ferretd.Exec.Session.Leases.Invariant.{Inv, ReleaseInv}
use ferretd.Exec.Session.Leases.Preserves.{move-Inv, moves-Inv}

-- A Session that was just created.
unfoldable pub fresh : Session → Leases
fresh s = record {
  session = s;
  inside = 0;
  phase = running;
  compiler = none;
  leases = 0;
  release = held;
}

pub fresh-Inv :
    (id : String) (source : SourceSnapshot) (plan : ℕ) (parameters : List String)
    (text fs_root : String)
    → Inv (fresh (new_session id source plan parameters text fs_root))
unfolding fresh new_session zero_gate CloseOperation.zero_value
fresh-Inv id source plan parameters text fs_root = record {
  gate = record { counted = refl; channel = refl; phase = refl };
  leased = refl;
  runtime_channel = refl;
  compile_channel = (refl, refl);
  release = tt;
}

-- The release has ended.
abbrev IsReleased : Leases → Type 0
IsReleased w = w.release ≡ released

gate_step-IsReleased : (w : Leases) (a : Action) → IsReleased w → Keeps IsReleased (gate_step w a)
unfolding gate_step
gate_step-IsReleased w a e =
    Keeps-bind (λ u. Unit) IsReleased (Protocol.step (gate_world w) a) (λ u. done (with_gate w u))
      (Keeps-all (λ u. Unit) (Protocol.step (gate_world w) a) (λ u. tt)) (λ u t. e)

if-IsReleased :
    (w : Leases) (t : Bool) (o : Outcome Leases)
    → IsReleased w
    → Keeps IsReleased o
    → Keeps IsReleased (if t then done w else o)
if-IsReleased w true o e k = e
if-IsReleased w false o e k = k

acquired-IsReleased :
    (w : Leases) (p : Session × Acquired) → IsReleased w → IsReleased (acquired w p)
acquired-IsReleased w (s, acquires target) e = e
acquired-IsReleased w (s, fails err) e = e
acquired-IsReleased w (s, waits c) e = e
acquired-IsReleased w (s, compiles c) e = e

finish_compiler-IsReleased :
    (w : Leases) (c : Option ℕ) (plan : Option ℕ) (err close_err : Option Error)
    → IsReleased w
    → Keeps IsReleased (finish_compiler w c plan err close_err)
finish_compiler-IsReleased w none plan err close_err e = e
finish_compiler-IsReleased w (some c) plan err close_err e =
    Keeps-bind (λ r. Unit) IsReleased (finish_debug_compile w.session c plan err close_err) _
      (Keeps-all (λ r. Unit) (finish_debug_compile w.session c plan err close_err) (λ r. tt))
      (λ r t. e)

unleased :
    (u : Leases)
    → Inv u
    → IsReleased u
    → (u.leases ≡ 0) × (u.session.plan ≡ none) × (u.session.debug_plan ≡ none)
unleased u v e = let (p, none_held, a, b) = subst (ReleaseInv u) e v.release in (none_held, a, b)

publishes-IsReleased :
    (w : Leases) (err : Option Error) (r : Release)
    → IsReleased w
    → Keeps IsReleased (try_publish w err r)
publishes-IsReleased w err held e = e
publishes-IsReleased w err (reading c d) e = e
publishes-IsReleased w err released e = gate_step-IsReleased w (publish err) e

move-IsReleased : (w : Leases) (m : Move) → IsReleased w → Keeps IsReleased (move w m)
unfolding move
move-IsReleased w enters e = gate_step-IsReleased w enter e
move-IsReleased w leaves e = if-IsReleased w (free w == 0) _ e (gate_step-IsReleased w leave e)
move-IsReleased w commits e = gate_step-IsReleased w commit e
move-IsReleased w captures e = gate_step-IsReleased w capture e
move-IsReleased w drains e = gate_step-IsReleased w drain e
move-IsReleased w acquires_target e =
    if-IsReleased w (free w == 0) _ e
      (acquired-IsReleased w (acquire_debug_runtime_target w.session) e)
move-IsReleased w (compiled plan err close_err) e =
    finish_compiler-IsReleased w w.compiler plan err close_err e
move-IsReleased w releases_target e = if-IsReleased w (w.leases == 0) _ e (
    Keeps-bind (λ s. Unit) IsReleased (release_debug_runtime w.session) _
      (Keeps-all (λ s. Unit) (release_debug_runtime w.session) (λ s. tt)) (λ s t. e))
move-IsReleased w reads e = ground arith
move-IsReleased w takes e = ground arith
move-IsReleased w (publishes err) e = publishes-IsReleased w err w.release e

moves-IsReleased : (w : Leases) (ms : List Move) → IsReleased w → Keeps IsReleased (moves w ms)
unfolding moves
moves-IsReleased w [] e = e
moves-IsReleased w (m ∷ ms) e =
    Keeps-bind IsReleased IsReleased (move w m) (λ u. moves u ms) (move-IsReleased w m e)
      (λ u k. moves-IsReleased u ms k)

-- What holds later on, from where the release stood before.
abbrev pub Unleased : Release → Leases → Type 0
Unleased released u =
    (u.release ≡ released)
    × (u.leases ≡ 0)
    × (u.session.plan ≡ none)
    × (u.session.debug_plan ≡ none)
Unleased held u = Unit
Unleased (reading c d) u = Unit

later-Unleased :
    (w : Leases) (later : List Move) (r : Release)
    → w.release ≡ r
    → Inv w
    → Ensures (Unleased r) (moves w later)
later-Unleased w later released e i =
    Ensures-mono (λ u. Inv u × IsReleased u) (Unleased released) (moves w later)
      (λ u h. let (a, b, c) = unleased u h.0 h.1 in (h.1, a, b, c))
      (Ensures-Keeps Inv IsReleased (moves w later) (moves-Inv w later i)
        (moves-IsReleased w later e))
later-Unleased w later held e i =
    Ensures-mono Inv (Unleased held) (moves w later) (λ u h. tt) (moves-Inv w later i)
later-Unleased w later (reading c d) e i =
    Ensures-mono Inv (Unleased (reading c d)) (moves w later) (λ u h. tt) (moves-Inv w later i)

-- From a new Session on, in every interleaving of creators, holders of debug targets and the closing
-- worker, no panic is raised, before the plans are released or after; and once the worker has taken
-- the plans they stay released, no debug target is held, then or ever later, and the Session holds no
-- plan.
pub plans_outlive_runtimes :
    (id : String) (source : SourceSnapshot) (plan : ℕ) (parameters : List String)
    (text fs_root : String) (before later : List Move)
    → Ensures
        (λ w. Ensures (Unleased w.release) (moves w later))
        (moves (fresh (new_session id source plan parameters text fs_root)) before)
plans_outlive_runtimes id source plan parameters text fs_root before later =
    let start = fresh (new_session id source plan parameters text fs_root) in
    Ensures-mono Inv (λ w. Ensures (Unleased w.release) (moves w later)) (moves start before)
      (λ w i. later-Unleased w later w.release refl i)
      (moves-Inv start before (fresh-Inv id source plan parameters text fs_root))

-- The release waits for channels `c` and `d` while `n` targets are held.
abbrev IsReading : Option ℕ → Option ℕ → ℕ → Leases → Type 0
IsReading c d n u = (u.release ≡ reading c d) × (u.leases ≡ n)

releases-IsReading :
    (w : Leases) (c d : Option ℕ) (n : ℕ)
    → Inv w
    → IsReading c d (suc n) w
    → Ensures (IsReading c d n) (move w releases_target)
unfolding move release_debug_runtime close_channel
releases-IsReading w c d n v r = elim (Option-cases w.session.debug_runtime_done) [
  | inl e ↦ ground (arith, v.runtime_channel)
  | inr (a, e) ↦ ground (arith, v.runtime_channel, v.leased)
]

takes-IsReleased :
    (w : Leases) (c d : Option ℕ) → Inv w → IsReading c d 0 w → Ensures IsReleased (move w takes)
unfolding move may_release take_plans is_closed
takes-IsReleased w c d v r = ground (arith, v.release, v.runtime_channel)

release_from :
    (n : ℕ) (w : Leases) (c d : Option ℕ)
    → Inv w
    → IsReading c d n w
    → Ensures IsReleased (moves w (replicate n releases_target ++ takes ∷ []))
unfolding moves
release_from zero w c d v r =
    Ensures-bind IsReleased IsReleased (move w takes) (λ u. done u) (takes-IsReleased w c d v r)
      (λ u h. h)
release_from (suc n) w c d v r =
    Ensures-bind (λ u. Inv u × IsReading c d n u) IsReleased (move w releases_target) _
      (Ensures-both Inv (IsReading c d n) (move w releases_target) (move-Inv w releases_target v)
        (releases-IsReading w c d n v r))
      (λ u h. release_from n u c d h.0 h.1)

-- A release that has read the channels ends when the debug targets that are held then are released, in
-- every reachable state.
pub release_ends :
    (id : String) (source : SourceSnapshot) (plan : ℕ) (parameters : List String)
    (text fs_root : String) (before : List Move) (w : Leases) (c d : Option ℕ)
    → moves (fresh (new_session id source plan parameters text fs_root)) before ≡ done w
    → w.release ≡ reading c d
    → Ensures
        (λ u. u.release ≡ released)
        (moves w (replicate w.leases releases_target ++ takes ∷ []))
release_ends id source plan parameters text fs_root before w c d e r =
    let start = fresh (new_session id source plan parameters text fs_root) in
    let i =
      subst (Ensures Inv) e
        (moves-Inv start before (fresh-Inv id source plan parameters text fs_root)) in
    release_from w.leases w c d i (r, refl)

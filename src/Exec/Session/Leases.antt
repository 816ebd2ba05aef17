-- ===== src/Exec/Session/Leases.antt =====
-- A Session, those who create runtimes from it, and the worker that closes it, in any interleaving. A
-- creator is inside the gate while it acquires a debug target; the target is a lease that outlives it
-- until `releaseDebugRuntime`. The worker waits for the creators, then releases the plans.
pub mod Invariant
pub mod Preserves
pub mod Safety
use ferretd.Prelude.{
  ℕ, zero, suc, ◌+◌, ◌-◌, Bool, true, false, Option, none, some, List, [], ◌∷◌, Outcome, done,
  panic, ◌>>=◌, if◌then◌else◌, ◌==◌, ltb, is_some,
}
use ferretd.Errors.{Error}
use ferretd.Lifecycle.Gate.Protocol
use ferretd.Lifecycle.Gate.Protocol.{
  World, Action, enter, leave, commit, capture, drain, publish, Phase, drained,
}
use ferretd.Exec.Runtime.{RuntimeTarget}
use ferretd.Exec.Session.{
  Session, Acquired, acquires, fails, waits, compiles, acquire_debug_runtime_target, Compiled,
  finish_debug_compile, release_debug_runtime, release_channels, may_release, take_plans,
}

-- Where `releasePlans` stands: not called, waiting for the channels it read, returned.
pub data Release : Type 0 where
  held released : Release
  reading : Option ℕ → Option ℕ → Release

-- `compiler` is the channel of the creator that is compiling.
pub record Leases : Type 0 where
  pub session : Session
  pub inside : ℕ
  pub phase : Phase
  pub compiler : Option ℕ
  pub leases : ℕ
  pub release : Release

pub data Move : Type 0 where
  enters leaves commits captures drains : Move
  acquires_target releases_target reads takes : Move
  compiled : Option ℕ → Option Error → Option Error → Move
  publishes : Option Error → Move

abbrev pub gate_world : Leases → World
gate_world w = record { gate = w.session.children; inside = w.inside; phase = w.phase }

abbrev pub with_gate : Leases → World → Leases
with_gate w v = record w {
  session = record w.session { children = v.gate };
  inside = v.inside;
  phase = v.phase;
}

unfoldable pub gate_step : Leases → Action → Outcome Leases
unfolding Protocol.step
gate_step w a = do v ← Protocol.step (gate_world w) a; done (with_gate w v)

-- The creators that are inside and not compiling.
abbrev pub free : Leases → ℕ
free w = if is_some w.compiler then w.inside - 1 else w.inside

abbrev pub acquired : Leases → Session × Acquired → Leases
acquired w (s, acquires target) = record w { session = s; leases = w.leases + 1 }
acquired w (s, fails err) = record w { session = s }
acquired w (s, waits c) = record w { session = s }
acquired w (s, compiles c) = record w { session = s; compiler = some c }

abbrev pub finish_compiler :
    Leases → Option ℕ → Option ℕ → Option Error → Option Error → Outcome Leases
finish_compiler w none plan err close_err = done w
finish_compiler w (some c) plan err close_err = do
  r ← finish_debug_compile w.session c plan err close_err
  done (record w {
    session = r.session;
    compiler = none;
    leases = if is_some r.target then w.leases + 1 else w.leases;
  })

abbrev pub try_read : Leases → Phase → Release → Leases
try_read w drained held =
    let (c, d) = release_channels w.session in record w { release = reading c d }
try_read w _ _ = w

abbrev pub try_take : Leases → Release → Leases
try_take w (reading c d) =
    if may_release w.session c d
    then record w { session = (take_plans w.session).0; release = released }
    else w
try_take w _ = w

abbrev pub try_publish : Leases → Option Error → Release → Outcome Leases
try_publish w err released = gate_step w (publish err)
try_publish w err _ = done w

-- A move that is not enabled changes nothing.
unfoldable pub move : Leases → Move → Outcome Leases
unfolding gate_step acquire_debug_runtime_target finish_debug_compile release_debug_runtime
    release_channels may_release take_plans
move w enters = gate_step w enter
move w leaves = if free w == 0 then done w else gate_step w leave
move w commits = gate_step w commit
move w captures = gate_step w capture
move w drains = gate_step w drain
move w acquires_target =
    if free w == 0 then done w else done (acquired w (acquire_debug_runtime_target w.session))
move w (compiled plan err close_err) = finish_compiler w w.compiler plan err close_err
move w releases_target = if w.leases == 0 then done w else (do
  s ← release_debug_runtime w.session
  done (record w { session = s; leases = w.leases - 1 }))
move w reads = done (try_read w w.phase w.release)
move w takes = done (try_take w w.release)
move w (publishes err) = try_publish w err w.release

unfoldable pub moves : Leases → List Move → Outcome Leases
unfolding move
moves w [] = done w
moves w (m ∷ ms) = do v ← move w m; moves v ms

-- ===== src/Exec/Session.antt =====
-- internal/exec/session.go. A Plan is known by its address. A method that releases the mutex to wait
-- or to compile is one definition for each critical section. `compile_channels` and
-- `runtime_channels` are the heaps of the channels that stand in `debugCompileDone` and
-- `debugRuntimeDone`.
pub mod Leases
use ferretd.Prelude.{
  ℕ, ◌+◌, ◌-◌, String, Bool, true, false, not, ◌&&◌, ◌||◌, Option, none, some, List, [], Outcome,
  done, panic, ◌>>=◌, if◌then◌else◌, ◌==◌, is_some,
}
use ferretd.Errors.{Error, err_session_closed, other, join, is_canceled, is_deadline_exceeded}
use ferretd.Diagnostics.{copy_slice}
use ferretd.Lifecycle.Channels.{make_channel, close_channel, is_closed}
use ferretd.Lifecycle.Gate
use ferretd.Lifecycle.Gate.{Gate, zero_gate, accepting}
use ferretd.Exec.Runtime.{RuntimeTarget, SourceSnapshot}

pub record Session : Type 0 where
  pub id : String
  pub source : SourceSnapshot
  pub parameters : List String
  pub text : String
  pub fs_root : String
  pub plan : Option ℕ
  pub debug_plan : Option ℕ
  pub debug_compile_done : Option ℕ
  pub debug_compile_err : Option Error
  pub debug_runtime_done : Option ℕ
  pub debug_compiling : Bool
  pub debug_compile_failed : Bool
  pub debug_runtimes : ℕ
  pub children : Gate
  pub compile_channels : List Bool
  pub runtime_channels : List Bool

pub record SessionSnapshot : Type 0 where
  pub id : String
  pub source : SourceSnapshot
  pub parameters : List String
  pub text : String

unfoldable pub new_session : String → SourceSnapshot → ℕ → List String → String → String → Session
unfolding copy_slice zero_gate
new_session id source plan parameters text fs_root = record {
  id = id;
  source = source;
  parameters = copy_slice parameters;
  text = text;
  fs_root = fs_root;
  plan = some plan;
  debug_plan = none;
  debug_compile_done = none;
  debug_compile_err = none;
  debug_runtime_done = none;
  debug_compiling = false;
  debug_compile_failed = false;
  debug_runtimes = 0;
  children = zero_gate;
  compile_channels = [];
  runtime_channels = [];
}

unfoldable pub snapshot : Session → SessionSnapshot
unfolding copy_slice
snapshot s = record {
  id = s.id;
  source = s.source;
  parameters = copy_slice s.parameters;
  text = s.text;
}

unfoldable pub runtime_target : Session → RuntimeTarget
runtime_target s = record {
  session_id = s.id;
  source = s.source;
  text = s.text;
  fs_root = s.fs_root;
  plan = s.plan;
}

-- `newDebugRuntimeTargetLocked`
unfoldable pub open_runtime_channel : Session → Session
unfolding make_channel
open_runtime_channel s =
    if s.debug_runtimes == 0
    then (let (heap, c) = make_channel s.runtime_channels in
        record s { debug_runtime_done = some c; runtime_channels = heap })
    else s

unfoldable pub new_debug_runtime_target : Session → ℕ → Session × RuntimeTarget
unfolding open_runtime_channel
new_debug_runtime_target s plan = (
  record (open_runtime_channel s) { debug_runtimes = s.debug_runtimes + 1 },
  record {
    session_id = s.id;
    source = s.source;
    text = s.text;
    fs_root = s.fs_root;
    plan = some plan;
  },
)

-- What `acquireDebugRuntimeTarget` does when its first critical section ends.
pub data Acquired : Type 0 where
  acquires : RuntimeTarget → Acquired
  fails : Option Error → Acquired
  waits : Option ℕ → Acquired
  compiles : ℕ → Acquired

abbrev begin_compile : Session → List Bool × ℕ → Session × Acquired
begin_compile s (heap, c) = (
  record s { debug_compiling = true; debug_compile_done = some c; compile_channels = heap },
  compiles c,
)

abbrev leased : Session × RuntimeTarget → Session × Acquired
leased (s, target) = (s, acquires target)

-- One turn of its loop, up to where it releases the mutex. After the wait the loop turns again, or
-- returns the context's error.
unfoldable pub acquire_debug_runtime_target : Session → Session × Acquired
unfolding accepting new_debug_runtime_target make_channel
acquire_debug_runtime_target s =
    if accepting s.children
    then elim s.debug_plan [
      | some plan ↦ leased (new_debug_runtime_target s plan)
      | none ↦
          if s.debug_compile_failed
          then (s, fails s.debug_compile_err)
          else if s.debug_compiling
          then (s, waits s.debug_compile_done)
          else begin_compile s (make_channel s.compile_channels)
    ]
    else (s, fails (some err_session_closed))

-- `compileDebug` returned no plan and no error.
unfoldable pub compile_error : Option ℕ → Option Error → Option Error
compile_error none none = some (other "debug compilation returned no plan")
compile_error (some plan) none = none
compile_error plan (some e) = some e

abbrev pub is_lasting : Error → Bool
is_lasting e = not (is_canceled e || is_deadline_exceeded e)

unfoldable pub settle_compile :
    Session → Bool → Option ℕ → Option Error → Session × Option RuntimeTarget
unfolding new_debug_runtime_target is_canceled is_deadline_exceeded
settle_compile s closing plan (some e) = (
  if is_lasting e then record s { debug_compile_err = some e; debug_compile_failed = true } else s,
  none,
)
settle_compile s closing none none = (s, none)
settle_compile s closing (some plan) none =
    if closing
    then (s, none)
    else (let (t, target) = new_debug_runtime_target (record s { debug_plan = some plan }) plan in
        (t, some target))

pub record Compiled : Type 0 where
  pub session : Session
  pub target : Option RuntimeTarget
  pub err : Option Error
  pub closed_plan : Option ℕ

-- What is returned after the second critical section; `close_err` is what Plan.Close answers.
unfoldable pub compile_result :
    Session → Bool → Option RuntimeTarget → Option ℕ → Option Error → Option Error → Compiled
unfolding join
compile_result s closing target plan err close_err =
    if closing || is_some err
    then record {
      session = s;
      target = none;
      err =
          (let joined_err = if is_some plan then join err close_err else err in
            if closing then join (some err_session_closed) joined_err else joined_err);
      closed_plan = plan;
    }
    else record { session = s; target = target; err = none; closed_plan = none }

-- The rest of the turn, from the return of `compileDebug`; `c` is the channel made before.
unfoldable pub finish_debug_compile :
    Session → ℕ → Option ℕ → Option Error → Option Error → Outcome Compiled
unfolding compile_error settle_compile accepting close_channel compile_result
finish_debug_compile s c plan answered close_err =
    let err = compile_error plan answered in
    let closing = not (accepting s.children) in
    let (t, target) = settle_compile s closing plan err in
    (do
      heap ← close_channel t.compile_channels (some c)
      let u = record t {
        debug_compiling = false;
        debug_compile_done = none;
        compile_channels = heap;
      }
      done (compile_result u closing target plan err close_err))

unfoldable pub release_debug_runtime : Session → Outcome Session
unfolding close_channel
release_debug_runtime s =
    if s.debug_runtimes == 0
    then done s
    else if (s.debug_runtimes - 1) == 0
    then (do
      heap ← close_channel s.runtime_channels s.debug_runtime_done
      done (record s { debug_runtimes = 0; debug_runtime_done = none; runtime_channels = heap }))
    else done (record s { debug_runtimes = s.debug_runtimes - 1 })

-- `releasePlans`: the channels read, the two receives, and the plans taken.
unfoldable pub release_channels : Session → Option ℕ × Option ℕ
release_channels s = (s.debug_compile_done, s.debug_runtime_done)

abbrev pub passes : List Bool → Option ℕ → Bool
passes heap none = true
passes heap (some c) = is_closed heap (some c)

unfoldable pub may_release : Session → Option ℕ → Option ℕ → Bool
unfolding is_closed
may_release s compile runtime =
    passes s.compile_channels compile && passes s.runtime_channels runtime

unfoldable pub take_plans : Session → Session × Option ℕ × Option ℕ
take_plans s = (record s { plan = none; debug_plan = none }, s.plan, s.debug_plan)

unfoldable pub close_started : Session → Bool
unfolding accepting
close_started s = not (accepting s.children)

-- `closeUnpublished`: the plan that it closes, if one is held.
unfoldable pub close_unpublished : Session → Session × Option ℕ
close_unpublished s = (record s { plan = none }, s.plan)

unfoldable pub begin_runtime_create : Session → Session × Bool
unfolding Gate.begin_create
begin_runtime_create s =
    let (g, admitted) = Gate.begin_create s.children in (record s { children = g }, admitted)

unfoldable pub finish_runtime_create : Session → Outcome Session
unfolding Gate.end_create
finish_runtime_create s = do
  ended ← Gate.end_create s.children
  done (record s { children = ended.0 })

unfoldable pub begin_close : Session → Session × Bool
unfolding Gate.begin_close
begin_close s = let (g, owner) = Gate.begin_close s.children in (record s { children = g }, owner)

unfoldable pub finish_close : Session → Option Error → Outcome Session
unfolding Gate.finish_close
finish_close s err = do g ← Gate.finish_close s.children err; done (record s { children = g })

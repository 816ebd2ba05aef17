-- ===== src/Exec/Session/Leases/Invariant.antt =====
-- What holds between the plans, the channels and the leases, and the moves of the Session's mutex.
use ferretd.Prelude.{
  ℕ, ◌≤◌, ◌≡◌, ◌⊎◌, inl, inr, true, false, Option, none, some, Ensures, arith, Option-cases,
}
use ferretd.Errors.{Error}
use ferretd.Lifecycle.Channels.{
  IsOpen, close_channel, is_closed, get_elem?-append_end, get_elem?-set_self, make_channel,
}
use ferretd.Lifecycle.Gate.{accepting}
use ferretd.Lifecycle.Gate.Protocol.{drained, closed}
use ferretd.Lifecycle.Gate.Protocol.Invariant
use ferretd.Lifecycle.Gate.Protocol.Invariant.{ChannelInv, WaitInv}
use ferretd.Exec.Session.{
  Session, acquire_debug_runtime_target, finish_debug_compile, release_debug_runtime,
  release_channels, may_release, take_plans, new_debug_runtime_target, open_runtime_channel,
  settle_compile, compile_error, compile_result,
}
use ferretd.Exec.Session.Leases.{
  Leases, acquires_target, releases_target, reads, takes, compiled, Release, held, reading,
  released, gate_world, move,
}

-- The compile channel stands open exactly while somebody inside the gate compiles.
abbrev pub CompileInv : Session → ℕ → Option ℕ → Type 0
CompileInv s inside none = (s.debug_compiling ≡ false) × (s.debug_compile_done ≡ none)
CompileInv s inside (some c) =
    (s.debug_compiling ≡ true)
    × (s.debug_compile_done ≡ some c)
    × IsOpen s.compile_channels c
    × (1 ≤ inside)

abbrev pub ReleaseInv : Leases → Release → Type 0
ReleaseInv w held = Unit
ReleaseInv w (reading c d) =
    (w.phase ≡ drained)
    × (c ≡ none)
    × WaitInv w.session.runtime_channels w.leases w.session.debug_runtime_done d
ReleaseInv w released =
    ((w.phase ≡ drained) ⊎ (w.phase ≡ closed))
    × (w.leases ≡ 0)
    × (w.session.plan ≡ none)
    × (w.session.debug_plan ≡ none)

pub record Inv (w : Leases) : Type 0 where
  pub gate : Invariant.Inv (gate_world w)
  pub leased : w.session.debug_runtimes ≡ w.leases
  pub runtime_channel : ChannelInv w.session.runtime_channels w.leases w.session.debug_runtime_done
  pub compile_channel : CompileInv w.session w.inside w.compiler
  pub release : ReleaseInv w w.release

pub acquires-Inv : (w : Leases) → Inv w → Ensures Inv (move w acquires_target)
unfolding move acquire_debug_runtime_target new_debug_runtime_target open_runtime_channel
    make_channel accepting is_closed
acquires-Inv w v = ground (
  arith,
  get_elem?-append_end w.session.runtime_channels false,
  get_elem?-append_end w.session.compile_channels false,
)

pub releases-Inv : (w : Leases) → Inv w → Ensures Inv (move w releases_target)
unfolding move release_debug_runtime close_channel is_closed
releases-Inv w v = elim (Option-cases w.session.debug_runtime_done) [
  | inl e ↦ ground arith
  | inr (c, e) ↦ ground (arith, get_elem?-set_self w.session.runtime_channels c true false)
]

pub reads-Inv : (w : Leases) → Inv w → Ensures Inv (move w reads)
unfolding move release_channels is_closed
reads-Inv w v = ground arith

pub takes-Inv : (w : Leases) → Inv w → Ensures Inv (move w takes)
unfolding move may_release take_plans is_closed
takes-Inv w v = ground arith

pub compiled-Inv :
    (w : Leases) (plan : Option ℕ) (err close_err : Option Error)
    → Inv w
    → Ensures Inv (move w (compiled plan err close_err))
unfolding move finish_debug_compile settle_compile compile_error compile_result close_channel
    new_debug_runtime_target open_runtime_channel make_channel accepting is_closed
compiled-Inv w plan err close_err v = elim (Option-cases w.compiler) [
  | inl nobody ↦ ground arith
  | inr (c, busy) ↦ ground (
    arith,
    get_elem?-append_end w.session.runtime_channels false,
    get_elem?-set_self w.session.compile_channels c true false,
  )
]

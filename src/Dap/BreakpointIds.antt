-- ===== src/Dap/BreakpointIds.antt =====
-- internal/dap/breakpoint_ids.go: the protocol's breakpoint identities. The debugger's identifiers and
-- positions are numbers; of a request the code reads only the position.
pub mod Identity
pub mod Replacement
pub mod Session
use ferretd.Prelude.{
  ℕ, ◌+◌, ◌-◌, String, Bool, true, false, Option, none, some, List, [], ◌∷◌, if◌then◌else◌, ◌==◌,
  ltb, Outcome, done, panic, Key, lookup, insert, delete, nat_key, ℕ_discrete, String-discrete,
}

pub record NativePosition : Type 0 where
  pub line : ℕ
  pub column : ℕ

pub record BreakpointKey : Type 0 where
  pub source_name : String
  pub position : NativePosition

pub NativePosition-discrete : Discrete NativePosition
NativePosition-discrete = hlevel ℕ_discrete

pub BreakpointKey-discrete : Discrete BreakpointKey
BreakpointKey-discrete = hlevel (String-discrete, NativePosition-discrete)

instance abbrev pub breakpoint_key : Key BreakpointKey
breakpoint_key = record { same = BreakpointKey-discrete }

-- A map entry that is missing reads as zero, which is no identity.
pub record BreakpointIds : Type 0 where
  pub next : ℕ
  pub pending : ℕ
  pub stable : List (BreakpointKey × ℕ)
  pub active : List (ℕ × ℕ)
  pub retired : List (ℕ × ℕ)

unfoldable pub new_breakpoint_ids : BreakpointIds
new_breakpoint_ids = record { next = 1; pending = 0; stable = []; active = []; retired = [] }

abbrev pub or_zero : Option ℕ → ℕ
or_zero none = 0
or_zero (some n) = n

-- `for native, stable := range b.active { b.retired[native] = stable }`, in some order.
unfoldable pub retire : List (ℕ × ℕ) → List (ℕ × ℕ) → List (ℕ × ℕ)
unfolding insert
retire [] retired = retired
retire ((native, stable) ∷ active) retired = insert native stable (retire active retired)

-- The identity of a position, new if it has none.
unfoldable pub identify : BreakpointIds → BreakpointKey → BreakpointIds × ℕ
unfolding lookup insert
identify b key =
    let known = or_zero (lookup key b.stable) in
    if known == 0
    then (record b { next = b.next + 1; stable = insert key b.next b.stable }, b.next)
    else (b, known)

-- One round of the loop over the results.
unfoldable pub bind : String → NativePosition → ℕ → BreakpointIds → BreakpointIds
unfolding identify insert delete
bind source position native b =
    let (b', stable) = identify b (record { source_name = source; position = position }) in
    record b' { active = insert native stable b'.active; retired = delete native b'.retired }

-- The loop; a result without a request is an index out of range.
unfoldable pub bind_all :
    String → List NativePosition → List ℕ → BreakpointIds → Outcome BreakpointIds
unfolding bind
bind_all source requests [] b = done b
bind_all source [] (native ∷ results) b = panic
bind_all source (position ∷ requests) (native ∷ results) b =
    bind_all source requests results (bind source position native b)

unfoldable pub unbind : BreakpointIds → BreakpointIds
unfolding retire
unbind b = record b {
  retired = if b.pending == 0 then b.retired else retire b.active b.retired;
  active = [];
}

unfoldable pub replace :
    String → List NativePosition → List ℕ → BreakpointIds → Outcome BreakpointIds
unfolding bind_all unbind
replace source requests results b = bind_all source requests results (unbind b)

unfoldable pub id : BreakpointIds → ℕ → ℕ
unfolding lookup
id b native =
    let stable = or_zero (lookup native b.active) in
    if stable == 0 then or_zero (lookup native b.retired) else stable

unfoldable pub command_started : BreakpointIds → BreakpointIds
command_started b = record b { pending = b.pending + 1 }

unfoldable pub command_stopped : BreakpointIds → BreakpointIds
command_stopped b =
    let left = if ltb 0 b.pending then b.pending - 1 else b.pending in
    record b { pending = left; retired = if left == 0 then [] else b.retired }

unfoldable pub finish : BreakpointIds → BreakpointIds
finish b = record b { pending = 0; active = []; retired = [] }

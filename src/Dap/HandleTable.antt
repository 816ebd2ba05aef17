-- ===== src/Dap/HandleTable.antt =====
-- internal/dap/handle_table.go: the protocol's references to frames, scopes and variables of the
-- current stop. `V` is the debugger's Variable type; a ValueReference is a number, zero for none.
pub mod Lookups
pub mod Lifetime
use ferretd.Prelude.{
  ℕ, ◌+◌, Bool, true, false, Option, none, some, List, [], ◌∷◌, if◌then◌else◌, ◌==◌, ltb, length,
  lookup, insert, nat_key,
}
use ferretd.Diagnostics.{copy_slice}

pub data HandleStatus : Type 0 where
  handle_invalid handle_current handle_stale : HandleStatus

pub data HandleKind : Type 0 where
  frame_handle scope_handle variable_handle : HandleKind

pub record HandleInvalidation : Type 0 where
  pub frames : ℕ
  pub scopes : ℕ
  pub variables : ℕ
  pub stale : ℕ

pub record HandleTable (V : Type 0) : Type 0 where
  pub next : ℕ
  pub frames : List (ℕ × ℕ)
  pub scopes : List (ℕ × List V)
  pub variables : List (ℕ × ℕ)
  pub stale : List (ℕ × HandleKind)

-- `for handle := range m { t.stale[handle] = kind }`.
unfoldable pub mark :
    {A : Type 0} → HandleKind → List (ℕ × A) → List (ℕ × HandleKind) → List (ℕ × HandleKind)
unfolding insert
mark kind [] stale = stale
mark kind ((handle, a) ∷ m) stale = mark kind m (insert handle kind stale)

abbrev pub is_kind : HandleKind → HandleKind → Bool
is_kind frame_handle frame_handle = true
is_kind scope_handle scope_handle = true
is_kind variable_handle variable_handle = true
is_kind _ _ = false

module _ {V : Type 0} where
  unfoldable pub new_handle_table : HandleTable V
  new_handle_table = record { next = 1; frames = []; scopes = []; variables = []; stale = [] }

  unfoldable pub total : HandleTable V → ℕ
  total t = length t.frames + length t.scopes + length t.variables

  unfoldable pub stale_after : HandleTable V → List (ℕ × HandleKind)
  unfolding mark total
  stale_after t =
      if ltb 0 (total t)
      then mark variable_handle t.variables
          (mark scope_handle t.scopes (mark frame_handle t.frames []))
      else t.stale

  unfoldable pub invalidate : HandleTable V → HandleTable V × HandleInvalidation
  unfolding stale_after
  invalidate t =
      let stale = stale_after t in
      (
        record t { frames = []; scopes = []; variables = []; stale = stale },
        record {
          frames = length t.frames;
          scopes = length t.scopes;
          variables = length t.variables;
          stale = length stale;
        },
      )

  -- `allocateLocked`
  unfoldable pub allocate : HandleTable V → HandleTable V × ℕ
  allocate t = (record t { next = t.next + 1 }, t.next)

  unfoldable pub frame : HandleTable V → ℕ → HandleTable V × ℕ
  unfolding allocate insert
  frame t index =
      let (t', handle) = allocate t in
      (record t' { frames = insert handle index t'.frames }, handle)

  unfoldable pub scope : HandleTable V → List V → HandleTable V × ℕ
  unfolding allocate insert copy_slice
  scope t variables =
      let (t', handle) = allocate t in
      (record t' { scopes = insert handle (copy_slice variables) t'.scopes }, handle)

  unfoldable pub variable : HandleTable V → ℕ → HandleTable V × ℕ
  unfolding allocate insert
  variable t reference =
      if reference == 0
      then (t, 0)
      else (let (t', handle) = allocate t in
          (record t' { variables = insert handle reference t'.variables }, handle))

  -- The status of a handle that is in no current map of its kind.
  unfoldable pub missing : HandleTable V → HandleKind → ℕ → HandleStatus
  unfolding lookup
  missing t kind handle = elim (lookup handle t.stale) [
    | none ↦ handle_invalid
    | some k ↦ if is_kind k kind then handle_stale else handle_invalid
  ]

  unfoldable pub frame_index : HandleTable V → ℕ → ℕ × HandleStatus
  unfolding missing lookup
  frame_index t handle = elim (lookup handle t.frames) [
    | some index ↦ (index, handle_current)
    | none ↦ (0, missing t frame_handle handle)
  ]

  unfoldable pub scope_variables : HandleTable V → ℕ → List V × HandleStatus
  unfolding missing lookup copy_slice
  scope_variables t handle = elim (lookup handle t.scopes) [
    | some variables ↦ (copy_slice variables, handle_current)
    | none ↦ ([], missing t scope_handle handle)
  ]

  unfoldable pub variable_reference : HandleTable V → ℕ → ℕ × HandleStatus
  unfolding missing lookup
  variable_reference t handle = elim (lookup handle t.variables) [
    | some reference ↦ (reference, handle_current)
    | none ↦ (0, missing t variable_handle handle)
  ]

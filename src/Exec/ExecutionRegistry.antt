-- ===== src/Exec/ExecutionRegistry.antt =====
-- internal/exec/execution_registry.go. Entries and groups are heap objects, known by their addresses; an entry
-- holds its Execution. What parent.closeStarted answers is an argument. A read through an address that is not there
-- is a nil dereference.
pub mod Ownership
use ferretd.Prelude.{
  ℕ, String, Bool, true, false, not, ◌&&◌, Option, none, some, List, [], ◌∷◌, ◌++◌, Outcome, done,
  panic, ◌>>=◌, if◌then◌else◌, ◌==◌, length, get_elem?, set, lookup, insert, delete, string_key,
}
use ferretd.Exec.Execution
use ferretd.Exec.Execution.{Execution}
use ferretd.Exec.SessionRegistry.{
  RegistryState, registry_state_active, registry_state_closing, load, points_to, is_active,
}

pub record ExecutionEntry : Type 0 where
  pub execution : Execution
  pub state : RegistryState

pub record ExecutionGroup : Type 0 where
  pub state : RegistryState
  pub entries : List (String × ℕ)

pub record ExecutionRegistry : Type 0 where
  pub entries : List (String × ℕ)
  pub by_session : List (String × ℕ)
  pub entry_heap : List ExecutionEntry
  pub group_heap : List ExecutionGroup

pub record ExecutionClose : Type 0 where
  pub entry : Option ℕ
  pub owner : Bool

unfoldable pub new_execution_registry : ExecutionRegistry
new_execution_registry = record { entries = []; by_session = []; entry_heap = []; group_heap = [] }

abbrev pub session_of : Execution → String
session_of e = e.runtime.target.session_id

-- The group of a Session, made if there is none.
unfoldable pub group_of : ExecutionRegistry → String → ExecutionRegistry × ℕ
unfolding lookup insert
group_of r id = elim (lookup id r.by_session) [
  | some p ↦ (r, p)
  | none ↦ (
    record r {
      by_session = insert id (length r.group_heap) r.by_session;
      group_heap = r.group_heap ++ record { state = registry_state_active; entries = [] } ∷ [];
    },
    length r.group_heap,
  )
]

-- `add` once the new entry `p` is reachable by its identifier.
unfoldable pub add_to_group : ExecutionRegistry → Execution → ℕ → Outcome ExecutionRegistry
unfolding insert group_of
add_to_group r execution p =
    let (s, q) = group_of r (session_of execution) in
    (do
      g ← load s.group_heap q
      if is_active g.state
          then done (record s {
            group_heap =
                set s.group_heap q (record g { entries = insert execution.id p g.entries });
          })
          else panic)

unfoldable pub add : ExecutionRegistry → Execution → Outcome ExecutionRegistry
unfolding lookup insert add_to_group
add r execution = elim (lookup execution.id r.entries) [
  | some p ↦ panic
  | none ↦
      let p = length r.entry_heap in
      add_to_group
        (record r {
          entries = insert execution.id p r.entries;
          entry_heap =
              r.entry_heap ++ record { execution = execution; state = registry_state_active } ∷ [];
        })
        execution p
]

-- The entry of an active Execution.
unfoldable pub active : ExecutionRegistry → String → Outcome (Option ℕ)
unfolding lookup
active r id = elim (lookup id r.entries) [
  | none ↦ done none
  | some p ↦ (do e ← load r.entry_heap p; done (if is_active e.state then some p else none))
]

-- `beginCloseLocked`
unfoldable pub begin_close_entry :
    ExecutionRegistry → ℕ → ExecutionEntry → Outcome (ExecutionRegistry × ExecutionClose)
unfolding Execution.begin_close
begin_close_entry r p e = elim e.state [
  | registry_state_closing ↦ done (r, record { entry = some p; owner = false })
  | registry_state_active ↦
      let (execution, begun) = Execution.begin_close e.execution in
      if begun
      then done (
        record r {
          entry_heap =
              set r.entry_heap p (record { execution = execution; state = registry_state_closing });
        },
        record { entry = some p; owner = true },
      )
      else panic
]

unfoldable pub begin_close :
    ExecutionRegistry → String → Outcome (ExecutionRegistry × ExecutionClose)
unfolding lookup begin_close_entry
begin_close r id = elim (lookup id r.entries) [
  | none ↦ done (r, record { entry = none; owner = false })
  | some p ↦ (do e ← load r.entry_heap p; begin_close_entry r p e)
]

-- The loop over the entries of a group.
unfoldable pub begin_closes :
    ExecutionRegistry → List (String × ℕ) → Outcome (ExecutionRegistry × List ExecutionClose)
unfolding begin_close_entry
begin_closes r [] = done (r, [])
begin_closes r ((id, p) ∷ entries) = do
  e ← load r.entry_heap p
  first ← begin_close_entry r p e
  rest ← begin_closes first.0 entries
  done (rest.0, first.1 ∷ rest.1)

abbrev pub is_empty : List (String × ℕ) → Bool
is_empty m = length m == 0

unfoldable pub begin_session_close :
    ExecutionRegistry → String → Outcome (ExecutionRegistry × List ExecutionClose)
unfolding lookup delete begin_closes
begin_session_close r id = elim (lookup id r.by_session) [
  | none ↦ done (r, [])
  | some q ↦ (do
    g ← load r.group_heap q
    let s = record r {
      group_heap = set r.group_heap q (record g { state = registry_state_closing });
    }
    closed ← begin_closes s g.entries
    done (
      if is_empty g.entries
          then record closed.0 { by_session = delete id closed.0.by_session }
          else closed.0,
      closed.1,
    ))
]

-- `finishClose` in the group of the entry's Session; `parent_closing` is what parent.closeStarted answers.
unfoldable pub finish_in_group :
    ExecutionRegistry → String → String → ℕ → ℕ → ExecutionGroup → Bool → ExecutionRegistry
unfolding lookup delete
finish_in_group r session id p q g parent_closing =
    if is_active g.state && parent_closing
    then r
    else (let left = if points_to (lookup id g.entries) p then delete id g.entries else g.entries in
        record r {
          group_heap = set r.group_heap q (record g { entries = left });
          by_session =
              if not (is_active g.state) && is_empty left
              then delete session r.by_session
              else r.by_session;
        })

unfoldable pub finish_close : ExecutionRegistry → ℕ → Bool → Outcome ExecutionRegistry
unfolding lookup delete finish_in_group
finish_close r p parent_closing = do
  e ← load r.entry_heap p
  let id = e.execution.id
  let s = record r {
    entries = if points_to (lookup id r.entries) p then delete id r.entries else r.entries;
  }
  elim (lookup (session_of e.execution) s.by_session) [
    | none ↦ done s
    | some q ↦ (do
      g ← load s.group_heap q
      done (finish_in_group s (session_of e.execution) id p q g parent_closing))
  ]

unfoldable pub finish_session_close : ExecutionRegistry → String → ExecutionRegistry
unfolding delete
finish_session_close r id = record r { by_session = delete id r.by_session }

-- ===== src/Exec/SessionRegistry.antt =====
-- internal/exec/session_registry.go. Entries and workspace groups are heap objects, known by their
-- addresses; an entry holds its Session. A read through an address that is not there is a nil dereference.
pub mod Calls
pub mod Growth
pub mod Creation
pub mod Closing
pub mod Gates
pub mod Ownership
use ferretd.Prelude.{
  ℕ, suc, String, Bool, true, false, not, ◌&&◌, ◌||◌, Option, none, some, List, [], ◌∷◌, ◌++◌,
  Outcome, done, panic, ◌>>=◌, if◌then◌else◌, ◌==◌, length, get_elem?, set, lookup, insert, delete,
  string_key,
}
use ferretd.Errors.{Error, err_closed, err_session_not_found, workspace_closed}
use ferretd.Exec.Session
use ferretd.Exec.Session.{Session}
use ferretd.Exec.WorkspaceGroup
use ferretd.Exec.WorkspaceGroup.{WorkspaceGroup, new_workspace_group}
use ferretd.Lifecycle.Gate.{accepting}

pub data RegistryState : Type 0 where
  registry_state_active registry_state_closing : RegistryState

pub record SessionEntry : Type 0 where
  pub session : Session
  pub state : RegistryState

pub record SessionRegistry : Type 0 where
  pub entries : List (String × ℕ)
  pub groups : List (String × ℕ)
  pub closed : Bool
  pub entry_heap : List SessionEntry
  pub group_heap : List WorkspaceGroup

pub record SessionCreation : Type 0 where
  pub workspace : String
  pub group : ℕ

pub record WorkspaceClose : Type 0 where
  pub id : String
  pub group : ℕ
  pub owner : Bool

pub data Reply (A : Type 0) : Type 0 where
  replied : A → Reply A
  failed : Error → Reply A

unfoldable pub new_session_registry : SessionRegistry
new_session_registry = record {
  entries = [];
  groups = [];
  closed = false;
  entry_heap = [];
  group_heap = [];
}

-- `*p`
abbrev pub load : {A : Type 0} → List A → ℕ → Outcome A
load heap p = elim (get_elem? heap p) [ none ↦ panic | some a ↦ done a ]

abbrev pub points_to : Option ℕ → ℕ → Bool
points_to none p = false
points_to (some q) p = q == p

-- The group of a workspace, made if there is none.
unfoldable pub group_of : SessionRegistry → String → SessionRegistry × ℕ
unfolding lookup insert new_workspace_group
group_of r id = elim (lookup id r.groups) [
  | some p ↦ (r, p)
  | none ↦ (
    record r {
      groups = insert id (length r.group_heap) r.groups;
      group_heap = r.group_heap ++ new_workspace_group ∷ [];
    },
    length r.group_heap,
  )
]

unfoldable pub begin_create :
    SessionRegistry → String → Outcome (SessionRegistry × Reply SessionCreation)
unfolding group_of WorkspaceGroup.begin_create
begin_create r id =
    if r.closed
    then done (r, failed err_closed)
    else (let (s, p) = group_of r id in
        (do
          g ← load s.group_heap p
          let (h, admitted) = WorkspaceGroup.begin_create g
          done (
            record s { group_heap = set s.group_heap p h },
            if admitted
                then replied (record { workspace = id; group = p })
                else failed workspace_closed,
          )))

unfoldable pub finish_create : SessionRegistry → SessionCreation → Outcome SessionRegistry
unfolding lookup delete WorkspaceGroup.finish_create
finish_create r c = do
  g ← load r.group_heap c.group
  ended ← WorkspaceGroup.finish_create g
  done (record r {
    group_heap = set r.group_heap c.group ended.0;
    groups =
        if ended.1 && points_to (lookup c.workspace r.groups) c.group
        then delete c.workspace r.groups
        else r.groups;
  })

-- The new entry is reachable from the registry and from its group.
unfoldable pub insert_entry :
    SessionRegistry → SessionCreation → WorkspaceGroup → Session → SessionRegistry
unfolding insert
insert_entry r c g session = record r {
  group_heap = set r.group_heap c.group g;
  entry_heap = r.entry_heap ++ record { session = session; state = registry_state_active } ∷ [];
  entries = insert session.id (length r.entry_heap) r.entries;
}

unfoldable pub commit_admitted :
    SessionRegistry
    → Option Error
    → SessionCreation
    → Session
    → WorkspaceGroup
    → Outcome (SessionRegistry × Option Error)
unfolding insert_entry WorkspaceGroup.add
commit_admitted r (some e) c session g = done (r, some e)
commit_admitted r none c session g =
    let (h, added) = WorkspaceGroup.add g session.id (length r.entry_heap) in
    if added then done (insert_entry r c h session, none) else done (r, some workspace_closed)

unfoldable pub commit_create :
    SessionRegistry
    → Option Error
    → SessionCreation
    → Session
    → Outcome (SessionRegistry × Option Error)
unfolding lookup accepting commit_admitted
commit_create r ctx_err c session = do
  g ← load r.group_heap c.group
  let refused =
      r.closed || (not (points_to (lookup c.workspace r.groups) c.group) || not (accepting g.gate))
  if refused then done (r, some workspace_closed) else commit_admitted r ctx_err c session g

abbrev pub is_active : RegistryState → Bool
is_active registry_state_active = true
is_active registry_state_closing = false

-- The entry of an active Session.
unfoldable pub active : SessionRegistry → String → Outcome (Option ℕ)
unfolding lookup
active r id = elim (lookup id r.entries) [
  | none ↦ done none
  | some p ↦ (do e ← load r.entry_heap p; done (if is_active e.state then some p else none))
]

unfoldable pub begin_runtime_at :
    SessionRegistry → ℕ → SessionEntry → Outcome (SessionRegistry × Reply ℕ)
unfolding Session.begin_runtime_create
begin_runtime_at r p e =
    let (s, admitted) = Session.begin_runtime_create e.session in
    if admitted
    then done (record r { entry_heap = set r.entry_heap p (record e { session = s }) }, replied p)
    else panic

unfoldable pub begin_runtime_create : SessionRegistry → String → Outcome (SessionRegistry × Reply ℕ)
unfolding active begin_runtime_at
begin_runtime_create r id = if r.closed then done (r, failed err_closed) else (do
  found ← active r id
  elim found [
    | none ↦ done (r, failed err_session_not_found)
    | some p ↦ (do e ← load r.entry_heap p; begin_runtime_at r p e)
  ])

abbrev pub or_retained : Option ℕ → Option ℕ → Option ℕ
or_retained (some p) retained = some p
or_retained none retained = retained

-- `beginClose` once the entry is found.
unfoldable pub begin_close_at :
    SessionRegistry → ℕ → SessionEntry → Outcome (SessionRegistry × Bool)
unfolding Session.begin_close
begin_close_at r p e = elim e.state [
  | registry_state_closing ↦ done (r, false)
  | registry_state_active ↦
      let (s, begun) = Session.begin_close e.session in
      if begun
      then done (
        record r {
          entry_heap = set r.entry_heap p (record { session = s; state = registry_state_closing });
        },
        true,
      )
      else panic
]

-- The entry, if there is one, and whether the caller owns its close.
unfoldable pub begin_close :
    SessionRegistry → String → Option ℕ → Outcome (SessionRegistry × Option ℕ × Bool)
unfolding lookup begin_close_at
begin_close r id retained = elim (or_retained (lookup id r.entries) retained) [
  | none ↦ done (r, none, false)
  | some p ↦ (do
    e ← load r.entry_heap p
    ended ← begin_close_at r p e
    done (ended.0, some p, ended.1))
]

unfoldable pub finish_close : SessionRegistry → ℕ → Outcome SessionRegistry
unfolding lookup delete WorkspaceGroup.remove_completed
finish_close r p = do
  e ← load r.entry_heap p
  let id = e.session.id
  let kept = if points_to (lookup id r.entries) p then delete id r.entries else r.entries
  let workspace = e.session.source.workspace
  elim (lookup workspace r.groups) [
    | none ↦ done (record r { entries = kept })
    | some q ↦ (do
      g ← load r.group_heap q
      let (h, discard) = WorkspaceGroup.remove_completed g id p
      done (record r {
        entries = kept;
        group_heap = set r.group_heap q h;
        groups = if discard then delete workspace r.groups else r.groups;
      }))
  ]

unfoldable pub begin_group_close :
    SessionRegistry → String → ℕ → Outcome (SessionRegistry × WorkspaceClose)
unfolding WorkspaceGroup.begin_close
begin_group_close r id p = do
  g ← load r.group_heap p
  let (h, owner) = WorkspaceGroup.begin_close g
  done
      (record r { group_heap = set r.group_heap p h }, record { id = id; group = p; owner = owner })

unfoldable pub begin_workspace_close :
    SessionRegistry → String → Outcome (SessionRegistry × WorkspaceClose)
unfolding group_of begin_group_close
begin_workspace_close r id = let (s, p) = group_of r id in begin_group_close s id p

-- The loop over the groups.
unfoldable pub begin_closes :
    SessionRegistry → List (String × ℕ) → Outcome (SessionRegistry × List WorkspaceClose)
unfolding begin_group_close
begin_closes r [] = done (r, [])
begin_closes r ((id, p) ∷ groups) = do
  first ← begin_group_close r id p
  rest ← begin_closes first.0 groups
  done (rest.0, first.1 ∷ rest.1)

unfoldable pub begin_shutdown : SessionRegistry → Outcome (SessionRegistry × List WorkspaceClose)
unfolding begin_closes
begin_shutdown r = begin_closes (record r { closed = true }) r.groups

unfoldable pub finish_workspace_close :
    SessionRegistry → WorkspaceClose → Option Error → Outcome SessionRegistry
unfolding lookup delete WorkspaceGroup.finish_close
finish_workspace_close r closing err = do
  g ← load r.group_heap closing.group
  h ← WorkspaceGroup.finish_close g err
  done (record r {
    group_heap = set r.group_heap closing.group h;
    groups =
        if points_to (lookup closing.id r.groups) closing.group
        then delete closing.id r.groups
        else r.groups;
  })

-- ===== src/Exec/WorkspaceGroup.antt =====
-- internal/exec/workspace_group.go: the Sessions of one workspace and their admission. A Session entry is
-- known by its address; its Session's identifier is an argument.
pub mod Retention
use ferretd.Prelude.{
  ℕ, String, Bool, true, false, ◌&&◌, Option, none, some, List, [], ◌∷◌, Outcome, done, panic,
  ◌>>=◌, if◌then◌else◌, ◌==◌, length, lookup, insert, delete, string_key,
}
use ferretd.Errors.{Error}
use ferretd.Lifecycle.Gate
use ferretd.Lifecycle.Gate.{Gate, zero_gate, end_create, accepting, idle}

pub record WorkspaceGroup : Type 0 where
  pub gate : Gate
  pub sessions : List (String × ℕ)

unfoldable pub new_workspace_group : WorkspaceGroup
unfolding zero_gate
new_workspace_group = record { gate = zero_gate; sessions = [] }

unfoldable pub begin_create : WorkspaceGroup → WorkspaceGroup × Bool
unfolding Gate.begin_create
begin_create g =
    let (gate, admitted) = Gate.begin_create g.gate in (record g { gate = gate }, admitted)

unfoldable pub finish_create : WorkspaceGroup → Outcome (WorkspaceGroup × Bool)
unfolding end_create accepting
finish_create g = do
  ended ← end_create g.gate
  done (record g { gate = ended.0 }, ended.1 && (accepting ended.0 && (length g.sessions == 0)))

unfoldable pub add : WorkspaceGroup → String → ℕ → WorkspaceGroup × Bool
unfolding accepting insert
add g id entry =
    if accepting g.gate
    then (record g { sessions = insert id entry g.sessions }, true)
    else (g, false)

abbrev pub is_entry : ℕ → Option ℕ → Bool
is_entry entry none = false
is_entry entry (some e) = e == entry

unfoldable pub remove_completed : WorkspaceGroup → String → ℕ → WorkspaceGroup × Bool
unfolding accepting idle lookup delete
remove_completed g id entry =
    let removed =
      if accepting g.gate && is_entry entry (lookup id g.sessions)
      then delete id g.sessions
      else g.sessions in
    (record g { sessions = removed }, accepting g.gate && (idle g.gate && (length removed == 0)))

unfoldable pub begin_close : WorkspaceGroup → WorkspaceGroup × Bool
unfolding Gate.begin_close
begin_close g = let (gate, owner) = Gate.begin_close g.gate in (record g { gate = gate }, owner)

abbrev values : List (String × ℕ) → List ℕ
values [] = []
values ((id, entry) ∷ m) = entry ∷ values m

-- In the order in which the map is visited.
unfoldable pub retained_sessions : WorkspaceGroup → List ℕ
retained_sessions g = values g.sessions

unfoldable pub finish_close : WorkspaceGroup → Option Error → Outcome WorkspaceGroup
unfolding Gate.finish_close
finish_close g err = do gate ← Gate.finish_close g.gate err; done (record g { gate = gate })

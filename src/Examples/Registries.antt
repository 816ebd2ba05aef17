-- ===== src/Examples/Registries.antt =====
-- internal/exec/session_registry.go at concrete inputs.
use ferretd.Prelude.{
  Option, String-discrete, ℕ, ◌≡◌, ◌⊎◌, refl, true, false, Bool, none, some, List, [], ◌∷◌, Outcome,
  done, panic, Ensures, get_elem?, insert, lookup,
}
use ferretd.Lifecycle.CloseOperation
use ferretd.Lifecycle.CloseOperation.{started}
use ferretd.Lifecycle.Gate
use ferretd.Lifecycle.Gate.{accepting, ensure_channel, zero_gate}
use ferretd.Lifecycle.Channels.{close_channel, make_channel}
use ferretd.Exec.Runtime.{SourceSnapshot}
use ferretd.Exec.Session
use ferretd.Exec.Session.{new_session}
use ferretd.Exec.WorkspaceGroup
use ferretd.Exec.WorkspaceGroup.{new_workspace_group}
use ferretd.Exec.SessionRegistry.{
  SessionRegistry, SessionEntry, replied, new_session_registry, is_active, begin_runtime_at,
  begin_close_at, begin_close, commit_admitted, insert_entry, group_of, begin_closes,
  begin_group_close, registry_state_active,
}
use ferretd.Exec.SessionRegistry
use ferretd.Exec.SessionRegistry.Calls.{
  Call, begins_create, commits, finishes_create, finishes_session, begins_shutdown, call, calls,
}
use ferretd.Exec.SessionRegistry.Ownership.{closed_once, entries_never_panic}

abbrev source : SourceSnapshot
source = record { workspace = "w"; relative_path = "a.fql"; uri = "file:///w/a.fql"; revision = 1 }

-- A Session is created in a new workspace group.
abbrev creation : List Call
creation =
    begins_create "w"
    ∷ commits none (record { workspace = "w"; group = 0 }) "s" source 1 [] "RETURN 1" "/w"
    ∷ finishes_create (record { workspace = "w"; group = 0 })
    ∷ []

abbrev ended : Outcome SessionRegistry → SessionRegistry
ended (done r) = r
ended panic = new_session_registry

abbrev created : SessionRegistry
created = ended (calls new_session_registry creation)

-- Its close begins; its owner finishes it while a shutdown begins.
abbrev between : List Call
between = finishes_session 0 none ∷ begins_shutdown ∷ []

abbrev answer : Outcome (SessionRegistry × Option ℕ × Bool) → SessionRegistry
answer (done x) = x.0
answer panic = new_session_registry

abbrev closing : SessionRegistry
closing = answer (begin_close created "s" none)

abbrev later : SessionRegistry
later = ended (calls closing between)

abbrev no_entry : SessionEntry
no_entry = record {
  session = new_session "s" source 1 [] "RETURN 1" "/w";
  state = registry_state_active;
}

abbrev entry : SessionEntry
entry = elim (get_elem? created.entry_heap 0) [ none ↦ no_entry | some e ↦ e ]

-- What these calls answer.
run_lem :
    (calls new_session_registry creation ≡ done created)
    × (begin_close created "s" none ≡ done (closing, some 0, true))
    × (calls closing between ≡ done later)
    × (begin_close later "other" (some 0)
        ≡ done (answer (begin_close later "other" (some 0)), some 0, false))
    × (get_elem? created.entry_heap 0 ≡ some entry)
unfolding calls call SessionRegistry.begin_create SessionRegistry.finish_create
    SessionRegistry.commit_create commit_admitted insert_entry group_of WorkspaceGroup.begin_create
    WorkspaceGroup.finish_create WorkspaceGroup.add Gate.begin_create Gate.end_create accepting
    started ensure_channel zero_gate new_workspace_group new_session new_session_registry lookup
    insert String-discrete begin_close begin_close_at Session.begin_close Gate.begin_close
    CloseOperation.begin CloseOperation.zero_value Session.finish_close Gate.finish_close
    CloseOperation.finish SessionRegistry.begin_shutdown begin_closes begin_group_close
    WorkspaceGroup.begin_close close_channel make_channel
run_lem = (refl, refl, refl, refl, refl)

closed_once_example : false ≡ false
closed_once_example =
    closed_once created closing later (answer (begin_close later "other" (some 0))) "s" "other" none
      (some 0) 0 between true false run_lem.1 run_lem.2 run_lem.3

entries_never_panic_example :
    Ensures (λ x. x.1 ≡ is_active entry.state) (begin_close_at created 0 entry)
    × ((is_active entry.state ≡ false)
        ⊎ Ensures (λ x. x.1 ≡ replied 0) (begin_runtime_at created 0 entry))
entries_never_panic_example = entries_never_panic creation created 0 entry run_lem.0 run_lem.4

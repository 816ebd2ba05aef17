-- ===== src/Examples/Sessions.antt =====
-- internal/exec/session.go and workspace_group.go at concrete inputs.
use ferretd.Prelude.{
  ◌≡◌, refl, none, some, List, [], ◌∷◌, ◌++◌, Outcome, done, panic, Ensures, Keeps, replicate,
}
use ferretd.Lifecycle.Gate.{begin_create, end_create, begin_close, wait_for_creates, creates_left}
use ferretd.Exec.Runtime.{SourceSnapshot}
use ferretd.Exec.Session.{new_session}
use ferretd.Exec.Session.Leases.{
  Leases, Move, enters, leaves, commits, captures, drains, acquires_target, releases_target, reads,
  takes, compiled, reading, released, moves,
}
use ferretd.Exec.Session.Leases.Safety.{Unleased, fresh, plans_outlive_runtimes, release_ends}
use ferretd.Exec.WorkspaceGroup.{WorkspaceGroup, new_workspace_group, retained_sessions}
use ferretd.Exec.WorkspaceGroup
use ferretd.Exec.WorkspaceGroup.Retention.{adds, removes, calls, calls-retained}

abbrev source : SourceSnapshot
source = record { workspace = "w"; relative_path = "a.fql"; uri = "file:///w/a.fql"; revision = 1 }

-- A creator compiles the debug plan and leaves with a target; the worker then waits for the target.
abbrev waited : List Move
waited =
    enters
    ∷ acquires_target
    ∷ compiled (some 2) none none
    ∷ leaves
    ∷ commits
    ∷ captures
    ∷ drains
    ∷ reads
    ∷ []

abbrev start : Leases
start = fresh (new_session "s" source 1 [] "RETURN 1" "/w")

abbrev world : Leases → Outcome Leases → Leases
world w (done u) = u
world w panic = w

abbrev waiting : Leases
waiting = world start (moves start waited)

waiting_lem : moves start waited ≡ done waiting
unfolding moves fresh new_session begin_create end_create begin_close wait_for_creates creates_left
waiting_lem = refl

waiting_reads : waiting.release ≡ reading none (some 0)
unfolding moves fresh new_session begin_create end_create begin_close wait_for_creates creates_left
waiting_reads = refl

release_ends_example :
    Ensures
      (λ u. u.release ≡ released)
      (moves waiting (replicate waiting.leases releases_target ++ takes ∷ []))
release_ends_example =
    release_ends "s" source 1 [] "RETURN 1" "/w" waited waiting none (some 0) waiting_lem
      waiting_reads

abbrev ended : List Move
ended = waited ++ releases_target ∷ takes ∷ []

abbrev ended_world : Leases
ended_world = world start (moves start ended)

ended_lem : moves start ended ≡ done ended_world
unfolding moves fresh new_session begin_create end_create begin_close wait_for_creates creates_left
ended_lem = refl

ended_released : ended_world.release ≡ released
unfolding moves fresh new_session begin_create end_create begin_close wait_for_creates creates_left
ended_released = refl

plans_outlive_runtimes_example :
    Ensures
      (λ w. Ensures (Unleased w.release) (moves w (enters ∷ acquires_target ∷ [])))
      (moves start ended)
plans_outlive_runtimes_example =
    plans_outlive_runtimes "s" source 1 [] "RETURN 1" "/w" ended (enters ∷ acquires_target ∷ [])

-- One Session was added before the close.
abbrev one_session : WorkspaceGroup
one_session = record new_workspace_group { sessions = ("s", 3) ∷ [] }

calls-retained_example :
    Keeps
      (λ h. retained_sessions h ≡ retained_sessions (WorkspaceGroup.begin_close one_session).0)
      (calls (WorkspaceGroup.begin_close one_session).0 (adds "t" 4 ∷ removes "s" 3 ∷ []))
calls-retained_example = calls-retained one_session (adds "t" 4 ∷ removes "s" 3 ∷ [])

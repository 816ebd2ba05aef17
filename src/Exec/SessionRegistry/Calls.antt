-- ===== src/Exec/SessionRegistry/Calls.antt =====
-- The calls on the registry of internal/exec/session_registry.go, and their sequences.
use ferretd.Prelude.{ℕ, String, Option, List, [], ◌∷◌, Outcome, done, ◌>>=◌, set, string_key}
use ferretd.Errors.{Error}
use ferretd.Exec.Runtime.{SourceSnapshot}
use ferretd.Exec.Session
use ferretd.Exec.Session.{Session, new_session}
use ferretd.Exec.SessionRegistry.{
  SessionRegistry, SessionEntry, SessionCreation, WorkspaceClose, load, begin_create, finish_create,
  commit_create, begin_runtime_create, begin_close, finish_close, begin_workspace_close,
  begin_shutdown, finish_workspace_close,
}

-- The calls on the registry, and the two by which the holder of an entry changes its Session.
pub data Call : Type 0 where
  begins_create begins_runtime begins_workspace_close : String → Call
  finishes_create : SessionCreation → Call
  commits :
      Option Error
      → SessionCreation
      → String
      → SourceSnapshot
      → ℕ
      → List String
      → String
      → String
      → Call
  begins_close : String → Option ℕ → Call
  finishes_close finishes_runtime : ℕ → Call
  finishes_session : ℕ → Option Error → Call
  begins_shutdown : Call
  finishes_workspace_close : WorkspaceClose → Option Error → Call

abbrev pub with_session : SessionRegistry → ℕ → SessionEntry → Session → SessionRegistry
with_session r p e s = record r { entry_heap = set r.entry_heap p (record e { session = s }) }

unfoldable pub call : SessionRegistry → Call → Outcome SessionRegistry
call r (begins_create id) = do x ← begin_create r id; done x.0
call r (begins_runtime id) = do x ← begin_runtime_create r id; done x.0
call r (begins_workspace_close id) = do x ← begin_workspace_close r id; done x.0
call r (finishes_create c) = finish_create r c
call r (commits err c id source plan parameters text fs_root) = do
  x ← commit_create r err c (new_session id source plan parameters text fs_root)
  done x.0
call r (begins_close id retained) = do x ← begin_close r id retained; done x.0
call r (finishes_close p) = finish_close r p
call r (finishes_runtime p) = do
  e ← load r.entry_heap p
  s ← Session.finish_runtime_create e.session
  done (with_session r p e s)
call r (finishes_session p err) = do
  e ← load r.entry_heap p
  s ← Session.finish_close e.session err
  done (with_session r p e s)
call r begins_shutdown = do x ← begin_shutdown r; done x.0
call r (finishes_workspace_close closing err) = finish_workspace_close r closing err

unfoldable pub calls : SessionRegistry → List Call → Outcome SessionRegistry
calls r [] = done r
calls r (c ∷ cs) = do s ← call r c; calls s cs

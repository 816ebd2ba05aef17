-- ===== src/Exec/SessionRegistry/Creation.antt =====
-- What the creation of Sessions and of runtimes does to the heap of entries.
use ferretd.Prelude.{
  ℕ, ◌≡◌, refl, ◌∙◌, String, true, not, ◌||◌, Option, none, some, List, done, length, get_elem?,
  lookup, string_key, Keeps, Keeps-if, Keeps-option, Keeps-after, arith,
}
use ferretd.Errors.{Error, workspace_closed}
use ferretd.Lifecycle.CloseOperation
use ferretd.Lifecycle.CloseOperation.{started}
use ferretd.Lifecycle.Gate
use ferretd.Lifecycle.Gate.{Gate, accepting}
use ferretd.Exec.Runtime.{SourceSnapshot}
use ferretd.Exec.Session
use ferretd.Exec.Session.{Session, new_session}
use ferretd.Exec.WorkspaceGroup
use ferretd.Exec.WorkspaceGroup.{WorkspaceGroup}
use ferretd.Exec.SessionRegistry.{
  SessionRegistry, SessionEntry, SessionCreation, registry_state_active, Reply, load, points_to,
  group_of, begin_create, finish_create, insert_entry, commit_create, commit_admitted, active,
  begin_runtime_at, begin_runtime_create,
}
use ferretd.Exec.SessionRegistry.Growth.{
  Keeps-load, Grows-refl, Grows-append, Grows-set, GrowsFrom, from_same,
}

pub group_of-entry_heap :
    (r : SessionRegistry) (id : String) → (group_of r id).0.entry_heap ≡ r.entry_heap
unfolding group_of
group_of-entry_heap r id = ground arith

pub begin_create-Grows :
    (r : SessionRegistry) (id : String)
    → Keeps (λ x. GrowsFrom r.entry_heap x.0) (begin_create r id)
unfolding begin_create
begin_create-Grows r id =
    let Q : SessionRegistry × Reply SessionCreation → Type 0 = λ x. GrowsFrom r.entry_heap x.0 in
    Keeps-if Q r.closed _ _ (λ c. Grows-refl r.entry_heap)
      (λ c.
        Keeps-after Q (load (group_of r id).0.group_heap (group_of r id).1) _
          (λ g. from_same r.entry_heap (group_of r id).0 (group_of-entry_heap r id)))

pub finish_create-Grows :
    (r : SessionRegistry) (c : SessionCreation) → Keeps (GrowsFrom r.entry_heap) (finish_create r c)
unfolding finish_create
finish_create-Grows r c = Keeps-after (GrowsFrom r.entry_heap) (load r.group_heap c.group) _ (λ g.
    Keeps-after (GrowsFrom r.entry_heap) (WorkspaceGroup.finish_create g) _
      (λ x. Grows-refl r.entry_heap))

pub commit_admitted-Grows :
    (r : SessionRegistry) (err : Option Error) (c : SessionCreation) (s : Session)
    (g : WorkspaceGroup)
    → accepting s.children ≡ true
    → Keeps (λ x. GrowsFrom r.entry_heap x.0) (commit_admitted r err c s g)
unfolding commit_admitted insert_entry
commit_admitted-Grows r (some e) c s g fresh = Grows-refl r.entry_heap
commit_admitted-Grows r none c s g fresh =
    let Q : SessionRegistry × Option Error → Type 0 = λ x. GrowsFrom r.entry_heap x.0 in
    Keeps-if Q (WorkspaceGroup.add g s.id (length r.entry_heap)).1 _ _
      (λ a. Grows-append r.entry_heap (record { session = s; state = registry_state_active }) fresh)
      (λ a. Grows-refl r.entry_heap)

pub commit_create-Grows :
    (r : SessionRegistry) (err : Option Error) (c : SessionCreation) (s : Session)
    → accepting s.children ≡ true
    → Keeps (λ x. GrowsFrom r.entry_heap x.0) (commit_create r err c s)
unfolding commit_create
commit_create-Grows r err c s fresh =
    let Q : SessionRegistry × Option Error → Type 0 = λ x. GrowsFrom r.entry_heap x.0 in
    Keeps-after Q (load r.group_heap c.group) _ (λ g.
      Keeps-if Q
        (r.closed
          || (not (points_to (lookup c.workspace r.groups) c.group) || not (accepting g.gate)))
        (done (r, some workspace_closed)) (commit_admitted r err c s g)
        (λ x. Grows-refl r.entry_heap) (λ x. commit_admitted-Grows r err c s g fresh))

pub begin_runtime_create-accepting :
    (s : Session) → accepting (Session.begin_runtime_create s).0.children ≡ accepting s.children
unfolding Session.begin_runtime_create Gate.begin_create Gate.ensure_channel accepting started
begin_runtime_create-accepting s = ground arith

pub begin_runtime_at-Grows :
    (r : SessionRegistry) (p : ℕ) (e : SessionEntry)
    → get_elem? r.entry_heap p ≡ some e
    → Keeps (λ x. GrowsFrom r.entry_heap x.0) (begin_runtime_at r p e)
unfolding begin_runtime_at
begin_runtime_at-Grows r p e i =
    let Q : SessionRegistry × Reply ℕ → Type 0 = λ x. GrowsFrom r.entry_heap x.0 in
    Keeps-if Q (Session.begin_runtime_create e.session).1 _ _
      (λ a.
        Grows-set r.entry_heap p e
          (record e { session = (Session.begin_runtime_create e.session).0 }) i
          (λ g. begin_runtime_create-accepting e.session ∙ g) (λ c. c))
      (λ a. tt)

pub begin_runtime_create-Grows :
    (r : SessionRegistry) (id : String)
    → Keeps (λ x. GrowsFrom r.entry_heap x.0) (begin_runtime_create r id)
unfolding begin_runtime_create
begin_runtime_create-Grows r id =
    let Q : SessionRegistry × Reply ℕ → Type 0 = λ x. GrowsFrom r.entry_heap x.0 in
    Keeps-if Q r.closed _ _ (λ c. Grows-refl r.entry_heap)
      (λ c. Keeps-after Q (active r id) _ (λ found.
        Keeps-option Q found _ _ (Grows-refl r.entry_heap)
          (λ p f. Keeps-load Q r.entry_heap p _ (λ e i. begin_runtime_at-Grows r p e i))))

pub new_session-accepting :
    (id : String) (source : SourceSnapshot) (plan : ℕ) (parameters : List String) (text : String)
    (fs_root : String)
    → accepting (new_session id source plan parameters text fs_root).children ≡ true
unfolding new_session Gate.zero_gate CloseOperation.zero_value accepting started
new_session-accepting id source plan parameters text fs_root = refl

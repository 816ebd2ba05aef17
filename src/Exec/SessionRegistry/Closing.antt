-- ===== src/Exec/SessionRegistry/Closing.antt =====
-- What the close of Sessions and of workspaces does to the heap of entries.
use ferretd.Prelude.{
  ℕ, ◌≡◌, refl, subst, String, Bool, true, false, Option, some, List, [], ◌∷◌, done, panic,
  get_elem?, set, lookup, string_key, Keeps, Keeps-bind, Keeps-if, Keeps-option, Keeps-after, arith,
}
use ferretd.Errors.{Error}
use ferretd.Lifecycle.CloseOperation
use ferretd.Lifecycle.CloseOperation.{started}
use ferretd.Lifecycle.Gate
use ferretd.Lifecycle.Gate.{Gate, accepting}
use ferretd.Exec.Session
use ferretd.Exec.Session.{Session, new_session}
use ferretd.Exec.WorkspaceGroup
use ferretd.Exec.WorkspaceGroup.{WorkspaceGroup}
use ferretd.Exec.SessionRegistry.{
  or_retained, SessionRegistry, SessionEntry, WorkspaceClose, RegistryState, registry_state_active,
  registry_state_closing, load, group_of, begin_close_at, begin_close, finish_close,
  begin_group_close, begin_workspace_close, begin_closes, begin_shutdown, finish_workspace_close,
}
use ferretd.Exec.SessionRegistry.Growth.{Keeps-load, Grows-refl, Grows-trans, Grows-set, GrowsFrom}
use ferretd.Exec.SessionRegistry.Creation.{group_of-entry_heap}

pub begin_close-accepting : (s : Session) → accepting (Session.begin_close s).0.children ≡ false
unfolding Session.begin_close Gate.begin_close CloseOperation.begin accepting started
begin_close-accepting s = ground arith

pub begin_close_at-Grows :
    (r : SessionRegistry) (p : ℕ) (e : SessionEntry) (s : RegistryState)
    → get_elem? r.entry_heap p ≡ some e
    → e.state ≡ s
    → Keeps (λ x. GrowsFrom r.entry_heap x.0) (begin_close_at r p e)
unfolding begin_close_at
begin_close_at-Grows r p e registry_state_closing i c =
    rw (c, begin_close_at) (Grows-refl r.entry_heap)
begin_close_at-Grows r p e registry_state_active i c =
    let Q : SessionRegistry × Bool → Type 0 = λ x. GrowsFrom r.entry_heap x.0 in
    let (t, begun) = Session.begin_close e.session in
    let f : SessionEntry = record { session = t; state = registry_state_closing } in
    rw (c) (
      Keeps-if Q begun (done (record r { entry_heap = set r.entry_heap p f }, true)) panic
        (λ a. Grows-set r.entry_heap p e f i (λ g. begin_close-accepting e.session) (λ n. refl))
        (λ a. tt))

pub begin_close-Grows :
    (r : SessionRegistry) (id : String) (retained : Option ℕ)
    → Keeps (λ x. GrowsFrom r.entry_heap x.0) (begin_close r id retained)
unfolding begin_close
begin_close-Grows r id retained =
    let Q : SessionRegistry × Option ℕ × Bool → Type 0 = λ x. GrowsFrom r.entry_heap x.0 in
    Keeps-option Q (or_retained (lookup id r.entries) retained) _ _ (Grows-refl r.entry_heap)
      (λ p f. Keeps-load Q r.entry_heap p _ (λ e i.
        Keeps-bind (λ (x : SessionRegistry × Bool). GrowsFrom r.entry_heap x.0) Q
          (begin_close_at r p e) _ (begin_close_at-Grows r p e e.state i refl) (λ x k. k)))

pub finish_close-Grows :
    (r : SessionRegistry) (p : ℕ) → Keeps (GrowsFrom r.entry_heap) (finish_close r p)
unfolding finish_close
finish_close-Grows r p =
    let Q = GrowsFrom r.entry_heap in
    Keeps-after Q (load r.entry_heap p) _ (λ e.
      Keeps-option Q (lookup e.session.source.workspace r.groups) _ _ (Grows-refl r.entry_heap)
        (λ q f. Keeps-after Q (load r.group_heap q) _ (λ g. Grows-refl r.entry_heap)))

pub begin_group_close-Grows :
    (r : SessionRegistry) (id : String) (p : ℕ)
    → Keeps (λ x. GrowsFrom r.entry_heap x.0) (begin_group_close r id p)
unfolding begin_group_close
begin_group_close-Grows r id p =
    Keeps-after (λ (x : SessionRegistry × WorkspaceClose). GrowsFrom r.entry_heap x.0)
      (load r.group_heap p) _ (λ g. Grows-refl r.entry_heap)

pub begin_workspace_close-Grows :
    (r : SessionRegistry) (id : String)
    → Keeps (λ x. GrowsFrom r.entry_heap x.0) (begin_workspace_close r id)
unfolding begin_workspace_close
begin_workspace_close-Grows r id =
    subst (λ h. Keeps (λ x. GrowsFrom h x.0) (begin_workspace_close r id))
      (group_of-entry_heap r id) (begin_group_close-Grows (group_of r id).0 id (group_of r id).1)

pub begin_closes-Grows :
    (h : List SessionEntry) (r : SessionRegistry) (groups : List (String × ℕ))
    → GrowsFrom h r
    → Keeps (λ x. GrowsFrom h x.0) (begin_closes r groups)
unfolding begin_closes
begin_closes-Grows h r [] g = g
begin_closes-Grows h r ((id, p) ∷ groups) g =
    let Q : SessionRegistry × List WorkspaceClose → Type 0 = λ x. GrowsFrom h x.0 in
    Keeps-bind (λ (x : SessionRegistry × WorkspaceClose). GrowsFrom r.entry_heap x.0) Q
      (begin_group_close r id p) _ (begin_group_close-Grows r id p)
      (λ x k.
        Keeps-bind Q Q (begin_closes x.0 groups) _
          (begin_closes-Grows h x.0 groups (Grows-trans h r.entry_heap x.0.entry_heap g k))
          (λ y j. j))

pub begin_shutdown-Grows :
    (r : SessionRegistry) → Keeps (λ x. GrowsFrom r.entry_heap x.0) (begin_shutdown r)
unfolding begin_shutdown
begin_shutdown-Grows r =
    begin_closes-Grows r.entry_heap (record r { closed = true }) r.groups (Grows-refl r.entry_heap)

pub finish_workspace_close-Grows :
    (r : SessionRegistry) (closing : WorkspaceClose) (err : Option Error)
    → Keeps (GrowsFrom r.entry_heap) (finish_workspace_close r closing err)
unfolding finish_workspace_close
finish_workspace_close-Grows r closing err =
    Keeps-after (GrowsFrom r.entry_heap) (load r.group_heap closing.group) _ (λ g.
      Keeps-after (GrowsFrom r.entry_heap) (WorkspaceGroup.finish_close g err) _
        (λ x. Grows-refl r.entry_heap))

-- ===== src/Exec/SessionRegistry/Gates.antt =====
-- The calls that the holder of an entry makes on its Session.
use ferretd.Prelude.{
  ℕ, ◌≡◌, refl, ap, ◌∙◌, Bool, true, false, Option, none, some, Outcome, done, panic, ◌>>=◌,
  if◌then◌else◌, ◌==◌, string_key, Keeps, Keeps-bind, Keeps-if,
}
use ferretd.Errors.{Error}
use ferretd.Lifecycle.CloseOperation
use ferretd.Lifecycle.CloseOperation.{started}
use ferretd.Lifecycle.Gate
use ferretd.Lifecycle.Gate.{Gate, accepting}
use ferretd.Exec.Session
use ferretd.Exec.Session.{Session, new_session}
use ferretd.Exec.WorkspaceGroup.Retention.{end_create_close}
use ferretd.Exec.SessionRegistry.{SessionRegistry, load}
use ferretd.Exec.SessionRegistry.Growth.{Keeps-load, Grows-set, GrowsFrom}
use ferretd.Exec.SessionRegistry.Calls.{with_session}

-- A call on the Session of an entry that leaves the gate as open as it was.
pub with_session-Grows :
    (r : SessionRegistry) (p : ℕ) (f : Session → Outcome Session)
    → ((s : Session) → Keeps (λ t. accepting t.children ≡ accepting s.children) (f s))
    → Keeps
        (GrowsFrom r.entry_heap)
        (do e ← load r.entry_heap p; s ← f e.session; done (with_session r p e s))
with_session-Grows r p f k =
    let Q = GrowsFrom r.entry_heap in
    Keeps-load Q r.entry_heap p _ (λ e i.
      Keeps-bind (λ t. accepting t.children ≡ accepting e.session.children) Q (f e.session) _
        (k e.session)
        (λ t a. Grows-set r.entry_heap p e (record e { session = t }) i (λ g. a ∙ g) (λ c. c)))

pub finish_runtime_create-accepting :
    (s : Session)
    → Keeps (λ t. accepting t.children ≡ accepting s.children) (Session.finish_runtime_create s)
unfolding Session.finish_runtime_create accepting
finish_runtime_create-accepting s =
    let Q : Session → Type 0 = λ t. accepting t.children ≡ accepting s.children in
    Keeps-bind (λ x. x.0.close ≡ s.children.close) Q (Gate.end_create s.children) _
      (end_create_close s.children) (λ x e. ap (λ c. if started c then false else true) e)

pub finish-started :
    (c : CloseOperation.CloseOperation) (err : Option Error)
    → Keeps (λ d. started d ≡ started c) (CloseOperation.finish c err)
unfolding CloseOperation.finish started
finish-started c err = at c.state c.done_channel refl refl
  where
    at :
        (s : CloseOperation.CloseState) (o : Option Bool)
        → c.state ≡ s
        → c.done_channel ≡ o
        → Keeps (λ d. started d ≡ started c) (CloseOperation.finish c err)
    at CloseOperation.close_idle o e f = rw (e) tt
    at CloseOperation.close_started (some false) e f = rw (e, f) refl
    at CloseOperation.close_started (some true) e f = rw (e, f) tt
    at CloseOperation.close_started none e f = rw (e, f) tt
    at CloseOperation.close_finished o e f = rw (e) tt

pub finish_close-accepting :
    (s : Session) (err : Option Error)
    → Keeps (λ t. accepting t.children ≡ accepting s.children) (Session.finish_close s err)
unfolding Session.finish_close Gate.finish_close accepting
finish_close-accepting s err =
    let Q : Session → Type 0 = λ t. accepting t.children ≡ accepting s.children in
    Keeps-bind (λ g. accepting g ≡ accepting s.children) Q (Gate.finish_close s.children err) _
      (Keeps-if (λ g. accepting g ≡ accepting s.children) (s.children.creating == 0) _ panic
        (λ z.
          Keeps-bind (λ d. started d ≡ started s.children.close)
            (λ g. accepting g ≡ accepting s.children) (CloseOperation.finish s.children.close err) _
            (finish-started s.children.close err) (λ d e. ap (λ t. if t then false else true) e))
        (λ z. tt))
      (λ g e. e)

-- ===== src/Exec/SessionRegistry/Ownership.antt =====
-- The close of a Session has one owner, and the registry's own panics are never raised.
use ferretd.Prelude.{
  ℕ, ◌≡◌, refl, ap, ◌∙◌, String, Bool, true, false, Option, none, some, List, [], ◌∷◌, Outcome,
  done, panic, ◌>>=◌, get_elem?, set, lookup, string_key, All-get_elem?, get-set_self, Keeps,
  Keeps-bind, Keeps-mono, Keeps-all, Keeps-if, Keeps-option, Keeps-done, Ensures, arith, ℕ_discrete,
  inl, inr, ◌⊎◌,
}
use ferretd.Lifecycle.CloseOperation
use ferretd.Lifecycle.CloseOperation.{started}
use ferretd.Lifecycle.Gate
use ferretd.Lifecycle.Gate.{Gate, accepting}
use ferretd.Exec.Session
use ferretd.Exec.Session.{Session, new_session}
use ferretd.Exec.SessionRegistry.{
  or_retained, SessionRegistry, SessionEntry, RegistryState, registry_state_active,
  registry_state_closing, replied, new_session_registry, begin_create, commit_create, is_active,
  begin_runtime_at, begin_runtime_create, begin_close_at, begin_close, begin_workspace_close,
  begin_shutdown,
}
use ferretd.Exec.SessionRegistry.Growth.{
  Keeps-load, Agrees, Grows, Grows-refl, Grows-trans, GrowsFrom,
}
use ferretd.Exec.SessionRegistry.Calls.{
  Call, begins_create, begins_runtime, begins_workspace_close, finishes_create, commits,
  begins_close, finishes_close, finishes_runtime, finishes_session, begins_shutdown,
  finishes_workspace_close, call, calls,
}
use ferretd.Exec.SessionRegistry.Creation.{
  begin_create-Grows, finish_create-Grows, commit_create-Grows, begin_runtime_create-Grows,
  new_session-accepting,
}
use ferretd.Exec.SessionRegistry.Closing.{
  begin_close-Grows, finish_close-Grows, begin_workspace_close-Grows, begin_shutdown-Grows,
  finish_workspace_close-Grows,
}
use ferretd.Exec.SessionRegistry.Gates.{
  with_session-Grows, finish_runtime_create-accepting, finish_close-accepting,
}

-- The registry that an operation leaves, without its answer.
fst_Grows :
    {A : Type 0} (r : SessionRegistry) (m : Outcome (SessionRegistry × A))
    → Keeps (λ x. GrowsFrom r.entry_heap x.0) m
    → Keeps (GrowsFrom r.entry_heap) (do x ← m; done x.0)
fst_Grows r (done x) k = k
fst_Grows r panic k = tt

call-Grows : (r : SessionRegistry) (c : Call) → Keeps (GrowsFrom r.entry_heap) (call r c)
unfolding call
call-Grows r (begins_create id) = fst_Grows r (begin_create r id) (begin_create-Grows r id)
call-Grows r (begins_runtime id) =
    fst_Grows r (begin_runtime_create r id) (begin_runtime_create-Grows r id)
call-Grows r (begins_workspace_close id) =
    fst_Grows r (begin_workspace_close r id) (begin_workspace_close-Grows r id)
call-Grows r (finishes_create c) = finish_create-Grows r c
call-Grows r (commits err c id source plan parameters text fs_root) =
    let s = new_session id source plan parameters text fs_root in
    fst_Grows r (commit_create r err c s)
      (commit_create-Grows r err c s (new_session-accepting id source plan parameters text fs_root))
call-Grows r (begins_close id retained) =
    Keeps-bind (λ x. GrowsFrom r.entry_heap x.0) (GrowsFrom r.entry_heap)
      (begin_close r id retained) _ (begin_close-Grows r id retained) (λ x k. k)
call-Grows r (finishes_close p) = finish_close-Grows r p
call-Grows r (finishes_runtime p) =
    with_session-Grows r p Session.finish_runtime_create finish_runtime_create-accepting
call-Grows r (finishes_session p err) =
    with_session-Grows r p (λ s. Session.finish_close s err) (λ s. finish_close-accepting s err)
call-Grows r begins_shutdown = fst_Grows r (begin_shutdown r) (begin_shutdown-Grows r)
call-Grows r (finishes_workspace_close closing err) = finish_workspace_close-Grows r closing err

pub calls-Grows :
    (h : List SessionEntry) (r : SessionRegistry) (cs : List Call)
    → GrowsFrom h r
    → Keeps (GrowsFrom h) (calls r cs)
unfolding calls
calls-Grows h r [] g = g
calls-Grows h r (c ∷ cs) g =
    Keeps-bind (GrowsFrom r.entry_heap) (GrowsFrom h) (call r c) _ (call-Grows r c)
      (λ s k. calls-Grows h s cs (Grows-trans h r.entry_heap s.entry_heap g k))

-- The entry is there, and it is closing.
abbrev ClosingEntry : List SessionEntry → ℕ → Type 0
ClosingEntry h p = (e : SessionEntry) × (get_elem? h p ≡ some e) × (is_active e.state ≡ false)

begin_close_at-Closing :
    (r : SessionRegistry) (p : ℕ) (e : SessionEntry) (s : RegistryState)
    → get_elem? r.entry_heap p ≡ some e
    → e.state ≡ s
    → Keeps (λ x. ClosingEntry x.0.entry_heap p) (begin_close_at r p e)
unfolding begin_close_at
begin_close_at-Closing r p e registry_state_closing i c = rw (c, begin_close_at) (e, i, rw (c) refl)
begin_close_at-Closing r p e registry_state_active i c =
    let Q : SessionRegistry × Bool → Type 0 = λ x. ClosingEntry x.0.entry_heap p in
    let (t, begun) = Session.begin_close e.session in
    let f : SessionEntry = record { session = t; state = registry_state_closing } in
    rw (c) (
      Keeps-if Q begun (done (record r { entry_heap = set r.entry_heap p f }, true)) panic
        (λ a. (f, get-set_self r.entry_heap p f e i, refl)) (λ a. tt))

-- The answer is no entry, or the entry is closing.
abbrev Answered : SessionRegistry → Option ℕ → Type 0
Answered r none = Unit
Answered r (some p) = ClosingEntry r.entry_heap p

begin_close-Answered :
    (r : SessionRegistry) (id : String) (retained : Option ℕ)
    → Keeps (λ x. Answered x.0 x.1) (begin_close r id retained)
unfolding begin_close
begin_close-Answered r id retained =
    let Q : SessionRegistry × Option ℕ × Bool → Type 0 = λ x. Answered x.0 x.1 in
    Keeps-option Q (or_retained (lookup id r.entries) retained) _ _ tt (λ p f.
      Keeps-load Q r.entry_heap p _ (λ e i.
        Keeps-bind (λ (x : SessionRegistry × Bool). ClosingEntry x.0.entry_heap p) Q
          (begin_close_at r p e) _ (begin_close_at-Closing r p e e.state i refl) (λ x k. k)))

begin_close_at-unowned :
    (r : SessionRegistry) (p : ℕ) (e : SessionEntry) (s : RegistryState)
    → e.state ≡ s
    → is_active s ≡ false
    → Keeps (λ x. x.1 ≡ false) (begin_close_at r p e)
unfolding begin_close_at
begin_close_at-unowned r p e registry_state_closing c n = rw (c, begin_close_at) refl
begin_close_at-unowned r p e registry_state_active c n = cc

some-injective : {p q : ℕ} → some q ≡ some p → q ≡ p
some-injective e = cc

-- The entry `p`, if it is the answer, is not the caller's to close.
abbrev Unowned : ℕ → Option ℕ → Bool → Type 0
Unowned p q owner = q ≡ some p → owner ≡ false

begin_close-Unowned :
    (r : SessionRegistry) (p : ℕ) (id : String) (retained : Option ℕ)
    → ClosingEntry r.entry_heap p
    → Keeps (λ x. Unowned p x.1 x.2) (begin_close r id retained)
unfolding begin_close
begin_close-Unowned r p id retained (d, j, n) =
    let Q : SessionRegistry × Option ℕ × Bool → Type 0 = λ x. Unowned p x.1 x.2 in
    Keeps-option Q (or_retained (lookup id r.entries) retained) _ _ (λ x. cc)
      (λ q f. Keeps-load Q r.entry_heap q _ (λ e i. entry q e i (ℕ_discrete q p)))
  where
    entry :
        (q : ℕ) (e : SessionEntry)
        → get_elem? r.entry_heap q ≡ some e
        → Dec (q ≡ p)
        → Keeps {A = SessionRegistry × Option ℕ × Bool}
            (λ x. Unowned p x.1 x.2)
            (do ended ← begin_close_at r q e; done (ended.0, some q, ended.1))
    entry q e i (yes same) =
        Keeps-bind (λ (x : SessionRegistry × Bool). x.1 ≡ false) (λ x. Unowned p x.1 x.2)
          (begin_close_at r q e) _ (begin_close_at-unowned r q e e.state refl cc) (λ x k g. k)
    entry q e i (no other) =
        Keeps-bind (λ (x : SessionRegistry × Bool). Unit) (λ x. Unowned p x.1 x.2)
          (begin_close_at r q e) _ (Keeps-all (λ x. Unit) (begin_close_at r q e) (λ x. tt))
          (λ x k g. absurd (other (some-injective g)))

calls-Closing :
    (r : SessionRegistry) (p : ℕ) (cs : List Call)
    → ClosingEntry r.entry_heap p
    → Keeps (λ t. ClosingEntry t.entry_heap p) (calls r cs)
calls-Closing r p cs (e, i, n) =
    Keeps-mono (GrowsFrom r.entry_heap) (λ t. ClosingEntry t.entry_heap p) (calls r cs)
      (λ t g. let (f, j, k) = g.1 p e i in (f, j, k n))
      (calls-Grows r.entry_heap r cs (Grows-refl r.entry_heap))

-- Once a call of beginClose has answered an entry, whatever is called on the registry, no later call of
-- beginClose that answers the entry makes its caller the owner of the close.
pub closed_once :
    (r s t u : SessionRegistry) (id other : String) (retained kept : Option ℕ) (p : ℕ)
    (cs : List Call) (owner again : Bool)
    → begin_close r id retained ≡ done (s, some p, owner)
    → calls s cs ≡ done t
    → begin_close t other kept ≡ done (u, some p, again)
    → again ≡ false
closed_once r s t u id other retained kept p cs owner again first between second =
    let now : ClosingEntry s.entry_heap p =
      Keeps-done (λ x. Answered x.0 x.1) (begin_close r id retained) (s, some p, owner)
        (begin_close-Answered r id retained) first in
    let later : ClosingEntry t.entry_heap p =
      Keeps-done (λ t. ClosingEntry t.entry_heap p) (calls s cs) t (calls-Closing s p cs now)
        between in
    Keeps-done (λ x. Unowned p x.1 x.2) (begin_close t other kept) (u, some p, again)
      (begin_close-Unowned t p other kept later) second refl

begin_close-owner : (s : Session) → accepting s.children ≡ true → (Session.begin_close s).1 ≡ true
unfolding Session.begin_close Gate.begin_close CloseOperation.begin accepting started
begin_close-owner s accepted = ground arith

begin_runtime_create-admits :
    (s : Session) → accepting s.children ≡ true → (Session.begin_runtime_create s).1 ≡ true
unfolding Session.begin_runtime_create Gate.begin_create Gate.ensure_channel accepting started
begin_runtime_create-admits s accepted = ground arith

begin_close_at-Ensures :
    (r : SessionRegistry) (p : ℕ) (e : SessionEntry) (s : RegistryState)
    → e.state ≡ s
    → Agrees e
    → Ensures (λ x. x.1 ≡ is_active s) (begin_close_at r p e)
unfolding begin_close_at
begin_close_at-Ensures r p e registry_state_closing c a = rw (c, begin_close_at) refl
begin_close_at-Ensures r p e registry_state_active c a =
    rw (c, begin_close_at, begin_close-owner e.session (a ∙ ap is_active c)) refl

begin_runtime_at-Ensures :
    (r : SessionRegistry) (p : ℕ) (e : SessionEntry)
    → Agrees e
    → is_active e.state ≡ true
    → Ensures (λ x. x.1 ≡ replied p) (begin_runtime_at r p e)
unfolding begin_runtime_at
begin_runtime_at-Ensures r p e a c = rw (begin_runtime_create-admits e.session (a ∙ c)) refl

reached-Agrees :
    (cs : List Call) (t : SessionRegistry) (p : ℕ) (e : SessionEntry)
    → calls new_session_registry cs ≡ done t
    → get_elem? t.entry_heap p ≡ some e
    → Agrees e
unfolding new_session_registry
reached-Agrees cs t p e reached found =
    let grown : Grows [] t.entry_heap =
      Keeps-done (GrowsFrom []) (calls new_session_registry cs) t
        (calls-Grows [] new_session_registry cs (Grows-refl [])) reached in
    All-get_elem? Agrees t.entry_heap p e (grown.0 tt) found

-- In every registry that calls can leave, beginClose of an entry raises no panic and makes the caller the owner
-- exactly when the entry is active, and an active entry admits a runtime without a panic.
pub entries_never_panic :
    (cs : List Call) (t : SessionRegistry) (p : ℕ) (e : SessionEntry)
    → calls new_session_registry cs ≡ done t
    → get_elem? t.entry_heap p ≡ some e
    → Ensures (λ x. x.1 ≡ is_active e.state) (begin_close_at t p e)
      × ((is_active e.state ≡ false) ⊎ Ensures (λ x. x.1 ≡ replied p) (begin_runtime_at t p e))
entries_never_panic cs t p e reached found =
    let a : Agrees e = reached-Agrees cs t p e reached found in
    (begin_close_at-Ensures t p e e.state refl a, admits (is_active e.state) refl)
  where
    admits :
        (b : Bool)
        → is_active e.state ≡ b
        → (is_active e.state ≡ false) ⊎ Ensures (λ x. x.1 ≡ replied p) (begin_runtime_at t p e)
    admits false c = inl c
    admits true c = inr (begin_runtime_at-Ensures t p e (reached-Agrees cs t p e reached found) c)

-- ===== src/Exec/ExecutionRegistry/Ownership.antt =====
-- Closing a Session closes every Execution that it retains.
use ferretd.Prelude.{
  ℕ, ◌≡◌, refl, sym, ◌∙◌, subst, String, Bool, true, false, some, List, [], ◌∷◌, done, panic,
  if◌then◌else◌, length, get_elem?, set, lookup, delete, string_key, All, get-set_self, get-set_ne,
  ℕ_discrete, Keeps, Keeps-bind, Keeps-if, arith,
}
use ferretd.Exec.Execution
use ferretd.Exec.SessionRegistry.{
  RegistryState, registry_state_active, registry_state_closing, load, is_active,
}
use ferretd.Exec.SessionRegistry.Growth.{Keeps-load}
use ferretd.Exec.ExecutionRegistry.{
  ExecutionRegistry, ExecutionEntry, ExecutionGroup, ExecutionClose, begin_close_entry,
  begin_closes, begin_session_close, is_empty,
}

-- The entry is there, and it is closing.
abbrev pub ClosingAt : List ExecutionEntry → ℕ → Type 0
ClosingAt h p = (e : ExecutionEntry) × (get_elem? h p ≡ some e) × (is_active e.state ≡ false)

-- Closing entries stay closing.
abbrev Stays : List ExecutionEntry → List ExecutionEntry → Type 0
Stays h k = (q : ℕ) → ClosingAt h q → ClosingAt k q

set-Stays :
    (h : List ExecutionEntry) (p : ℕ) (e f : ExecutionEntry)
    → get_elem? h p ≡ some e
    → is_active f.state ≡ false
    → Stays h (set h p f)
set-Stays h p e f g c q (d, i, n) = elim (ℕ_discrete p q) [
  | yes same ↦ subst (ClosingAt (set h p f)) same (f, get-set_self h p f e g, c)
  | no other ↦ (d, get-set_ne h p q f other ∙ i, n)
]

begin_close_entry-Stays :
    (r : ExecutionRegistry) (p : ℕ) (e : ExecutionEntry) (s : RegistryState)
    → get_elem? r.entry_heap p ≡ some e
    → e.state ≡ s
    → Keeps
        (λ x. Stays r.entry_heap x.0.entry_heap × ClosingAt x.0.entry_heap p)
        (begin_close_entry r p e)
unfolding begin_close_entry
begin_close_entry-Stays r p e registry_state_closing g c =
    rw (c, begin_close_entry) ((λ q k. k), (e, g, rw (c) refl))
begin_close_entry-Stays r p e registry_state_active g c =
    let Q : ExecutionRegistry × ExecutionClose → Type 0 =
      λ x. Stays r.entry_heap x.0.entry_heap × ClosingAt x.0.entry_heap p in
    let (execution, begun) = Execution.begin_close e.execution in
    let f : ExecutionEntry = record { execution = execution; state = registry_state_closing } in
    rw (c) (
      Keeps-if Q begun
        (done
          (record r { entry_heap = set r.entry_heap p f }, record { entry = some p; owner = true }))
        panic
        (λ b. (set-Stays r.entry_heap p e f g refl, (f, get-set_self r.entry_heap p f e g, refl)))
        (λ b. tt))

All-stay :
    (h k : List ExecutionEntry) (m : List (String × ℕ))
    → Stays h k
    → All (λ p. ClosingAt h p.1) m
    → All (λ p. ClosingAt k p.1) m
All-stay h k [] s a = tt
All-stay h k ((id, p) ∷ m) s a = (s p a.0, All-stay h k m s a.1)

begin_closes-ClosingAt :
    (r : ExecutionRegistry) (m : List (String × ℕ))
    → Keeps
        (λ x.
          Stays r.entry_heap x.0.entry_heap
          × All (λ p. ClosingAt x.0.entry_heap p.1) m
          × (length x.1 ≡ length m))
        (begin_closes r m)
unfolding begin_closes
begin_closes-ClosingAt r [] = ((λ q k. k), tt, refl)
begin_closes-ClosingAt r ((id, p) ∷ m) =
    let Q : ExecutionRegistry × List ExecutionClose → Type 0 = λ x.
      Stays r.entry_heap x.0.entry_heap
      × All (λ q. ClosingAt x.0.entry_heap q.1) ((id, p) ∷ m)
      × (length x.1 ≡ length ((id, p) ∷ m)) in
    Keeps-load Q r.entry_heap p _ (λ e g.
      Keeps-bind
        (λ (x : ExecutionRegistry × ExecutionClose).
          Stays r.entry_heap x.0.entry_heap × ClosingAt x.0.entry_heap p)
        Q (begin_close_entry r p e) _ (begin_close_entry-Stays r p e e.state g refl)
        (λ x k.
          Keeps-bind
            (λ (y : ExecutionRegistry × List ExecutionClose).
              Stays x.0.entry_heap y.0.entry_heap
              × All (λ q. ClosingAt y.0.entry_heap q.1) m
              × (length y.1 ≡ length m))
            Q (begin_closes x.0 m) _ (begin_closes-ClosingAt x.0 m)
            (λ y j. ((λ q c. j.0 q (k.0 q c)), (j.0 p k.1, j.1), ground (arith, j.2)))))

dropped_group :
    (r : ExecutionRegistry) (id : String) (b : Bool)
    → (if b then record r { by_session = delete id r.by_session } else r).entry_heap ≡ r.entry_heap
dropped_group r id true = refl
dropped_group r id false = refl

-- Once the close of a Session has begun, every Execution that its group retains is closing, and the answer
-- has one element for each of them.
pub begin_session_close-ClosingAt :
    (r : ExecutionRegistry) (id : String) (q : ℕ) (g : ExecutionGroup)
    → lookup id r.by_session ≡ some q
    → get_elem? r.group_heap q ≡ some g
    → Keeps
        (λ x. All (λ p. ClosingAt x.0.entry_heap p.1) g.entries × (length x.1 ≡ length g.entries))
        (begin_session_close r id)
unfolding begin_session_close
begin_session_close-ClosingAt r id q g found at =
    let Q : ExecutionRegistry × List ExecutionClose → Type 0 =
      λ x. All (λ p. ClosingAt x.0.entry_heap p.1) g.entries × (length x.1 ≡ length g.entries) in
    let s = record r {
      group_heap = set r.group_heap q (record g { state = registry_state_closing });
    } in
    rw (found, begin_session_close, load, at)
      (Keeps-bind
        (λ (y : ExecutionRegistry × List ExecutionClose).
          Stays r.entry_heap y.0.entry_heap
          × All (λ p. ClosingAt y.0.entry_heap p.1) g.entries
          × (length y.1 ≡ length g.entries))
        Q (begin_closes s g.entries) _ (begin_closes-ClosingAt s g.entries)
        (λ y j. (
          subst (λ h. All (λ p. ClosingAt h p.1) g.entries)
              (sym (dropped_group y.0 id (is_empty g.entries))) j.1,
          j.2,
        )))

-- ===== src/Exec/SessionRegistry/Growth.antt =====
-- How a call may change the heap of entries.
use ferretd.Prelude.{
  ℕ, ◌≡◌, refl, sym, ap, ◌∙◌, subst, Bool, false, Option, none, some, List, [], ◌∷◌, ◌++◌, Outcome,
  done, panic, ◌>>=◌, get_elem?, set, string_key, All, All-append, All-set, All-get_elem?,
  get-append, get-set_self, get-set_ne, Keeps, ℕ_discrete,
}
use ferretd.Lifecycle.Gate.{accepting}
use ferretd.Exec.SessionRegistry.{SessionRegistry, SessionEntry, load, is_active}

pub Keeps-load :
    {A B : Type 0} (Q : B → Type 0) (heap : List A) (p : ℕ) (f : A → Outcome B)
    → ((a : A) → get_elem? heap p ≡ some a → Keeps Q (f a))
    → Keeps Q (load heap p >>= f)
Keeps-load {A = A} Q heap p f k = loaded (get_elem? heap p) refl
  where
    loaded :
        (o : Option A)
        → get_elem? heap p ≡ o
        → Keeps Q ((elim o [ none ↦ panic | some a ↦ done a ]) >>= f)
    loaded none e = tt
    loaded (some a) e = k a e

-- An entry admits runtimes exactly while it is active.
abbrev pub Agrees : SessionEntry → Type 0
Agrees e = accepting e.session.children ≡ is_active e.state

-- What a call does to the heap of entries: it grows, entries stay, an entry that is closing stays so, and
-- states and gates agree.
abbrev pub Grows : List SessionEntry → List SessionEntry → Type 0
Grows h k =
    (All Agrees h → All Agrees k)
    × ((p : ℕ) (e : SessionEntry)
        → get_elem? h p ≡ some e
        → (f : SessionEntry) × (get_elem? k p ≡ some f)
          × (is_active e.state ≡ false → is_active f.state ≡ false))

pub Grows-refl : (h : List SessionEntry) → Grows h h
Grows-refl h = (λ a. a, λ p e g. (e, g, λ c. c))

pub Grows-trans : (h k l : List SessionEntry) → Grows h k → Grows k l → Grows h l
Grows-trans h k l (a, f) (b, g) = (
  λ x. b (a x),
  λ p e i. let (e', j, c) = f p e i in let (e'', m, d) = g p e' j in (e'', m, λ x. d (c x)),
)

pub Grows-append : (h : List SessionEntry) (e : SessionEntry) → Agrees e → Grows h (h ++ e ∷ [])
Grows-append h e a =
    (λ x. All-append Agrees h (e ∷ []) x (a, tt), λ p f g. (f, get-append h (e ∷ []) p f g, λ c. c))

abbrev state_active : Option SessionEntry → Bool
state_active none = false
state_active (some e) = is_active e.state

-- One entry is overwritten by a later one.
pub Grows-set :
    (h : List SessionEntry) (p : ℕ) (e f : SessionEntry)
    → get_elem? h p ≡ some e
    → (Agrees e → Agrees f)
    → (is_active e.state ≡ false → is_active f.state ≡ false)
    → Grows h (set h p f)
Grows-set h p e f g a c = (
  λ x. All-set Agrees h p f (a (All-get_elem? Agrees h p e x g)) x,
  λ q d i. entry q d i (ℕ_discrete p q),
)
  where
    entry :
        (q : ℕ) (d : SessionEntry)
        → get_elem? h q ≡ some d
        → Dec (p ≡ q)
        → (x : SessionEntry) × (get_elem? (set h p f) q ≡ some x)
          × (is_active d.state ≡ false → is_active x.state ≡ false)
    entry q d i (yes same) = (
      f,
      subst (λ k. get_elem? (set h p f) k ≡ some f) same (get-set_self h p f e g),
      λ n. c (ap state_active (sym g ∙ (ap (get_elem? h) same ∙ i)) ∙ n),
    )
    entry q d i (no other) = (d, get-set_ne h p q f other ∙ i, λ x. x)

-- The heap of entries grew, and it is the registry's.
abbrev pub GrowsFrom : List SessionEntry → SessionRegistry → Type 0
GrowsFrom h r = Grows h r.entry_heap

-- The heap of entries is the one given.
pub from_same : (h : List SessionEntry) (r : SessionRegistry) → r.entry_heap ≡ h → GrowsFrom h r
from_same h r e = subst (Grows h) (sym e) (Grows-refl h)

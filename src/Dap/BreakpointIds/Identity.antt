-- ===== src/Dap/BreakpointIds/Identity.antt =====
-- Identities are unique, stable, and outlive a replacement as long as a command is pending.
use ferretd.Prelude.{
  ℕ, ◌≤◌, ◌<◌, ◌≡◌, refl, inl, inr, String, none, some, List, [], ◌∷◌, lookup, delete, nat_key,
  lookup-insert, lookup-delete, arith, Option-cases,
}
use ferretd.Dap.BreakpointIds.{
  BreakpointIds, BreakpointKey, NativePosition, breakpoint_key, retire, identify, bind, unbind,
}

-- Identities run from 1 up to `next`, each for one position; what the debugger knows has one of them.
pub record Inv (b : BreakpointIds) : Type 0 where
  pub positive : 1 ≤ b.next
  pub in_range : (k : BreakpointKey) (n : ℕ) → lookup k b.stable ≡ some n → (1 ≤ n) × (n < b.next)
  pub unique :
      (k j : BreakpointKey) (n : ℕ)
      → lookup k b.stable ≡ some n
      → lookup j b.stable ≡ some n
      → k ≡ j
  pub active_range : (m n : ℕ) → lookup m b.active ≡ some n → (1 ≤ n) × (n < b.next)
  pub retired_range : (m n : ℕ) → lookup m b.retired ≡ some n → (1 ≤ n) × (n < b.next)
  pub idle : b.pending ≡ 0 → b.retired ≡ []

pub identify-Inv : (b : BreakpointIds) (k : BreakpointKey) → Inv b → Inv (identify b k).0
unfolding identify
identify-Inv b k v = record {
  positive = ground (arith, v.positive);
  in_range = λ j n e. ground (arith, v.positive, v.in_range j n, lookup-insert k j b.next b.stable);
  unique = λ i j n p q. ground (
    arith,
    v.unique i j n,
    v.in_range i n,
    v.in_range j n,
    lookup-insert k i b.next b.stable,
    lookup-insert k j b.next b.stable,
  );
  active_range = λ m n e. ground (arith, v.active_range m n);
  retired_range = λ m n e. ground (arith, v.retired_range m n);
  idle = ground (arith, v.idle);
}

-- What `identify` answers is the identity of the position from then on, and is positive.
pub identify_lem :
    (b : BreakpointIds) (k : BreakpointKey)
    → Inv b
    → (lookup k (identify b k).0.stable ≡ some (identify b k).1)
      × (1 ≤ (identify b k).1)
      × ((identify b k).1 < (identify b k).0.next)
unfolding identify
identify_lem b k v = elim (Option-cases (lookup k b.stable)) [
  | inl e ↦ ground (arith, v.positive, lookup-insert k k b.next b.stable)
  | inr (n, e) ↦ ground (arith, v.in_range k n)
]

-- An identity, once given, is kept.
pub identify-keeps :
    (b : BreakpointIds) (k j : BreakpointKey) (n : ℕ)
    → Inv b
    → lookup j b.stable ≡ some n
    → lookup j (identify b k).0.stable ≡ some n
unfolding identify
identify-keeps b k j n v e = ground (arith, v.in_range j n, lookup-insert k j b.next b.stable)

pub identify-rest :
    (b : BreakpointIds) (k : BreakpointKey)
    → ((identify b k).0.active ≡ b.active)
      × ((identify b k).0.retired ≡ b.retired)
      × ((identify b k).0.pending ≡ b.pending)
unfolding identify
identify-rest b k = ground arith

pub delete-nil : (n : ℕ) → delete {V = ℕ} n [] ≡ []
unfolding delete
delete-nil n = refl

pub bind-Inv :
    (source : String) (p : NativePosition) (native : ℕ) (b : BreakpointIds)
    → Inv b
    → Inv (bind source p native b)
unfolding bind
bind-Inv source p native b v =
    let k : BreakpointKey = record { source_name = source; position = p } in
    let b' = (identify b k).0 in
    let n = (identify b k).1 in
    let v' = identify-Inv b k v in
    let given = identify_lem b k v in
    record {
      positive = v'.positive;
      in_range = v'.in_range;
      unique = v'.unique;
      active_range =
          λ m s e. ground (arith, v'.active_range m s, given, lookup-insert native m n b'.active);
      retired_range =
          λ m s e. ground (arith, v'.retired_range m s, lookup-delete native m b'.retired);
      idle = λ z. rw (v'.idle z) (delete-nil native);
    }

pub lookup-retire :
    (active retired : List (ℕ × ℕ)) (n : ℕ)
    → lookup n (retire active retired)
      ≡ elim (lookup n active) [ none ↦ lookup n retired | some s ↦ some s ]
unfolding retire lookup
lookup-retire [] retired n = refl
lookup-retire ((m, s) ∷ active) retired n =
    ground (arith, lookup-retire active retired n, lookup-insert m n s (retire active retired))

pub unbind-Inv : (b : BreakpointIds) → Inv b → Inv (unbind b)
unfolding unbind
unbind-Inv b v = record {
  positive = v.positive;
  in_range = v.in_range;
  unique = v.unique;
  active_range = λ m n e. unfold lookup in cc;
  retired_range = λ m n e.
      ground (arith, v.active_range m n, v.retired_range m n, lookup-retire b.active b.retired m);
  idle = ground (arith, v.idle);
}

-- ===== src/Dap/InitialStop/Resolve.antt =====
-- What is reported at native entry, and when the stop is suppressed.
pub mod Sorting
use ferretd.Prelude.{
  ℕ, suc, ◌≤◌, ◌<◌, ◌≡◌, ◌≢◌, refl, sym, ◌∙◌, ap, subst, ◌⊎◌, inl, inr, ◌↔◌, ite, if_pos, if_neg,
  Bool, true, false, not, Option, none, some, List, [], ◌∷◌, if◌then◌else◌, ◌==◌, ◌||◌, leb, Key,
  arith, All, Bool-cases, ==_iff,
}
use ferretd.Debug.Values.{Reason, reason_entry, reason_breakpoint}
use ferretd.Dap.BreakpointIds
use ferretd.Dap.BreakpointIds.{BreakpointIds}
use ferretd.Dap.InitialStop.{
  EntryBinding, InitialStop, StopSnapshot, contains, sort, is_entry, is_empty, collect, hits,
  resolve,
}
use ferretd.Dap.InitialStop.Resolve.Sorting.{
  Has, IsSorted, Apart, sort-IsSorted, sort-Apart, Has-sort, sort-Has,
}

sort-nil : (ns : List ℕ) → sort ns ≡ [] → ns ≡ []
sort-nil [] e = refl
sort-nil (n ∷ ns) e = absurd (subst (Has n) e (sort-Has n (n ∷ ns) (inl refl)))

list_cases : (ns : List ℕ) → (ns ≡ []) ⊎ ((m : ℕ) × (ms : List ℕ) × (ns ≡ m ∷ ms))
list_cases [] = inl refl
list_cases (n ∷ ns) = inr (n, ns, refl)

is_empty_nil : (ns : List ℕ) → is_empty ns ≡ true → ns ≡ []
is_empty_nil [] e = refl
is_empty_nil (n ∷ ns) e = cc

module _ {L : Type 0} ⦃key : Key L⦄ where
  -- A binding of that identifier is at the location.
  abbrev pub Bound : ℕ → L → List (EntryBinding L) → Type 0
  Bound n location [] = ⊥
  Bound n location (b ∷ bs) = ((b.id ≡ n) × (b.location ≡ location)) ⊎ Bound n location bs

  -- One step of the loop: a binding elsewhere is passed over, as is one whose identity has been seen.
  collect_step :
      (ids : BreakpointIds) (location : L) (seen : List ℕ) (b : EntryBinding L)
      (bs : List (EntryBinding L))
      → let identity = BreakpointIds.id ids b.id in
        (collect ids location seen (b ∷ bs) ≡ collect ids location seen bs)
        ⊎ ((b.location ≡ location)
            × (contains identity seen ≡ false)
            × (collect ids location seen (b ∷ bs)
                ≡ b.id ∷ collect ids location (identity ∷ seen) bs))
  unfolding collect
  collect_step ids location seen b bs = ground arith

  collect-Bound :
      (ids : BreakpointIds) (location : L) (seen : List ℕ) (bs : List (EntryBinding L)) (n : ℕ)
      → Has n (collect ids location seen bs)
      → Bound n location bs
  unfolding collect
  collect-Bound ids location seen [] n h = h
  collect-Bound ids location seen (b ∷ bs) n h = elim (collect_step ids location seen b bs) [
    | inl e ↦ inr (collect-Bound ids location seen bs n (subst (Has n) e h))
    | inr (here, fresh, e) ↦ elim (subst (Has n) e h) [
      | inl same ↦ inl (same, here)
      | inr rest ↦ inr (collect-Bound ids location (BreakpointIds.id ids b.id ∷ seen) bs n rest)
    ]
  ]

  -- Nothing collected has an identity that has been seen.
  collect-fresh :
      (ids : BreakpointIds) (location : L) (seen : List ℕ) (i : ℕ) (bs : List (EntryBinding L))
      → contains i seen ≡ true
      → All (λ m. BreakpointIds.id ids m ≢ i) (collect ids location seen bs)
  collect-fresh ids location seen i [] c = unfold collect in tt
  collect-fresh ids location seen i (b ∷ bs) c = elim (collect_step ids location seen b bs) [
    | inl e ↦
        subst (All (λ m. BreakpointIds.id ids m ≢ i)) (sym e)
          (collect-fresh ids location seen i bs c)
    | inr (here, fresh, e) ↦ subst (All (λ m. BreakpointIds.id ids m ≢ i)) (sym e) (
      (λ same. cc (subst (λ j. contains j seen ≡ false) same fresh, c)),
      collect-fresh ids location (BreakpointIds.id ids b.id ∷ seen) i bs
          (unfold contains in ground arith),
    )
  ]

  collect-Apart :
      (ids : BreakpointIds) (location : L) (seen : List ℕ) (bs : List (EntryBinding L))
      → Apart (BreakpointIds.id ids) (collect ids location seen bs)
  collect-Apart ids location seen [] = unfold collect in tt
  collect-Apart ids location seen (b ∷ bs) = elim (collect_step ids location seen b bs) [
    | inl e ↦ subst (Apart (BreakpointIds.id ids)) (sym e) (collect-Apart ids location seen bs)
    | inr (here, fresh, e) ↦
        let seen' = BreakpointIds.id ids b.id ∷ seen in
        subst (Apart (BreakpointIds.id ids)) (sym e) (
          collect-fresh ids location seen' (BreakpointIds.id ids b.id) bs
              (unfold contains in ground arith),
          collect-Apart ids location seen' bs,
        )
  ]

  -- When no hits are given at native entry, the reported hits are identifiers bound at the location,
  -- in increasing order, no two of one identity.
  pub hits-computed :
      (s : InitialStop L) (ids : BreakpointIds) (snapshot : StopSnapshot L)
      → snapshot.hit_breakpoint_ids ≡ []
      → ((n : ℕ) → Has n (hits s ids snapshot) → Bound n snapshot.location s.bindings)
        × IsSorted (hits s ids snapshot)
        × Apart (BreakpointIds.id ids) (hits s ids snapshot)
  unfolding hits
  hits-computed s ids snapshot e =
      let found = collect ids snapshot.location [] s.bindings in
      rw (e) (
        (λ n h. collect-Bound ids snapshot.location [] s.bindings n (Has-sort n found h)),
        sort-IsSorted found,
        sort-Apart (BreakpointIds.id ids) found (collect-Apart ids snapshot.location [] s.bindings),
      )

  collect-nil :
      (ids : BreakpointIds) (location : L) (bs : List (EntryBinding L)) (n : ℕ)
      → collect ids location [] bs ≡ []
      → Bound n location bs
      → ⊥
  unfolding collect contains
  collect-nil ids location [] n e h = h
  collect-nil ids location (b ∷ bs) n e h = elim (key.same b.location location) [
    | yes here ↦ ground arith
    | no away ↦ elim h [
      | inl same ↦ away same.1
      | inr rest ↦ collect-nil ids location bs n (ground arith) rest
    ]
  ]

  hits-nil :
      (s : InitialStop L) (ids : BreakpointIds) (snapshot : StopSnapshot L)
      → hits s ids snapshot ≡ []
      → (snapshot.hit_breakpoint_ids ≡ []) × ((n : ℕ) → ¬ Bound n snapshot.location s.bindings)
  unfolding hits
  hits-nil s ids snapshot e = elim (list_cases snapshot.hit_breakpoint_ids) [
    | inl none_given ↦ (
      none_given,
      λ n h.
          collect-nil ids snapshot.location s.bindings n
            (sort-nil (collect ids snapshot.location [] s.bindings) (rw (none_given) at e)) h,
    )
    | inr (m, ms, given) ↦ cc
  ]

  -- A stop is suppressed only at native entry, when the client did not ask to stop there, no hits were
  -- given and no breakpoint is bound at the location.
  pub resolve-suppressed :
      (s : InitialStop L) (snapshot : StopSnapshot L) (stop_on_entry : Bool) (ids : BreakpointIds)
      → (resolve s snapshot stop_on_entry ids).1 ≡ true
      → (is_entry snapshot.reason ≡ true)
        × (stop_on_entry ≡ false)
        × (snapshot.hit_breakpoint_ids ≡ [])
        × ((n : ℕ) → ¬ Bound n snapshot.location s.bindings)
  unfolding resolve
  resolve-suppressed s snapshot stop_on_entry ids e =
      let found_nothing = is_empty_nil (hits s ids snapshot) (ground arith) in
      let (given, unbound) = hits-nil s ids snapshot found_nothing in
      (ground arith, ground arith, given, unbound)

-- ===== src/Dap/HandleTable/Lookups.antt =====
-- A handle means one thing as long as its stop lasts, and is known to be stale right after.
use ferretd.Prelude.{
  ℕ, ◌≤◌, ◌<◌, ◌≡◌, refl, inl, inr, Bool, true, false, none, some, List, [], ◌∷◌, if◌then◌else◌,
  ltb, length, lookup, insert, nat_key, lookup-insert, is_some, arith, Bool-cases,
}
use ferretd.Diagnostics.{copy_slice}
use ferretd.Dap.HandleTable.{
  HandleTable, HandleKind, frame_handle, scope_handle, variable_handle, mark, new_handle_table,
  total, stale_after, invalidate, frame, scope, variable,
}

pub lookup-mark :
    {A : Type 0} (kind : HandleKind) (m : List (ℕ × A)) (stale : List (ℕ × HandleKind)) (h : ℕ)
    → lookup h (mark kind m stale) ≡ (if is_some (lookup h m) then some kind else lookup h stale)
unfolding mark lookup
lookup-mark kind [] stale h = refl
lookup-mark kind ((j, a) ∷ m) stale h =
    ground (arith, lookup-mark kind m (insert j kind stale) h, lookup-insert j h kind stale)

pub lookup-nil : (h : ℕ) → lookup {V = HandleKind} h [] ≡ none
unfolding lookup
lookup-nil h = refl

pub length-lookup :
    {A : Type 0} (h : ℕ) (m : List (ℕ × A)) → is_some (lookup h m) ≡ true → 0 < length m
unfolding lookup
length-lookup h [] e = cc
length-lookup h (p ∷ m) e = omega arith

-- The kinds of which a handle is current.
abbrev pub Disjoint : Bool → Bool → Bool → Type 0
Disjoint true s v = (s ≡ false) × (v ≡ false)
Disjoint false true v = v ≡ false
Disjoint false false v = Unit

module _ {V : Type 0} where
  -- Handles below `next` only, each of at most one kind.
  pub record Inv (t : HandleTable V) : Type 0 where
    pub bounded :
        (h : ℕ)
        → t.next ≤ h
        → (lookup h t.frames ≡ none) × (lookup h t.scopes ≡ none) × (lookup h t.variables ≡ none)
    pub one_kind :
        (h : ℕ)
        → Disjoint
            (is_some (lookup h t.frames))
            (is_some (lookup h t.scopes))
            (is_some (lookup h t.variables))
    pub started : 1 ≤ t.next

  pub new_handle_table-Inv : Inv (new_handle_table {V = V})
  unfolding new_handle_table lookup
  new_handle_table-Inv = record {
    bounded = λ h b. (refl, refl, refl);
    one_kind = λ h. tt;
    started = omega arith;
  }

  pub frame-Inv : (t : HandleTable V) (index : ℕ) → Inv t → Inv (frame t index).0
  unfolding frame
  frame-Inv t index v = record {
    bounded = λ h b. ground (arith, v.bounded h, lookup-insert t.next h index t.frames);
    one_kind =
        λ h. ground (arith, v.one_kind h, v.bounded h, lookup-insert t.next h index t.frames);
    started = ground (arith, v.started);
  }

  pub scope-Inv : (t : HandleTable V) (vs : List V) → Inv t → Inv (scope t vs).0
  unfolding scope
  scope-Inv t vs v = record {
    bounded = λ h b. ground (arith, v.bounded h, lookup-insert t.next h (copy_slice vs) t.scopes);
    one_kind = λ h.
        ground (arith, v.one_kind h, v.bounded h, lookup-insert t.next h (copy_slice vs) t.scopes);
    started = ground (arith, v.started);
  }

  pub variable-Inv : (t : HandleTable V) (r : ℕ) → Inv t → Inv (variable t r).0
  unfolding variable
  variable-Inv t r v = record {
    bounded = λ h b. ground (arith, v.bounded h, lookup-insert t.next h r t.variables);
    one_kind = λ h. ground (arith, v.one_kind h, v.bounded h, lookup-insert t.next h r t.variables);
    started = ground (arith, v.started);
  }

  pub invalidate-Inv : (t : HandleTable V) → Inv t → Inv (invalidate t).0
  unfolding invalidate lookup
  invalidate-Inv t v = record {
    bounded = λ h b. (refl, refl, refl);
    one_kind = λ h. tt;
    started = v.started;
  }

  -- What the stale map holds after an invalidation.
  pub lookup-stale_after :
      (t : HandleTable V) (h : ℕ)
      → lookup h (stale_after t) ≡ (
          if ltb 0 (total t)
          then (if is_some (lookup h t.variables)
              then some variable_handle
              else (if is_some (lookup h t.scopes)
                  then some scope_handle
                  else (if is_some (lookup h t.frames) then some frame_handle else none)))
          else lookup h t.stale)
  unfolding stale_after
  lookup-stale_after t h = elim (Bool-cases (ltb 0 (total t))) [
    | inl e ↦ rw e (simp lookup-mark (rw (lookup-nil h)))
    | inr e ↦ rw e
  ]

-- ===== src/Dap/HandleTable/Lifetime.antt =====
-- The life of a handle: current until the next invalidation, stale after it, and never given out
-- again.
use ferretd.Prelude.{
  ℕ, ◌≤◌, ◌<◌, ◌≡◌, ◌≢◌, refl, ◌∙◌, Bool, true, false, some, List, [], ◌∷◌, lookup, nat_key,
  lookup-insert, ℕ_discrete, arith,
}
use ferretd.Diagnostics.{copy_slice}
use ferretd.Dap.HandleTable.{
  HandleTable, handle_current, handle_stale, new_handle_table, total, invalidate, frame, scope,
  variable, missing, frame_index, variable_reference,
}
use ferretd.Dap.HandleTable.Lookups.{
  Inv, new_handle_table-Inv, frame-Inv, scope-Inv, variable-Inv, invalidate-Inv, lookup-stale_after,
  length-lookup,
}

-- The requests that touch the table.
pub data Request (V : Type 0) : Type 0 where
  frames : ℕ → Request V
  scopes : List V → Request V
  variables : ℕ → Request V
  invalidates : Request V

module _ {V : Type 0} where
  unfoldable pub step : HandleTable V → Request V → HandleTable V
  step t (frames index) = (frame t index).0
  step t (scopes vs) = (scope t vs).0
  step t (variables r) = (variable t r).0
  step t invalidates = (invalidate t).0

  unfoldable pub run : HandleTable V → List (Request V) → HandleTable V
  run t [] = t
  run t (r ∷ rest) = run (step t r) rest

  step-Inv : (t : HandleTable V) (r : Request V) → Inv t → Inv (step t r)
  unfolding step
  step-Inv t (frames index) v = frame-Inv t index v
  step-Inv t (scopes vs) v = scope-Inv t vs v
  step-Inv t (variables r) v = variable-Inv t r v
  step-Inv t invalidates v = invalidate-Inv t v

  run-Inv : (t : HandleTable V) (rs : List (Request V)) → Inv t → Inv (run t rs)
  unfolding run
  run-Inv t [] v = v
  run-Inv t (r ∷ rest) v = run-Inv (step t r) rest (step-Inv t r v)

  -- No request lowers the next handle.
  next-step : (t : HandleTable V) (r : Request V) → t.next ≤ (step t r).next
  unfolding step frame scope variable invalidate
  next-step t r = ground arith

  next-run : (t : HandleTable V) (rs : List (Request V)) → t.next ≤ (run t rs).next
  unfolding run
  next-run t [] = omega arith
  next-run t (r ∷ rest) = omega (arith, next-step t r, next-run (step t r) rest)

  abbrev is_invalidation : Request V → Bool
  is_invalidation invalidates = true
  is_invalidation _ = false

  -- The requests between two stops.
  abbrev pub NoInvalidation : List (Request V) → Type 0
  NoInvalidation [] = Unit
  NoInvalidation (r ∷ rest) = (is_invalidation r ≡ false) × NoInvalidation rest

  kept :
      (t : HandleTable V) (r : Request V) (h : ℕ)
      → Inv t
      → is_invalidation r ≡ false
      → h < t.next
      → (lookup h (step t r).frames ≡ lookup h t.frames)
        × (lookup h (step t r).scopes ≡ lookup h t.scopes)
        × (lookup h (step t r).variables ≡ lookup h t.variables)
  unfolding step frame scope variable
  kept t (frames index) h v n b = ground (arith, lookup-insert t.next h index t.frames)
  kept t (scopes vs) h v n b = ground (arith, lookup-insert t.next h (copy_slice vs) t.scopes)
  kept t (variables r) h v n b = ground (arith, lookup-insert t.next h r t.variables)
  kept t invalidates h v n b = cc

  kept_run :
      (t : HandleTable V) (rs : List (Request V)) (h : ℕ)
      → Inv t
      → NoInvalidation rs
      → h < t.next
      → (lookup h (run t rs).frames ≡ lookup h t.frames)
        × (lookup h (run t rs).scopes ≡ lookup h t.scopes)
        × (lookup h (run t rs).variables ≡ lookup h t.variables)
  unfolding run
  kept_run t [] h v n b = (refl, refl, refl)
  kept_run t (r ∷ rest) h v n b =
      let here = kept t r h v n.0 b in
      let later = kept_run (step t r) rest h (step-Inv t r v) n.1 (omega (arith, next-step t r)) in
      (later.0 ∙ here.0, later.1 ∙ here.1, later.2 ∙ here.2)

  frame_index-some :
      (t : HandleTable V) (h i : ℕ)
      → lookup h t.frames ≡ some i
      → frame_index t h ≡ (i, handle_current)
  unfolding frame_index
  frame_index-some t h i e = rw (e, frame_index)

  stale_frame :
      (t : HandleTable V) (h i : ℕ)
      → Inv t
      → lookup h t.frames ≡ some i
      → frame_index (invalidate t).0 h ≡ (0, handle_stale)
  unfolding frame_index invalidate missing lookup total
  stale_frame t h i v e =
      ground (arith, lookup-stale_after t h, v.one_kind h, length-lookup h t.frames)

  reached-Inv : (before : List (Request V)) → Inv (run new_handle_table before)
  reached-Inv before = run-Inv new_handle_table before new_handle_table-Inv

  frame_new :
      (t : HandleTable V) (index : ℕ)
      → (lookup (frame t index).1 (frame t index).0.frames ≡ some index)
        × ((frame t index).1 < (frame t index).0.next)
  unfolding frame ℕ_discrete
  frame_new t index = (ground (arith, lookup-insert t.next t.next index t.frames), omega arith)

  -- A frame handle given out at any time denotes its frame until the next invalidation, whatever else
  -- is requested; right after that invalidation it is reported as stale; and no frame handle given
  -- out later, after any requests, is the same.
  pub frame_lifetime :
      (before between later : List (Request V)) (index other_index : ℕ)
      → NoInvalidation between
      → let given = frame (run new_handle_table before) index in
        let u = run given.0 between in
        (frame_index u given.1 ≡ (index, handle_current))
        × (frame_index (invalidate u).0 given.1 ≡ (0, handle_stale))
        × (given.1 < (frame (run given.0 later) other_index).1)
  frame_lifetime before between later index other_index n =
      let t = run new_handle_table before in
      let v = reached-Inv before in
      let (t', h) = frame t index in
      let v' = frame-Inv t index v in
      let (here, bound) = frame_new t index in
      let same = (kept_run t' between h v' n bound).0 ∙ here in
      (
        frame_index-some (run t' between) h index same,
        stale_frame (run t' between) h index (run-Inv t' between v') same,
        unfold frame in omega (arith, next-run t' later),
      )

  stale_variable :
      (t : HandleTable V) (h r : ℕ)
      → Inv t
      → lookup h t.variables ≡ some r
      → variable_reference (invalidate t).0 h ≡ (0, handle_stale)
  unfolding variable_reference invalidate missing lookup total
  stale_variable t h r v e =
      ground (arith, lookup-stale_after t h, v.one_kind h, length-lookup h t.variables)

  variable_reference-some :
      (t : HandleTable V) (h r : ℕ)
      → lookup h t.variables ≡ some r
      → variable_reference t h ≡ (r, handle_current)
  unfolding variable_reference
  variable_reference-some t h r e = rw (e, variable_reference)

  variable_new :
      (t : HandleTable V) (r : ℕ)
      → r ≢ 0
      → (lookup (variable t r).1 (variable t r).0.variables ≡ some r)
        × ((variable t r).1 < (variable t r).0.next)
  unfolding variable
  variable_new t r n = ground (arith, lookup-insert t.next t.next r t.variables)

  -- The handle given at any time for a value reference other than zero denotes it until the next
  -- invalidation, whatever else is requested, and is reported as stale right after; the reference
  -- zero gets the handle zero, and the table is unchanged.
  pub variable_lifetime :
      (before between : List (Request V)) (reference : ℕ)
      → NoInvalidation between
      → let t = run new_handle_table before in
        let given = variable t reference in
        let u = run given.0 between in
        (reference ≢ 0
          → (variable_reference u given.1 ≡ (reference, handle_current))
            × (variable_reference (invalidate u).0 given.1 ≡ (0, handle_stale)))
        × (reference ≡ 0 → given ≡ (t, 0))
  variable_lifetime before between reference n =
      let t = run new_handle_table before in
      let v = reached-Inv before in
      let (t', h) = variable t reference in
      let v' = variable-Inv t reference v in
      (
        λ nonzero.
            let (here, bound) = variable_new t reference nonzero in
            let same = (kept_run t' between h v' n bound).2 ∙ here in
            (
              variable_reference-some (run t' between) h reference same,
              stale_variable (run t' between) h reference (run-Inv t' between v') same,
            ),
        λ zero_reference. unfold variable in ground arith,
      )

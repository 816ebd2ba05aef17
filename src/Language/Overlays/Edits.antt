-- ===== src/Language/Overlays/Edits.antt =====
-- What a change of an open document does, on every branch.
use ferretd.Prelude.{
  u64, ◌⊎◌, inl, inr, ◌≡◌, ◌≢◌, refl, sym, subst, ◌∙◌, String, Bool, true, false, Option, none,
  some, List, ◌∷◌, lookup, ◌+◌, string_key, lookup-insert, lookup-delete, if_pos, String-discrete,
}
use ferretd.Errors.{Error}
use ferretd.Language.Overlays.{
  ℤ, leb_int, Overlay, Service, ServiceError, last_of, store_overlay, change_overlay,
  change_document,
}

module _ {A : Type 0} where
  found_stored :
      (s : Service A) (uri : String) (o : Overlay)
      → lookup uri (store_overlay s uri o).overlays ≡ some o
  found_stored s uri o =
      lookup-insert uri uri o s.overlays
      ∙ if_pos (String-discrete uri uri) refl (some o) (lookup uri s.overlays)

  cache_dropped :
      (s : Service A) (uri : String) (o : Overlay) → lookup uri (store_overlay s uri o).cache ≡ none
  cache_dropped s uri o =
      lookup-delete uri uri s.cache
      ∙ if_pos (String-discrete uri uri) refl none (lookup uri s.cache)

  -- The result of a change: an error and the service as it was, or the new text under a later version, in a new
  -- generation, with nothing cached.
  abbrev pub Changed :
      Service A
      → Option Error
      → String
      → ℤ
      → String
      → List String
      → Service A × Option ServiceError
      → Type 0
  Changed s err uri version c cs r =
      ((r.1 ≢ none) × (r.0 ≡ s))
      ⊎ ((r.1 ≡ none)
          × (err ≡ none)
          × ((o : Overlay) × (lookup uri s.overlays ≡ some o)
              × (leb_int version o.version ≡ false)
              × (lookup uri r.0.overlays
                  ≡ some (record o {
                    version = version;
                    text = last_of c cs;
                    generation = u64 (s.generation + 1);
                  })))
          × (lookup uri r.0.cache ≡ none))

  change_overlay-Changed :
      (s : Service A) (uri : String) (version : ℤ) (c : String) (cs : List String) (o : Overlay)
      (b : Bool)
      → lookup uri s.overlays ≡ some o
      → leb_int version o.version ≡ b
      → Changed s none uri version c cs (change_overlay s uri version (last_of c cs) o)
  unfolding change_overlay
  change_overlay-Changed s uri version c cs o true e later = rw (later) (inl ((λ x. cc), refl))
  change_overlay-Changed s uri version c cs o false e later =
      let p : Overlay = record o {
        version = version;
        text = last_of c cs;
        generation = u64 (s.generation + 1);
      } in
      rw (later) (inr (refl, refl, (o, e, later, found_stored s uri p), cache_dropped s uri p))

  change_found :
      (s : Service A) (uri : String) (version : ℤ) (c : String) (cs : List String) (o : Overlay)
      → lookup uri s.overlays ≡ some o
      → change_document s none uri version (c ∷ cs) ≡ change_overlay s uri version (last_of c cs) o
  unfolding change_document
  change_found s uri version c cs o e = rw (e, change_document) refl

  -- A change with at least one text either answers an error and changes nothing, or answers none: then
  -- there was no context error and an overlay with an earlier version, which now has the last text, the
  -- new version and a new generation, and no analysis is cached for the document.
  pub change_document-Changed :
      (s : Service A) (err : Option Error) (uri : String) (version : ℤ) (c : String)
      (cs : List String)
      → Changed s err uri version c cs (change_document s err uri version (c ∷ cs))
  unfolding change_document
  change_document-Changed s (some e) uri version c cs = inl ((λ x. cc), refl)
  change_document-Changed s none uri version c cs = at (lookup uri s.overlays) refl
    where
      at :
          (o : Option Overlay)
          → lookup uri s.overlays ≡ o
          → Changed s none uri version c cs (change_document s none uri version (c ∷ cs))
      at none e = rw (e, change_document) (inl ((λ x. cc), refl))
      at (some o) e =
          subst (Changed s none uri version c cs) (sym (change_found s uri version c cs o e))
            (change_overlay-Changed s uri version c cs o (leb_int version o.version) e refl)

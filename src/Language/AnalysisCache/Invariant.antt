-- ===== src/Language/AnalysisCache/Invariant.antt =====
-- Every snapshot of an overlay that is held somewhere is the overlay's text as long as their generations agree.
use ferretd.Prelude.{
  u64, inl, inr, ℕ, ◌+◌, ◌^◌, ◌≤◌, ◌<◌, ◌≡◌, refl, sym, ap, subst, String, Bool, true, false,
  Option, none, some, List, [], ◌∷◌, lookup, delete, string_key, nat_key, found_after_insert,
  found_after_delete, arith,
}
use ferretd.Errors.{Error}
use ferretd.Language.Overlays.{
  Overlay, DocumentSnapshot, Service, store_overlay, ℤ, leb_int, last_of, open_document,
  change_overlay, change_document, close_document,
}
use ferretd.Language.AnalysisCache.{is_overlay}

-- The overlays of a service that has given out `n` generations, and a snapshot.
abbrev pub Bounded : ℕ → List (String × Overlay) → Type 0
Bounded n os = (uri : String) (o : Overlay) → lookup uri os ≡ some o → o.generation ≤ n

abbrev pub Fits : ℕ → List (String × Overlay) → DocumentSnapshot → Type 0
Fits n os x =
    is_overlay x.id.origin ≡ true
    → (x.id.overlay_generation ≤ n)
      × ((o : Overlay)
          → lookup x.uri os ≡ some o
          → o.generation ≡ x.id.overlay_generation
          → (x.path ≡ o.path) × (x.text ≡ o.text))

u64_lem : (n : ℕ) → n + 1 < 2 ^ 64 → u64 (n + 1) ≡ n + 1
u64_lem n b = omega arith

module _ {A : Type 0} where
  -- What an edit of the overlays does: the entries stay, and what fitted before fits.
  pub record Edited (s t : Service A) : Type 0 where
    pub entries : t.entries ≡ s.entries
    pub cache : (uri : String) (p : ℕ) → lookup uri t.cache ≡ some p → lookup uri s.cache ≡ some p
    pub above : s.generation ≤ t.generation
    pub below : t.generation ≤ s.generation + 1
    pub bounded : Bounded s.generation s.overlays → Bounded t.generation t.overlays
    pub fits :
        (x : DocumentSnapshot) → Fits s.generation s.overlays x → Fits t.generation t.overlays x

  pub unedited : (s : Service A) → Edited s s
  unedited s = record {
    entries = refl;
    cache = λ other p e. e;
    above = omega arith;
    below = omega arith;
    bounded = λ b. b;
    fits = λ x f. f;
  }

  pub store_overlay-Edited :
      (s : Service A) (uri : String) (o : Overlay)
      → s.generation + 1 < 2 ^ 64
      → o.generation ≡ u64 (s.generation + 1)
      → Edited s (store_overlay s uri o)
  store_overlay-Edited s uri o room g =
      let u = u64_lem s.generation room in
      record {
        entries = refl;
        cache = λ other p e. (found_after_delete uri other p s.cache e).1;
        above = omega (arith, u);
        below = omega (arith, u);
        bounded = λ b other p e. elim (found_after_insert uri other o p s.overlays e) [
          | inl (at, same) ↦
              subst (λ q. q.generation ≤ u64 (s.generation + 1)) (sym same) (omega (arith, g))
          | inr (n, old) ↦ (let l = b other p old in omega (arith, u, l))
        ];
        fits = λ x f overlay. (
          (let l = (f overlay).0 in omega (arith, u, l)),
          λ p e same. elim (found_after_insert uri x.uri o p s.overlays e) [
            | inl (at, new) ↦
                (let q : p.generation ≡ o.generation = ap (λ (q : Overlay). q.generation) new in
                  let l = (f overlay).0 in absurd (omega (arith, g, u, same, q, l)))
            | inr (n, old) ↦ (f overlay).1 p old same
          ],
        );
      }

  pub close-Edited :
      (s : Service A) (uri : String)
      → Edited s (record s { overlays = delete uri s.overlays; cache = delete uri s.cache })
  close-Edited s uri = record {
    entries = refl;
    cache = λ other p e. (found_after_delete uri other p s.cache e).1;
    above = omega arith;
    below = omega arith;
    bounded = λ b other p e. b other p (found_after_delete uri other p s.overlays e).1;
    fits = λ x f overlay. (
      (f overlay).0,
      λ p e same. (f overlay).1 p (found_after_delete uri x.uri p s.overlays e).1 same,
    );
  }

  pub open_document-Edited :
      (path_of : String → Option String) (s : Service A) (err : Option Error) (uri : String)
      (version : ℤ) (text : String)
      → s.generation + 1 < 2 ^ 64
      → Edited s (open_document path_of s err uri version text).0
  unfolding open_document
  open_document-Edited path_of s (some e) uri version text room = unedited s
  open_document-Edited path_of s none uri version text room = at (path_of uri) refl
    where
      at :
          (path : Option String)
          → path_of uri ≡ path
          → Edited s (open_document path_of s none uri version text).0
      at none e = rw (e, open_document) (unedited s)
      at (some path) e = rw (e, open_document) (store_overlay-Edited s uri _ room refl)

  change_overlay-Edited :
      (s : Service A) (uri : String) (version : ℤ) (text : String) (o : Overlay)
      → s.generation + 1 < 2 ^ 64
      → Edited s (change_overlay s uri version text o).0
  unfolding change_overlay
  change_overlay-Edited s uri version text o room = at (leb_int version o.version) refl
    where
      at :
          (b : Bool)
          → leb_int version o.version ≡ b
          → Edited s (change_overlay s uri version text o).0
      at true e = rw (e) (unedited s)
      at false e = rw (e) (
          store_overlay-Edited s uri
            (record o { version = version; text = text; generation = u64 (s.generation + 1) }) room
            refl)

  pub change_document-Edited :
      (s : Service A) (err : Option Error) (uri : String) (version : ℤ) (texts : List String)
      → s.generation + 1 < 2 ^ 64
      → Edited s (change_document s err uri version texts).0
  unfolding change_document
  change_document-Edited s (some e) uri version texts room = unedited s
  change_document-Edited s none uri version [] room = unedited s
  change_document-Edited s none uri version (c ∷ cs) room = at (lookup uri s.overlays) refl
    where
      at :
          (o : Option Overlay)
          → lookup uri s.overlays ≡ o
          → Edited s (change_document s none uri version (c ∷ cs)).0
      at none e = rw (e, change_document) (unedited s)
      at (some o) e =
          rw (e, change_document) (change_overlay-Edited s uri version (last_of c cs) o room)

  pub close_document-Edited :
      (s : Service A) (err : Option Error) (uri : String) → Edited s (close_document s err uri).0
  unfolding close_document
  close_document-Edited s (some e) uri = unedited s
  close_document-Edited s none uri = close-Edited s uri

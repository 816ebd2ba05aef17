-- ===== src/Diagnostics.antt =====
-- internal/diagnostic/diagnostic.go.
use ferretd.Prelude.{ℕ, String, List, [], ◌∷◌, map, ◌≡◌, refl, ap, ap₂}
use ferretd.Source.Positions.{Range}

pub record RelatedInformation : Type 0 where
  pub uri : String
  pub range : Range
  pub message : String

pub record Diagnostic : Type 0 where
  pub uri : String
  pub message : String
  pub severity : ℕ
  pub range : Range
  pub source : String
  pub code : String
  pub related_information : List RelatedInformation

-- `append([]T(nil), items...)`: a fresh slice with the items.
unfoldable pub copy_slice : {A : Type 0} → List A → List A
copy_slice [] = []
copy_slice (x ∷ xs) = x ∷ copy_slice xs

pub copy_slice_lem : {A : Type 0} (xs : List A) → copy_slice xs ≡ xs
unfolding copy_slice
copy_slice_lem [] = refl
copy_slice_lem (x ∷ xs) = ap (◌∷◌ x) (copy_slice_lem xs)

unfoldable pub clone : Diagnostic → Diagnostic
clone d = record d { related_information = copy_slice d.related_information }

pub clone_lem : (d : Diagnostic) → clone d ≡ d
unfolding clone
clone_lem d = rw copy_slice_lem

pub map-clone : (ds : List Diagnostic) → map clone ds ≡ ds
map-clone [] = refl
map-clone (d ∷ ds) = ap₂ ◌∷◌ (clone_lem d) (map-clone ds)

-- ===== src/Language/Overlays.antt =====
-- internal/language/service.go and document.go: the editor overlays of the language service. `path_of` is
-- what uri.Path answers, none for an error; `A` is the compiler's analysis of a document.
pub mod Edits
use ferretd.Prelude.{
  u64, ℕ, ◌+◌, ◌%◌, ◌^◌, String, Bool, true, false, not, Option, none, some, List, [], ◌∷◌,
  if◌then◌else◌, leb, lookup, insert, delete, string_key,
}
use ferretd.Errors.{Error}

-- A version is an int32; `negsuc n` is `-n - 1`.
pub data ℤ : Type 0 where
  pos negsuc : ℕ → ℤ

abbrev pub leb_int : ℤ → ℤ → Bool
leb_int (pos m) (pos n) = leb m n
leb_int (pos m) (negsuc n) = false
leb_int (negsuc m) (pos n) = true
leb_int (negsuc m) (negsuc n) = leb n m

pub record Overlay : Type 0 where
  pub uri : String
  pub path : String
  pub version : ℤ
  pub text : String
  pub generation : ℕ

pub data SnapshotOrigin : Type 0 where
  snapshot_overlay snapshot_workspace : SnapshotOrigin

pub record SnapshotId : Type 0 where
  pub origin : SnapshotOrigin
  pub overlay_generation : ℕ
  pub workspace_id : String
  pub document_generation : ℕ

pub record DocumentSnapshot : Type 0 where
  pub id : SnapshotId
  pub uri : String
  pub path : String
  pub text : String
  pub version : Option ℤ

-- What the compiler answers to Analyze.
pub record Analyzed (A : Type 0) : Type 0 where
  pub analysis : Option A
  pub err : Option Error

-- `ready` is whether that channel is closed.
pub record AnalysisEntry (A : Type 0) : Type 0 where
  pub ready : Bool
  pub snapshot : DocumentSnapshot
  pub analyzed : Analyzed A

-- The cache holds addresses of the heap `entries`.
pub record Service (A : Type 0) : Type 0 where
  pub overlays : List (String × Overlay)
  pub cache : List (String × ℕ)
  pub generation : ℕ
  pub entries : List (AnalysisEntry A)

-- The errors that the service makes; a wrapped one is with what it wraps.
pub data ServiceError : Type 0 where
  context_error lookup_error analysis_error : Error → ServiceError
  uri_error document_not_open no_snapshot : String → ServiceError
  stale_version : ℤ → ℤ → ServiceError
  no_text_changes : ServiceError

-- `changes[len(changes)-1]` of a list that is not empty.
abbrev pub last_of : String → List String → String
last_of c [] = c
last_of c (d ∷ ds) = last_of d ds

module _ {A : Type 0} where
  unfoldable pub new_service : Service A
  new_service = record { overlays = []; cache = []; generation = 0; entries = [] }

  abbrev pub store_overlay : Service A → String → Overlay → Service A
  store_overlay s uri o = record s {
    generation = u64 (s.generation + 1);
    overlays = insert uri o s.overlays;
    cache = delete uri s.cache;
  }

  unfoldable pub open_document :
      (String → Option String)
      → Service A
      → Option Error
      → String
      → ℤ
      → String
      → Service A × Option ServiceError
  unfolding insert delete
  open_document path_of s (some e) uri version text = (s, some (context_error e))
  open_document path_of s none uri version text = elim (path_of uri) [
    | none ↦ (s, some (uri_error uri))
    | some path ↦ (
      store_overlay s uri (record {
        uri = uri;
        path = path;
        version = version;
        text = text;
        generation = u64 (s.generation + 1);
      }),
      none,
    )
  ]

  -- `ChangeDocument` under the mutex, for the overlay that is found.
  unfoldable pub change_overlay :
      Service A → String → ℤ → String → Overlay → Service A × Option ServiceError
  unfolding insert delete
  change_overlay s uri version text o =
      if leb_int version o.version then (s, some (stale_version version o.version)) else (
        store_overlay s uri
            (record o { version = version; text = text; generation = u64 (s.generation + 1) }),
        none,
      )

  unfoldable pub change_document :
      Service A → Option Error → String → ℤ → List String → Service A × Option ServiceError
  unfolding lookup change_overlay
  change_document s (some e) uri version changes = (s, some (context_error e))
  change_document s none uri version [] = (s, some no_text_changes)
  change_document s none uri version (c ∷ cs) = elim (lookup uri s.overlays) [
    | none ↦ (s, some (document_not_open uri))
    | some o ↦ change_overlay s uri version (last_of c cs) o
  ]

  unfoldable pub close_document :
      Service A → Option Error → String → Service A × Option ServiceError
  unfolding delete
  close_document s (some e) uri = (s, some (context_error e))
  close_document s none uri =
      (record s { overlays = delete uri s.overlays; cache = delete uri s.cache }, none)

-- ===== src/Language/AnalysisCache.antt =====
-- internal/language/analysis_cache.go. What LookupDocument of the workspace manager answers is an argument, as
-- is what the compiler's Analyze gives for a path and a text. An entry is known by its address.
pub mod Steps
pub mod Invariant
pub mod Preserves
pub mod Fresh
use ferretd.Prelude.{
  ℕ, String, Bool, true, false, not, ◌&&◌, Option, none, some, List, [], ◌∷◌, ◌++◌, Outcome, done,
  panic, ◌>>=◌, if◌then◌else◌, ◌⊎◌, inl, inr, ◌==◌, same_text, length, get_elem?, set, lookup,
  insert, delete, string_key,
}
use ferretd.Errors.{Error}
use ferretd.Language.Overlays.{
  Overlay, SnapshotOrigin, snapshot_overlay, snapshot_workspace, SnapshotId, DocumentSnapshot,
  Analyzed, AnalysisEntry, Service, ServiceError, context_error, lookup_error, analysis_error,
  uri_error, document_not_open, no_snapshot,
}

pub record DocumentLookup : Type 0 where
  pub workspace : String
  pub generation : ℕ
  pub content : String

-- The answer of LookupDocument.
pub data Found : Type 0 where
  found : DocumentLookup → Found
  not_found : Found
  lookup_failed : Error → Found

pub data Resolved : Type 0 where
  resolved : DocumentSnapshot → Resolved
  unresolved : ServiceError → Resolved

abbrev pub of_overlay : String → Overlay → DocumentSnapshot
of_overlay uri o = record {
  id = record {
    origin = snapshot_overlay;
    overlay_generation = o.generation;
    workspace_id = "";
    document_generation = 0;
  };
  uri = uri;
  path = o.path;
  text = o.text;
  version = some o.version;
}

abbrev pub of_workspace : String → String → Found → Resolved
of_workspace uri path (found l) = resolved (record {
  id = record {
    origin = snapshot_workspace;
    overlay_generation = 0;
    workspace_id = l.workspace;
    document_generation = l.generation;
  };
  uri = uri;
  path = path;
  text = l.content;
  version = none;
})
of_workspace uri path not_found = unresolved (document_not_open uri)
of_workspace uri path (lookup_failed e) = unresolved (lookup_error e)

abbrev pub is_overlay : SnapshotOrigin → Bool
is_overlay snapshot_overlay = true
is_overlay snapshot_workspace = false

abbrev pub same_origin : SnapshotOrigin → SnapshotOrigin → Bool
same_origin o p = if is_overlay o then is_overlay p else not (is_overlay p)

-- `==` on SnapshotID.
unfoldable pub same_id : SnapshotId → SnapshotId → Bool
same_id a b =
    same_origin a.origin b.origin
    && ((a.overlay_generation == b.overlay_generation)
        && ((same_text a.workspace_id b.workspace_id)
            && (a.document_generation == b.document_generation)))

abbrev pub is_found : SnapshotId → Found → Bool
is_found id (found l) =
    (same_text l.workspace id.workspace_id) && (l.generation == id.document_generation)
is_found id not_found = false
is_found id (lookup_failed e) = false

abbrev pub is_generation : ℕ → Option Overlay → Bool
is_generation n none = false
is_generation n (some o) = o.generation == n

abbrev is_none : Option Overlay → Bool
is_none none = true
is_none (some o) = false

-- What `analyzedDocument` does when its critical section ends: it turns its loop again, or it waits for
-- the entry; the goroutine of `runAnalysis` was started when the flag is set.
pub data Requested : Type 0 where
  again : Requested
  waits : ℕ → Bool → Requested

abbrev pub points_to : Option ℕ → ℕ → Bool
points_to none p = false
points_to (some q) p = q == p

module _ {A : Type 0} where
  unfoldable pub resolve_snapshot :
      (String → Option String) → Service A → Option Error → String → Found → Resolved
  unfolding lookup
  resolve_snapshot path_of s (some e) uri answer = unresolved (context_error e)
  resolve_snapshot path_of s none uri answer = elim (path_of uri) [
    | none ↦ unresolved (uri_error uri)
    | some path ↦ elim (lookup uri s.overlays) [
      | some o ↦ resolved (of_overlay uri o)
      | none ↦ of_workspace uri path answer
    ]
  ]

  unfoldable pub snapshot_current : Service A → DocumentSnapshot → Found → Bool
  unfolding lookup
  snapshot_current s snapshot answer =
      let o = lookup snapshot.uri s.overlays in
      if is_overlay snapshot.id.origin
      then is_generation snapshot.id.overlay_generation o
      else is_none o && is_found snapshot.id answer

  abbrev pub cached : Service A → DocumentSnapshot → Option ℕ → Bool
  cached s snapshot none = false
  cached s snapshot (some p) = elim (get_elem? s.entries p) [
    | none ↦ false
    | some e ↦ same_id e.snapshot.id snapshot.id
  ]

  -- A new entry, in the cache and on the heap.
  unfoldable pub new_entry : Service A → String → DocumentSnapshot → Service A
  unfolding insert
  new_entry s uri snapshot = record s {
    cache = insert uri (length s.entries) s.cache;
    entries =
        s.entries
        ++ record {
          ready = false;
          snapshot = snapshot;
          analyzed = record { analysis = none; err = none };
        }
          ∷ [];
  }

  abbrev pub reuse : Service A → String → DocumentSnapshot → Option ℕ → Service A × Requested
  reuse s uri snapshot none = (new_entry s uri snapshot, waits (length s.entries) true)
  reuse s uri snapshot (some p) =
      if cached s snapshot (some p)
      then (s, waits p false)
      else (new_entry s uri snapshot, waits (length s.entries) true)

  -- The critical section of `analyzedDocument`.
  unfoldable pub request : Service A → String → DocumentSnapshot → Found → Service A × Requested
  unfolding lookup snapshot_current same_id new_entry
  request s uri snapshot answer =
      if snapshot_current s snapshot answer
      then reuse s uri snapshot (lookup uri s.cache)
      else (s, again)

  -- `runAnalysis` before its critical section.
  unfoldable pub analyze_entry :
      (String → String → Analyzed A) → Service A → ℕ → Outcome (Service A)
  analyze_entry analyze s p = elim (get_elem? s.entries p) [
    | none ↦ panic
    | some e ↦ done (record s {
      entries = set s.entries p (record e { analyzed = analyze e.snapshot.path e.snapshot.text });
    })
  ]

  -- Its critical section, with the `close` of the entry's channel.
  unfoldable pub finish_analysis : Service A → String → ℕ → Found → Outcome (Service A)
  unfolding lookup delete snapshot_current
  finish_analysis s uri p answer = elim (get_elem? s.entries p) [
    | none ↦ panic
    | some e ↦
        if e.ready
        then panic
        else done (record s {
          cache =
              if points_to (lookup uri s.cache) p && not (snapshot_current s e.snapshot answer)
              then delete uri s.cache
              else s.cache;
          entries = set s.entries p (record e { ready = true });
        })
  ]

  -- `analyzedDocument` once the entry is ready: the document, or the error.
  unfoldable pub analyzed_document :
      String → AnalysisEntry A → (DocumentSnapshot × A) ⊎ ServiceError
  analyzed_document uri e = elim e.analyzed.analysis [
    | some a ↦ inl (e.snapshot, a)
    | none ↦ elim e.analyzed.err [
      | some err ↦ inr (analysis_error err)
      | none ↦ inr (no_snapshot uri)
    ]
  ]

  unfoldable pub is_current :
      (String → Option String) → Service A → Option Error → String → SnapshotId → Found → Bool
  unfolding snapshot_current
  is_current path_of s (some e) uri id answer = false
  is_current path_of s none uri id answer =
      let path = if is_overlay id.origin then some "" else path_of uri in
      elim path [
        | none ↦ false
        | some path ↦
            snapshot_current s
              (record { id = id; uri = uri; path = path; text = ""; version = none }) answer
      ]

-- ===== src/Examples/Documents.antt =====
-- internal/language/service.go and analysis_cache.go at concrete inputs.
use ferretd.Prelude.{
  ◌≡◌, refl, String, true, Option, none, some, List, [], ◌∷◌, lookup, insert, delete, string_key,
  String-discrete, ℕ_discrete, arith, Outcome, done, panic, get_elem?,
}
use ferretd.Language.Overlays.{
  Service, DocumentSnapshot, pos, Overlay, Analyzed, AnalysisEntry, new_service, open_document,
  change_document, change_overlay,
}
use ferretd.Language.Overlays.Edits.{Changed, change_document-Changed}
use ferretd.Language.AnalysisCache.{
  waits, not_found, of_overlay, resolve_snapshot, request, new_entry, snapshot_current, same_id,
  analyze_entry, finish_analysis,
}
use ferretd.Language.AnalysisCache.Steps.{
  World, Action, opens, changes, resolves, requests, analyzes, finishes, step, run, life,
}
use ferretd.Language.AnalysisCache.Fresh.{FromOverlay, cache_is_fresh}

abbrev path_of : String → Option String
path_of uri = some "/w/a.fql"

abbrev analyze : String → String → Analyzed String
analyze path text = record { analysis = some text; err = none }

-- A document is opened and changed, and a caller resolves it.
abbrev edits : List Action
edits =
    opens none "file:///w/a.fql" (pos 1) "RETURN 1"
    ∷ changes none "file:///w/a.fql" (pos 2) ("RETURN 2" ∷ [])
    ∷ resolves none "file:///w/a.fql" not_found
    ∷ []

-- The document changes again while it is analysed.
abbrev later : List Action
later =
    analyzes 0
    ∷ changes none "file:///w/a.fql" (pos 3) ("RETURN 3" ∷ [])
    ∷ finishes 0 not_found
    ∷ []

abbrev ended : Outcome (World String) → World String
ended (done w) = w
ended panic = record { service = new_service; snapshots = []; running = [] }

abbrev edited : World String
edited = ended (life path_of analyze edits)

abbrev overlay : Overlay
overlay = record {
  uri = "file:///w/a.fql";
  path = "/w/a.fql";
  version = pos 2;
  text = "RETURN 2";
  generation = 2;
}

abbrev snapshot : DocumentSnapshot
snapshot = of_overlay "file:///w/a.fql" overlay

abbrev asked : Service String
asked = (request edited.service "file:///w/a.fql" snapshot not_found).0

abbrev answered : World String
answered = ended (run path_of analyze edited (requests 0 not_found ∷ later))

abbrev entry : AnalysisEntry String
entry = record { ready = true; snapshot = snapshot; analyzed = analyze "/w/a.fql" "RETURN 2" }

run_lem :
    (life path_of analyze edits ≡ done edited)
    × (get_elem? edited.snapshots 0 ≡ some snapshot)
    × (request edited.service "file:///w/a.fql" snapshot not_found ≡ (asked, waits 0 true))
    × (run path_of analyze edited (requests 0 not_found ∷ later) ≡ done answered)
    × (get_elem? answered.service.entries 0 ≡ some entry)
unfolding life run step new_service open_document change_document change_overlay resolve_snapshot
    request new_entry snapshot_current same_id analyze_entry finish_analysis lookup insert delete
    String-discrete ℕ_discrete
run_lem = (refl, refl, refl, refl, refl)

cache_is_fresh_example :
    (same_id entry.snapshot.id snapshot.id ≡ true)
    × (entry.analyzed ≡ analyze entry.snapshot.path entry.snapshot.text)
    × FromOverlay path_of analyze edited.service snapshot entry.snapshot
cache_is_fresh_example =
    cache_is_fresh path_of analyze edits later edited answered snapshot 0 not_found asked 0 true
      entry (omega arith) run_lem.0 run_lem.1 run_lem.2 run_lem.3 run_lem.4 refl

change_document-Changed_example :
    Changed edited.service none "file:///w/a.fql"
      (pos 3)
      "RETURN 3"
      []
      (change_document edited.service none "file:///w/a.fql" (pos 3) ("RETURN 3" ∷ []))
change_document-Changed_example =
    change_document-Changed edited.service none "file:///w/a.fql" (pos 3) "RETURN 3" []

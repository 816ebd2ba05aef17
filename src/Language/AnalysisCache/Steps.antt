-- ===== src/Language/AnalysisCache/Steps.antt =====
-- Edits of overlays, requests for analyses and the goroutines that analyse, in any order.
use ferretd.Prelude.{
  ℕ, String, Bool, true, false, Option, none, some, List, [], ◌∷◌, ◌++◌, Outcome, done, ◌>>=◌,
  get_elem?, lookup, insert, delete, nat_key,
}
use ferretd.Errors.{Error}
use ferretd.Language.Overlays.{
  ℤ, DocumentSnapshot, Analyzed, AnalysisEntry, Service, new_service, open_document,
  change_document, close_document,
}
use ferretd.Language.AnalysisCache.{
  Found, Resolved, resolved, unresolved, Requested, again, waits, resolve_snapshot, request,
  analyze_entry, finish_analysis,
}

-- `snapshots` are those that callers have resolved, and `running` the goroutines by their entries: whether
-- the analysis is done.
pub record World (A : Type 0) : Type 0 where
  pub service : Service A
  pub snapshots : List DocumentSnapshot
  pub running : List (ℕ × Bool)

-- The context's error, if any, comes first; `requests` takes the snapshot at a position of `snapshots`.
pub data Action : Type 0 where
  opens : Option Error → String → ℤ → String → Action
  changes : Option Error → String → ℤ → List String → Action
  closes : Option Error → String → Action
  resolves : Option Error → String → Found → Action
  requests : ℕ → Found → Action
  analyzes : ℕ → Action
  finishes : ℕ → Found → Action

module _ {A : Type 0} (path_of : String → Option String)
    (analyze : String → String → Analyzed A) where
  abbrev pub with_service : World A → Service A → World A
  with_service w s = record w { service = s }

  abbrev pub keep_snapshot : World A → Resolved → World A
  keep_snapshot w (resolved x) = record w { snapshots = w.snapshots ++ x ∷ [] }
  keep_snapshot w (unresolved e) = w

  abbrev pub after_request : World A → Service A × Requested → World A
  after_request w (s, again) = record w { service = s }
  after_request w (s, waits p true) = record w { service = s; running = insert p false w.running }
  after_request w (s, waits p false) = record w { service = s }

  abbrev pub requested : World A → Option DocumentSnapshot → Found → World A
  requested w none answer = w
  requested w (some x) answer = after_request w (request w.service x.uri x answer)

  abbrev pub analyzed : World A → ℕ → Option Bool → Outcome (World A)
  analyzed w p (some false) = do
    s ← analyze_entry analyze w.service p
    done (record w { service = s; running = insert p true w.running })
  analyzed w p (some true) = done w
  analyzed w p none = done w

  abbrev pub uri_of : Option (AnalysisEntry A) → String
  uri_of none = ""
  uri_of (some e) = e.snapshot.uri

  abbrev pub finished : World A → ℕ → Found → Option Bool → Outcome (World A)
  finished w p answer (some true) = do
    s ← finish_analysis w.service (uri_of (get_elem? w.service.entries p)) p answer
    done (record w { service = s; running = delete p w.running })
  finished w p answer (some false) = done w
  finished w p answer none = done w

  -- What is not enabled changes nothing: a goroutine analyses its entry once and then ends.
  unfoldable pub step : World A → Action → Outcome (World A)
  step w (opens err uri version text) =
      done (with_service w (open_document path_of w.service err uri version text).0)
  step w (changes err uri version texts) =
      done (with_service w (change_document w.service err uri version texts).0)
  step w (closes err uri) = done (with_service w (close_document w.service err uri).0)
  step w (resolves err uri answer) =
      done (keep_snapshot w (resolve_snapshot path_of w.service err uri answer))
  step w (requests i answer) = done (requested w (get_elem? w.snapshots i) answer)
  step w (analyzes p) = analyzed w p (lookup p w.running)
  step w (finishes p answer) = finished w p answer (lookup p w.running)

  unfoldable pub run : World A → List Action → Outcome (World A)
  run w [] = done w
  run w (a ∷ rest) = do v ← step w a; run v rest

  -- A new service and what happens to it.
  unfoldable pub life : List Action → Outcome (World A)
  life actions = run (record { service = new_service; snapshots = []; running = [] }) actions

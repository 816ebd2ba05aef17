-- ===== src/Language/AnalysisCache/Preserves.antt =====
-- What every step of the service keeps, and that none panics.
use ferretd.Prelude.{
  All-map, ◌⊎◌, inl, inr, ℕ, ◌+◌, ◌^◌, ◌≤◌, ◌<◌, ◌≡◌, ◌≢◌, refl, sym, ap, ◌∙◌, subst, String, Bool,
  true, false, Option, none, some, List, [], ◌∷◌, ◌++◌, length, get_elem?, set, lookup, insert,
  delete, string_key, nat_key, found_after_insert, found_after_delete, All, All-append, All-set,
  All-get_elem?, get-append, get-append_last, get-set_self, get-set_ne, arith, Ensures,
  Ensures-bind, Ensures-mono, some-same, none-some, ℕ_discrete, if◌then◌else◌,
}
use ferretd.Errors.{Error}
use ferretd.Language.Overlays.{
  Overlay, DocumentSnapshot, Analyzed, AnalysisEntry, Service, new_service,
}
use ferretd.Language.AnalysisCache.{
  Found, found, not_found, lookup_failed, Resolved, resolved, unresolved, of_overlay, of_workspace,
  resolve_snapshot, reuse, cached, new_entry, request, snapshot_current, analyze_entry,
  finish_analysis,
}
use ferretd.Language.AnalysisCache.Steps.{
  World, Action, opens, changes, closes, resolves, requests, analyzes, finishes, with_service,
  keep_snapshot, after_request, requested, analyzed, finished, step, run, life,
}
use ferretd.Language.AnalysisCache.Invariant.{
  Bounded, Fits, Edited, open_document-Edited, change_document-Edited, close_document-Edited,
}

kept_in :
    (b : Bool) (key uri : String) (q : ℕ) (cache : List (String × ℕ))
    → lookup uri (if b then delete key cache else cache) ≡ some q
    → lookup uri cache ≡ some q
kept_in true key uri q cache e = (found_after_delete key uri q cache e).1
kept_in false key uri q cache e = e

module _ {A : Type 0} (path_of : String → Option String)
    (analyze : String → String → Analyzed A) where
  abbrev pub Correct : AnalysisEntry A → Type 0
  Correct e = e.analyzed ≡ analyze e.snapshot.path e.snapshot.text

  abbrev pub Held : ℕ → List (String × Overlay) → AnalysisEntry A → Type 0
  Held n os e = Fits n os e.snapshot × (e.ready ≡ true → Correct e)

  -- A goroutine's entry is there and not ready, and holds the analysis once it is done.
  abbrev pub Alive : List (AnalysisEntry A) → ℕ → Bool → Type 0
  Alive es p b =
      (e : AnalysisEntry A) × (get_elem? es p ≡ some e) × (e.ready ≡ false) × (b ≡ true → Correct e)

  -- The cache of a document holds an entry of that document.
  abbrev pub Filed : List (String × ℕ) → List (AnalysisEntry A) → Type 0
  Filed cache es =
      (uri : String) (p : ℕ)
      → lookup uri cache ≡ some p
      → (e : AnalysisEntry A) × (get_elem? es p ≡ some e) × (e.snapshot.uri ≡ uri)

  -- An entry stays, with the snapshot that it was made for.
  abbrev pub Remains : List (AnalysisEntry A) → List (AnalysisEntry A) → Type 0
  Remains base es =
      (p : ℕ) (e : AnalysisEntry A)
      → get_elem? base p ≡ some e
      → (f : AnalysisEntry A) × (get_elem? es p ≡ some f) × (f.snapshot ≡ e.snapshot)

  pub record Inv (base : List (AnalysisEntry A)) (m : ℕ) (w : World A) : Type 0 where
    pub below : w.service.generation ≤ m
    pub bounded : Bounded w.service.generation w.service.overlays
    pub snapshots : All (Fits w.service.generation w.service.overlays) w.snapshots
    pub held : All (Held w.service.generation w.service.overlays) w.service.entries
    pub filed : Filed w.service.cache w.service.entries
    pub remains : Remains base w.service.entries
    pub alive : (p : ℕ) (b : Bool) → lookup p w.running ≡ some b → Alive w.service.entries p b

  edited-Inv :
      (base : List (AnalysisEntry A)) (m : ℕ) (w : World A) (t : Service A)
      → Edited w.service t
      → Inv base m w
      → Inv base (m + 1) (with_service path_of analyze w t)
  edited-Inv base m w t e v =
      let old = Fits w.service.generation w.service.overlays in
      record {
        below = (let a = e.below in let b = v.below in omega (arith, a, b));
        bounded = e.bounded v.bounded;
        snapshots = All-map old (Fits t.generation t.overlays) w.snapshots e.fits v.snapshots;
        held = subst (All (Held t.generation t.overlays)) (sym e.entries) (
            All-map (Held w.service.generation w.service.overlays) (Held t.generation t.overlays)
              w.service.entries (λ x h. (e.fits x.snapshot h.0, h.1)) v.held);
        filed = λ uri p i.
            subst (λ es. (f : AnalysisEntry A) × (get_elem? es p ≡ some f) × (f.snapshot.uri ≡ uri))
              (sym e.entries) (v.filed uri p (e.cache uri p i));
        remains = subst (Remains base) (sym e.entries) v.remains;
        alive = λ p b r. subst (λ es. Alive es p b) (sym e.entries) (v.alive p b r);
      }

  abbrev FitsIn : Service A → Resolved → Type 0
  FitsIn s (resolved x) = Fits s.generation s.overlays x
  FitsIn s (unresolved e) = Unit

  of_overlay-Fits :
      (s : Service A) (uri : String) (o : Overlay)
      → Bounded s.generation s.overlays
      → lookup uri s.overlays ≡ some o
      → Fits s.generation s.overlays (of_overlay uri o)
  of_overlay-Fits s uri o b e i = (
    b uri o e,
    λ p f same.
        let q = some-same (sym e ∙ f) in
        (ap (λ (x : Overlay). x.path) q, ap (λ (x : Overlay). x.text) q),
  )

  of_workspace-Fits :
      (s : Service A) (uri path : String) (answer : Found) → FitsIn s (of_workspace uri path answer)
  of_workspace-Fits s uri path (found l) = λ i. cc
  of_workspace-Fits s uri path not_found = tt
  of_workspace-Fits s uri path (lookup_failed e) = tt

  resolve_snapshot-Fits :
      (s : Service A) (err : Option Error) (uri : String) (answer : Found)
      → Bounded s.generation s.overlays
      → FitsIn s (resolve_snapshot path_of s err uri answer)
  unfolding resolve_snapshot
  resolve_snapshot-Fits s (some e) uri answer b = tt
  resolve_snapshot-Fits s none uri answer b = at (path_of uri) (lookup uri s.overlays) refl refl
    where
      at :
          (path : Option String) (o : Option Overlay)
          → path_of uri ≡ path
          → lookup uri s.overlays ≡ o
          → FitsIn s (resolve_snapshot path_of s none uri answer)
      at none o e f = rw (e, resolve_snapshot) tt
      at (some path) none e f = rw (e, f, resolve_snapshot) (of_workspace-Fits s uri path answer)
      at (some path) (some o) e f = rw (e, f, resolve_snapshot) (of_overlay-Fits s uri o b f)

  keep_snapshot-Inv :
      (base : List (AnalysisEntry A)) (m : ℕ) (w : World A) (r : Resolved)
      → FitsIn w.service r
      → Inv base m w
      → Inv base m (keep_snapshot path_of analyze w r)
  keep_snapshot-Inv base m w (unresolved e) f v = v
  keep_snapshot-Inv base m w (resolved x) f v = record {
    below = v.below;
    bounded = v.bounded;
    snapshots =
        All-append (Fits w.service.generation w.service.overlays) w.snapshots (x ∷ []) v.snapshots
          (f, tt);
    held = v.held;
    filed = v.filed;
    remains = v.remains;
    alive = v.alive;
  }

  new_entry-Inv :
      (base : List (AnalysisEntry A)) (m : ℕ) (w : World A) (x : DocumentSnapshot)
      → Fits w.service.generation w.service.overlays x
      → Inv base m w
      → Inv base m (record w {
        service = new_entry w.service x.uri x;
        running = insert (length w.service.entries) false w.running;
      })
  unfolding new_entry
  new_entry-Inv base m w x f v =
      let es = w.service.entries in
      let e : AnalysisEntry A = record {
        ready = false;
        snapshot = x;
        analyzed = record { analysis = none; err = none };
      } in
      record {
        below = v.below;
        bounded = v.bounded;
        snapshots = v.snapshots;
        held =
            All-append (Held w.service.generation w.service.overlays) es (e ∷ []) v.held
              ((f, λ n. cc), tt);
        filed = λ other p i. elim (found_after_insert x.uri other (length es) p w.service.cache i) [
          | inl (at, new) ↦ (
            e,
            subst (λ q. get_elem? (es ++ e ∷ []) q ≡ some e) (sym new) (get-append_last es e),
            at,
          )
          | inr (n, old) ↦
              (let (d, g, same) = v.filed other p old in (d, get-append es (e ∷ []) p d g, same))
        ];
        remains =
            λ p d g. let (f, i, same) = v.remains p d g in (f, get-append es (e ∷ []) p f i, same);
        alive = λ p b r. elim (found_after_insert (length es) p false b w.running r) [
          | inl (at, new) ↦
              subst (λ q. Alive (es ++ e ∷ []) q b) at (e, get-append_last es e, refl, λ t. cc)
          | inr (n, old) ↦
              (let (d, g, i, c) = v.alive p b old in (d, get-append es (e ∷ []) p d g, i, c))
        ];
      }

  reuse-Inv :
      (base : List (AnalysisEntry A)) (m : ℕ) (w : World A) (x : DocumentSnapshot) (o : Option ℕ)
      → Fits w.service.generation w.service.overlays x
      → Inv base m w
      → Inv base m (after_request path_of analyze w (reuse w.service x.uri x o))
  reuse-Inv base m w x none f v = new_entry-Inv base m w x f v
  reuse-Inv base m w x (some p) f v = at (cached w.service x (some p)) refl
    where
      at :
          (b : Bool)
          → cached w.service x (some p) ≡ b
          → Inv base m (after_request path_of analyze w (reuse w.service x.uri x (some p)))
      at true e = rw (e) v
      at false e = rw (e) (new_entry-Inv base m w x f v)

  request-Inv :
      (base : List (AnalysisEntry A)) (m : ℕ) (w : World A) (x : DocumentSnapshot) (answer : Found)
      → Fits w.service.generation w.service.overlays x
      → Inv base m w
      → Inv base m (after_request path_of analyze w (request w.service x.uri x answer))
  unfolding request
  request-Inv base m w x answer f v = at (snapshot_current w.service x answer) refl
    where
      at :
          (b : Bool)
          → snapshot_current w.service x answer ≡ b
          → Inv base m (after_request path_of analyze w (request w.service x.uri x answer))
      at true e = rw (e, request) (reuse-Inv base m w x (lookup x.uri w.service.cache) f v)
      at false e = rw (e, request) v

  requested-Inv :
      (base : List (AnalysisEntry A)) (m : ℕ) (w : World A) (o : Option DocumentSnapshot) (i : ℕ)
      (answer : Found)
      → get_elem? w.snapshots i ≡ o
      → Inv base m w
      → Inv base m (requested path_of analyze w o answer)
  requested-Inv base m w none i answer e v = v
  requested-Inv base m w (some x) i answer e v =
      request-Inv base m w x answer
        (All-get_elem? (Fits w.service.generation w.service.overlays) w.snapshots i x v.snapshots e)
        v

  set-Remains :
      (es : List (AnalysisEntry A)) (p : ℕ) (e f : AnalysisEntry A)
      → get_elem? es p ≡ some e
      → f.snapshot ≡ e.snapshot
      → Remains es (set es p f)
  set-Remains es p e f g same q d i = elim (ℕ_discrete p q) [
    | yes at ↦ (
      f,
      subst (λ k. get_elem? (set es p f) k ≡ some f) at (get-set_self es p f e g),
      same
          ∙ ap (λ (y : AnalysisEntry A). y.snapshot)
              (some-same (sym g ∙ (ap (get_elem? es) at ∙ i))),
    )
    | no n ↦ (d, get-set_ne es p q f n ∙ i, refl)
  ]

  -- An entry is overwritten by one of the same snapshot, and its goroutine goes on or ends.
  set-Inv :
      (base : List (AnalysisEntry A)) (m : ℕ) (w : World A) (p : ℕ) (e f : AnalysisEntry A)
      (cache : List (String × ℕ)) (running : List (ℕ × Bool))
      → Inv base m w
      → get_elem? w.service.entries p ≡ some e
      → f.snapshot ≡ e.snapshot
      → (f.ready ≡ true → Correct f)
      → ((uri : String) (q : ℕ) → lookup uri cache ≡ some q → lookup uri w.service.cache ≡ some q)
      → ((q : ℕ) (b : Bool)
          → lookup q running ≡ some b
          → ((p ≡ q) × (f.ready ≡ false) × (b ≡ true → Correct f))
            ⊎ ((p ≢ q) × (lookup q w.running ≡ some b)))
      → Inv base m (record w {
        service = record w.service { cache = cache; entries = set w.service.entries p f };
        running = running;
      })
  set-Inv base m w p e f cache running v g same c fewer moves =
      let es = w.service.entries in
      let H = Held w.service.generation w.service.overlays in
      record {
        below = v.below;
        bounded = v.bounded;
        snapshots = v.snapshots;
        held =
            All-set H es p f
              (
                subst (Fits w.service.generation w.service.overlays) (sym same)
                    (All-get_elem? H es p e v.held g).0,
                c,
              )
              v.held;
        filed = λ uri q i.
            let (d, j, at) = v.filed uri q (fewer uri q i) in
            let (x, k, kept) = set-Remains es p e f g same q d j in
            (x, k, ap (λ (y : DocumentSnapshot). y.uri) kept ∙ at);
        remains = λ q d i.
            let (x, j, at) = v.remains q d i in
            let (y, k, kept) = set-Remains es p e f g same q x j in (y, k, kept ∙ at);
        alive = λ q b r. elim (moves q b r) [
          | inl (at, ready, correct) ↦
              subst (λ k. Alive (set es p f) k b) at (f, get-set_self es p f e g, ready, correct)
          | inr (n, old) ↦
              (let (d, i, k, j) = v.alive q b old in (d, get-set_ne es p q f n ∙ i, k, j))
        ];
      }

  analyzed-Inv :
      (base : List (AnalysisEntry A)) (m : ℕ) (w : World A) (p : ℕ) (o : Option Bool)
      → lookup p w.running ≡ o
      → Inv base m w
      → Ensures (Inv base m) (analyzed path_of analyze w p o)
  unfolding analyze_entry
  analyzed-Inv base m w p none r v = v
  analyzed-Inv base m w p (some true) r v = v
  analyzed-Inv base m w p (some false) r v =
      let (e, g, n, c) = v.alive p false r in
      let f : AnalysisEntry A = record e { analyzed = analyze e.snapshot.path e.snapshot.text } in
      rw (g, analyze_entry)
        (set-Inv base m w p e f w.service.cache (insert p true w.running) v g refl (λ t. refl)
          (λ uri q i. i)
          (λ q b s. elim (found_after_insert p q true b w.running s) [
            | inl (at, new) ↦ inl (at, n, λ t. refl)
            | inr old ↦ inr old
          ]))

  finished-Inv :
      (base : List (AnalysisEntry A)) (m : ℕ) (w : World A) (p : ℕ) (answer : Found)
      (o : Option Bool)
      → lookup p w.running ≡ o
      → Inv base m w
      → Ensures (Inv base m) (finished path_of analyze w p answer o)
  unfolding finish_analysis
  finished-Inv base m w p answer none r v = v
  finished-Inv base m w p answer (some false) r v = v
  finished-Inv base m w p answer (some true) r v =
      let (e, g, n, c) = v.alive p true r in
      let f : AnalysisEntry A = record e { ready = true } in
      rw (g, n, finish_analysis)
        (set-Inv base m w p e f _ (delete p w.running) v g refl (λ t. c refl)
          (λ uri q i. kept_in _ _ uri q w.service.cache i)
          (λ q b s. inr (found_after_delete p q b w.running s)))

  later : (base : List (AnalysisEntry A)) (m : ℕ) (w : World A) → Inv base m w → Inv base (m + 1) w
  later base m w v = record {
    below = (let b = v.below in omega (arith, b));
    bounded = v.bounded;
    snapshots = v.snapshots;
    held = v.held;
    filed = v.filed;
    remains = v.remains;
    alive = v.alive;
  }

  pub step-Inv :
      (base : List (AnalysisEntry A)) (m : ℕ) (w : World A) (a : Action)
      → m + 1 < 2 ^ 64
      → Inv base m w
      → Ensures (Inv base (m + 1)) (step path_of analyze w a)
  unfolding step
  step-Inv base m w (opens err uri version text) room v =
      let b = v.below in
      edited-Inv base m w _
        (open_document-Edited path_of w.service err uri version text (omega (arith, room, b))) v
  step-Inv base m w (changes err uri version texts) room v =
      let b = v.below in
      edited-Inv base m w _
        (change_document-Edited w.service err uri version texts (omega (arith, room, b))) v
  step-Inv base m w (closes err uri) room v =
      edited-Inv base m w _ (close_document-Edited w.service err uri) v
  step-Inv base m w (resolves err uri answer) room v = later base m _ (
      keep_snapshot-Inv base m w (resolve_snapshot path_of w.service err uri answer)
        (resolve_snapshot-Fits w.service err uri answer v.bounded) v)
  step-Inv base m w (requests i answer) room v =
      later base m _ (requested-Inv base m w (get_elem? w.snapshots i) i answer refl v)
  step-Inv base m w (analyzes p) room v =
      Ensures-mono (Inv base m) (Inv base (m + 1))
        (analyzed path_of analyze w p (lookup p w.running)) (later base m)
        (analyzed-Inv base m w p (lookup p w.running) refl v)
  step-Inv base m w (finishes p answer) room v =
      Ensures-mono (Inv base m) (Inv base (m + 1))
        (finished path_of analyze w p answer (lookup p w.running)) (later base m)
        (finished-Inv base m w p answer (lookup p w.running) refl v)

  pub run-Inv :
      (base : List (AnalysisEntry A)) (m : ℕ) (w : World A) (actions : List Action)
      → m + length actions < 2 ^ 64
      → Inv base m w
      → Ensures (λ u. Inv base (m + length actions) u) (run path_of analyze w actions)
  unfolding run
  run-Inv base m w [] room v = subst (λ k. Inv base k w) (omega arith) v
  run-Inv base m w (a ∷ rest) room v =
      Ensures-bind (Inv base (m + 1)) (Inv base (m + length (a ∷ rest))) (step path_of analyze w a)
        _ (step-Inv base m w a (omega (arith, room)) v)
        (λ u i.
          subst (λ k. Ensures (Inv base k) (run path_of analyze u rest)) (omega arith)
            (run-Inv base (m + 1) u rest (omega (arith, room)) i))

  pub life-Inv :
      (actions : List Action)
      → length actions < 2 ^ 64
      → Ensures (Inv [] (length actions)) (life path_of analyze actions)
  unfolding life new_service lookup
  life-Inv actions room =
      subst (λ k. Ensures (Inv [] k) (life path_of analyze actions)) (omega arith)
        (run-Inv [] 0 (record { service = new_service; snapshots = []; running = [] }) actions
          (omega (arith, room))
          (record {
            below = omega arith;
            bounded = λ uri o e. absurd (none-some e);
            snapshots = tt;
            held = tt;
            filed = λ uri p e. absurd (none-some e);
            remains = λ p e i. absurd (none-some i);
            alive = λ p b e. absurd (none-some e);
          }))

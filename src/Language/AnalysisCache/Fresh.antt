-- ===== src/Language/AnalysisCache/Fresh.antt =====
-- What a caller that requests an analysis is answered.
use ferretd.Prelude.{
  same_text_refl, Bool-cases, inl, inr, ◌⊎◌, ℕ, ◌+◌, ◌^◌, ◌<◌, ◌≡◌, ◌≢◌, refl, sym, ap, ◌∙◌, subst,
  String, Bool, true, false, Option, none, some, List, [], ◌∷◌, length, get_elem?, lookup,
  string_key, nat_key, All-get_elem?, get-append_last, arith, done, panic, Ensures, some-same,
}
use ferretd.Language.Overlays.{
  SnapshotId, Overlay, DocumentSnapshot, Analyzed, AnalysisEntry, Service,
}
use ferretd.Language.AnalysisCache.{
  same_id, Requested, again, waits, Found, is_overlay, reuse, cached, new_entry, request,
  snapshot_current,
}
use ferretd.Language.AnalysisCache.Steps.{World, Action, requests, after_request, step, run, life}
use ferretd.Language.AnalysisCache.Invariant.{Fits}
use ferretd.Language.AnalysisCache.Preserves.{Held, Inv, run-Inv, life-Inv, step-Inv}

module _ {A : Type 0} (path_of : String → Option String)
    (analyze : String → String → Analyzed A) where
  -- In every order of fewer than 2^64 actions no panic is raised: a goroutine finds its entry, and closes its
  -- channel once.
  pub cache_never_panics :
      (actions : List Action) → length actions < 2 ^ 64 → life path_of analyze actions ≢ panic
  cache_never_panics actions room e =
      subst (Ensures (Inv path_of analyze [] (length actions))) e
        (life-Inv path_of analyze actions room)

  -- The snapshot of an overlay has the text of the one that is open.
  abbrev pub FromOverlay : Service A → DocumentSnapshot → DocumentSnapshot → Type 0
  FromOverlay s x y =
      (is_overlay x.id.origin ≡ false)
      ⊎ ((o : Overlay) × (lookup x.uri s.overlays ≡ some o) × (y.path ≡ o.path) × (y.text ≡ o.text))

  -- What a caller waits for: an entry that was made for what it asked for.
  abbrev Promised : Service A → DocumentSnapshot → Service A × Requested → Type 0
  Promised s x (t, again) = Unit
  Promised s x (t, waits p started) =
      (e : AnalysisEntry A) × (get_elem? t.entries p ≡ some e)
      × (same_id e.snapshot.id x.id ≡ true)
      × FromOverlay s x e.snapshot

  same_id_refl : (a : SnapshotId) → same_id a a ≡ true
  unfolding same_id
  same_id_refl a = ground (arith, same_text_refl a.workspace_id)

  -- A snapshot of an overlay that is current is the overlay's.
  current_overlay :
      (s : Service A) (x : DocumentSnapshot) (answer : Found)
      → is_overlay x.id.origin ≡ true
      → snapshot_current s x answer ≡ true
      → (o : Overlay) × (lookup x.uri s.overlays ≡ some o)
        × (o.generation ≡ x.id.overlay_generation)
  unfolding snapshot_current
  current_overlay s x answer overlay now = at (lookup x.uri s.overlays) refl
    where
      at :
          (o : Option Overlay)
          → lookup x.uri s.overlays ≡ o
          → (o : Overlay) × (lookup x.uri s.overlays ≡ some o)
            × (o.generation ≡ x.id.overlay_generation)
      at none e = absurd (ground (arith, overlay, now, e))
      at (some o) e = (o, e, ground (arith, overlay, now, e))

  same_overlay :
      (a b : SnapshotId)
      → is_overlay b.origin ≡ true
      → same_id a b ≡ true
      → (is_overlay a.origin ≡ true) × (a.overlay_generation ≡ b.overlay_generation)
  unfolding same_id
  same_overlay a b overlay same = (ground (arith, overlay, same), ground (arith, overlay, same))

  -- Of a snapshot that fits and is current, one with the same identifier is from the overlay that is open.
  same_id-FromOverlay :
      (s : Service A) (x y : DocumentSnapshot) (answer : Found)
      → snapshot_current s x answer ≡ true
      → same_id y.id x.id ≡ true
      → y.uri ≡ x.uri
      → Fits s.generation s.overlays y
      → FromOverlay s x y
  same_id-FromOverlay s x y answer now same at f = elim (Bool-cases (is_overlay x.id.origin)) [
    | inl overlay ↦
        let (o, found_o, current) = current_overlay s x answer overlay now in
        let (origin, gen) = same_overlay y.id x.id overlay same in
        let here = subst (λ k. lookup k s.overlays ≡ some o) (sym at) found_o in
        let (path, text) = (f origin).1 o here (current ∙ sym gen) in inr (o, found_o, path, text)
    | inr other ↦ inl other
  ]

  new_entry-Promised :
      (w : World A) (x : DocumentSnapshot) (answer : Found)
      → snapshot_current w.service x answer ≡ true
      → Fits w.service.generation w.service.overlays x
      → Promised w.service x (new_entry w.service x.uri x, waits (length w.service.entries) true)
  unfolding new_entry
  new_entry-Promised w x answer now f = (
    _,
    get-append_last w.service.entries _,
    same_id_refl x.id,
    same_id-FromOverlay w.service x x answer now (same_id_refl x.id) refl f,
  )

  reuse-Promised :
      (m : ℕ) (w : World A) (x : DocumentSnapshot) (answer : Found)
      → snapshot_current w.service x answer ≡ true
      → Fits w.service.generation w.service.overlays x
      → Inv path_of analyze [] m w
      → (c : Option ℕ) → lookup x.uri w.service.cache ≡ c
      → Promised w.service x (reuse w.service x.uri x c)
  reuse-Promised m w x answer now f v none c = new_entry-Promised w x answer now f
  reuse-Promised m w x answer now f v (some p) c =
      let (e, g, at) = v.filed x.uri p c in found_entry e g at (cached w.service x (some p)) refl
    where
      found_entry :
          (e : AnalysisEntry A)
          → get_elem? w.service.entries p ≡ some e
          → e.snapshot.uri ≡ x.uri
          → (b : Bool) → cached w.service x (some p) ≡ b
          → Promised w.service x (reuse w.service x.uri x (some p))
      found_entry e g at true h =
          let pick : Option (AnalysisEntry A) → Bool =
            λ c. elim c [ none ↦ false | some d ↦ same_id d.snapshot.id x.id ] in
          let same : same_id e.snapshot.id x.id ≡ true = sym (ap pick g) ∙ h in
          let fits =
            (All-get_elem? (Held path_of analyze w.service.generation w.service.overlays)
              w.service.entries p e v.held g).0 in
          rw (h) (e, g, same, same_id-FromOverlay w.service x e.snapshot answer now same at fits)
      found_entry e g at false h = rw (h) (new_entry-Promised w x answer now f)

  request-Promised :
      (m : ℕ) (w : World A) (x : DocumentSnapshot) (answer : Found)
      → Fits w.service.generation w.service.overlays x
      → Inv path_of analyze [] m w
      → Promised w.service x (request w.service x.uri x answer)
  unfolding request
  request-Promised m w x answer f v = at (snapshot_current w.service x answer) refl
    where
      at :
          (b : Bool)
          → snapshot_current w.service x answer ≡ b
          → Promised w.service x (request w.service x.uri x answer)
      at true e =
          rw (e, request) (reuse-Promised m w x answer e f v (lookup x.uri w.service.cache) refl)
      at false e = rw (e, request) tt

  -- The rest of the life after a request, with the entries as the request left them.
  restarted :
      (m : ℕ) (w : World A) → Inv path_of analyze [] m w → Inv path_of analyze w.service.entries m w
  restarted m w v = record {
    below = v.below;
    bounded = v.bounded;
    snapshots = v.snapshots;
    held = v.held;
    filed = v.filed;
    remains = λ p e g. (e, g, refl);
    alive = v.alive;
  }

  -- The service after a request, and the entry that it promised.
  requested_lem :
      (w : World A) (x : DocumentSnapshot) (i : ℕ) (answer : Found) (t : Service A) (p : ℕ)
      (started : Bool)
      → get_elem? w.snapshots i ≡ some x
      → request w.service x.uri x answer ≡ (t, waits p started)
      → (v : World A) × (v.service ≡ t)
        × ((later : List Action)
            → run path_of analyze w (requests i answer ∷ later) ≡ run path_of analyze v later)
        × (step path_of analyze w (requests i answer) ≡ done v)
  unfolding run step
  requested_lem w x i answer t p true at asked = (
    after_request path_of analyze w (t, waits p true),
    refl,
    (λ later. rw (at, asked) refl),
    rw (at, asked) refl,
  )
  requested_lem w x i answer t p false at asked = (
    after_request path_of analyze w (t, waits p false),
    refl,
    (λ later. rw (at, asked) refl),
    rw (at, asked) refl,
  )

  -- A caller resolves a snapshot and asks for its analysis, in a life of fewer than 2^64 actions. If the
  -- request answers an entry to wait for, new or cached, then whatever happens afterwards, once that entry
  -- is ready: it was made for the identifier that the caller asked for, it holds what Analyze gives for
  -- its own text directly, and if the snapshot is one of an overlay, this is the text of the overlay that
  -- was open when the caller asked.
  pub cache_is_fresh :
      (before later : List Action) (w u : World A) (x : DocumentSnapshot) (i : ℕ) (answer : Found)
      (t : Service A) (p : ℕ) (started : Bool) (e : AnalysisEntry A)
      → length before + length (requests i answer ∷ later) < 2 ^ 64
      → life path_of analyze before ≡ done w
      → get_elem? w.snapshots i ≡ some x
      → request w.service x.uri x answer ≡ (t, waits p started)
      → run path_of analyze w (requests i answer ∷ later) ≡ done u
      → get_elem? u.service.entries p ≡ some e
      → e.ready ≡ true
      → (same_id e.snapshot.id x.id ≡ true)
        × (e.analyzed ≡ analyze e.snapshot.path e.snapshot.text)
        × FromOverlay w.service x e.snapshot
  cache_is_fresh before later w u x i answer t p started e room reached at asked ran there ready =
      let m = length before in
      let iw : Inv path_of analyze [] m w =
        subst (Ensures (Inv path_of analyze [] m)) reached
          (life-Inv path_of analyze before (omega (arith, room))) in
      let fits =
        All-get_elem? (Fits w.service.generation w.service.overlays) w.snapshots i x iw.snapshots
          at in
      let (d, g, same_d, origin) =
        subst (Promised w.service x) asked (request-Promised m w x answer fits iw) in
      let (v, same, go, stepped) = requested_lem w x i answer t p started at asked in
      let iv : Inv path_of analyze [] (m + 1) v =
        subst (Ensures (Inv path_of analyze [] (m + 1))) stepped
          (step-Inv path_of analyze [] m w (requests i answer) (omega (arith, room)) iw) in
      let iu : Inv path_of analyze v.service.entries (m + 1 + length later) u =
        subst (Ensures (Inv path_of analyze v.service.entries (m + 1 + length later)))
          (sym (go later) ∙ ran)
          (run-Inv path_of analyze v.service.entries (m + 1) v later (omega (arith, room))
            (restarted (m + 1) v iv)) in
      let (f, i', kept) =
        iu.remains p d (subst (λ s. get_elem? s.entries p ≡ some d) (sym same) g) in
      let e_f : e ≡ f = some-same (sym there ∙ i') in
      let shot : e.snapshot ≡ d.snapshot = ap (λ (y : AnalysisEntry A). y.snapshot) e_f ∙ kept in
      let c =
        (All-get_elem? (Held path_of analyze u.service.generation u.service.overlays)
            u.service.entries p e iu.held there).1
          ready in
      (
        ap (λ (y : DocumentSnapshot). same_id y.id x.id) shot ∙ same_d,
        c,
        subst (FromOverlay w.service x) (sym shot) origin,
      )

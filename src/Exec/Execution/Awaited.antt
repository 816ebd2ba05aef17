-- ===== src/Exec/Execution/Awaited.antt =====
-- What a subscriber that waits finds: the watcher of one subscription, from a call to the next.
use ferretd.Prelude.{
  ℕ, suc, ◌≤◌, sym, ◌∙◌, ◌≡◌, refl, ◌⊎◌, inl, inr, Bool, true, false, some, List, [], ◌∷◌, ◌++◌,
  Ensures, arith, nat_key, lookup, none-some, some-same, subst, ℕ_discrete, if_pos, if_neg,
}
use ferretd.Exec.Snapshots.{Event, clone_event}
use ferretd.Exec.Execution.Watchers.{
  EventWatcher, deliver, deliver_all, live, released, close_watcher,
}
use ferretd.Exec.Execution.Streams.{Follows, Follows-append, IsCurrent, AllCurrent, length-Follows}
use ferretd.Exec.Execution.{Execution, snapshot, notify, publish}
use ferretd.Exec.Execution.Invariant.{counts, kind_of, Ready, Ranked-le}

-- The map's watcher `id` holds the events from number `n` up to the last one published.
abbrev pub Listening : ℕ → ℕ → Execution → Type 0
Listening id n e =
    (w : EventWatcher) × (lookup id e.watchers ≡ some w) × Follows n w.events e.sequence

-- The run is over, and the watcher that was removed still holds all of them.
abbrev pub Dismissed : ℕ → ℕ → Execution → Type 0
Dismissed id n e =
    (e.run_done ≡ true)
    × ((w : EventWatcher) × (lookup id e.detached ≡ some w) × Follows n w.events e.sequence)

abbrev pub Awaits : ℕ → ℕ → Execution → Type 0
Awaits id n e = Listening id n e ⊎ Dismissed id n e

-- The identity is one of those given out, and `k` counts at least as many.
abbrev pub Waiting : ℕ → ℕ → ℕ → Execution → Type 0
Waiting id n k e = (id ≤ e.next_watcher) × (e.next_watcher ≤ k) × Awaits id n e

-- A delivery with room in the channel appends the event.
deliver-Follows :
    (n last : ℕ) (event : Event) (b : Bool) (w : EventWatcher)
    → last ≤ 8
    → event.sequence ≡ suc last
    → IsCurrent last w
    → Follows n w.events last
    → ((deliver event b w).closed ≡ b) × Follows n (deliver event b w).events (suc last)
unfolding deliver close_watcher clone_event
deliver-Follows n last event true w b s (c, r, (m, two, g)) f =
    let fits = length-Follows m w.events last g in
    (ground arith, ground (arith, Follows-append n w.events last (clone_event event) f s))
deliver-Follows n last event false w b s (c, r, (m, two, g)) f =
    let fits = length-Follows m w.events last g in
    (ground arith, ground (arith, Follows-append n w.events last (clone_event event) f s))

-- The watchers that stay, or those that leave, of a list of deliveries.
abbrev sorted : Bool → List (ℕ × EventWatcher) → List (ℕ × EventWatcher)
sorted true = released
sorted false = live

sorted_cons :
    (b : Bool) (i : ℕ) (y : EventWatcher) (ws : List (ℕ × EventWatcher))
    → y.closed ≡ b
    → sorted b ((i, y) ∷ ws) ≡ (i, y) ∷ sorted b ws
unfolding live released
sorted_cons true i y ws e = rw e refl
sorted_cons false i y ws e = rw e refl

lookup-sorted :
    (id last : ℕ) (event : Event) (b : Bool) (ws : List (ℕ × EventWatcher)) (w : EventWatcher)
    → last ≤ 8
    → event.sequence ≡ suc last
    → AllCurrent last ws
    → lookup id ws ≡ some w
    → IsCurrent last w × (lookup id (sorted b (deliver_all event b ws)) ≡ some (deliver event b w))
unfolding lookup deliver_all
lookup-sorted id last event b [] w h s c f = absurd (none-some f)
lookup-sorted id last event b ((i, x) ∷ ws) w h s c f =
    let (m, two, g) = c.0.2 in
    let shut = (deliver-Follows m last event b x h s c.0 g).0 in
    let here = sorted_cons b i (deliver event b x) (deliver_all event b ws) shut in
    elim (ℕ_discrete i id) [
      | yes e ↦
          let same : x ≡ w = some-same (sym (if_pos (ℕ_discrete i id) e _ _) ∙ f) in
          (subst (IsCurrent last) same c.0, rw (here, if_pos _ e, same) refl)
      | no n ↦
          let (cur, rest) =
            lookup-sorted id last event b ws w h s c.1 (sym (if_neg (ℕ_discrete i id) n _ _) ∙ f) in
          (cur, rw (here, if_neg _ n, rest) refl)
    ]

pub lookup-append :
    (id : ℕ) (ws ds : List (ℕ × EventWatcher)) (w : EventWatcher)
    → lookup id ws ≡ some w
    → lookup id (ws ++ ds) ≡ some w
unfolding lookup
lookup-append id [] ds w f = absurd (none-some f)
lookup-append id ((i, x) ∷ ws) ds w f = elim (ℕ_discrete i id) [
  | yes e ↦ rw (if_pos _ e) (sym (if_pos (ℕ_discrete i id) e _ _) ∙ f)
  | no n ↦ rw (if_neg _ n) (lookup-append id ws ds w (sym (if_neg (ℕ_discrete i id) n _ _) ∙ f))
]

-- A publication reaches the watcher, and the last one lets it go with what it holds.
pub publish-Waiting :
    (id n k : ℕ) (e : Execution) (b : Bool)
    → Ready e b
    → (id ≤ e.next_watcher) × (e.next_watcher ≤ k) × Listening id n e
    → Ensures (Waiting id n k) (publish (kind_of e.state) b e)
unfolding publish notify
publish-Waiting id n k e b r (low, high, (w, at, f)) = by_kind b r
  where
    bound : suc e.sequence ≤ 3
    bound = Ranked-le e.state (suc e.sequence) r.next

    event : Event
    event = record {
      execution = e.id;
      sequence = suc e.sequence;
      kind = kind_of e.state;
      snapshot = snapshot e;
    }

    reached :
        (b : Bool)
        → (lookup id (sorted b (deliver_all event b e.watchers)) ≡ some (deliver event b w))
          × Follows n (deliver event b w).events (suc e.sequence)
    reached b =
        let (c, there) =
          lookup-sorted id e.sequence event b e.watchers w (omega (arith, bound)) refl r.listeners
            at in
        (there, (deliver-Follows n e.sequence event b w (omega (arith, bound)) refl c f).1)

    by_kind : (d : Bool) → Ready e d → Ensures (Waiting id n k) (publish (kind_of e.state) d e)
    by_kind true v =
        rw (counts e.sequence bound, v.open_run)
          (
            low,
            high,
            inr (
              refl,
              (
                deliver event true w,
                lookup-append id _ e.detached _ (reached true).0,
                (reached true).1,
              ),
            ),
          )
    by_kind false v =
        rw (counts e.sequence bound)
          (low, high, inl (deliver event false w, (reached false).0, (reached false).1))

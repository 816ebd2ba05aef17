-- ===== src/Exec/Execution/Streams.antt =====
-- What a watcher's channel holds: events with consecutive sequence numbers.
use ferretd.Prelude.{
  none, ℕ, suc, ◌+◌, ◌≤◌, ◌≡◌, refl, true, false, List, [], ◌∷◌, ◌++◌, All, arith, length,
}
use ferretd.Exec.Snapshots.{Event, clone_event}
use ferretd.Exec.Execution.Watchers.{
  EventWatcher, new_watcher, deliver, deliver_all, close_watcher, close_all, live, released,
}

-- The events are numbered from `n` on, and the last of all published is `last`.
abbrev pub Follows : ℕ → List Event → ℕ → Type 0
Follows n [] last = n ≡ suc last
Follows n (e ∷ es) last = (e.sequence ≡ n) × Follows (suc n) es last

pub length-Follows :
    (n : ℕ) (es : List Event) (last : ℕ) → Follows n es last → n + length es ≡ suc last
length-Follows n [] last h = omega arith
length-Follows n (e ∷ es) last h = omega (arith, length-Follows (suc n) es last h.1)

pub Follows-append :
    (n : ℕ) (es : List Event) (last : ℕ) (e : Event)
    → Follows n es last
    → e.sequence ≡ suc last
    → Follows n (es ++ e ∷ []) (suc last)
Follows-append n [] last e h s = (omega arith, omega arith)
Follows-append n (x ∷ es) last e h s = (h.0, Follows-append (suc n) es last e h.1 s)

-- What a registered watcher holds, if anything, are consecutive events that end with the last one
-- published, none of them
-- the first event of all, which no subscriber can be there to see.
abbrev pub IsCurrent : ℕ → EventWatcher → Type 0
IsCurrent last w =
    (w.closed ≡ false) × (w.errors ≡ []) × ((n : ℕ) × (2 ≤ n) × Follows n w.events last)

-- A watcher that was removed is closed, with no error, and what it still holds are consecutive events.
abbrev pub IsSettled : EventWatcher → Type 0
IsSettled w = (w.closed ≡ true) × (w.errors ≡ []) × ((n : ℕ) × (last : ℕ) × Follows n w.events last)

abbrev pub AllCurrent : ℕ → List (ℕ × EventWatcher) → Type 0
AllCurrent last = All (λ p. IsCurrent last p.1)

abbrev pub AllSettled : List (ℕ × EventWatcher) → Type 0
AllSettled = All (λ p. IsSettled p.1)

deliver-IsCurrent :
    (last : ℕ) (e : Event) (w : EventWatcher)
    → last ≤ 8
    → e.sequence ≡ suc last
    → IsCurrent last w
    → IsCurrent (suc last) (deliver e false w)
unfolding deliver clone_event
deliver-IsCurrent last e w b s (c, r, (n, two, f)) =
    let fits = length-Follows n w.events last f in
    (
      ground arith,
      ground arith,
      (n, two, ground (arith, Follows-append n w.events last (clone_event e) f s)),
    )

deliver-IsSettled :
    (last : ℕ) (e : Event) (w : EventWatcher)
    → last ≤ 8
    → e.sequence ≡ suc last
    → IsCurrent last w
    → IsSettled (deliver e true w)
unfolding deliver clone_event
deliver-IsSettled last e w b s (c, r, (n, two, f)) =
    let fits = length-Follows n w.events last f in
    (
      ground arith,
      ground arith,
      (n, suc last, ground (arith, Follows-append n w.events last (clone_event e) f s)),
    )

pub deliver_all-AllCurrent :
    (last : ℕ) (e : Event) (ws : List (ℕ × EventWatcher))
    → last ≤ 8
    → e.sequence ≡ suc last
    → AllCurrent last ws
    → AllCurrent (suc last) (live (deliver_all e false ws))
      × AllSettled (released (deliver_all e false ws))
unfolding deliver_all live released
deliver_all-AllCurrent last e [] b s h = (tt, tt)
deliver_all-AllCurrent last e ((id, w) ∷ ws) b s h =
    let here = deliver-IsCurrent last e w b s h.0 in
    let rest = deliver_all-AllCurrent last e ws b s h.1 in rw here.0 ((here, rest.0), rest.1)

pub deliver_all-AllSettled :
    (last : ℕ) (e : Event) (ws : List (ℕ × EventWatcher))
    → last ≤ 8
    → e.sequence ≡ suc last
    → AllCurrent last ws
    → (live (deliver_all e true ws) ≡ []) × AllSettled (released (deliver_all e true ws))
unfolding deliver_all live released
deliver_all-AllSettled last e [] b s h = (refl, tt)
deliver_all-AllSettled last e ((id, w) ∷ ws) b s h =
    let here = deliver-IsSettled last e w b s h.0 in
    let rest = deliver_all-AllSettled last e ws b s h.1 in rw here.0 (rest.0, (here, rest.1))

pub close_watcher-IsSettled :
    (last : ℕ) (w : EventWatcher) → IsCurrent last w → IsSettled (close_watcher w none)
unfolding close_watcher
close_watcher-IsSettled last w (c, r, (n, two, f)) = rw c (refl, r, (n, last, f))

pub close_all-AllSettled :
    (last : ℕ) (ws : List (ℕ × EventWatcher))
    → AllCurrent last ws
    → (live (close_all ws) ≡ []) × AllSettled (released (close_all ws))
unfolding close_all live released
close_all-AllSettled last [] h = (refl, tt)
close_all-AllSettled last ((id, w) ∷ ws) h =
    let here = close_watcher-IsSettled last w h.0 in
    let rest = close_all-AllSettled last ws h.1 in rw here.0 (rest.0, (here, rest.1))

pub new_watcher-IsCurrent : (last : ℕ) → 1 ≤ last → IsCurrent last new_watcher
unfolding new_watcher
new_watcher-IsCurrent last h = (refl, refl, (suc last, omega arith, refl))

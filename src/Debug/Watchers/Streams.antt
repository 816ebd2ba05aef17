-- ===== src/Debug/Watchers/Streams.antt =====
-- What a watcher's channel holds: events with consecutive sequence numbers, as a uint64 counts.
use ferretd.Prelude.{
  u64, none, ℕ, ◌+◌, ◌≡◌, ◌⊎◌, inl, inr, refl, true, false, List, [], ◌∷◌, ◌++◌, All, arith, length,
  Bool-cases, ltb,
}
use ferretd.Errors.{debug_watcher_lagged}
use ferretd.Debug.Values.{Event, clone_event}
use ferretd.Debug.Watchers.{
  DebugEventWatcher, watcher_buffer_size, new_watcher, deliver, deliver_all, close_watcher,
  close_all, live, released,
}

module _ {L : Type 0} where
  -- The events are numbered from `n` on, and the next to be published is `next`.
  abbrev pub Follows : ℕ → List (Event L) → ℕ → Type 0
  Follows n [] next = n ≡ next
  Follows n (e ∷ es) next = (e.sequence ≡ n) × Follows (u64 (n + 1)) es next

  Follows-append :
      (n : ℕ) (es : List (Event L)) (next : ℕ) (e : Event L)
      → Follows n es next
      → e.sequence ≡ next
      → Follows n (es ++ e ∷ []) (u64 (next + 1))
  Follows-append n [] next e h s = ground arith
  Follows-append n (x ∷ es) next e h s = (h.0, Follows-append (u64 (n + 1)) es next e h.1 s)

  -- A registered watcher is open, and what it holds, if anything, are consecutive events that end with the
  -- last one published.
  abbrev pub IsCurrent : ℕ → DebugEventWatcher L → Type 0
  IsCurrent next w = (w.closed ≡ false) × (w.errors ≡ []) × ((n : ℕ) × Follows n w.events next)

  -- A watcher that was removed is closed; it reports that it lagged, or nothing, and what it still
  -- holds is unbroken.
  abbrev pub IsSettled : DebugEventWatcher L → Type 0
  IsSettled w =
      (w.closed ≡ true)
      × ((w.errors ≡ []) ⊎ (w.errors ≡ debug_watcher_lagged ∷ []))
      × ((n : ℕ) × (next : ℕ) × Follows n w.events next)

  abbrev pub AllCurrent : ℕ → List (ℕ × DebugEventWatcher L) → Type 0
  AllCurrent next = All (λ p. IsCurrent next p.1)

  abbrev pub AllSettled : List (ℕ × DebugEventWatcher L) → Type 0
  AllSettled = All (λ p. IsSettled p.1)

  -- After an event that is not the last of all the watcher is current, or it lagged and is removed.
  deliver_lem :
      (next : ℕ) (e : Event L) (w : DebugEventWatcher L)
      → e.sequence ≡ next
      → IsCurrent next w
      → IsCurrent (u64 (next + 1)) (deliver e false w) ⊎ IsSettled (deliver e false w)
  unfolding deliver clone_event
  deliver_lem next e w s (c, r, (n, f)) =
      elim (Bool-cases (ltb (length w.events) watcher_buffer_size)) [
        | inl room ↦ inl (
          ground arith,
          ground arith,
          (n, ground (arith, Follows-append n w.events next (clone_event e) f s)),
        )
        | inr full ↦ inr (ground arith, inr (ground arith), (n, next, ground arith))
      ]

  deliver-IsSettled :
      (next : ℕ) (e : Event L) (w : DebugEventWatcher L)
      → e.sequence ≡ next
      → IsCurrent next w
      → IsSettled (deliver e true w)
  unfolding deliver clone_event
  deliver-IsSettled next e w s (c, r, (n, f)) =
      elim (Bool-cases (ltb (length w.events) watcher_buffer_size)) [
        | inl room ↦ (
          ground arith,
          inl (ground arith),
          (n, u64 (next + 1), ground (arith, Follows-append n w.events next (clone_event e) f s)),
        )
        | inr full ↦ (ground arith, inr (ground arith), (n, next, ground arith))
      ]

  pub deliver_all-AllCurrent :
      (next : ℕ) (e : Event L) (ws : List (ℕ × DebugEventWatcher L))
      → e.sequence ≡ next
      → AllCurrent next ws
      → AllCurrent (u64 (next + 1)) (live (deliver_all e false ws))
        × AllSettled (released (deliver_all e false ws))
  unfolding deliver_all live released
  deliver_all-AllCurrent next e [] s h = (tt, tt)
  deliver_all-AllCurrent next e ((id, w) ∷ ws) s h =
      let rest = deliver_all-AllCurrent next e ws s h.1 in
      elim (deliver_lem next e w s h.0) [
        | inl here ↦ rw here.0 ((here, rest.0), rest.1)
        | inr gone ↦ rw gone.0 (rest.0, (gone, rest.1))
      ]

  pub deliver_all-AllSettled :
      (next : ℕ) (e : Event L) (ws : List (ℕ × DebugEventWatcher L))
      → e.sequence ≡ next
      → AllCurrent next ws
      → (live (deliver_all e true ws) ≡ []) × AllSettled (released (deliver_all e true ws))
  unfolding deliver_all live released
  deliver_all-AllSettled next e [] s h = (refl, tt)
  deliver_all-AllSettled next e ((id, w) ∷ ws) s h =
      let here = deliver-IsSettled next e w s h.0 in
      let rest = deliver_all-AllSettled next e ws s h.1 in rw here.0 (rest.0, (here, rest.1))

  pub close_watcher-IsSettled :
      (next : ℕ) (w : DebugEventWatcher L) → IsCurrent next w → IsSettled (close_watcher w none)
  unfolding close_watcher
  close_watcher-IsSettled next w (c, r, (n, f)) = rw c (refl, inl r, (n, next, f))

  pub close_all-AllSettled :
      (next : ℕ) (ws : List (ℕ × DebugEventWatcher L))
      → AllCurrent next ws
      → (live (close_all ws) ≡ []) × AllSettled (released (close_all ws))
  unfolding close_all live released
  close_all-AllSettled next [] h = (refl, tt)
  close_all-AllSettled next ((id, w) ∷ ws) h =
      let here = close_watcher-IsSettled next w h.0 in
      let rest = close_all-AllSettled next ws h.1 in rw here.0 (rest.0, (here, rest.1))

pub new_watcher-IsCurrent : (L : Type 0) (next : ℕ) → IsCurrent next (new_watcher {L = L})
unfolding new_watcher
new_watcher-IsCurrent L next = (refl, refl, (next, refl))

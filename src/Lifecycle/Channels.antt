-- ===== src/Lifecycle/Channels.antt =====
-- The channels of type `chan struct{}` that an object makes only to close them: a heap of flags,
-- `true` when the channel is closed. A channel's address is its position.
use ferretd.Prelude.{
  ℕ, zero, suc, ◌≡◌, ◌≢◌, refl, Bool, true, false, Option, none, some, List, [], ◌∷◌, ◌++◌, arith,
  length, get_elem?, set, Outcome, done, panic,
}

-- `make(chan struct{})`: the new heap and the address.
unfoldable pub make_channel : List Bool → List Bool × ℕ
make_channel heap = (heap ++ false ∷ [], length heap)

abbrev close_found : List Bool → ℕ → Option Bool → Outcome (List Bool)
close_found heap c (some false) = done (set heap c true)
close_found heap c (some true) = panic
close_found heap c none = panic

-- `close(c)` panics on a nil channel and on one that is closed already.
unfoldable pub close_channel : List Bool → Option ℕ → Outcome (List Bool)
close_channel heap none = panic
close_channel heap (some c) = close_found heap c (get_elem? heap c)

-- `<-c` returns at once: only a closed channel lets a receiver pass, and a nil channel never does.
unfoldable pub is_closed : List Bool → Option ℕ → Bool
is_closed heap none = false
is_closed heap (some c) = elim (get_elem? heap c) [ some b ↦ b | none ↦ false ]

-- A channel that is not yet closed.
abbrev pub IsOpen : List Bool → ℕ → Type 0
IsOpen heap c = get_elem? heap c ≡ some false

pub get_elem?-append_end :
    (xs : List Bool) (b : Bool) → get_elem? (xs ++ b ∷ []) (length xs) ≡ some b
get_elem?-append_end [] b = refl
get_elem?-append_end (x ∷ xs) b = get_elem?-append_end xs b

pub get_elem?-append :
    (xs : List Bool) (b c : Bool) (i : ℕ)
    → get_elem? xs i ≡ some c
    → get_elem? (xs ++ b ∷ []) i ≡ some c
get_elem?-append [] b c i h = cc
get_elem?-append (x ∷ xs) b c zero h = h
get_elem?-append (x ∷ xs) b c (suc i) h = get_elem?-append xs b c i h

pub get_elem?-append_cases :
    (xs : List Bool) (b c : Bool) (i : ℕ)
    → get_elem? (xs ++ b ∷ []) i ≡ some c
    → i ≢ length xs
    → get_elem? xs i ≡ some c
get_elem?-append_cases [] b c zero h n = absurd (n refl)
get_elem?-append_cases [] b c (suc i) h n = h
get_elem?-append_cases (x ∷ xs) b c zero h n = h
get_elem?-append_cases (x ∷ xs) b c (suc i) h n =
    get_elem?-append_cases xs b c i h (λ e. n (omega (arith, e)))

pub get_elem?-set_self :
    (xs : List Bool) (i : ℕ) (b c : Bool)
    → get_elem? xs i ≡ some c
    → get_elem? (set xs i b) i ≡ some b
get_elem?-set_self [] i b c h = cc
get_elem?-set_self (x ∷ xs) zero b c h = refl
get_elem?-set_self (x ∷ xs) (suc i) b c h = get_elem?-set_self xs i b c h

pub get_elem?-set_ne :
    (xs : List Bool) (i j : ℕ) (b : Bool) → i ≢ j → get_elem? (set xs i b) j ≡ get_elem? xs j
get_elem?-set_ne [] i j b n = refl
get_elem?-set_ne (x ∷ xs) zero zero b n = absurd (n refl)
get_elem?-set_ne (x ∷ xs) zero (suc j) b n = refl
get_elem?-set_ne (x ∷ xs) (suc i) zero b n = refl
get_elem?-set_ne (x ∷ xs) (suc i) (suc j) b n =
    get_elem?-set_ne xs i j b (λ e. n (omega (arith, e)))

-- An open channel can be closed, and is closed then.
pub close_channel_lem :
    (heap : List Bool) (c : ℕ)
    → IsOpen heap c
    → (close_channel heap (some c) ≡ done (set heap c true))
      × (is_closed (set heap c true) (some c) ≡ true)
unfolding close_channel is_closed
close_channel_lem heap c h = (rw h, rw (get_elem?-set_self heap c true false h, is_closed))

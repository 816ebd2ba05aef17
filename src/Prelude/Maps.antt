-- ===== src/Prelude/Maps.antt =====
-- Go maps as association lists. `insert` overwrites in place, `delete` removes every entry of the
-- key, and the order of the list stands for the order in which `range` happens to visit the map.
use Prim.Native.Nat.{ℕ}
use Prim.Native.String.{String}
use mathlib.Core.Path.{◌≡◌, refl, sym, ◌∙◌, subst}
use mathlib.Core.Logic.{◌≢◌, ◌⊎◌, inl, inr, ite, if_pos, if_neg}
use mathlib.Core.Bool.{Bool, true, false}
use mathlib.Core.Option.{Option, none, some}
use mathlib.Core.List.{List, [], ◌∷◌}
use native.Mathlib.Omega.{arith}
use native.Mathlib.Decide.{ℕ_discrete}
use ferretd.Prelude.Lists.{All}
use text.Mathlib.Text.{◌==◌}
use text.Mathlib.TextEquality.{eq_iff}

-- Go's `==` on strings.
abbrev pub same_text : String → String → Bool
same_text s t = s == t

pub same_text_refl : (s : String) → same_text s s ≡ true
same_text_refl s = (eq_iff s s).1 refl

-- Key types: those with a decidable equality.
pub record Key {ℓ} (K : Type ℓ) : Type ℓ where
  pub same : Discrete K

instance abbrev pub nat_key : Key ℕ
nat_key = record { same = ℕ_discrete }

decide_text : (s t : String) (b : Bool) → (s == t) ≡ b → Dec (s ≡ t)
decide_text s t true e = yes ((eq_iff s t).0 e)
decide_text s t false e = no (λ p. differ ((eq_iff s t).1 p))
  where
    differ : (s == t) ≡ true → ⊥
    differ q = cc

unfoldable pub String-discrete : Discrete String
unfolding decide_text
String-discrete s t = decide_text s t (s == t) refl

instance abbrev pub string_key : Key String
string_key = record { same = String-discrete }

module _ {ℓ} {K V : Type ℓ} ⦃key : Key K⦄ where
  unfoldable pub lookup : K → List (K × V) → Option V
  lookup k [] = none
  lookup k ((j, v) ∷ m) = ite (key.same j k) (some v) (lookup k m)

  unfoldable pub insert : K → V → List (K × V) → List (K × V)
  insert k v [] = (k, v) ∷ []
  insert k v ((j, w) ∷ m) = ite (key.same j k) ((k, v) ∷ m) ((j, w) ∷ insert k v m)

  unfoldable pub delete : K → List (K × V) → List (K × V)
  delete k [] = []
  delete k ((j, w) ∷ m) = ite (key.same j k) (delete k m) ((j, w) ∷ delete k m)

  pub lookup-insert :
      (k j : K) (v : V) (m : List (K × V))
      → lookup j (insert k v m) ≡ ite (key.same k j) (some v) (lookup j m)
  unfolding lookup insert
  lookup-insert k j v [] = refl
  lookup-insert k j v ((i, w) ∷ m) = ground (arith, lookup-insert k j v m)

  pub lookup-delete :
      (k j : K) (m : List (K × V)) → lookup j (delete k m) ≡ ite (key.same k j) none (lookup j m)
  unfolding lookup delete
  lookup-delete k j [] = ground arith
  lookup-delete k j ((i, w) ∷ m) = ground (arith, lookup-delete k j m)

pub some-same : {V : Type 0} {u v : V} → some u ≡ some v → u ≡ v
some-same e = cc

pub none-some : {V : Type 0} {v : V} → none ≡ some v → ⊥
none-some e = cc

module _ {K V : Type 0} ⦃key : Key K⦄ where
  -- What is found after an insertion was inserted, or was there under another key.
  pub found_after_insert :
      (k j : K) (v x : V) (m : List (K × V))
      → lookup j (insert k v m) ≡ some x
      → ((k ≡ j) × (x ≡ v)) ⊎ ((k ≢ j) × (lookup j m ≡ some x))
  found_after_insert k j v x m e = elim (key.same k j) [
    | yes p ↦ inl (
      p,
      some-same (sym e ∙ (lookup-insert k j v m ∙ if_pos (key.same k j) p (some v) (lookup j m))),
    )
    | no n ↦
        inr (n, sym (lookup-insert k j v m ∙ if_neg (key.same k j) n (some v) (lookup j m)) ∙ e)
  ]

  pub found_after_delete :
      (k j : K) (x : V) (m : List (K × V))
      → lookup j (delete k m) ≡ some x
      → (k ≢ j) × (lookup j m ≡ some x)
  found_after_delete k j x m e = elim (key.same k j) [
    | yes p ↦
        absurd
          (none-some (sym (lookup-delete k j m ∙ if_pos (key.same k j) p none (lookup j m)) ∙ e))
    | no n ↦ (n, sym (lookup-delete k j m ∙ if_neg (key.same k j) n none (lookup j m)) ∙ e)
  ]

-- What holds of every value in a map.
module _ {K V : Type 0} ⦃key : Key K⦄ (P : V → Type 0) where
  abbrev pub AllValues : List (K × V) → Type 0
  AllValues = All (λ p. P p.1)

  pub AllValues-insert :
      (k : K) (v : V) (m : List (K × V)) → P v → AllValues m → AllValues (insert k v m)
  unfolding insert
  AllValues-insert k v [] p h = (p, tt)
  AllValues-insert k v ((j, w) ∷ m) p h = elim (key.same j k) [
    | yes e ↦ rw (if_pos _ e) (p, h.1)
    | no e ↦ rw (if_neg _ e) (h.0, AllValues-insert k v m p h.1)
  ]

  pub AllValues-delete : (k : K) (m : List (K × V)) → AllValues m → AllValues (delete k m)
  unfolding delete
  AllValues-delete k [] h = tt
  AllValues-delete k ((j, w) ∷ m) h = elim (key.same j k) [
    | yes e ↦ rw (if_pos _ e) (AllValues-delete k m h.1)
    | no e ↦ rw (if_neg _ e) (h.0, AllValues-delete k m h.1)
  ]

  pub AllValues-lookup :
      (k : K) (v : V) (m : List (K × V)) → AllValues m → lookup k m ≡ some v → P v
  unfolding lookup
  AllValues-lookup k v [] h e = cc
  AllValues-lookup k v ((j, w) ∷ m) h e = elim (key.same j k) [
    | yes p ↦ subst P (ground arith) h.0
    | no p ↦ AllValues-lookup k v m h.1 (ground arith)
  ]

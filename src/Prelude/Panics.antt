-- ===== src/Prelude/Panics.antt =====
-- The result of code that may panic. A panic is a value, so that its absence can be proved.

use mathlib.Core.Path.{◌≡◌, refl, subst}
use mathlib.Core.Bool.{Bool, true, false}
use mathlib.Core.Option.{Option, none, some}
use ferretd.Prelude.Tests.{if◌then◌else◌}

pub data Outcome {ℓ} (A : Type ℓ) : Type ℓ where
  done : A → Outcome A
  panic : Outcome A

infixl 5 ◌>>=◌
abbrev pub ◌>>=◌ {ℓ κ} : {A : Type ℓ} {B : Type κ} → Outcome A → (A → Outcome B) → Outcome B
done a >>= f = f a
panic >>= f = panic

-- The code ran to its end, and what it left satisfies `P`.
abbrev pub Ensures {ℓ} : {A : Type ℓ} → (A → Type 0) → Outcome A → Type 0
Ensures P (done a) = P a
Ensures P panic = ⊥

module _ {A : Type 0} (P Q : A → Type 0) where
  pub Ensures-both : (m : Outcome A) → Ensures P m → Ensures Q m → Ensures (λ a. P a × Q a) m
  Ensures-both (done a) p q = (p, q)
  Ensures-both panic p q = p

  pub Ensures-mono : (m : Outcome A) → ((a : A) → P a → Q a) → Ensures P m → Ensures Q m
  Ensures-mono (done a) f p = f a p
  Ensures-mono panic f p = p

pub Ensures-bind :
    {A B : Type 0} (P : A → Type 0) (Q : B → Type 0) (m : Outcome A) (f : A → Outcome B)
    → Ensures P m
    → ((a : A) → P a → Ensures Q (f a))
    → Ensures Q (m >>= f)
Ensures-bind P Q (done a) f h k = k a h
Ensures-bind P Q panic f h k = absurd h

-- If the code ran to its end, what it left satisfies `P`.
abbrev pub Keeps {ℓ} : {A : Type ℓ} → (A → Type 0) → Outcome A → Type 0
Keeps P (done a) = P a
Keeps P panic = Unit

pub Keeps-bind :
    {A B : Type 0} (P : A → Type 0) (Q : B → Type 0) (m : Outcome A) (f : A → Outcome B)
    → Keeps P m
    → ((a : A) → P a → Keeps Q (f a))
    → Keeps Q (m >>= f)
Keeps-bind P Q (done a) f h k = k a h
Keeps-bind P Q panic f h k = tt

pub Keeps-done :
    {A : Type 0} (P : A → Type 0) (m : Outcome A) (a : A) → Keeps P m → m ≡ done a → P a
Keeps-done P m a k e = subst (Keeps P) e k

pub Keeps-mono :
    {A : Type 0} (P Q : A → Type 0) (m : Outcome A) → ((a : A) → P a → Q a) → Keeps P m → Keeps Q m
Keeps-mono P Q (done a) f p = f a p
Keeps-mono P Q panic f p = tt

pub Keeps-all : {A : Type 0} (P : A → Type 0) (m : Outcome A) → ((a : A) → P a) → Keeps P m
Keeps-all P (done a) h = h a
Keeps-all P panic h = tt

pub Ensures-Keeps :
    {A : Type 0} (P Q : A → Type 0) (m : Outcome A)
    → Ensures P m
    → Keeps Q m
    → Ensures (λ a. P a × Q a) m
Ensures-Keeps P Q (done a) p q = (p, q)
Ensures-Keeps P Q panic p q = p

-- Both branches of a test ensure it.
pub Ensures-if :
    {A : Type 0} (P : A → Type 0) (t : Bool) (m n : Outcome A)
    → (t ≡ true → Ensures P m)
    → (t ≡ false → Ensures P n)
    → Ensures P (if t then m else n)
Ensures-if P true m n f g = f refl
Ensures-if P false m n f g = g refl

pub Keeps-if :
    {A : Type 0} (P : A → Type 0) (t : Bool) (m n : Outcome A)
    → (t ≡ true → Keeps P m)
    → (t ≡ false → Keeps P n)
    → Keeps P (if t then m else n)
Keeps-if P true m n f g = f refl
Keeps-if P false m n f g = g refl

pub Keeps-option :
    {A B : Type 0} (P : B → Type 0) (o : Option A) (m : Outcome B) (f : A → Outcome B)
    → Keeps P m
    → ((a : A) → o ≡ some a → Keeps P (f a))
    → Keeps P (elim o [ none ↦ m | some a ↦ f a ])
Keeps-option P none m f h k = h
Keeps-option P (some a) m f h k = k a refl

-- What holds whatever the first part of the code gave.
pub Keeps-after :
    {A B : Type 0} (P : B → Type 0) (m : Outcome A) (f : A → Outcome B)
    → ((a : A) → Keeps P (f a))
    → Keeps P (m >>= f)
Keeps-after P (done a) f k = k a
Keeps-after P panic f k = tt

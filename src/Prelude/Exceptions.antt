-- ===== src/Prelude/Exceptions.antt =====
-- Python code that returns or raises.
use mathlib.Core.Path.{◌≡◌, refl}
use mathlib.Core.Logic.{◌⊎◌, inl, inr}

pub data Outcome {ℓ} (E A : Type ℓ) : Type ℓ where
  returns : A → Outcome E A
  raises : E → Outcome E A

infixl 5 ◌>>=◌ ◌>>◌
abbrev pub ◌>>=◌ {ℓ} : {E A B : Type ℓ} → Outcome E A → (A → Outcome E B) → Outcome E B
returns a >>= f = f a
raises e >>= f = raises e

abbrev pub ◌>>◌ {ℓ} : {E A B : Type ℓ} → Outcome E A → Outcome E B → Outcome E B
m >> k = m >>= λ _. k

module _ {ℓ} {E A B : Type ℓ} where
  -- Inversion of a bind that returned.
  pub >>=-returns :
      (m : Outcome E A) (f : A → Outcome E B) {b : B}
      → (m >>= f) ≡ returns b
      → (a : A) × (m ≡ returns a) × (f a ≡ returns b)
  >>=-returns (returns a) f h = (a, refl, h)
  >>=-returns (raises e) f h = cc

pub returns-injective {ℓ} :
    {E A : Type ℓ} {a b : A} → ◌≡◌ {A = Outcome E A} (returns a) (returns b) → a ≡ b
returns-injective h = cc

pub Outcome-cases {ℓ} :
    {E A : Type ℓ} (m : Outcome E A) → ((a : A) × (m ≡ returns a)) ⊎ ((x : E) × (m ≡ raises x))
Outcome-cases (returns a) = inl (a, refl)
Outcome-cases (raises x) = inr (x, refl)

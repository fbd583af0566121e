-- ===== src/Prelude/Lists.antt =====
-- Lists over native numbers, under the library's names, and Python's `any` and `all`.
use Prim.Native.Nat.{ℕ, suc, ◌+◌, ◌≤◌}
use mathlib.Core.Path.{◌≡◌, refl}
use mathlib.Core.Logic.{◌⊎◌, inl, inr}
use mathlib.Core.Bool.{Bool, true, false, ◌&&◌, ◌||◌}
use mathlib.Core.List.{List, [], ◌∷◌, ◌++◌}
use native.Mathlib.Omega.{arith}
use scan_ledger.Prelude.Tests.{if◌then◌else◌}

module _ {ℓ} {A : Type ℓ} where
  abbrev pub length : List A → ℕ
  length [] = 0
  length (x ∷ xs) = suc (length xs)

  abbrev pub any : List A → (A → Bool) → Bool
  any [] p = false
  any (x ∷ xs) p = p x || any xs p

  abbrev pub all : List A → (A → Bool) → Bool
  all [] p = true
  all (x ∷ xs) p = p x && all xs p

  -- `[x for x in xs if p(x)]`
  abbrev pub select : List A → (A → Bool) → List A
  select [] p = []
  select (x ∷ xs) p = let rest = select xs p in if p x then x ∷ rest else rest

  -- `sum(1 for x in xs if p(x))`
  abbrev pub count_if : List A → (A → Bool) → ℕ
  count_if [] p = 0
  count_if (x ∷ xs) p = (if p x then 1 else 0) + count_if xs p

  abbrev pub All {κ} : (A → Type κ) → List A → Type κ
  All P [] = Unit
  All P (x ∷ xs) = P x × All P xs

  pub length-append : (xs ys : List A) → length (xs ++ ys) ≡ length xs + length ys
  length-append [] ys = omega arith
  length-append (x ∷ xs) ys = omega (arith, length-append xs ys)

  pub count_if-append :
      (xs ys : List A) (p : A → Bool) → count_if (xs ++ ys) p ≡ count_if xs p + count_if ys p
  count_if-append [] ys p = omega arith
  count_if-append (x ∷ xs) ys p = omega (arith, count_if-append xs ys p)

  pub select-append :
      (xs ys : List A) (p : A → Bool) → select (xs ++ ys) p ≡ select xs p ++ select ys p
  select-append [] ys p = refl
  select-append (x ∷ xs) ys p = ground (arith, select-append xs ys p)

  pub length-select : (xs : List A) (p : A → Bool) → length (select xs p) ≡ count_if xs p
  length-select [] p = refl
  length-select (x ∷ xs) p = ground (arith, length-select xs p)

  pub count_if-le : (xs : List A) (p : A → Bool) → count_if xs p ≤ length xs
  count_if-le [] p = omega arith
  count_if-le (x ∷ xs) p = ground (arith, count_if-le xs p)

  pub All-append {κ} : (P : A → Type κ) (xs ys : List A) → All P xs → All P ys → All P (xs ++ ys)
  All-append P [] ys h k = k
  All-append P (x ∷ xs) ys h k = (h.0, All-append P xs ys h.1 k)

  pub All-imp {κ μ} :
      {P : A → Type κ} {Q : A → Type μ}
      → ((x : A) → P x → Q x)
      → (xs : List A) → All P xs
      → All Q xs
  All-imp f [] h = tt
  All-imp f (x ∷ xs) h = (f x h.0, All-imp f xs h.1)

  pub all→All : (xs : List A) (p : A → Bool) → all xs p ≡ true → All (λ x. p x ≡ true) xs
  all→All [] p h = tt
  all→All (x ∷ xs) p h = (ground arith, all→All xs p (ground arith))

  pub any-append : (xs ys : List A) (p : A → Bool) → any (xs ++ ys) p ≡ (any xs p || any ys p)
  any-append [] ys p = refl
  any-append (x ∷ xs) ys p = ground (arith, any-append xs ys p)

  -- A passing `any` names an element that passes.
  pub any-witness {κ} :
      {P : A → Type κ} (xs : List A) (p : A → Bool)
      → any xs p ≡ true
      → All P xs
      → (x : A) × (p x ≡ true) × P x
  any-witness [] p h a = cc
  any-witness (x ∷ xs) p h a = elim (split (p x) (any xs p) h) [
    | inl e ↦ (x, e, a.0)
    | inr e ↦ any-witness xs p e a.1
  ]
    where
      split : (a b : Bool) → (a || b) ≡ true → (a ≡ true) ⊎ (b ≡ true)
      split a b h = ground arith

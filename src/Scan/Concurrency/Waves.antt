-- ===== src/Scan/Concurrency/Waves.antt =====
-- The waves of backend/app/scan/concurrency.py.
use mathlib.Core.List.{append_assoc}
use scan_ledger.Prelude.{
  ℕ, ◌≤◌, ◌<◌, ◌≡◌, refl, ap, ◌∙◌, List, [], ◌∷◌, ◌++◌, arith, map, leb, length, length-append, All,
  Bool-cases, inl, inr,
}
use scan_ledger.Scan.Concurrency.{waves_after, waves, concat, in_bounded_waves}

map-append : {A B : Type 0} (f : A → B) (xs ys : List A) → map f (xs ++ ys) ≡ map f xs ++ map f ys
map-append f [] ys = refl
map-append f (x ∷ xs) ys = ap (λ zs. f x ∷ zs) (map-append f xs ys)

module _ {F T : Type 0} (wave_size : ℕ) (outcome : F → T) where
  abbrev Small : List F → Type 0
  Small w = length w ≤ wave_size

  abbrev Good : List F → List F → Type 0
  Good wave factories =
      (concat (map (map outcome) (waves_after wave_size wave factories))
        ≡ map outcome wave ++ map outcome factories)
      × All Small (waves_after wave_size wave factories)

  waves_after-Good : (wave factories : List F) → length wave < wave_size → Good wave factories
  unfolding waves_after
  waves_after-Good [] [] h = (refl, tt)
  waves_after-Good (w ∷ wave) [] h = (refl, (omega arith, tt))
  waves_after-Good wave (f ∷ factories) h =
      elim (Bool-cases (leb wave_size (length (wave ++ f ∷ [])))) [
        | inl full ↦
            let (same, small) = waves_after-Good [] factories (omega arith) in
            rw full (
              ap (λ r. map outcome (wave ++ f ∷ []) ++ r) same ∙ shift wave f factories,
              (omega (arith, length-append wave (f ∷ [])), small),
            )
        | inr room ↦
            let (same, small) =
              waves_after-Good (wave ++ f ∷ []) factories
                (ground (arith, length-append wave (f ∷ []))) in
            rw room (same ∙ shift wave f factories, small)
      ]
    where
      shift :
          (wave : List F) (f : F) (factories : List F)
          → map outcome (wave ++ f ∷ []) ++ map outcome factories
            ≡ map outcome wave ++ map outcome (f ∷ factories)
      shift wave f factories =
          rw (map-append outcome wave (f ∷ []))
            (append_assoc (map outcome wave) (outcome f ∷ []) (map outcome factories))

  -- With a positive wave size, every factory is run exactly once and the results come in the order of
  -- the factories, while no wave holds more than the wave size.
  pub in_bounded_waves_lem :
      (factories : List F)
      → 0 < wave_size
      → (in_bounded_waves wave_size outcome factories ≡ map outcome factories)
        × All (λ w. length w ≤ wave_size) (waves wave_size factories)
  unfolding in_bounded_waves waves
  in_bounded_waves_lem factories pos = waves_after-Good [] factories pos

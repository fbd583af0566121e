-- ===== src/Scan/Concurrency.antt =====
-- backend/app/scan/concurrency.py: a factory is run by `outcome`, and the results of a wave are yielded
-- when all of it has landed.
pub mod Waves
use scan_ledger.Prelude.{ℕ, Bool, List, [], ◌∷◌, ◌++◌, map, leb, length, if◌then◌else◌}

abbrev pub default_wave_size : ℕ
default_wave_size = 256

abbrev pub concat : {T : Type 0} → List (List T) → List T
concat [] = []
concat (xs ∷ xss) = xs ++ concat xss

-- What is left after the loop is a wave too, if there is anything.
abbrev pub last_wave : {F : Type 0} → List F → List (List F)
last_wave [] = []
last_wave (f ∷ wave) = (f ∷ wave) ∷ []

module _ {F : Type 0} (wave_size : ℕ) where
  -- The waves that the loop drains, the first of them begun with `wave`.
  unfoldable pub waves_after : List F → List F → List (List F)
  waves_after wave [] = last_wave wave
  waves_after wave (factory ∷ factories) =
      let full = waves_after [] factories in
      let more = waves_after (wave ++ factory ∷ []) factories in
      if leb wave_size (length (wave ++ factory ∷ [])) then (wave ++ factory ∷ []) ∷ full else more

  unfoldable pub waves : List F → List (List F)
  unfolding waves_after
  waves factories = waves_after [] factories

  unfoldable pub in_bounded_waves : {T : Type 0} → (F → T) → List F → List T
  unfolding waves
  in_bounded_waves outcome factories = concat (map (map outcome) (waves factories))

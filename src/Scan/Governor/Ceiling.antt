-- ===== src/Scan/Governor/Ceiling.antt =====
-- No governor exceeds the hard ceiling of backend/app/scan/governor.py.
use scan_ledger.Prelude.{
  ◌≤◌, ◌<◌, ◌≡◌, ◌↔◌, refl, List, [], ◌∷◌, String, some, none, arith, Dict, get, returns,
  >>=-returns, All, Option-cases, inl, inr, subst, string_eq,
}
use scan_ledger.Scan.Governor.{
  GovernorLimits, Field, fields, getattr, check_field, validate_fields, validate_against,
  hard_ceiling, IntensityGovernor, create, start, with_limits, global_field, host_field, rate_field,
  timeout_field, host_budget_field, scan_budget_field,
}

-- Every field is positive and at most the ceiling's.
abbrev pub Fits : GovernorLimits → GovernorLimits → Type 0
Fits l ceiling = (f : Field) → (0 < getattr l f) × (getattr l f ≤ getattr ceiling f)

abbrev FieldFits : GovernorLimits → GovernorLimits → Field → Type 0
FieldFits l ceiling f = (0 < getattr l f) × (getattr l f ≤ getattr ceiling f)

module _ (l ceiling : GovernorLimits) where
  check_field_iff : (f : Field) → (check_field l ceiling f ≡ returns tt) ↔ FieldFits l ceiling f
  unfolding check_field
  check_field_iff f = (λ h. ground arith, λ h. ground arith)

  validate_fields_sound :
      (fs : List Field) → validate_fields l ceiling fs ≡ returns tt → All (FieldFits l ceiling) fs
  unfolding validate_fields
  validate_fields_sound [] h = tt
  validate_fields_sound (f ∷ fs) h =
      let (u, first, rest) = >>=-returns (check_field l ceiling f) _ h in
      ((check_field_iff f).0 first, validate_fields_sound fs rest)

  validate_fields_complete :
      (fs : List Field) → Fits l ceiling → validate_fields l ceiling fs ≡ returns tt
  unfolding validate_fields
  validate_fields_complete [] h = refl
  validate_fields_complete (f ∷ fs) h =
      rw ((check_field_iff f).1 (h f)) (validate_fields_complete fs h)

  at_field : All (FieldFits l ceiling) fields → Fits l ceiling
  at_field a global_field = a.0
  at_field a host_field = a.1.0
  at_field a rate_field = a.1.1.0
  at_field a timeout_field = a.1.1.1.0
  at_field a host_budget_field = a.1.1.1.1.0
  at_field a scan_budget_field = a.1.1.1.1.1.0

  -- `validate_against` accepts a limit set exactly when each of its fields is positive and at most
  -- the ceiling's.
  pub validate_against_iff : (validate_against l ceiling ≡ returns tt) ↔ Fits l ceiling
  unfolding validate_against
  validate_against_iff =
      (λ h. at_field (validate_fields_sound fields h), λ h. validate_fields_complete fields h)

module _ {K : Type 0} where
  with_limits-Fits :
      (name : String) (l : GovernorLimits) (g : IntensityGovernor K)
      → with_limits name l ≡ returns g
      → Fits l hard_ceiling × (start name l ≡ g)
  unfolding with_limits
  with_limits-Fits name l g h =
      let (u, valid, built) = >>=-returns (validate_against l hard_ceiling) _ h in
      ((validate_against_iff l hard_ceiling).0 valid, cc)

  -- A governor is made only with limits of the catalogue, under the name it was asked for, that are
  -- positive and within the hard ceiling, whatever the catalogue.
  pub create-Fits :
      (catalog : Dict String GovernorLimits) (name : String) (g : IntensityGovernor K)
      → create catalog name ≡ returns g
      → Fits g.limits hard_ceiling × (get catalog name ≡ some g.limits) × (start name g.limits ≡ g)
  unfolding create
  create-Fits catalog name g h = elim (Option-cases (get catalog name)) [
    | inl e ↦ absurd (unknown e)
    | inr (l, e) ↦ found l e (with_limits-Fits name l g (known l e))
  ]
    where
      unknown : get catalog name ≡ none → ⊥
      unknown e = ground arith

      known : (l : GovernorLimits) → get catalog name ≡ some l → with_limits name l ≡ returns g
      known l e = ground arith

      found :
          (l : GovernorLimits)
          → get catalog name ≡ some l
          → Fits l hard_ceiling × (start name l ≡ g)
          → Fits g.limits hard_ceiling
            × (get catalog name ≡ some g.limits)
            × (start name g.limits ≡ g)
      found l e (fits, same) =
          subst
            (λ h.
              Fits h.limits hard_ceiling
              × (get catalog name ≡ some h.limits)
              × (start name h.limits ≡ h))
            same (fits, e, refl)

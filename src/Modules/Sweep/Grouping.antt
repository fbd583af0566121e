-- ===== src/Modules/Sweep/Grouping.antt =====
-- Grouping by a key with `d.setdefault(k, []).append(v)`: what a group holds, and that no key comes twice.
use mathlib.Core.List.{append-nil}
use scan_ledger.Prelude.{
  ◌≡◌, refl, sym, ap, ◌∙◌, subst, inl, inr, Bool, false, Option, none, some, List, [], ◌∷◌, ◌++◌,
  select, select-append, map, if◌then◌else◌, Dict, get, has, Unique, get-put, has-get, Eq, ◌==◌,
  beq_sound, Bool-cases,
}
use scan_ledger.Scan.Concurrency.{concat}
use scan_ledger.Modules.Ports.{or_else}
use scan_ledger.Modules.Sweep.{append_at}

-- A group, as the dictionary holds it: there are no empty ones.
abbrev pub boxed : {V : Type 0} → List V → Option (List V)
boxed [] = none
boxed (v ∷ vs) = some (v ∷ vs)

pub or_else-boxed : {V : Type 0} (vs : List V) → or_else (boxed vs) [] ≡ vs
or_else-boxed [] = refl
or_else-boxed (v ∷ vs) = refl

pub boxed-snoc : {V : Type 0} (vs : List V) (v : V) → boxed (vs ++ v ∷ []) ≡ some (vs ++ v ∷ [])
boxed-snoc [] v = refl
boxed-snoc (w ∷ vs) v = refl

module _ {K V : Type 0} ⦃e : Eq K⦄ where
  abbrev pub from_entry : {A : Type 0} → (K → V → List A) → K → Option V → List A
  from_entry f k none = []
  from_entry f k (some v) = f k v

  -- What the entries yield of the things that pass `p`, when only the entry of `k` yields such things.
  pub select-entries :
      {A : Type 0} (f : K → V → List A) (p : A → Bool) (k : K)
      → ((j : K) (v : V) → select (f j v) p ≡ (if j == k then f j v else []))
      → (d : Dict K V) → Unique d
      → select (concat (map (λ ((j, v) : K × V). f j v) d)) p ≡ from_entry f k (get d k)
  unfolding get has
  select-entries f p k own [] u = refl
  select-entries f p k own ((j, v) ∷ d) u = select-append (f j v) _ p ∙ elim (Bool-cases (j == k)) [
    | inl same ↦
        let at_k : j ≡ k = beq_sound j k same in
        let last : get d k ≡ none = has-get d k (subst (λ i. has d i ≡ false) at_k u.0) in
        rw (own j v, select-entries f p k own d u.1, same, last)
          (append-nil (f j v) ∙ ap (λ i. f i v) at_k)
    | inr other ↦ rw (own j v, select-entries f p k own d u.1, other) refl
  ]

module _ {K V : Type 0} ⦃e : Eq K⦄ where
  pub append_at-get :
      (d : Dict K (List V)) (k j : K) (v : V) (vs : List V)
      → get d j ≡ boxed vs
      → get (append_at d k v) j ≡ boxed (if k == j then vs ++ v ∷ [] else vs)
  append_at-get d k j v vs h = get-put d k j _ ∙ elim (Bool-cases (k == j)) [
    | inl same ↦ rw (same, beq_sound k j same, h, or_else-boxed vs) (sym (boxed-snoc vs v))
    | inr other ↦ rw (other, h) refl
  ]

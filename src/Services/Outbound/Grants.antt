-- ===== src/Services/Outbound/Grants.antt =====
-- What the limiter of backend/app/services/outbound.py holds of the list of all grants.
use scan_ledger.Prelude.{
  ℕ, ◌+◌, ◌≤◌, ◌<◌, ◌≡◌, refl, sym, ap, ◌∙◌, Bool, true, false, ◌&&◌, List, [], ◌∷◌, ◌++◌, arith,
  ltb, leb, select, length, count_if, count_if-append, select-append, length-select, All,
  Bool-cases, inl, inr,
}
use scan_ledger.Services.Outbound.{SlidingWindowLimiter, is_recent, expire}

-- What is recent now was recent before.
select-select :
    (window before now : ℕ) (xs : List ℕ)
    → before ≤ now
    → select (select xs (is_recent window before)) (is_recent window now)
      ≡ select xs (is_recent window now)
select-select window before now [] h = refl
select-select window before now (x ∷ xs) h = ground (arith, select-select window before now xs h)

-- The abstract view: the limiter holds the grants of `history` that were recent at a time `last`.
pub record Holds (history : List ℕ) (last : ℕ) (l : SlidingWindowLimiter) : Type 0 where
  pub held : l.timestamps ≡ select history (is_recent l.window last)
  pub past : All (λ t. t ≤ last) history
  pub positive : 0 < l.window

abbrev pub in_window : ℕ → ℕ → ℕ → Bool
in_window window x t = leb x t && ltb t (x + window)

-- At no start of a window are more than `limit` grants in it.
abbrev pub Within : ℕ → ℕ → List ℕ → Type 0
Within limit window history = (x : ℕ) → count_if history (in_window window x) ≤ limit

recent_bounds :
    (window x now : ℕ) (history : List ℕ)
    → now < x + window
    → x ≤ now
    → All (λ t. t ≤ now) history
    → count_if history (in_window window x) ≤ count_if history (is_recent window now)
recent_bounds window x now [] h k a = omega arith
recent_bounds window x now (t ∷ history) h k a =
    ground (arith, recent_bounds window x now history h k a.1)

All-le :
    (history : List ℕ) (last now : ℕ)
    → last ≤ now
    → All (λ t. t ≤ last) history
    → All (λ t. t ≤ now) history
All-le [] last now h a = tt
All-le (t ∷ history) last now h a = (omega arith, All-le history last now h a.1)

All-snoc :
    (history : List ℕ) (now : ℕ)
    → All (λ t. t ≤ now) history
    → All (λ t. t ≤ now) (history ++ now ∷ [])
All-snoc [] now a = (omega arith, tt)
All-snoc (t ∷ history) now a = (a.0, All-snoc history now a.1)

pub expire-Holds :
    (history : List ℕ) (last now : ℕ) (l : SlidingWindowLimiter)
    → last ≤ now
    → Holds history last l
    → Holds history now (expire l now)
unfolding expire
expire-Holds history last now l h a = record {
  held =
      ap (λ ts. select ts (is_recent l.window now)) a.held
      ∙ select-select l.window last now history h;
  past = All-le history last now h a.past;
  positive = a.positive;
}

module _ (history : List ℕ) (now : ℕ) (l : SlidingWindowLimiter) (a : Holds history now l) where
  pub grant-Holds :
      Holds (history ++ now ∷ []) now (record l { timestamps = l.timestamps ++ now ∷ [] })
  grant-Holds = record {
    held =
        ap (λ ts. ts ++ now ∷ []) a.held
        ∙ sym (
            select-append history (now ∷ []) (is_recent l.window now)
            ∙ ap (λ ts. select history (is_recent l.window now) ++ ts)
                (ground (arith, a.positive)));
    past = All-snoc history now a.past;
    positive = a.positive;
  }

  pub grant-Within :
      length l.timestamps < l.limit
      → Within l.limit l.window history
      → Within l.limit l.window (history ++ now ∷ [])
  grant-Within room w x =
      let recent : length l.timestamps ≡ count_if history (is_recent l.window now) =
        ap length a.held ∙ length-select history (is_recent l.window now) in
      let split = count_if-append history (now ∷ []) (in_window l.window x) in
      elim (Bool-cases (in_window l.window x now)) [
        | inl now_in ↦ omega (
          arith,
          split,
          recent,
          recent_bounds l.window x now history (ground arith) (ground arith) a.past,
          one now_in,
        )
        | inr now_out ↦ omega (arith, split, w x, none_more now_out)
      ]
    where
      one : in_window l.window x now ≡ true → count_if (now ∷ []) (in_window l.window x) ≡ 1
      one e = ground arith

      none_more : in_window l.window x now ≡ false → count_if (now ∷ []) (in_window l.window x) ≡ 0
      none_more e = ground arith

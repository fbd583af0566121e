-- ===== src/Text/Decimal.antt =====
-- Python's `str` of a number that is not negative.
use scan_ledger.Prelude.{ℕ, zero, suc, ◌/◌, ◌%◌, true, false, List, [], ◌∷◌, String, ltb}
use scan_ledger.Text.{append}

digit_names : List String
digit_names = "0" ∷ "1" ∷ "2" ∷ "3" ∷ "4" ∷ "5" ∷ "6" ∷ "7" ∷ "8" ∷ "9" ∷ []

name_at : List String → ℕ → String
name_at [] n = ""
name_at (name ∷ names) zero = name
name_at (name ∷ names) (suc n) = name_at names n

digits : ℕ → ℕ → String
unfolding digit_names name_at
digits zero n = ""
digits (suc fuel) n = elim (ltb n 10) [
  | true ↦ name_at digit_names n
  | false ↦ append (digits fuel (n / 10)) (name_at digit_names (n % 10))
]

-- `str(n)`: a number has at most as many digits as its successor counts.
unfoldable pub str_of : ℕ → String
unfolding digits append
str_of n = digits (suc n) n

-- ===== src/Text/Join.antt =====
-- Python's `str.join` and f-strings.
use scan_ledger.Prelude.{List, [], ◌∷◌, String}
use scan_ledger.Text.{append}

-- `sep.join(parts)`
unfoldable pub join : String → List String → String
join sep [] = ""
join sep (a ∷ []) = a
join sep (a ∷ b ∷ others) = append a (append sep (join sep (b ∷ others)))

-- An f-string: its parts, one after the other.
unfoldable pub f_string : List String → String
f_string [] = ""
f_string (a ∷ others) = append a (f_string others)

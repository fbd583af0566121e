-- ===== src/Text/Split.antt =====
-- Python's `str.split` and `str.partition`, for a separator that is not empty.
use Prim.Native.Char.{Char, code}
use Prim.Native.String.{[], ◌∷◌}
use scan_ledger.Prelude.{
  ℕ, zero, suc, Bool, true, false, Option, none, some, List, String, nat_beq, if◌then◌else◌,
}
use mathlib.Core.List.{[] as nil, ◌∷◌ as cons}

unfoldable pub text_length : String → ℕ
text_length [] = 0
text_length (c ∷ s) = suc (text_length s)

-- What follows the separator, in a text that begins with it.
after_prefix : String → String → Option String
after_prefix [] s = some s
after_prefix (c ∷ sep) [] = none
after_prefix (c ∷ sep) (d ∷ s) =
    let rest = after_prefix sep s in if nat_beq (code c) (code d) then rest else none

put_before : Char → String × Option String → String × Option String
put_before c (before, after) = (c ∷ before, after)

-- The text before the first separator, and what follows it: `s.split(sep, 1)`
unfoldable pub split_once : String → String → String × Option String
unfolding after_prefix put_before
split_once sep [] = ([], none)
split_once sep (c ∷ s) =
    let rest = put_before c (split_once sep s) in
    elim (after_prefix sep (c ∷ s)) [ some after ↦ ([], some after) | none ↦ rest ]

-- What is left of a separator after its first character, in characters.
rest_of : String → ℕ
rest_of [] = 0
rest_of (c ∷ s) = text_length s

has_prefix : String → String → Bool
unfolding after_prefix
has_prefix sep s = elim (after_prefix sep s) [ none ↦ false | some _ ↦ true ]

on_first : Char → List String → List String
on_first c nil = cons (c ∷ []) nil
on_first c (cons s pieces) = cons (c ∷ s) pieces

-- The pieces of a text of which the first `skip` characters belong to a separator.
pieces_after : String → ℕ → String → List String
unfolding has_prefix on_first rest_of
pieces_after sep skip [] = cons [] nil
pieces_after sep (suc skip) (c ∷ s) = pieces_after sep skip s
pieces_after sep zero (c ∷ s) =
    let next = pieces_after sep (rest_of sep) s in
    let more = on_first c (pieces_after sep zero s) in
    if has_prefix sep (c ∷ s) then cons [] next else more

-- `s.split(sep)`
unfoldable pub split_all : String → String → List String
unfolding pieces_after
split_all sep s = pieces_after sep zero s

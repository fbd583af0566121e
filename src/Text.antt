-- ===== src/Text.antt =====
-- Python's `str` as far as backend/app uses it, over native texts.
pub mod Join
pub mod Decimal
pub mod Split
use Prim.Native.Char.{Char, code}
use Prim.Native.String.{[], ◌∷◌}
use scan_ledger.Prelude.{
  ℕ, zero, suc, ◌≡◌, refl, arith, Bool, false, ◌&&◌, ◌||◌, Option, none, some, String, leb, nat_beq,
  if◌then◌else◌,
}

-- `c.isspace()`
abbrev pub is_space : ℕ → Bool
is_space c =
    (leb 9 c && leb c 13)
    || (leb 28 c && leb c 32)
    || nat_beq c 0x85
    || nat_beq c 0xa0
    || nat_beq c 0x1680
    || (leb 0x2000 c && leb c 0x200a)
    || nat_beq c 0x2028
    || nat_beq c 0x2029
    || nat_beq c 0x202f
    || nat_beq c 0x205f
    || nat_beq c 0x3000

lstrip : String → String
lstrip [] = []
lstrip (c ∷ s) = let rest = lstrip s in if is_space (code c) then rest else c ∷ s

-- `c` before a text whose end is stripped.
before_end : Char → String → String
before_end c [] = if is_space (code c) then [] else c ∷ []
before_end c (d ∷ s) = c ∷ d ∷ s

rstrip : String → String
unfolding before_end
rstrip [] = []
rstrip (c ∷ s) = before_end c (rstrip s)

-- `s.strip()`
unfoldable pub strip : String → String
unfolding lstrip rstrip
strip s = rstrip (lstrip s)

-- `c in s`, for one character
unfoldable pub contains : String → ℕ → Bool
contains [] c = false
contains (d ∷ s) c = nat_beq (code d) c || contains s c

-- `a + b`
unfoldable pub append : String → String → String
append [] b = b
append (c ∷ a) b = c ∷ append a b

-- `s` where it counts as true: it is there and not empty.
unfoldable pub some_text : Option String → Option String
some_text none = none
some_text (some []) = none
some_text (some (c ∷ s)) = some (c ∷ s)

-- `s[:n]`
unfoldable pub first_chars : ℕ → String → String
first_chars zero s = []
first_chars (suc n) [] = []
first_chars (suc n) (c ∷ s) = c ∷ first_chars n s

pub some_text_lem : (o : Option String) (v : String) → some_text o ≡ some v → o ≡ some v
unfolding some_text
some_text_lem none v h = h
some_text_lem (some []) v h = ground arith
some_text_lem (some (c ∷ s)) v h = h

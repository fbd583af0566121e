-- ===== src/Services/Json.antt =====
-- The decoded JSON that the providers of backend/app/services/providers read. A key stands once in an
-- object. Negative numbers and fractions are texts of a number here, since no reader computes with them.
use Prim.Native.String.{[], ◌∷◌}
use scan_ledger.Prelude.{
  Bool, Option, none, some, String, string_eq, ◌==◌, if◌then◌else◌, Outcome, returns, raises,
}

mutual
  pub data Json : Type 0 where
    json_null : Json
    json_bool : Bool → Json
    json_number : String → Json
    json_text : String → Json
    json_array : JsonList → Json
    json_object : JsonObject → Json

  pub data JsonList : Type 0 where
    no_item : JsonList
    item : Json → JsonList → JsonList

  pub data JsonObject : Type 0 where
    no_field : JsonObject
    field : String → Json → JsonObject → JsonObject

pub data JsonError : Type 0 where
  -- `x.get` of what is no dictionary, and a loop over what cannot be iterated
  attribute_error type_error : JsonError
  -- `x[0]` of a dictionary, and `int` of a text that is no number
  key_error value_error : JsonError

-- `d.get(key)`
unfoldable pub get_field : JsonObject → String → Option Json
get_field no_field key = none
get_field (field name value others) key =
    let rest = get_field others key in if name == key then some value else rest

-- What a loop over a text, a dictionary or a list goes through.
text_items : String → JsonList
text_items [] = no_item
text_items (c ∷ s) = item (json_text (c ∷ [])) (text_items s)

key_items : JsonObject → JsonList
key_items no_field = no_item
key_items (field name value others) = item (json_text name) (key_items others)

unfoldable pub items_of : Json → Outcome JsonError JsonList
unfolding text_items key_items
items_of (json_array items) = returns items
items_of (json_text s) = returns (text_items s)
items_of (json_object fields) = returns (key_items fields)
items_of _ = raises type_error

-- `d.get(key, [])`, as what is looped over
unfoldable pub items_at : JsonObject → String → Outcome JsonError JsonList
unfolding get_field items_of
items_at fields key = elim (get_field fields key) [
  | none ↦ returns no_item
  | some value ↦ items_of value
]

-- `str(d.get(key, default))`; `str_other` is `str` on what is no text.
unfoldable pub text_at : (Json → String) → JsonObject → String → String → String
unfolding get_field
text_at str_other fields key default = elim (get_field fields key) [
  | none ↦ default
  | some (json_text s) ↦ s
  | some value ↦ str_other value
]

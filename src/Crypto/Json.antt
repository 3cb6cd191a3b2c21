-- ===== src/Crypto/Json.antt =====
-- The values of signed artifacts (the strict JSON subset of railone_crypto/canonical_json.py), and
-- how the services read them. There are no floats, which `_validate` refuses.
use railone_core.Prelude.{
  ℕ, String, Bool, true, false, List, [], ◌∷◌, Option, none, some, Result, ok, err, key_error,
  type_error, if◌then◌else◌, or_raise, and_then,
}
use railone_core.Prelude.Int.{ℤ, pos}
use railone_core.Prelude.Equality.{◌==◌, string_eq}

mutual
  pub data Json : Type 0 where
    null : Json
    bool : Bool → Json
    int : ℤ → Json
    text : String → Json
    array : Items → Json
    object : Fields → Json

  pub data Items : Type 0 where
    nil : Items
    cons : Json → Items → Items

  pub data Fields : Type 0 where
    end : Fields
    field : String → Json → Fields → Fields

-- The literals `{k: v, ...}` and `[v, ...]`.
unfoldable pub fields_of : List (String × Json) → Fields
fields_of [] = end
fields_of ((k, v) ∷ rest) = field k v (fields_of rest)

unfoldable pub items_of : List Json → Items
items_of [] = nil
items_of (v ∷ rest) = cons v (items_of rest)

abbrev pub optional_text : Option String → Json
optional_text none = null
optional_text (some s) = text s

unfoldable pub find_field : String → Fields → Option Json
find_field k end = none
find_field k (field j v rest) = if j == k then some v else find_field k rest

-- `value[key]`
unfoldable pub item : String → Json → Result Json
unfolding find_field
item key (object fs) = or_raise (find_field key fs) (key_error key)
item key v = err (type_error "the value is no mapping")

unfoldable pub as_text : Json → Result String
as_text (text s) = ok s
as_text v = err (type_error "a text is expected")

-- Amounts and counts of a signed contract are never negative (`QuoteTerms.to_payload`).
unfoldable pub as_natural : Json → Result ℕ
as_natural (int (pos n)) = ok n
as_natural v = err (type_error "an amount is expected")

unfoldable pub text_at : String → Json → Result String
unfolding item as_text
text_at key v = and_then (item key v) as_text

unfoldable pub natural_at : String → Json → Result ℕ
unfolding item as_natural
natural_at key v = and_then (item key v) as_natural

-- `claims.get(name)`
abbrev pub claim : String → Json → Option Json
claim name (object fs) = find_field name fs
claim name _ = none

-- A claim that is a text, else nothing.
abbrev pub claimed_text : Option Json → String
claimed_text (some (text s)) = s
claimed_text _ = ""

-- A truth value counts as an integer.
abbrev pub claimed_int : Option Json → Option ℤ
claimed_int (some (int z)) = some z
claimed_int (some (bool true)) = some (pos 1)
claimed_int (some (bool false)) = some (pos 0)
claimed_int _ = none

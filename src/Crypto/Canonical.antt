-- ===== src/Crypto/Canonical.antt =====
-- railone_crypto/canonical_json.py: one text for each value, with sorted keys and no blanks, and the
-- content identifiers that the services derive from it. A text stands for its UTF-8 bytes.
pub mod Members
mod Tests
use Prim.Native.Char.{Char, code}
use Prim.Native.String.{◌++◌ as append}
use railone_core.Prelude.{
  ℕ, zero, suc, ◌/◌, ◌%◌, String, Bool, List, [], ◌∷◌, map, if◌then◌else◌, ltb, nat_beq, true,
  false,
}
use railone_core.Prelude.Int.{ℤ, pos, negsuc}
use railone_core.Prelude.Text.{nth_char, upper, take_text}
use railone_core.Prelude.Equality.{◌==◌, string_eq}
use railone_core.Prelude.Order.{text_leb}
use railone_core.Prelude.Sort.{sort}
use railone_core.Crypto.Json.{
  Json, null, bool, int, text, array, object, Items, nil, cons, Fields, end, field,
}

unfoldable pub digit : String → ℕ → String
unfolding nth_char
digit alphabet n = String.◌∷◌ (nth_char alphabet n (code_zero alphabet)) String.[]
  where
    code_zero : String → Char
    code_zero String.[] = Prim.Native.Char.nul
    code_zero (String.◌∷◌ c s) = c

-- The digits of `n` before `rest`; there are at most `n + 1` of them.
unfoldable pub decimal_from : ℕ → ℕ → String → String
unfolding digit
decimal_from zero n rest = rest
decimal_from (suc fuel) n rest =
    let longer = decimal_from fuel (n / 10) (append (digit "0123456789" (n % 10)) rest) in
    if ltb n 10 then append (digit "0123456789" n) rest else longer

-- `str(n)`
unfoldable pub decimal : ℕ → String
unfolding decimal_from
decimal n = decimal_from (suc n) n ""

unfoldable pub decimal_ℤ : ℤ → String
unfolding decimal
decimal_ℤ (pos n) = decimal n
decimal_ℤ (negsuc n) = append "-" (decimal (suc n))

-- What `json.dumps` writes for one character of a text with `ensure_ascii=False`.
unfoldable pub escape_char : Char → String
unfolding digit
escape_char c =
    let n = code c in
    if nat_beq n 0x22
    then "\\\""
    else if nat_beq n 0x5c
    then "\\\\"
    else if nat_beq n 0x0a
    then "\\n"
    else if nat_beq n 0x0d
    then "\\r"
    else if nat_beq n 0x09
    then "\\t"
    else if nat_beq n 0x08
    then "\\b"
    else if nat_beq n 0x0c
    then "\\f"
    else if ltb n 0x20
    then append "\\u00"
        (append (digit "0123456789abcdef" (n / 16)) (digit "0123456789abcdef" (n % 16)))
    else String.◌∷◌ c String.[]

unfoldable pub escape : String → String
unfolding escape_char
escape String.[] = String.[]
escape (String.◌∷◌ c s) = append (escape_char c) (escape s)

unfoldable pub quote : String → String
unfolding escape
quote s = append "\"" (append (escape s) "\"")

unfoldable pub join_comma : List String → String
join_comma [] = ""
join_comma (s ∷ []) = s
join_comma (s ∷ t ∷ rest) = append s (append "," (join_comma (t ∷ rest)))

abbrev pub key_leb : String × String → String × String → Bool
key_leb (j, _) (k, _) = text_leb j k

unfoldable pub member : String × String → String
unfolding quote
member (k, v) = append (quote k) (append ":" v)

-- The object's text from its members' texts: sorted by key.
unfoldable pub write_object : List (String × String) → String
unfolding join_comma member sort
write_object members = append "{" (append (join_comma (map member (sort key_leb members))) "}")

unfoldable mutual
  unfolding decimal_ℤ quote join_comma write_object

  pub canonical_json : Json → String
  canonical_json null = "null"
  canonical_json (bool true) = "true"
  canonical_json (bool false) = "false"
  canonical_json (int n) = decimal_ℤ n
  canonical_json (text s) = quote s
  canonical_json (array xs) = append "[" (append (join_comma (canonical_items xs)) "]")
  canonical_json (object fs) = write_object (canonical_fields fs)

  pub canonical_items : Items → List String
  canonical_items nil = []
  canonical_items (cons v xs) = canonical_json v ∷ canonical_items xs

  pub canonical_fields : Fields → List (String × String)
  canonical_fields end = []
  canonical_fields (field k v fs) = (k, canonical_json v) ∷ canonical_fields fs

-- `==` on signed values: they have one canonical text.
unfoldable pub same_json : Json → Json → Bool
unfolding canonical_json
same_json a b = canonical_json a == canonical_json b

-- `hashlib.sha256(...).hexdigest()` is an argument: the standard library's own code.
module _ (sha256_hex : String → String) where
  -- `_identifier` and `_content_id`: the prefix and 32 upper-case digits of the payload's hash.
  unfoldable pub content_id : String → Json → String
  unfolding canonical_json upper take_text
  content_id name payload =
      append name (append "-" (take_text 32 (upper (sha256_hex (canonical_json payload)))))

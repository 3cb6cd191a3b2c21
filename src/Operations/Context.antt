-- ===== src/Operations/Context.antt =====
-- `_provider_context` of railone_operations/service.py: what a provider adds to its answer.
use Prim.Native.Char.{Char, code}
use railone_core.Prelude.{
  String, Bool, true, false, not, ◌||◌, ◌&&◌, List, map, Result, ok, value_error, raise_if,
  and_then, if◌then◌else◌, ltb, leb, nat_beq, length, some_of,
}
use railone_core.Prelude.Equality.{◌==◌, string_eq}
use railone_core.Prelude.Text.{is_empty, text_length}
use railone_core.Prelude.Order.{text_leb}
use railone_core.Prelude.Sort.{sort}
use railone_core.Execution.Scoring.{distinct}

abbrev pub is_lower : Char → Bool
is_lower c = leb 97 (code c) && leb (code c) 122

abbrev pub is_key_char : Char → Bool
is_key_char c = is_lower c || (leb 48 (code c) && leb (code c) 57) || nat_beq (code c) 95

abbrev pub all_key_chars : String → Bool
all_key_chars String.[] = true
all_key_chars (String.◌∷◌ c s) = is_key_char c && all_key_chars s

-- `re.fullmatch(r"[a-z][a-z0-9_]{0,63}", key)`
unfoldable pub is_context_key : String → Bool
is_context_key String.[] = false
is_context_key (String.◌∷◌ c s) = is_lower c && all_key_chars s && leb (text_length s) 63

abbrev pub is_context_field : String × String → Bool
is_context_field (key, value) =
    is_context_key key && not (is_empty value) && leb (text_length value) 256

abbrev pub keys_of : List (String × String) → List String
keys_of fields = map (λ f. f.0) fields

-- The order of pairs of texts.
unfoldable pub pair_leb : String × String → String × String → Bool
pair_leb (j, v) (k, w) = if j == k then text_leb v w else text_leb j k

-- `_provider_context`
unfoldable pub provider_context : List (String × String) → Result (List (String × String))
unfolding is_context_key pair_leb distinct sort
provider_context values =
    and_then (raise_if (ltb 20 (length values)) (value_error "provider context exceeds 20 fields"))
      λ _.
        and_then
          (raise_if (some_of (λ f. not (is_context_field f)) values)
            (value_error "provider context contains an invalid field"))
          λ _.
            and_then
              (raise_if (not (distinct (keys_of values)))
                (value_error "provider context keys must be unique"))
              λ _. ok (sort pair_leb values)

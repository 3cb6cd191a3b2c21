-- ===== src/Crypto/Canonical/Tests.antt =====
-- An object of railone_crypto/canonical_json.py with two members.
use railone_core.Prelude.{String, ◌≡◌, ◌≢◌, refl, false}
use railone_core.Prelude.Equality.{◌==◌, string_eq}
use railone_core.Prelude.Int.{pos}
use railone_core.Crypto.Json.{Json, int, text, object, end, field}
use railone_core.Crypto.Canonical.{canonical_json}
use railone_core.Crypto.Canonical.Members.{
  AreDistinct, objects, exchange, canonical_json_order_free,
}

abbrev one_way : Json
one_way = object (field "b" (int (pos 12)) (field "a" (text "x") end))

abbrev other_way : Json
other_way = object (field "a" (text "x") (field "b" (int (pos 12)) end))

apart : (s t : String) → (s == t) ≡ false → s ≢ t
apart s t h q = cc ((string_eq.same_iff s t).1 q, h)

b_a : ◌≢◌ {A = String} "b" "a"
b_a = apart "b" "a" refl

members-AreDistinct : AreDistinct (field "b" (int (pos 12)) (field "a" (text "x") end))
unfolding canonical_json
members-AreDistinct = ((b_a, tt), (tt, tt))

canonical_json_order_free_example : canonical_json one_way ≡ canonical_json other_way
canonical_json_order_free_example =
    canonical_json_order_free
      (objects members-AreDistinct (exchange "b" "a" (int (pos 12)) (text "x") end))

-- ===== src/Crypto/Canonical/Members.antt =====
-- The text that railone_crypto/canonical_json.py writes does not depend on the order of members.
use mathlib.Core.List.{Permᴰ}
use railone_core.Prelude.{String, ◌≡◌, refl, ap, map, List}
use railone_core.Prelude.Order.{text_leb_total, text_leb_trans, text_leb_antisymm}
use railone_core.Prelude.Sort.Order.{IsApart, sort-Permᴰ}
use Prim.Native.String.{◌++◌ as append}
use railone_core.Crypto.Json.{Json, array, object, Items, nil, cons, Fields, end, field}
use railone_core.Crypto.Canonical.{
  key_leb, member, join_comma, write_object, canonical_json, canonical_items, canonical_fields,
}

abbrev name_of : String × String → String
name_of p = p.0

-- No two members of one name, as in a `dict`.
abbrev pub AreDistinct : Fields → Type 0
AreDistinct fs = IsApart name_of (canonical_fields fs)

-- The same value, its members in another order at any depth.
mutual
  pub data IsSame : Json → Json → Type 0 where
    equal : (v : Json) → IsSame v v
    arrays : {xs ys : Items} → AreSame xs ys → IsSame (array xs) (array ys)
    objects : {fs gs : Fields} → AreDistinct fs → AreMembers fs gs → IsSame (object fs) (object gs)

  pub data AreSame : Items → Items → Type 0 where
    none_left : AreSame nil nil
    next :
        {v w : Json} {xs ys : Items} → IsSame v w → AreSame xs ys → AreSame (cons v xs) (cons w ys)

  pub data AreMembers : Fields → Fields → Type 0 where
    no_member : AreMembers end end
    keep :
        {v w : Json} {fs gs : Fields} (k : String)
        → IsSame v w
        → AreMembers fs gs
        → AreMembers (field k v fs) (field k w gs)
    exchange :
        (j k : String) (v w : Json) (fs : Fields)
        → AreMembers (field j v (field k w fs)) (field k w (field j v fs))
    after : {fs gs hs : Fields} → AreMembers fs gs → AreMembers gs hs → AreMembers fs hs

write_object-Permᴰ :
    (ps qs : List (String × String))
    → Permᴰ ps qs
    → IsApart name_of ps
    → write_object ps ≡ write_object qs
unfolding write_object
write_object-Permᴰ ps qs p apart =
    ap (λ l. append "{" (append (join_comma (map member l)) "}"))
      (sort-Permᴰ key_leb (λ a b. text_leb_total a.0 b.0) (λ a b c. text_leb_trans a.0 b.0 c.0)
        name_of (λ a b. text_leb_antisymm a.0 b.0) p apart)

mutual
  unfolding canonical_json

  canonical_json-same : {v w : Json} → IsSame v w → canonical_json v ≡ canonical_json w
  canonical_json-same (equal v) = refl
  canonical_json-same (arrays s) =
      ap (λ l. append "[" (append (join_comma l) "]")) (canonical_items-same s)
  canonical_json-same (objects {fs} {gs} apart m) =
      write_object-Permᴰ (canonical_fields fs) (canonical_fields gs) (canonical_fields-Permᴰ m)
        apart

  canonical_items-same : {xs ys : Items} → AreSame xs ys → canonical_items xs ≡ canonical_items ys
  canonical_items-same none_left = refl
  canonical_items-same (next s rest) = cc (canonical_json-same s, canonical_items-same rest)

  canonical_fields-Permᴰ :
      {fs gs : Fields} → AreMembers fs gs → Permᴰ (canonical_fields fs) (canonical_fields gs)
  canonical_fields-Permᴰ no_member = Permᴰ.nil
  canonical_fields-Permᴰ (keep k s m) =
      Permᴰ.cons (ap (λ t. (k, t)) (canonical_json-same s)) (canonical_fields-Permᴰ m)
  canonical_fields-Permᴰ (exchange j k v w fs) = Permᴰ.swap refl refl
  canonical_fields-Permᴰ (after m n) =
      Permᴰ.trans (canonical_fields-Permᴰ m) (canonical_fields-Permᴰ n)

-- Values that differ only in the order of members, at any depth, have the same canonical text, and so the
-- same hash and signature.
pub canonical_json_order_free : {v w : Json} → IsSame v w → canonical_json v ≡ canonical_json w
canonical_json_order_free s = canonical_json-same s

-- ===== src/Crypto/Signing/Tests.antt =====
-- A quote that railone_crypto/signature_service.py signs and verifies.
use railone_core.Prelude.{
  ℕ, zero, suc, String, ◌≡◌, refl, true, false, List, [], ◌∷◌, none, some, Result, ok,
}
use railone_core.Prelude.Text.{text_length, nth_char}
use railone_core.Prelude.Equality.{◌==◌, string_eq}
use railone_core.Prelude.Dict.{lookup, insert}
use railone_core.Prelude.Order.{text_leb}
use railone_core.Crypto.Json.{Json, int, object, fields_of, find_field}
use railone_core.Prelude.Int.{pos}
use railone_core.Crypto.Canonical.{
  digit, decimal_from, decimal, decimal_ℤ, escape_char, escape, quote, join_comma, member,
  write_object, canonical_json, canonical_items, canonical_fields,
}
use railone_core.Crypto.Signatures.{ArtifactType, SignatureEnvelope}
use railone_core.Crypto.Keys.{
  KeyPurpose, KeyRecord, made_record, Ed25519, KeyProvider, KeyRequest, generate, sign_message,
}
use railone_core.Crypto.Keys.Paired.{Reached, created, generated}
use railone_core.Crypto.Signing.{
  artifact_of, signing_input, protected_header, sign_artifact, verify_issued, verify_signed,
  verify_kind, verify_artifact,
}
use railone_core.Crypto.Signing.Verified.{fresh_answer, verify-sign}
use railone_core.Crypto.Signing.Accepted.{IsAccepted, verify_artifact-IsAccepted}

abbrev curve : Ed25519
curve = record {
  public_of = λ private. private;
  sign_with = λ private message. message;
  verify_with = λ public signature message. signature == message;
}

abbrev hash : String → String
hash s = decimal (text_length s)

abbrev bytes : ℕ → List ℕ
bytes zero = []
bytes (suc n) = 7 ∷ bytes n

abbrev request : KeyRequest
request = record {
  key_id = "K";
  owner_id = "RAILONE";
  purpose = KeyPurpose.quote_signing;
  not_before = 3000000;
  not_after = 90000000;
  rotation_parent_id = none;
  private = bytes 32;
  now = 2000000;
}

abbrev no_keys : KeyProvider
no_keys = record { records = []; private_keys = [] }

unfoldable keys : KeyProvider
keys = (generate curve request no_keys).1

abbrev payload : Json
payload = object (fields_of (("amount_minor", int (pos 8)) ∷ []))

unfoldable signed : SignatureEnvelope
signed = envelope_in (sign_artifact curve hash keys ArtifactType.quote payload "K" 7500000)
  where
    envelope_in : Result SignatureEnvelope → SignatureEnvelope
    envelope_in (ok e) = e
    envelope_in _ = record { protected = payload; payload = payload; signature = "" }

record Run : Type 0 where
  pub signs : sign_artifact curve hash keys ArtifactType.quote payload "K" 7500000 ≡ ok signed
  pub verifies :
      (verify_artifact curve hash keys false (some ArtifactType.quote) signed).valid ≡ true

run : Run
unfolding lookup insert text_leb fields_of find_field digit decimal_from decimal decimal_ℤ
    escape_char escape quote join_comma member write_object canonical_json canonical_items
    canonical_fields nth_char made_record generate sign_message artifact_of signing_input
    protected_header sign_artifact verify_issued verify_signed verify_kind verify_artifact keys
    signed
run = record { signs = refl; verifies = refl }

keys-Reached : Reached curve keys
unfolding keys
keys-Reached = generated request created

verify-sign_example :
    (r : KeyRecord) × (lookup "K" keys.records ≡ some r)
    × (verify_artifact curve hash keys false (some ArtifactType.quote) signed
        ≡ fresh_answer curve hash keys r 7500000)
verify-sign_example =
    verify-sign curve hash (λ private message. (string_eq.same_iff message message).1 refl)
      keys-Reached ArtifactType.quote payload "K" 7500000 signed refl run.signs

verify_artifact-IsAccepted_example : IsAccepted curve hash keys ArtifactType.quote signed
verify_artifact-IsAccepted_example =
    verify_artifact-IsAccepted curve hash keys ArtifactType.quote signed run.verifies

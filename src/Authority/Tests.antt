-- ===== src/Authority/Tests.antt =====
-- An authority of a sender that railone_authority/service.py signs, and a participation under it.
use railone_core.Prelude.{◌≡◌, ◌<◌, ◌≤◌, ◌+◌, ℕ, refl, true, [], ok, Result}
use railone_core.Prelude.Int.{pos}
use railone_core.Crypto.Json.{
  Json, object, fields_of, items_of, find_field, item, as_text, as_natural, text_at, natural_at,
}
use railone_core.Crypto.Canonical.{
  digit, decimal_from, decimal, decimal_ℤ, escape_char, escape, quote, join_comma, member,
  write_object, content_id, canonical_json, canonical_items, canonical_fields,
}
use railone_core.Prelude.Text.{
  text_length, is_space, lstrip, rstrip, strip, nth_char, upper_char, upper, take_text,
}
use railone_core.Crypto.Signatures.{SignatureEnvelope, SignatureService, ArtifactType}
use railone_core.Contracts.Validation.{require_text}
use railone_core.Execution.Models.{epoch_seconds}
use railone_core.Authority.{
  ReceiverParticipationMode, SenderAuthorization, ReceiverParticipation, validate_window,
  sender_core, receiver_core, sign_core, issue_sender_authority, issue_receiver_participation,
}
use railone_core.Authority.Windows.{receiver-within_sender}

abbrev signed : Json → SignatureEnvelope
signed payload = record { protected = object (fields_of []); payload = payload; signature = "S" }

abbrev signer : SignatureService
signer = record {
  sign_artifact = λ _ payload _ _. ok (signed payload);
  verify_artifact = λ _ _. record { valid = true; reason = "ok" };
  sha256_hex = λ s. decimal (text_length s);
}

abbrev authorization : SenderAuthorization
authorization = record {
  utt_id = "U1";
  quote_id = "Q1";
  sender_actor_type = "PERSON";
  sender_reference = " A1 ";
  amount_minor = pos 8;
  currency = "kes";
  origin_context = object (fields_of []);
  authorization_method = "PIN";
  authorization_reference = "X";
  signing_key_id = "K";
  authorized_at = 5000000;
  expires_at = 605000000;
}

envelope_in : Result SignatureEnvelope → SignatureEnvelope
envelope_in (ok e) = e
envelope_in _ = signed (object (fields_of []))

unfoldable authority : SignatureEnvelope
authority = envelope_in (issue_sender_authority signer authorization)

unfoldable participation : ReceiverParticipation
participation = record {
  sender_authority = authority;
  receiver_actor_type = "MERCHANT";
  receiver_reference = "M1";
  participation_mode = ReceiverParticipationMode.passive_credit;
  evidence_reference = "E";
  signing_key_id = "K";
  attested_at = 6000000;
  expires_at = 600000000;
}

unfoldable participant : SignatureEnvelope
participant = envelope_in (issue_receiver_participation signer participation)

participates : issue_receiver_participation signer participation ≡ ok participant
unfolding fields_of items_of find_field item as_text as_natural text_at natural_at digit
    decimal_from decimal decimal_ℤ escape_char escape quote join_comma member write_object
    content_id canonical_json canonical_items canonical_fields is_space lstrip rstrip strip nth_char
    upper_char upper take_text require_text validate_window sender_core receiver_core sign_core
    issue_sender_authority issue_receiver_participation authority participation participant
    envelope_in
participates = refl

receiver-within_sender_example :
    ((signer.verify_artifact participation.sender_authority ArtifactType.etk_s).valid ≡ true)
    × (participation.attested_at < participation.expires_at)
    × (participation.expires_at ≤ participation.attested_at + 900000000)
    × ((limit : ℕ) × (natural_at "expires_at" participation.sender_authority.payload ≡ ok limit)
        × (epoch_seconds participation.expires_at ≤ limit))
receiver-within_sender_example =
    receiver-within_sender signer participation participant participates

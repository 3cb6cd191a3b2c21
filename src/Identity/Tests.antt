-- ===== src/Identity/Tests.antt =====
-- An identity of railone_identity/continuity.py that is onboarded, revised and revoked.
use railone_core.Prelude.{
  String, ℕ, ◌≡◌, ◌≢◌, refl, ap, arith, true, [], ◌∷◌, Option, none, some, ok,
}
use railone_core.Prelude.Int.{pos}
use railone_core.Prelude.Equality.{string_eq}
use railone_core.Prelude.Dict.{lookup, insert}
use railone_core.Prelude.Order.{text_leb}
use railone_core.Crypto.Json.{
  int, text, object, fields_of, items_of, find_field, item, as_text, text_at,
}
use railone_core.Crypto.Canonical.{
  digit, decimal_from, decimal, decimal_ℤ, escape_char, escape, quote, join_comma, member,
  write_object, canonical_json, canonical_items, canonical_fields,
}
use railone_core.Prelude.Text.{
  is_space, lstrip, rstrip, strip, nth_char, upper_char, upper, take_text,
}
use railone_core.Crypto.Signatures.{SignatureEnvelope}
use railone_core.Execution.Models.{Datetime, require_aware}
use railone_core.Identity.Models.{trust_tier_of, t0, IdentityStatus, IdentityBundle}
use railone_core.Identity.Attestation.{
  is_sha256, reject_missing, check_window, verify_claims, verify_attestation,
}
use railone_core.Identity.Digests.{hex, base32_digits, base32}
use railone_core.Identity.Repository.{
  IdentityRepository, get_by_fingerprint, save, same_genesis, same_anchor, check_revision,
  append_over, append_revision,
}
use railone_core.Identity.Bundles.{
  IdentitySeed, ContinuityServices, drop_text, normalize, canonical_payload, attested_claims,
  identity_claims, seed_digest, continuity_segment, new_bundle, revised_bundle,
}
use railone_core.Identity.Continuity.{onboard_over, onboard, revise_over, revise}
use railone_core.Identity.Histories.{IsStep, ledger_of, IsValid}
use railone_core.Identity.Attested.{IsAttested, change-IsAttested}
use railone_core.Identity.Calls.{
  Call, onboarding, revision, empty, serve, serve_all, empty-IsValid, serve_all-IsValid,
  serve-IsStep, called-IsValid, revoked-IsFinal,
}

abbrev services : ContinuityServices
services = record {
  continuity_key_id = "K";
  signatures = record {
    sign_artifact = λ _ payload _ _.
        ok (record { protected = object (fields_of []); payload = payload; signature = "S" });
    verify_artifact = λ _ _. record { valid = true; reason = "ok" };
    sha256_hex = λ s. s;
  };
  derive = λ _ _. ok (1 ∷ 2 ∷ 3 ∷ 4 ∷ 250 ∷ 6 ∷ []);
  nfkc = λ s. s;
}

abbrev seed : IdentitySeed
seed = record { provider_id = "ips"; provider_subject_reference = "s1"; country_code = "ke" }

abbrev attestation : String → SignatureEnvelope
attestation id = record {
  protected = object (fields_of (("iss", text "IPS") ∷ []));
  payload = object (
      fields_of (
        ("attestation_id", text id)
        ∷ ("provider_id", text "IPS")
        ∷ ("provider_subject_reference", text " s1 ")
        ∷ ("verification_reference", text "V")
        ∷ ("country_code", text "KE")
        ∷ ("verification_result", text "VERIFIED")
        ∷ ("trust_tier", text "T2")
        ∷ (
          "evidence_sha256",
          text "00112233445566778899aabbccddeeff00112233445566778899aabbccddeeff",
        )
        ∷ ("issued_at", int (pos 1))
        ∷ ("expires_at", int (pos 100))
        ∷ []));
  signature = "S";
}

abbrev noon : Datetime
noon = record { has_zone = true; micros = 7000000 }

abbrev joins : Call
joins = onboarding seed (attestation "A1") "ke-tz" noon

abbrev is_revoked_then : Call
is_revoked_then = revision seed (attestation "A2") IdentityStatus.revoked "fraud" noon

unfoldable onboarded : IdentityRepository
onboarded = serve_all services (joins ∷ []) empty

unfoldable ended : IdentityRepository
ended = serve_all services (joins ∷ is_revoked_then ∷ []) empty

unfoldable bundle_in : Option IdentityBundle → IdentityBundle
bundle_in (some b) = b
bundle_in none = record {
  genesis = record {
    rig_id = "";
    continuity_uid = "";
    continuity_key_id = "";
    identity_fingerprint = "";
    verification_provider_id = "";
    verification_reference = "";
    evidence_sha256 = "";
    attestation_id = "";
    created_at = 0;
  };
  identity = record {
    rio_id = "";
    railone_id = "";
    continuity_uid = "";
    rig_id = "";
    active_riv_id = "";
    corridor = "";
    status = IdentityStatus.active;
    created_at = 0;
  };
  active_revision = record {
    riv_id = "";
    rio_id = "";
    continuity_uid = "";
    revision = 0;
    trust_tier = t0;
    status = IdentityStatus.active;
    reason = "";
    attestation_id = "";
    created_at = 0;
  };
}

unfoldable bundle : IdentityBundle
bundle = bundle_in (lookup "CUID-AEBAGBH2AY" ended.by_continuity_uid)

unfoldable number_in : IdentityRepository → ℕ
number_in s = (bundle_in (lookup "CUID-AEBAGBH2AY" s.by_continuity_uid)).active_revision.revision

record Run : Type 0 where
  pub first : number_in onboarded ≡ 1
  pub next : number_in (serve services is_revoked_then onboarded) ≡ 2
  pub found : lookup "CUID-AEBAGBH2AY" ended.by_continuity_uid ≡ some bundle
  pub second : bundle.active_revision.revision ≡ 2
  pub revoked : bundle.identity.status ≡ IdentityStatus.revoked

run : Run
unfolding lookup insert text_leb fields_of items_of find_field item as_text text_at digit
    decimal_from decimal decimal_ℤ escape_char escape quote join_comma member write_object
    canonical_json canonical_items canonical_fields is_space lstrip rstrip strip nth_char upper_char
    upper take_text require_aware trust_tier_of is_sha256 reject_missing check_window verify_claims
    verify_attestation hex base32_digits base32 get_by_fingerprint save same_genesis same_anchor
    check_revision append_over append_revision drop_text normalize canonical_payload attested_claims
    identity_claims seed_digest continuity_segment new_bundle onboard_over onboard revised_bundle
    revise_over revise serve serve_all onboarded ended bundle bundle_in number_in
run = record { first = refl; next = refl; found = refl; second = refl; revoked = refl }

onboarded-IsValid : IsValid onboarded
unfolding onboarded
onboarded-IsValid = serve_all-IsValid services (joins ∷ []) empty empty-IsValid

ended-IsValid : IsValid ended
unfolding ended
ended-IsValid = serve_all-IsValid services (joins ∷ is_revoked_then ∷ []) empty empty-IsValid

found_after :
    lookup "CUID-AEBAGBH2AY"
      (serve_all services (joins ∷ is_revoked_then ∷ []) empty).by_continuity_uid
    ≡ some bundle
unfolding ended
found_after = run.found

serve-IsStep_example :
    IsStep (ledger_of onboarded) (ledger_of (serve services is_revoked_then onboarded))
serve-IsStep_example = serve-IsStep services is_revoked_then onboarded onboarded-IsValid

called-IsValid_example : IsValid (serve_all services (joins ∷ is_revoked_then ∷ []) empty)
called-IsValid_example = called-IsValid services (joins ∷ is_revoked_then ∷ [])

revoked-IsFinal_example :
    lookup "CUID-AEBAGBH2AY"
      (serve_all services (is_revoked_then ∷ joins ∷ []) ended).by_continuity_uid
    ≡ some bundle
revoked-IsFinal_example =
    revoked-IsFinal services (is_revoked_then ∷ joins ∷ []) ended "CUID-AEBAGBH2AY" bundle
      ended-IsValid run.found run.revoked

second_changes : serve services is_revoked_then onboarded ≢ onboarded
second_changes q = ground (arith, run.first, run.next, ap number_in q)

change-IsAttested_example : IsAttested services seed (attestation "A2") noon
change-IsAttested_example = change-IsAttested services is_revoked_then onboarded second_changes

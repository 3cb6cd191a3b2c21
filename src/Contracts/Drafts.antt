-- ===== src/Contracts/Drafts.antt =====
-- What `QuoteAcceptanceService.accept` of railone_contracts/acceptance_service.py checks and signs before
-- it writes. The members of an object may stand in another order than in the source, which the canonical
-- text forgets.
pub mod Guards
use Prim.Native.String.{◌++◌ as append}
use railone_core.Prelude.{
  ℕ, ◌+◌, ◌*◌, String, Bool, true, false, not, ◌&&◌, List, [], ◌∷◌, ◌++◌, Result, ok, err,
  value_error, permission_error, type_error, raise_if, and_then, leb, ltb,
}
use railone_core.Prelude.Int.{ℤ, pos, pos_part, leb_ℤ}
use railone_core.Prelude.Results.{◌>>=◌, ◌>>◌}
use railone_core.Crypto.Json.{
  Json, int, text, object, Fields, field, fields_of, item, text_at, natural_at,
}
use railone_core.Crypto.Canonical.{canonical_json, same_json, content_id}
use railone_core.Crypto.Signatures.{SignatureEnvelope, SignatureService, ArtifactType}
use railone_core.Contracts.Validation.{require_text}
use railone_core.Contracts.Terms.{ContextType, OriginContext}
use railone_core.Contracts.Store.{AcceptedContract}
use railone_core.Execution.Models.{epoch_seconds}
use railone_core.Authority.{issue_sender_authority, max_authority_seconds}

pub record QuoteAcceptanceCommand : Type 0 where
  pub signed_quote : SignatureEnvelope
  pub origin : OriginContext
  pub authorization_method : String
  pub authorization_reference : String
  pub idempotency_key : String
  pub authority_ttl_seconds : ℤ

-- `SignatureEnvelope.to_dict`
abbrev pub envelope_json : SignatureEnvelope → Json
envelope_json e = object (
    fields_of
      (("protected", e.protected) ∷ ("payload", e.payload) ∷ ("signature", text e.signature) ∷ []))

-- `request_material`
unfoldable pub acceptance_material : QuoteAcceptanceCommand → Json → Result Json
unfolding fields_of
acceptance_material c origin = do
  method ← require_text "authorization_method" c.authorization_method
  reference ← require_text "authorization_reference" c.authorization_reference
  ok (
      object (
        fields_of (
          ("signed_quote", envelope_json c.signed_quote)
          ∷ ("origin", origin)
          ∷ ("authorization_method", text method)
          ∷ ("authorization_reference", text reference)
          ∷ ("authority_ttl_seconds", int c.authority_ttl_seconds)
          ∷ [])))

-- A merchant pays for itself, and so does a person.
unfoldable pub check_payer : ContextType → Json → Json → Result (Unit {0})
unfolding same_json
check_payer ContextType.merchant quote origin = do
  payer ← item "payer" quote
  actor ← item "actor_id" payer
  merchant ← item "merchant_id" origin
  raise_if (not (same_json actor merchant))
      (permission_error "quote payer does not match merchant context")
check_payer ContextType.p2p quote origin = do
  payer ← item "payer" quote
  actor ← item "actor_id" payer
  person ← item "continuity_uid" origin
  raise_if (not (same_json actor person))
      (permission_error "quote payer does not match P2P continuity")
check_payer ContextType.partner quote origin = ok tt

-- The test on types that an amount has to pass to be signed.
abbrev pub amount_of : Json → Result ℤ
amount_of (int z) = ok z
amount_of v = err (type_error "amount_minor must be an integer")

-- The guards on a quote at an instant.
unfoldable pub check_quote : QuoteAcceptanceCommand → Json → ℕ → Result (Unit {0})
unfolding check_payer same_json
check_quote c origin epoch = do
  let quote = c.signed_quote.payload
  issued ← natural_at "issued_at" quote
  raise_if (ltb epoch issued) (permission_error "quote rejected: QUOTE_NOT_YET_VALID")
  expires ← natural_at "expires_at" quote
  raise_if (leb expires epoch) (permission_error "quote rejected: QUOTE_EXPIRED")
  quoted ← item "purpose" quote
  purpose ← item "purpose" origin
  raise_if (not (same_json quoted purpose))
      (permission_error "quote purpose does not match origin purpose")
  check_payer c.origin.context_type quote origin
  raise_if
      (not (
        leb_ℤ (pos 1) c.authority_ttl_seconds
        && leb_ℤ c.authority_ttl_seconds (pos max_authority_seconds)))
      (value_error "authority TTL is outside the permitted range")

-- `name: quote[name]` for each name.
unfoldable pub copied : List String → Json → Result (List (String × Json))
copied [] quote = ok []
copied (name ∷ names) quote = do
  value ← item name quote
  rest ← copied names quote
  ok ((name, value) ∷ rest)

module _ (signatures : SignatureService) where
  abbrev pub sha256_of : Json → String
  sha256_of v = signatures.sha256_hex (canonical_json v)

  -- `commercial_core`
  unfoldable pub commercial_core : QuoteAcceptanceCommand → Json → String → ℕ → Result Fields
  unfolding copied fields_of
  commercial_core c origin request_sha256 epoch = do
    let quote = c.signed_quote.payload
    quote_id ← item "quote_id" quote
    terms ←
        copied
          ("payer" ∷ "beneficiary" ∷ "purpose" ∷ "amount_minor" ∷ "currency_from"
            ∷ "receive_amount_minor" ∷ "currency_to" ∷ "total_fee_minor" ∷ "routing_budget_minor"
            ∷ "fx_rate" ∷ "corridor_id" ∷ "service_level" ∷ "routing_policy_id" ∷ "pricing_version"
            ∷ "max_attempts" ∷ "endpoint_model_version" ∷ [])
          quote
    ok (
        fields_of (
          (("quote_id", quote_id) ∷ ("quote_payload_sha256", text (sha256_of quote)) ∷ terms)
          ++ ("pricing_model", text "PER_INTENT")
            ∷ ("origin", origin)
            ∷ ("accepted_at", int (pos epoch))
            ∷ ("acceptance_request_sha256", text request_sha256)
            ∷ ("custody_model", text "NON_CUSTODIAL")
            ∷ []))

  unfoldable pub sender_authority :
      QuoteAcceptanceCommand → Json → String → String → ℕ → Result SignatureEnvelope
  unfolding issue_sender_authority
  sender_authority c origin utt_id key_id at = do
    let quote = c.signed_quote.payload
    quote_id ← text_at "quote_id" quote
    payer ← item "payer" quote
    actor_type ← text_at "actor_type" payer
    actor_id ← text_at "actor_id" payer
    written ← item "amount_minor" quote
    amount ← amount_of written
    currency ← text_at "currency_from" quote
    issue_sender_authority signatures (record {
      utt_id = utt_id;
      quote_id = quote_id;
      sender_actor_type = actor_type;
      sender_reference = actor_id;
      amount_minor = amount;
      currency = currency;
      origin_context = origin;
      authorization_method = c.authorization_method;
      authorization_reference = c.authorization_reference;
      signing_key_id = key_id;
      authorized_at = at;
      expires_at = at + pos_part c.authority_ttl_seconds * 1000000;
    })

  module _ (utt_signing_key_id authority_signing_key_id : String) where
    -- The contract that an acceptance at an instant makes.
    unfoldable pub drafted_contract :
        QuoteAcceptanceCommand → Json → String → ℕ → Result AcceptedContract
    unfolding check_quote commercial_core sender_authority
    drafted_contract c origin request_sha256 at = do
      let check = signatures.verify_artifact c.signed_quote ArtifactType.quote
      raise_if (not check.valid) (permission_error (append "quote rejected: " check.reason))
      check_quote c origin (epoch_seconds at)
      core ← commercial_core c origin request_sha256 (epoch_seconds at)
      let utt_id = content_id signatures.sha256_hex "UTT" (object core)
      authority ← sender_authority c origin utt_id authority_signing_key_id at
      etk_s_id ← item "etk_s_id" authority.payload
      signed_utt ←
          signatures.sign_artifact ArtifactType.utt
            (object (
              field "utt_id" (text utt_id)
                (field "etk_s_id" etk_s_id (field "commercial_state" (text "ACCEPTED") core))))
            utt_signing_key_id at
      quote_id ← text_at "quote_id" c.signed_quote.payload
      ok (record {
        signed_utt = signed_utt;
        sender_authority = authority;
        quote_id = quote_id;
        utt_id = utt_id;
        request_sha256 = request_sha256;
        accepted_at = at;
      })

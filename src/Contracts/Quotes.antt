-- ===== src/Contracts/Quotes.antt =====
-- `QuoteService.issue_quote` of railone_contracts/quote_service.py. The endpoint validator is an argument.
pub mod Guards
use railone_core.Prelude.{
  ℕ, ◌-◌, String, Bool, not, ◌&&◌, Option, none, some, Result, ok, err, value_error, runtime_error,
  type_error, raise_if, leb, ltb,
}
use railone_core.Prelude.Int.{pos}
use railone_core.Prelude.Results.{◌>>=◌, ◌>>◌}
use railone_core.Crypto.Json.{Json, int, text, object, Fields, end, field}
use railone_core.Crypto.Canonical.{content_id}
use railone_core.Crypto.Signatures.{SignatureEnvelope, SignatureService, ArtifactType}
use railone_core.Contracts.Endpoints.{AccountRole, EndpointValidator}
use railone_core.Contracts.Terms.{QuoteTerms, terms_payload}
use railone_core.Execution.Models.{Datetime, epoch_seconds}

-- `MAX_QUOTE_TTL_SECONDS` in microseconds
abbrev pub max_quote_ttl : ℕ
max_quote_ttl = 300000000

unfoldable pub check_quote_window : Datetime → Datetime → Result (Unit {0})
check_quote_window issued expires = do
  raise_if (not (issued.has_zone && expires.has_zone))
      (value_error "quote timestamps must be timezone-aware")
  raise_if (leb expires.micros issued.micros) (value_error "quote expiry must be after issuance")
  raise_if (ltb max_quote_ttl (expires.micros - issued.micros))
      (value_error "quote TTL exceeds pilot maximum")

-- `{**payload, name: value}` for a name that the payload does not have.
unfoldable pub append_field : String → Json → Fields → Fields
append_field name value end = field name value end
append_field name value (field k v rest) = field k v (append_field name value rest)

-- The members of an object.
abbrev pub fields_in : Json → Result Fields
fields_in (object fs) = ok fs
fields_in v = err (type_error "the value is no mapping")

module _ (signatures : SignatureService) (decimal : String → Option Bool)
    (endpoints : Option EndpointValidator) (allow_unverified : Bool) where
  unfoldable pub check_quote_endpoints : QuoteTerms → Result (Unit {0})
  check_quote_endpoints t = elim endpoints [
    | none ↦
        raise_if (not allow_unverified) (runtime_error "partner endpoint validator is required")
    | some v ↦
        v.validate_endpoint t.payer.actor_id t.payer.endpoint AccountRole.debit t.currency_from
        >> v.validate_endpoint t.beneficiary.actor_id t.beneficiary.endpoint AccountRole.credit
            t.currency_to
  ]

  unfoldable pub issue_quote : QuoteTerms → String → Datetime → Datetime → Result SignatureEnvelope
  unfolding check_quote_window terms_payload check_quote_endpoints append_field
  issue_quote t key_id issued expires = do
    check_quote_window issued expires
    payload ← terms_payload decimal t
    check_quote_endpoints t
    terms ← fields_in payload
    let core =
        append_field "expires_at" (int (pos (epoch_seconds expires.micros)))
          (append_field "issued_at" (int (pos (epoch_seconds issued.micros))) terms)
    signatures.sign_artifact ArtifactType.quote
        (object (field "quote_id" (text (content_id signatures.sha256_hex "Q" (object core))) core))
        key_id issued.micros

-- ===== src/Contracts/Quotes/Guards.antt =====
-- What railone_contracts/quote_service.py signs a quote of.
use railone_core.Prelude.{
  ◌+◌, ◌≤◌, ◌<◌, String, ◌≡◌, Bool, true, not, Option, none, some, ok, and_then-eq_ok,
  raise_if-eq_ok, not-eq_false, arith,
}
use railone_core.Crypto.Signatures.{SignatureEnvelope, SignatureService}
use railone_core.Contracts.Endpoints.{AccountRole, EndpointValidator}
use railone_core.Contracts.Terms.{QuoteTerms, terms_payload}
use railone_core.Contracts.Terms.Bounds.{AreBounded, terms_payload-AreBounded}
use railone_core.Contracts.Quotes.{check_quote_window, check_quote_endpoints, issue_quote}
use railone_core.Execution.Models.{Datetime}

module _ (signatures : SignatureService) (decimal : String → Option Bool)
    (endpoints : Option EndpointValidator) (allow_unverified : Bool) where
  -- Both endpoints pass the validator, or there is none and that is allowed.
  abbrev pub AreEndpoints : Option EndpointValidator → QuoteTerms → Type 0
  AreEndpoints none t = allow_unverified ≡ true
  AreEndpoints (some v) t =
      (v.validate_endpoint t.payer.actor_id t.payer.endpoint AccountRole.debit t.currency_from
        ≡ ok tt)
      × (v.validate_endpoint t.beneficiary.actor_id t.beneficiary.endpoint AccountRole.credit
            t.currency_to
          ≡ ok tt)

  pub record IsQuotable (t : QuoteTerms) (issued expires : Datetime) : Type 0 where
    pub aware : (issued.has_zone ≡ true) × (expires.has_zone ≡ true)
    pub lasts : (issued.micros < expires.micros) × (expires.micros ≤ issued.micros + 300000000)
    pub bounded : AreBounded t
    pub pays : t.payer.endpoint.role ≡ AccountRole.debit
    pub earns : t.beneficiary.endpoint.role ≡ AccountRole.credit
    pub verified : AreEndpoints endpoints t

  check_quote_window-lasts :
      (issued expires : Datetime)
      → check_quote_window issued expires ≡ ok tt
      → (issued.has_zone ≡ true)
        × (expires.has_zone ≡ true)
        × (issued.micros < expires.micros)
        × (expires.micros ≤ issued.micros + 300000000)
  unfolding check_quote_window
  check_quote_window-lasts issued expires h =
      (ground arith, ground arith, ground arith, ground arith)

  validated :
      (v : EndpointValidator) (t : QuoteTerms)
      → check_quote_endpoints signatures decimal (some v) allow_unverified t ≡ ok tt
      → AreEndpoints (some v) t
  unfolding check_quote_endpoints
  validated v t h =
      let (_, payer, beneficiary) =
        and_then-eq_ok
          (v.validate_endpoint t.payer.actor_id t.payer.endpoint AccountRole.debit t.currency_from)
          _ h in
      (payer, beneficiary)

  check_quote_endpoints-AreEndpoints :
      (v : Option EndpointValidator) (t : QuoteTerms)
      → check_quote_endpoints signatures decimal v allow_unverified t ≡ ok tt
      → AreEndpoints v t
  unfolding check_quote_endpoints
  check_quote_endpoints-AreEndpoints none t h =
      not-eq_false _ (raise_if-eq_ok (not allow_unverified) _ h)
  check_quote_endpoints-AreEndpoints (some v) t h = validated v t h

  -- A quote is signed only if it expires after it is issued, by at most five minutes, for bounded terms
  -- with a debit payer and a credit beneficiary, and for endpoints that the validator accepts, or
  -- without a validator if that is allowed.
  pub issue_quote-IsQuotable :
      (t : QuoteTerms) (key_id : String) (issued expires : Datetime) (e : SignatureEnvelope)
      → issue_quote signatures decimal endpoints allow_unverified t key_id issued expires ≡ ok e
      → IsQuotable t issued expires
  unfolding issue_quote
  issue_quote-IsQuotable t key_id issued expires e h =
      let (_, window, h₁) = and_then-eq_ok (check_quote_window issued expires) _ h in
      let (payload, made, h₂) = and_then-eq_ok (terms_payload decimal t) _ h₁ in
      let (_, checked, _) =
        and_then-eq_ok (check_quote_endpoints signatures decimal endpoints allow_unverified t) _
          h₂ in
      let (issued_aware, expires_aware, after, within) =
        check_quote_window-lasts issued expires window in
      let (bounded, pays, earns) = terms_payload-AreBounded decimal t payload made in
      record {
        aware = (issued_aware, expires_aware);
        lasts = (after, within);
        bounded = bounded;
        pays = pays;
        earns = earns;
        verified = check_quote_endpoints-AreEndpoints endpoints t checked;
      }

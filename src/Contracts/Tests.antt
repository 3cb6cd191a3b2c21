-- ===== src/Contracts/Tests.antt =====
-- One acceptance in the contract store of railone_contracts, and the terms of a quote.
use railone_core.Prelude.{
  ℕ, ◌*◌, Option, Result, String, ◌≡◌, refl, Bool, true, false, none, some, Exception, ok, err, [],
}
use railone_core.Prelude.Equality.{string_eq}
use railone_core.Prelude.Dict.{lookup, insert}
use railone_core.Crypto.Json.{Json, null, fields_of}
use railone_core.Crypto.Signatures.{SignatureEnvelope, SignatureService}
use railone_core.Prelude.Int.{pos}
use railone_core.Prelude.Text.{
  is_space, lstrip, rstrip, strip, nth_char, upper_char, upper, take_text, lower_char, title_from,
}
use railone_core.Contracts.Validation.{require_text, require_minor_units}
use railone_core.Contracts.Endpoints.{AccountRole, AccountType, AccountEndpoint, EndpointValidator}
use railone_core.Contracts.Terms.{
  PaymentPurpose, QuoteTerms, endpoint_payload, display_of, actor_payload, term_amounts, check_rate,
  terms_payload,
}
use railone_core.Contracts.Terms.Signed.{IsSigned, terms_payload-IsSigned}
use railone_core.Contracts.Quotes.{
  check_quote_window, append_field, check_quote_endpoints, issue_quote,
}
use railone_core.Contracts.Quotes.Guards.{IsQuotable, issue_quote-IsQuotable}
use railone_core.Execution.Models.{Datetime}
use railone_core.Contracts.Store.{
  AcceptedContract, ContractStore, replayed, commit_over, commit_acceptance, require_utt,
  accepted_once,
}

abbrev signed : String → SignatureEnvelope
signed s = record { protected = null; payload = null; signature = s }

abbrev contract : String → AcceptedContract
contract utt_id = record {
  signed_utt = signed "S";
  sender_authority = signed "T";
  quote_id = "Q1";
  utt_id = utt_id;
  request_sha256 = "H1";
  accepted_at = 5;
}

abbrev empty : ContractStore
empty = record { idempotency = []; quote_to_utt = []; utts = [] }

unfoldable accepted : ContractStore
accepted = (commit_acceptance "K1" (contract "U1") empty).1

committed : commit_acceptance "K1" (contract "U1") empty ≡ (ok (contract "U1", false), accepted)
unfolding lookup insert replayed commit_over commit_acceptance accepted
committed = refl

accepted_once_example :
    (require_utt "U1" accepted ≡ ok (signed "S"))
    × ((again : AcceptedContract)
        → again.request_sha256 ≡ "H1"
        → commit_acceptance "K1" again accepted ≡ (ok (contract "U1", true), accepted))
    × ((other : String) (again : AcceptedContract)
        → lookup other accepted.idempotency ≡ none
        → again.quote_id ≡ "Q1"
        → (e : Exception) × (commit_acceptance other again accepted ≡ (err e, accepted)))
accepted_once_example = accepted_once "K1" (contract "U1") (contract "U1") empty accepted committed

abbrev account : String → AccountRole → AccountEndpoint
account binding_id role = record {
  institution_id = "I1";
  institution_display_name = "Bank";
  account_binding_id = binding_id;
  role = role;
  account_type = AccountType.wallet;
  display_hint = "**12";
  contact_binding_id = "C1";
  attestation_reference = "R1";
}

abbrev terms : QuoteTerms
terms = record {
  request_id = "Q";
  payer = record {
    actor_type = "person";
    actor_id = "A1";
    endpoint = account "B1" AccountRole.debit;
    display_name = none;
  };
  beneficiary = record {
    actor_type = "merchant";
    actor_id = "A2";
    endpoint = account "B2" AccountRole.credit;
    display_name = some "Shop";
  };
  purpose = PaymentPurpose.supplier_payment;
  amount_minor = pos 5000;
  currency_from = "kes";
  receive_amount_minor = pos 5000;
  currency_to = "kes";
  total_fee_minor = pos 50;
  routing_budget_minor = pos 30;
  fx_rate = "1";
  corridor_id = "KE-KE";
  service_level = "STANDARD";
  routing_policy_id = "P1";
  pricing_version = "V1";
  max_attempts = pos 5;
}

abbrev one : String → Option Bool
one rate = some true

abbrev json_of : Result Json → Json
json_of (ok j) = j
json_of (err e) = null

unfoldable payload : Json
payload = json_of (terms_payload one terms)

signs : terms_payload one terms ≡ ok payload
unfolding is_space lstrip rstrip strip nth_char upper_char upper take_text lower_char title_from
    require_text require_minor_units endpoint_payload display_of actor_payload term_amounts
    check_rate terms_payload fields_of payload
signs = refl

terms_payload-IsSigned_example : IsSigned terms payload
terms_payload-IsSigned_example = terms_payload-IsSigned one terms payload signs

abbrev signer : SignatureService
signer = record {
  sign_artifact = λ _ quote _ _. ok (record { protected = null; payload = quote; signature = "S" });
  verify_artifact = λ _ _. record { valid = true; reason = "ok" };
  sha256_hex = λ s. s;
}

abbrev every_endpoint : Option EndpointValidator
every_endpoint = some (record { validate_endpoint = λ _ _ _ _. ok tt })

abbrev at_second : ℕ → Datetime
at_second n = record { has_zone = true; micros = n * 1000000 }

unfoldable quoted : SignatureEnvelope
quoted =
    envelope_in (issue_quote signer one every_endpoint false terms "K" (at_second 5) (at_second 60))
  where
    envelope_in : Result SignatureEnvelope → SignatureEnvelope
    envelope_in (ok e) = e
    envelope_in (err e) = signed ""

quotes :
    issue_quote signer one every_endpoint false terms "K" (at_second 5) (at_second 60) ≡ ok quoted
unfolding is_space lstrip rstrip strip nth_char upper_char upper take_text lower_char title_from
    require_text require_minor_units endpoint_payload display_of actor_payload term_amounts
    check_rate terms_payload fields_of check_quote_window check_quote_endpoints append_field
    issue_quote quoted
quotes = refl

issue_quote-IsQuotable_example :
    IsQuotable signer one every_endpoint false terms (at_second 5) (at_second 60)
issue_quote-IsQuotable_example =
    issue_quote-IsQuotable signer one every_endpoint false terms "K" (at_second 5) (at_second 60)
      quoted quotes

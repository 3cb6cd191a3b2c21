-- ===== src/Contracts/Endpoints.antt =====
-- `AccountEndpoint` of railone_contracts/models.py, and the validator that railone_partners/store.py
-- declares for it.
use railone_core.Prelude.{String, Result, ok, err, value_error, and_then, if◌then◌else◌}
use railone_core.Prelude.Equality.{◌==◌, string_eq}
use railone_core.Crypto.Json.{Json, text_at}

pub data AccountRole : Type 0 where
  debit credit : AccountRole

pub data AccountType : Type 0 where
  bank_account mobile_money wallet card_account : AccountType

pub record AccountEndpoint : Type 0 where
  pub institution_id : String
  pub institution_display_name : String
  pub account_binding_id : String
  pub role : AccountRole
  pub account_type : AccountType
  pub display_hint : String
  pub contact_binding_id : String
  pub attestation_reference : String

-- `AccountRole(value)`
unfoldable pub role_of : String → Result AccountRole
role_of s =
    if s == "DEBIT"
    then ok debit
    else if s == "CREDIT"
    then ok credit
    else err (value_error "not a valid AccountRole")

-- `AccountType(value)`
unfoldable pub account_type_of : String → Result AccountType
account_type_of s =
    if s == "BANK_ACCOUNT"
    then ok bank_account
    else if s == "MOBILE_MONEY"
    then ok mobile_money
    else if s == "WALLET"
    then ok wallet
    else if s == "CARD_ACCOUNT"
    then ok card_account
    else err (value_error "not a valid AccountType")

-- Every failure while the snapshot is read is one ValueError.
abbrev pub as_snapshot_error {ℓ} : {A : Type ℓ} → Result A → Result A
as_snapshot_error (ok a) = ok a
as_snapshot_error (err e) = err (value_error "invalid account endpoint snapshot")

-- `AccountEndpoint.from_payload`
unfoldable pub endpoint_from_payload : Json → Result AccountEndpoint
unfolding role_of account_type_of
endpoint_from_payload value = as_snapshot_error (
    and_then (text_at "institution_id" value) λ institution.
      and_then (text_at "institution_display_name" value) λ name.
        and_then (text_at "account_binding_id" value) λ binding.
          and_then (and_then (text_at "role" value) role_of) λ role.
            and_then (and_then (text_at "account_type" value) account_type_of) λ account_type.
              and_then (text_at "display_hint" value) λ hint.
                and_then (text_at "contact_binding_id" value) λ contact.
                  and_then (text_at "attestation_reference" value) λ attestation. ok (record {
                    institution_id = institution;
                    institution_display_name = name;
                    account_binding_id = binding;
                    role = role;
                    account_type = account_type;
                    display_hint = hint;
                    contact_binding_id = contact;
                    attestation_reference = attestation;
                  }))

-- `EndpointValidator`: the actor, the endpoint, the role that it must have, and the currency.
pub record EndpointValidator : Type 0 where
  pub validate_endpoint : String → AccountEndpoint → AccountRole → String → Result (Unit {0})

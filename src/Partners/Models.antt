-- ===== src/Partners/Models.antt =====
-- railone_partners/models.py.
use railone_core.Prelude.{
  String, Bool, true, false, not, ◌||◌, List, [], ◌∷◌, Result, value_error, raise_if, ltb,
}
use railone_core.Prelude.Text.{text_length}
use railone_core.Prelude.Equality.{string_eq}
use railone_core.Contracts.Endpoints.{AccountRole, AccountType}
use railone_core.Execution.Models.{checks, text_check}
use railone_core.Execution.Scoring.{distinct}

pub data InstitutionStatus : Type 0 where
  active paused offboarded : InstitutionStatus

pub data AccountBindingStatus : Type 0 where
  active revoked suspended : AccountBindingStatus

pub record PartnerInstitution : Type 0 where
  pub institution_id : String
  pub display_name : String
  pub country_codes : List String
  pub currencies : List String
  pub supported_roles : List AccountRole
  pub status : InstitutionStatus

abbrev pub is_none {ℓ} : {A : Type ℓ} → List A → Bool
is_none [] = true
is_none (x ∷ xs) = false

-- `PartnerInstitution.normalized`
unfoldable pub check_institution : PartnerInstitution → Result (Unit {0})
unfolding distinct
check_institution i = checks (
    text_check "institution_id" i.institution_id
    ∷ text_check "display_name" i.display_name
    ∷ raise_if (is_none i.country_codes || is_none i.currencies || is_none i.supported_roles)
        (value_error "partner institution coverage cannot be empty")
    ∷ raise_if (not (distinct i.country_codes))
        (value_error "partner country coverage contains duplicates")
    ∷ raise_if (not (distinct i.currencies))
        (value_error "partner currency coverage contains duplicates")
    ∷ [])

pub record AccountBinding : Type 0 where
  pub account_binding_id : String
  pub actor_id : String
  pub institution_id : String
  pub role : AccountRole
  pub account_type : AccountType
  pub currency : String
  pub display_hint : String
  pub contact_binding_id : String
  pub attestation_reference : String
  pub status : AccountBindingStatus

-- `AccountBinding.normalized`
unfoldable pub check_binding : AccountBinding → Result (Unit {0})
check_binding b = checks (
    text_check "account_binding_id" b.account_binding_id
    ∷ text_check "actor_id" b.actor_id
    ∷ text_check "institution_id" b.institution_id
    ∷ text_check "currency" b.currency
    ∷ text_check "display_hint" b.display_hint
    ∷ text_check "contact_binding_id" b.contact_binding_id
    ∷ text_check "attestation_reference" b.attestation_reference
    ∷ raise_if (ltb 32 (text_length b.display_hint))
        (value_error "account display hint exceeds 32 characters")
    ∷ [])

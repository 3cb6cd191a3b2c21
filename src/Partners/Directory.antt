-- ===== src/Partners/Directory.antt =====
-- railone_partners/store.py: `InMemoryPartnerDirectory`.
use railone_core.Prelude.{
  String, Bool, true, false, not, ◌&&◌, List, Option, none, some, Result, ok, value_error,
  lookup_error, permission_error, key_error, or_raise, raise_if, and_then, select, some_of,
}
use railone_core.Prelude.Equality.{◌==◌, string_eq}
use railone_core.Prelude.Text.{upper}
use railone_core.Prelude.Order.{text_leb}
use railone_core.Prelude.Sort.{sort}
use railone_core.Prelude.Dict.{Dict, lookup, insert, values}
use railone_core.Prelude.Exec.{Exec, lift, reads, raise_when, modify, ◌>>=◌, ◌>>◌}
use railone_core.Contracts.Endpoints.{
  AccountRole, debit, credit, AccountType, bank_account, mobile_money, wallet, card_account,
  AccountEndpoint,
}
use railone_core.Partners.Models.{
  InstitutionStatus, AccountBindingStatus, PartnerInstitution, check_institution, AccountBinding,
  check_binding,
}

pub record PartnerDirectory : Type 0 where
  pub institutions : Dict String PartnerInstitution
  pub bindings : Dict String AccountBinding

abbrev pub is_known {ℓ} : {A : Type ℓ} → Option A → Bool
is_known none = false
is_known (some a) = true

unfoldable pub add_institution : PartnerInstitution → Exec PartnerDirectory (Unit {0})
unfolding check_institution
add_institution i = do
  lift (check_institution i)
  held ← reads (λ s. ok (lookup i.institution_id s.institutions))
  raise_when (is_known held) (value_error "partner institution already exists")
  modify (λ s. record s { institutions = insert i.institution_id i s.institutions })

unfoldable pub add_binding : AccountBinding → Exec PartnerDirectory (Unit {0})
unfolding check_binding
add_binding b = do
  lift (check_binding b)
  institution ← reads (λ s. ok (lookup b.institution_id s.institutions))
  raise_when (not (is_known institution))
      (lookup_error "account binding institution is not a partner")
  held ← reads (λ s. ok (lookup b.account_binding_id s.bindings))
  raise_when (is_known held) (value_error "account binding already exists")
  modify (λ s. record s { bindings = insert b.account_binding_id b s.bindings })

unfoldable pub require_binding : String → PartnerDirectory → Result AccountBinding
require_binding binding_id s =
    or_raise (lookup binding_id s.bindings) (lookup_error "account binding not found")

unfoldable pub set_binding_status : String → AccountBindingStatus → Exec PartnerDirectory (Unit {0})
unfolding require_binding
set_binding_status binding_id status = do
  b ← reads (require_binding binding_id)
  modify (λ s. record s { bindings = insert binding_id (record b { status = status }) s.bindings })

abbrev pub same_role : AccountRole → AccountRole → Bool
same_role debit debit = true
same_role credit credit = true
same_role _ _ = false

abbrev pub same_type : AccountType → AccountType → Bool
same_type bank_account bank_account = true
same_type mobile_money mobile_money = true
same_type wallet wallet = true
same_type card_account card_account = true
same_type _ _ = false

abbrev pub is_active_binding : AccountBindingStatus → Bool
is_active_binding AccountBindingStatus.active = true
is_active_binding _ = false

abbrev pub is_active_institution : InstitutionStatus → Bool
is_active_institution InstitutionStatus.active = true
is_active_institution _ = false

-- The institution covers a country, a currency and a role.
unfoldable pub covers : String → String → AccountRole → PartnerInstitution → Bool
covers country currency role i =
    is_active_institution i.status
    && some_of (λ c. upper c == upper country) i.country_codes
    && some_of (λ c. upper c == upper currency) i.currencies
    && some_of (λ r. same_role r role) i.supported_roles

unfoldable pub list_institutions :
    String → String → AccountRole → PartnerDirectory → List PartnerInstitution
unfolding covers sort
list_institutions country currency role s =
    sort (λ a b. text_leb a.institution_id b.institution_id)
      (select (covers country currency role) (values s.institutions))

abbrev pub endpoint_of : AccountBinding → PartnerInstitution → AccountEndpoint
endpoint_of b i = record {
  institution_id = b.institution_id;
  institution_display_name = i.display_name;
  account_binding_id = b.account_binding_id;
  role = b.role;
  account_type = b.account_type;
  display_hint = b.display_hint;
  contact_binding_id = b.contact_binding_id;
  attestation_reference = b.attestation_reference;
}

unfoldable pub select_endpoint :
    String → String → AccountRole → PartnerDirectory → Result AccountEndpoint
unfolding require_binding
select_endpoint actor_id binding_id role s = and_then (require_binding binding_id s) λ b.
    and_then (or_raise (lookup b.institution_id s.institutions) (key_error b.institution_id)) λ i.
      and_then
        (raise_if (not (b.actor_id == actor_id))
          (permission_error "account binding belongs to another actor"))
        λ _.
          and_then
            (raise_if (not (is_active_binding b.status))
              (permission_error "account binding is not active"))
            λ _.
              and_then
                (raise_if (not (is_active_institution i.status))
                  (permission_error "partner institution is not active"))
                λ _.
                  and_then
                    (raise_if (not (same_role b.role role))
                      (permission_error "account binding has the wrong execution role"))
                    λ _. ok (endpoint_of b i)

-- `_same_binding_material`
unfoldable pub same_binding_material : AccountEndpoint → AccountEndpoint → Bool
same_binding_material l r =
    l.institution_id == r.institution_id
    && l.account_binding_id == r.account_binding_id
    && same_role l.role r.role
    && same_type l.account_type r.account_type
    && l.display_hint == r.display_hint
    && l.contact_binding_id == r.contact_binding_id
    && l.attestation_reference == r.attestation_reference

unfoldable pub validate_endpoint :
    String → AccountEndpoint → AccountRole → String → PartnerDirectory → Result (Unit {0})
unfolding select_endpoint same_binding_material
validate_endpoint actor_id endpoint role currency s =
    and_then (select_endpoint actor_id endpoint.account_binding_id role s) λ selected.
      and_then
        (or_raise (lookup endpoint.account_binding_id s.bindings)
          (key_error endpoint.account_binding_id))
        λ b.
          and_then
            (raise_if (not (same_binding_material selected endpoint))
              (permission_error "account endpoint snapshot does not match its binding"))
            λ _.
              raise_if (not (upper b.currency == upper currency))
                (permission_error "account binding currency is not eligible")

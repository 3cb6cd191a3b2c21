-- ===== src/Partners/Tests.antt =====
-- The directory of railone_partners at one institution and one binding.
use railone_core.Prelude.{◌≡◌, refl, some, ok, [], ◌∷◌}
use railone_core.Prelude.Equality.{string_eq}
use railone_core.Prelude.Dict.{lookup, insert}
use railone_core.Prelude.Text.{is_space, lstrip, rstrip, strip, nth_char, upper_char, upper}
use railone_core.Contracts.Validation.{require_text}
use railone_core.Contracts.Endpoints.{AccountRole, AccountType}
use railone_core.Execution.Scoring.{distinct}
use railone_core.Partners.Models.{
  InstitutionStatus, AccountBindingStatus, PartnerInstitution, AccountBinding, check_institution,
  check_binding,
}
use railone_core.Partners.Directory.{
  PartnerDirectory, add_institution, add_binding, require_binding, endpoint_of, select_endpoint,
  same_binding_material, validate_endpoint,
}
use railone_core.Partners.Bindings.{
  IsBound, Reached, created, institution_added, binding_added, Reached-IsBound,
}
use railone_core.Partners.Selection.{select_endpoint-validates}

abbrev bank : PartnerInstitution
bank = record {
  institution_id = "I1";
  display_name = "Bank";
  country_codes = "KE" ∷ [];
  currencies = "KES" ∷ [];
  supported_roles = AccountRole.debit ∷ [];
  status = InstitutionStatus.active;
}

abbrev binding : AccountBinding
binding = record {
  account_binding_id = "B1";
  actor_id = "A1";
  institution_id = "I1";
  role = AccountRole.debit;
  account_type = AccountType.bank_account;
  currency = "KES";
  display_hint = "**12";
  contact_binding_id = "C1";
  attestation_reference = "R1";
  status = AccountBindingStatus.active;
}

abbrev empty : PartnerDirectory
empty = record { institutions = []; bindings = [] }

unfoldable directory : PartnerDirectory
directory = (add_binding binding (add_institution bank empty).1).1

directory-Reached : Reached directory
unfolding directory
directory-Reached = binding_added binding (institution_added bank created)

record Run : Type 0 where
  pub held : lookup "B1" directory.bindings ≡ some binding
  pub selected :
      select_endpoint "A1" "B1" AccountRole.debit directory ≡ ok (endpoint_of binding bank)
  pub same_currency : upper "KES" ≡ upper "kes"

run : Run
unfolding lookup insert is_space lstrip rstrip strip nth_char upper_char upper require_text distinct
    check_institution check_binding add_institution add_binding require_binding select_endpoint
    same_binding_material validate_endpoint directory
run = record { held = refl; selected = refl; same_currency = refl }

select_endpoint-validates_example :
    validate_endpoint "A1" (endpoint_of binding bank) AccountRole.debit "kes" directory ≡ ok tt
select_endpoint-validates_example =
    select_endpoint-validates "A1" "B1" "kes" AccountRole.debit directory (endpoint_of binding bank)
      binding run.held refl run.selected run.same_currency

Reached-IsBound_example : IsBound directory "B1" binding
Reached-IsBound_example = Reached-IsBound directory-Reached "B1" binding run.held

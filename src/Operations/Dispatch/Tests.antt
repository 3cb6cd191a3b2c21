-- ===== src/Operations/Dispatch/Tests.antt =====
-- Dispatches of railone_operations/service.py for one attempt: a provider whose answer cannot be recorded,
-- and one that accepts.
use railone_core.Prelude.{String, ◌≡◌, ◌≤◌, refl, true, false, [], ◌∷◌, Option, none, some, ok}
use railone_core.Prelude.Int.{pos, ◌+ℤ◌, ◌-ℤ◌, ◌*ℤ◌, floor_div}
use railone_core.Prelude.Equality.{string_eq}
use railone_core.Prelude.Dict.{lookup, insert}
use railone_core.Prelude.Text.{
  text_length, is_space, lstrip, rstrip, strip, nth_char, upper_char, upper, take_text, lower_char,
  title_from,
}
use railone_core.Crypto.Json.{
  Json, int, text, object, fields_of, items_of, find_field, item, as_text, as_natural, text_at,
  natural_at,
}
use railone_core.Crypto.Canonical.{
  decimal, digit, decimal_from, decimal_ℤ, escape_char, escape, quote, join_comma, member,
  write_object, same_json, content_id, canonical_json, canonical_items, canonical_fields,
}
use railone_core.Crypto.Signatures.{SignatureEnvelope, SignatureService}
use railone_core.Execution.Models.{
  Datetime, AttemptState, PlanStatus, ExecutionPlan, RttAttemptRecord, require_aware,
}
use railone_core.Operations.Models.{
  ProviderOutcome, ProviderSubmissionResult, ProviderSubmissionRecord, ProviderSubmissionState,
}
use railone_core.Operations.Store.{
  OperationsStore, prepare_over, prepare, require_submission, find_by_external_reference,
  transition, row_leb, pending_outbox, claimable, claimed_row, claim_rows, due_rows, claim_outbox,
  require_owned_event, published_row, mark_published, rescheduled_row, reschedule,
}
use railone_core.Operations.Preparation.{
  Collaborators, request_material, new_submission, checked_request, submittable_attempt, bound_utt,
  execution_request, submission_id_of, drafted_submission, prepare_submission,
}
use railone_core.Operations.Dispatch.{
  ProviderAdapter, Operation, is_final, unknown_outcome, complete, dispatch, settled_state,
  completed_submission, completion_details, dispatching_submission, drafted_completion, send,
  send_and_complete, resume, proceed,
}
use railone_core.Operations.Dispatch.Once.{times, AreOnce}
use railone_core.Operations.Dispatch.AtMostOnce.{Dispatched, idle, dispatched, sent_once}
use railone_core.Operations.Dispatch.Outcomes.{IsRecorded, complete-IsRecorded}
use railone_core.Operations.Dispatch.Final.{IsAsBefore, final_dispatch-IsAsBefore}
use railone_core.Prelude.Sort.{insert_sorted, sort}
use railone_core.Prelude.Order.{text_leb}
use railone_core.Contracts.Validation.{require_text, require_minor_units}
use railone_core.Operations.Context.{is_context_key, pair_leb, provider_context}
use railone_core.Operations.Events.{event_core, outbox_row, submission_event}

abbrev endpoint_json : String → Json
endpoint_json institution =
    object
      (fields_of (("institution_id", text institution) ∷ ("account_binding_id", text "B") ∷ []))

abbrev terms : Json
terms = object (
    fields_of (
      ("amount_minor", int (pos 8))
      ∷ ("currency_from", text "KES")
      ∷ ("receive_amount_minor", int (pos 7))
      ∷ ("currency_to", text "KES")
      ∷ ("payer", object (fields_of (("endpoint", endpoint_json "I1") ∷ [])))
      ∷ ("beneficiary", object (fields_of (("endpoint", endpoint_json "I2") ∷ [])))
      ∷ []))

abbrev rtt_terms : Json
rtt_terms = object (
    fields_of (
      ("utt_payload_sha256", text "H")
      ∷ (
        "route",
        object (
            fields_of (("provider", text "sim") ∷ ("adapter", text "D") ∷ ("rail", text "R") ∷ [])),
      )
      ∷ []))

abbrev signed : Json → SignatureEnvelope
signed payload = record {
  protected = object (fields_of (("payload_sha256", text "H") ∷ []));
  payload = payload;
  signature = "S";
}

abbrev signer : SignatureService
signer = record {
  sign_artifact = λ _ payload _ _. ok (signed payload);
  verify_artifact = λ _ _. record { valid = true; reason = "ok" };
  sha256_hex = λ s. decimal (text_length s);
}

abbrev attempt : RttAttemptRecord
attempt = record {
  rtt_id = "R1";
  utt_id = "U1";
  plan_id = "P1";
  attempt_number = 1;
  route_id = "T1";
  signed_rtt = signed rtt_terms;
  state = AttemptState.created;
  failure_code = none;
  actual_cost_minor = none;
  created_at = 5;
  updated_at = 5;
}

abbrev plan : ExecutionPlan
plan = record {
  plan_id = "P1";
  utt_id = "U1";
  ranked_routes = [];
  remaining_route_ids = [];
  failures = [];
  attempts_used = 1;
  max_attempts = 2;
  routing_budget_minor = 9;
  routing_cost_spent_minor = 0;
  current_rtt_id = some "R1";
  previous_rtt_id = none;
  previous_route_id = none;
  status = PlanStatus.active;
  successful_route_id = none;
  version = 2;
  created_at = 5;
  updated_at = 5;
}

abbrev services : Collaborators
services = record {
  signatures = signer;
  require_utt = λ _. ok (signed terms);
  require_attempt = λ _. ok attempt;
  require_plan = λ _. ok plan;
  resolve_endpoint = λ institution _. ok institution;
  event_signing_key_id = "K";
}

-- Its answer has no code.
abbrev mute : ProviderAdapter
mute = record {
  provider_id = "SIM";
  supports_idempotency = false;
  submit = λ _. some (unknown_outcome "");
}

abbrev accepted_answer : ProviderSubmissionResult
accepted_answer = record {
  outcome = ProviderOutcome.accepted;
  code = " ok ";
  external_reference = some "X1";
  rejection_disposition = none;
  provider_context = ("b", "2") ∷ ("a", "1") ∷ [];
}

abbrev accepting : ProviderAdapter
accepting = record {
  provider_id = "SIM";
  supports_idempotency = false;
  submit = λ _. some accepted_answer;
}

abbrev noon : Datetime
noon = record { has_zone = true; micros = 7000000 }

abbrev start : Operation
start = record {
  operations = record { submissions_by_rtt = []; rtt_by_idempotency = []; outbox = [] };
  sent = [];
}

unfoldable cut_short : Operation
cut_short = (dispatch services mute "R1" noon start).1

unfoldable dispatched_again : Operation
dispatched_again = (dispatch services mute "R1" noon cut_short).1

unfoldable accepted : Operation
accepted = (dispatch services accepting "R1" noon start).1

unfoldable submission_in : Operation → ProviderSubmissionRecord
submission_in o = found (lookup "R1" o.operations.submissions_by_rtt)
  where
    found : Option ProviderSubmissionRecord → ProviderSubmissionRecord
    found none = record {
      submission_id = "";
      idempotency_key = "";
      request_sha256 = "";
      utt_id = "";
      rtt_id = "";
      provider_id = "";
      state = ProviderSubmissionState.unknown;
      dispatch_attempts = 0;
      normalized_code = none;
      external_reference = none;
      rejection_disposition = none;
      provider_context = [];
      version = 0;
      created_at = 0;
      updated_at = 0;
    }
    found (some r) = r

unfoldable completed : OperationsStore
completed = (complete services (submission_in cut_short) accepted_answer 9 cut_short.operations).1

abbrev with_store : OperationsStore → Operation
with_store s = record { operations = s; sent = [] }

record Run : Type 0 where
  pub one_sent : times "R1" cut_short.sent ≡ 1
  pub blocked : (submission_in dispatched_again).state ≡ ProviderSubmissionState.unknown
  pub still_one_sent : times "R1" dispatched_again.sent ≡ 1
  pub held : lookup "R1" accepted.operations.submissions_by_rtt ≡ some (submission_in accepted)
  pub final : is_final (submission_in accepted).state ≡ true
  pub completes :
      complete services (submission_in cut_short) accepted_answer 9 cut_short.operations
      ≡ (ok (submission_in (with_store completed)), completed)

run : Run
unfolding ◌+ℤ◌ ◌-ℤ◌ ◌*ℤ◌ floor_div lookup insert is_space lstrip rstrip strip nth_char upper_char
    upper take_text lower_char title_from insert_sorted sort text_leb fields_of items_of find_field
    item as_text as_natural text_at natural_at digit decimal_from decimal decimal_ℤ escape_char
    escape quote join_comma member write_object same_json content_id canonical_json canonical_items
    canonical_fields require_text require_minor_units prepare_over prepare require_submission
    find_by_external_reference transition row_leb pending_outbox claimable claimed_row claim_rows
    due_rows claim_outbox require_owned_event published_row mark_published rescheduled_row
    reschedule is_context_key pair_leb provider_context event_core outbox_row submission_event
    request_material new_submission checked_request submittable_attempt bound_utt execution_request
    submission_id_of drafted_submission prepare_submission settled_state completed_submission
    completion_details dispatching_submission drafted_completion complete send send_and_complete
    resume proceed dispatch times AreOnce require_aware cut_short dispatched_again accepted
    submission_in completed
run = record {
  one_sent = refl;
  blocked = refl;
  still_one_sent = refl;
  held = refl;
  final = refl;
  completes = refl;
}

cut_short_twice : Dispatched dispatched_again
unfolding cut_short dispatched_again
cut_short_twice =
    dispatched services mute "R1" noon refl (dispatched services mute "R1" noon refl idle)

sent_once_example : times "R1" dispatched_again.sent ≤ 1
sent_once_example = sent_once cut_short_twice "R1"

final_dispatch-IsAsBefore_example :
    IsAsBefore (submission_in accepted) accepted (dispatch services accepting "R1" noon accepted)
final_dispatch-IsAsBefore_example =
    final_dispatch-IsAsBefore services accepting "R1" noon (submission_in accepted) accepted
      run.held run.final

complete-IsRecorded_example :
    IsRecorded
      (submission_in cut_short)
      (submission_in (with_store completed))
      accepted_answer
      completed
complete-IsRecorded_example =
    complete-IsRecorded services (submission_in cut_short) (submission_in (with_store completed))
      accepted_answer 9 cut_short.operations completed run.completes

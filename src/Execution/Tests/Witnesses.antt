-- ===== src/Execution/Tests/Witnesses.antt =====
-- The theorems on railone_execution at the payment of the tests.
use railone_core.Prelude.{String, ◌≡◌, refl, true, false, none, some, ok, All, inl}
use railone_core.Prelude.Int.{ℤ}
use railone_core.Prelude.Equality.{string_eq, nat_eq}
use railone_core.Execution.Models.{Datetime, FailureDisposition, is_created, awaits_reconciliation}
use railone_core.Execution.Attempts.{Resolution}
use railone_core.Execution.Lifecycle.Calls.{
  IsTrimmed, empty_store, empty_store-IsValid, serve-IsValid, step, serve,
}
use railone_core.Execution.Lifecycle.OneAttempt.{one_open_attempt}
use railone_core.Execution.Lifecycle.Invariant.{StoreIsValid, is_open}
use railone_core.Execution.Lifecycle.Ended.{serve-Later}
use railone_core.Execution.Lifecycle.History.{LaterStore}
use railone_core.Execution.Lifecycle.Distinct.{route_tried_once}
use railone_core.Execution.Lifecycle.Refusals.{
  Refused, ended-Refused, awaiting-Refused, open_attempt-blocks_start,
}
use railone_core.Execution.Tests.{
  later, services, signer, utt, calls, unknown_calls, first_rtt, second_rtt, plan_id, started,
  final, unknown, attempt_at, stored_plan_of,
}
use railone_core.Prelude.Int.{◌+ℤ◌, ◌-ℤ◌, ◌*ℤ◌, floor_div}
use railone_core.Prelude.Dict.{lookup, insert}
use railone_core.Prelude.Text.{
  is_space, lstrip, rstrip, strip, nth_char, upper_char, upper, take_text,
}
use railone_core.Prelude.Sort.{insert_sorted, sort}
use railone_core.Prelude.Order.{text_leb}
use railone_core.Crypto.Json.{
  fields_of, items_of, find_field, item, as_text, as_natural, text_at, natural_at,
}
use railone_core.Crypto.Canonical.{
  digit, decimal_from, decimal, decimal_ℤ, escape_char, escape, quote, join_comma, member,
  write_object, content_id, canonical_json, canonical_items, canonical_fields,
}
use railone_core.Contracts.Validation.{require_text, require_minor_units}
use railone_core.Contracts.Endpoints.{role_of, account_type_of, endpoint_from_payload}
use railone_core.Execution.Models.{
  require_aware, require_bps, route_texts, route_numbers, route_window, normalized,
  candidate_payload, scores_payload, ranked_payload,
}
use railone_core.Execution.Scoring.{
  sum_ℤ, checked_weights, eligible, liquidity_score, cost_score, components, weighted, distinct,
  score_all, before, number_from, rank,
}
use railone_core.Execution.Store.{
  require_plan, require_attempt, plan_at, require_plan_for_utt, adopt_plan, create_plan,
  current_plan, commit_start, commit_transition,
}
use railone_core.Execution.Planning.{
  rank_request, payloads, new_plan, verified_utt, draft_plan, build_plan,
}
use railone_core.Execution.Attempts.{
  index_routes, select_route, next_route, started_plan, rtt_material, rtt_payload, born_attempt,
  check_endpoints, executable_utt, draft_attempt, start_next,
}
use railone_core.Execution.Attempts.{
  affordable_remains, retry_status, failure_status, failed_plan, failed_attempt, apply_failure,
  record_failure, finalized_plan, succeeded_attempt, apply_success, record_success, resolved,
  apply_resolution, resolve_reconciliation,
}

calls-IsTrimmed : All IsTrimmed calls
unfolding strip
calls-IsTrimmed = (tt, (tt, (refl, (tt, tt))))

unknown_calls-IsTrimmed : All IsTrimmed unknown_calls
unfolding strip
unknown_calls-IsTrimmed = (tt, (tt, (refl, tt)))

record Run : Type 0 where
  pub first_started : lookup first_rtt started.attempts ≡ some (attempt_at started first_rtt)
  pub first_created : is_created (attempt_at started first_rtt).state ≡ true
  pub first_final : lookup first_rtt final.attempts ≡ some (attempt_at final first_rtt)
  pub first_ended : is_open (attempt_at final first_rtt).state ≡ false
  pub second_final : lookup second_rtt final.attempts ≡ some (attempt_at final second_rtt)
  pub second_open : is_open (attempt_at final second_rtt).state ≡ true
  pub second_plan : (attempt_at final second_rtt).plan_id ≡ (stored_plan_of final plan_id).plan_id
  pub plan_final : require_plan_for_utt "U" final ≡ ok (stored_plan_of final plan_id)
  pub first_unknown : lookup first_rtt unknown.attempts ≡ some (attempt_at unknown first_rtt)
  pub first_named : strip first_rtt ≡ first_rtt
  pub first_awaits : awaits_reconciliation (attempt_at unknown first_rtt).state ≡ true

run : Run
unfolding ◌+ℤ◌ ◌-ℤ◌ ◌*ℤ◌ floor_div lookup insert is_space lstrip rstrip strip nth_char upper_char
    upper take_text insert_sorted sort text_leb fields_of items_of find_field item as_text
    as_natural text_at natural_at digit decimal_from decimal decimal_ℤ escape_char escape quote
    join_comma member write_object content_id canonical_json canonical_items canonical_fields
    require_text require_minor_units role_of account_type_of endpoint_from_payload require_aware
    require_bps route_texts route_numbers route_window normalized candidate_payload scores_payload
    ranked_payload sum_ℤ checked_weights eligible liquidity_score cost_score components weighted
    distinct score_all before number_from rank require_plan require_attempt plan_at
    require_plan_for_utt adopt_plan create_plan current_plan commit_start commit_transition
    rank_request payloads new_plan verified_utt draft_plan build_plan index_routes select_route
    next_route started_plan rtt_material rtt_payload born_attempt check_endpoints executable_utt
    draft_attempt start_next affordable_remains retry_status failure_status failed_plan
    failed_attempt apply_failure record_failure finalized_plan succeeded_attempt apply_success
    record_success resolved apply_resolution resolve_reconciliation step serve attempt_at
    stored_plan_of
run = record {
  first_started = refl;
  first_created = refl;
  first_final = refl;
  first_ended = refl;
  second_final = refl;
  second_open = refl;
  second_plan = refl;
  plan_final = refl;
  first_unknown = refl;
  first_named = refl;
  first_awaits = refl;
}

calls-valid : StoreIsValid final
calls-valid = serve-IsValid services empty_store calls calls-IsTrimmed empty_store-IsValid

one_open_attempt_example : second_rtt ≡ second_rtt
one_open_attempt_example =
    one_open_attempt services calls second_rtt second_rtt (attempt_at final second_rtt)
      (attempt_at final second_rtt) calls-IsTrimmed run.second_final run.second_final refl
      run.second_open run.second_open

serve-IsValid_example : StoreIsValid (serve services empty_store calls)
serve-IsValid_example = serve-IsValid services empty_store calls calls-IsTrimmed empty_store-IsValid

serve-Later_example : LaterStore empty_store (serve services empty_store calls)
serve-Later_example = serve-Later services empty_store calls calls-IsTrimmed empty_store-IsValid

route_tried_once_example : second_rtt ≡ second_rtt
route_tried_once_example =
    route_tried_once services calls second_rtt second_rtt (attempt_at final second_rtt)
      (attempt_at final second_rtt) calls-IsTrimmed run.second_final run.second_final refl
      (inl refl)

open_attempt-blocks_start_example :
    Refused final (start_next signer (λ _. ok utt) none true "K" "U" later final)
open_attempt-blocks_start_example =
    open_attempt-blocks_start signer (λ _. ok utt) none true "K" final "U" later
      (stored_plan_of final plan_id) second_rtt (attempt_at final second_rtt) calls-valid
      run.plan_final run.second_final run.second_plan run.second_open

ended-Refused_example :
    ((code : String) (d : FailureDisposition) (cost : ℤ) (at : Datetime)
      → Refused final (record_failure first_rtt code d cost at final))
    × ((cost : ℤ) (at : Datetime) → Refused final (record_success first_rtt cost at final))
    × ((how : Resolution) (cost : ℤ) (at : Datetime)
        → Refused final (resolve_reconciliation first_rtt how cost at final))
ended-Refused_example =
    ended-Refused final first_rtt (attempt_at final first_rtt) (rw run.first_named run.first_final)
      run.first_ended

awaiting-Refused_example :
    ((code : String) (d : FailureDisposition) (cost : ℤ) (at : Datetime)
      → Refused unknown (record_failure first_rtt code d cost at unknown))
    × ((cost : ℤ) (at : Datetime) → Refused unknown (record_success first_rtt cost at unknown))
awaiting-Refused_example =
    awaiting-Refused unknown first_rtt (attempt_at unknown first_rtt)
      (rw run.first_named run.first_unknown) run.first_awaits

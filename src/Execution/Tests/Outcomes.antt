-- ===== src/Execution/Tests/Outcomes.antt =====
-- The theorems on accepted calls of railone_execution/service.py at the payment of the tests.
use Prim.Native.String.{◌++◌ as append}
use railone_core.Prelude.{String, ◌≡◌, ◌≢◌, refl, true, false, [], ◌∷◌, none, some, ok, ◌+◌}
use railone_core.Prelude.Int.{ℤ, pos}
use railone_core.Prelude.Equality.{◌==◌, string_eq, nat_eq}
use text.Mathlib.TextEquality.{eq_iff}
use mathlib.Core.Path.{◌∙◌}
use railone_core.Prelude.Text.{is_empty}
use railone_core.Execution.Models.{
  Datetime, FailureDisposition, ExecutionPlan, AttemptState, is_created, PlanStatus,
}
use railone_core.Execution.Scoring.{default_weights}
use railone_core.Execution.Store.{ExecutionStore}
use railone_core.Execution.Attempts.{Resolution, failure_state}
use railone_core.Execution.Lifecycle.Calls.{
  build, start, empty_store, empty_store-IsValid, serve-IsValid, step, serve,
}
use railone_core.Execution.Lifecycle.Invariant.{StoreIsValid}
use railone_core.Execution.Lifecycle.Refusals.{Refused}
use railone_core.Execution.Lifecycle.Effects.{FollowsDisposition}
use railone_core.Execution.Lifecycle.Accepted.{
  Settled, record_failure-accepted, record_success-accepted,
}
use railone_core.Execution.Lifecycle.Starts.{TookRoute, start_next-TookRoute, one_writer_wins}
use railone_core.Execution.Lifecycle.Padded.{padded_failure-never_resolved}
use railone_core.Execution.Tests.{
  noon, later, services, signer, utt, routes, first_rtt, plan_id, planned, started, attempt_at,
  stored_plan_of,
}
use railone_core.Prelude.Int.{◌+ℤ◌, ◌-ℤ◌, ◌*ℤ◌, floor_div}
use railone_core.Prelude.Dict.{lookup, insert}
use railone_core.Prelude.Text.{
  is_space, lstrip, rstrip, strip, nth_char, upper_char, upper, take_text,
}
use railone_core.Prelude.Sort.{insert_sorted, sort}
use railone_core.Prelude.Order.{text_leb}
use railone_core.Crypto.Json.{
  fields_of, items_of, find_field, item, as_text, as_natural, text_at, natural_at,
}
use railone_core.Crypto.Canonical.{
  digit, decimal_from, decimal, decimal_ℤ, escape_char, escape, quote, join_comma, member,
  write_object, content_id, canonical_json, canonical_items, canonical_fields,
}
use railone_core.Contracts.Validation.{require_text, require_minor_units}
use railone_core.Contracts.Endpoints.{role_of, account_type_of, endpoint_from_payload}
use railone_core.Execution.Models.{
  require_aware, require_bps, route_texts, route_numbers, route_window, normalized,
  candidate_payload, scores_payload, ranked_payload,
}
use railone_core.Execution.Scoring.{
  sum_ℤ, checked_weights, eligible, liquidity_score, cost_score, components, weighted, distinct,
  score_all, before, number_from, rank,
}
use railone_core.Execution.Store.{
  require_plan, require_attempt, plan_at, require_plan_for_utt, adopt_plan, create_plan,
  current_plan, commit_start, commit_transition,
}
use railone_core.Execution.Planning.{
  rank_request, payloads, new_plan, verified_utt, draft_plan, build_plan,
}
use railone_core.Execution.Attempts.{
  index_routes, select_route, next_route, started_plan, rtt_material, rtt_payload, born_attempt,
  check_endpoints, executable_utt, draft_attempt, start_next,
}
use railone_core.Execution.Attempts.{
  affordable_remains, retry_status, failure_status, failed_plan, failed_attempt, apply_failure,
  record_failure, finalized_plan, succeeded_attempt, apply_success, record_success, resolved,
  apply_resolution, resolve_reconciliation,
}

planned-valid : StoreIsValid planned
planned-valid =
    serve-IsValid services empty_store (build default_weights "U" routes noon ∷ []) (tt, tt)
      empty_store-IsValid

started-valid : StoreIsValid started
started-valid = serve-IsValid services planned (start "U" noon ∷ []) (tt, tt) planned-valid

abbrev padded_rtt : String
padded_rtt = append " " first_rtt

-- The plan as a transition would leave it.
unfoldable next_plan : ExecutionPlan
next_plan =
    let p = stored_plan_of started plan_id in
    record p { version = p.version + 1; current_rtt_id = none }

record Run : Type 0 where
  pub held : lookup (strip first_rtt) started.attempts ≡ some (attempt_at started first_rtt)
  pub created : is_created (attempt_at started first_rtt).state ≡ true
  pub named : is_empty (strip first_rtt) ≡ false
  pub held_padded : lookup (strip padded_rtt) started.attempts ≡ some (attempt_at started first_rtt)
  pub named_padded : is_empty (strip padded_rtt) ≡ false
  pub stripped : strip padded_rtt ≡ first_rtt
  pub differs : (padded_rtt == first_rtt) ≡ false
  pub coded : is_empty (strip "late") ≡ false
  pub returned :
      start_next signer (λ _. ok utt) none true "K" "U" noon planned
      ≡ (ok (attempt_at started first_rtt), started)
  pub written :
      commit_transition 2 next_plan (attempt_at started first_rtt) started
      ≡ (ok tt, (commit_transition 2 next_plan (attempt_at started first_rtt) started).1)
  pub advanced : next_plan.version ≡ 2 + 1

run : Run
unfolding ◌+ℤ◌ ◌-ℤ◌ ◌*ℤ◌ floor_div lookup insert is_space lstrip rstrip strip nth_char upper_char
    upper take_text insert_sorted sort text_leb fields_of items_of find_field item as_text
    as_natural text_at natural_at digit decimal_from decimal decimal_ℤ escape_char escape quote
    join_comma member write_object content_id canonical_json canonical_items canonical_fields
    require_text require_minor_units role_of account_type_of endpoint_from_payload require_aware
    require_bps route_texts route_numbers route_window normalized candidate_payload scores_payload
    ranked_payload sum_ℤ checked_weights eligible liquidity_score cost_score components weighted
    distinct score_all before number_from rank require_plan require_attempt plan_at
    require_plan_for_utt adopt_plan create_plan current_plan commit_start commit_transition
    rank_request payloads new_plan verified_utt draft_plan build_plan index_routes select_route
    next_route started_plan rtt_material rtt_payload born_attempt check_endpoints executable_utt
    draft_attempt start_next affordable_remains retry_status failure_status failed_plan
    failed_attempt apply_failure record_failure finalized_plan succeeded_attempt apply_success
    record_success resolved apply_resolution resolve_reconciliation step serve attempt_at
    stored_plan_of next_plan
run = record {
  held = refl;
  created = refl;
  named = refl;
  held_padded = refl;
  named_padded = refl;
  stripped = refl;
  differs = refl;
  coded = refl;
  returned = refl;
  written = refl;
  advanced = refl;
}

record_failure-accepted_example :
    (p : ExecutionPlan) × (q : ExecutionPlan) × (t : ExecutionStore) × (record_failure first_rtt
        "late" FailureDisposition.retryable
        (pos 1)
        later
        started
      ≡ (ok q, t))
    × Settled started t
        (attempt_at started first_rtt)
        (failure_state FailureDisposition.retryable)
        1
        p
        q
    × FollowsDisposition FailureDisposition.retryable first_rtt p q
record_failure-accepted_example =
    record_failure-accepted started first_rtt (attempt_at started first_rtt) later 1 started-valid
      run.held run.created run.named refl "late" FailureDisposition.retryable run.coded

record_success-accepted_example :
    (p : ExecutionPlan) × (q : ExecutionPlan) × (t : ExecutionStore) × (record_success first_rtt
        (pos 1)
        later
        started
      ≡ (ok q, t))
    × Settled started t (attempt_at started first_rtt) AttemptState.succeeded 1 p q
    × (q.status ≡ PlanStatus.finalized)
    × (q.successful_route_id ≡ some (attempt_at started first_rtt).route_id)
    × (q.current_rtt_id ≡ none)
record_success-accepted_example =
    record_success-accepted started first_rtt (attempt_at started first_rtt) later 1 started-valid
      run.held run.created run.named refl

start_next-TookRoute_example : TookRoute planned started "U" (attempt_at started first_rtt)
start_next-TookRoute_example =
    start_next-TookRoute signer (λ _. ok utt) none true "K" planned started "U" noon
      (attempt_at started first_rtt) planned-valid run.returned

abbrev after_write : ExecutionStore
after_write = (commit_transition 2 next_plan (attempt_at started first_rtt) started).1

one_writer_wins_example :
    Refused after_write (commit_transition 2 next_plan (attempt_at started first_rtt) after_write)
    × Refused after_write
        (commit_start (λ _. ok utt) 2 next_plan (attempt_at started first_rtt) after_write)
one_writer_wins_example =
    one_writer_wins (λ _. ok utt) 2 next_plan next_plan (attempt_at started first_rtt)
      (attempt_at started first_rtt) started after_write run.written run.advanced refl

is_padded : padded_rtt ≢ strip padded_rtt
is_padded h =
    let same = (eq_iff padded_rtt first_rtt).1 (h ∙ run.stripped) in cc (same, run.differs)

padded_failure-never_resolved_example :
    (q : ExecutionPlan) × (t : ExecutionStore) × (record_failure padded_rtt "late"
        FailureDisposition.reconciliation_required
        (pos 1)
        later
        started
      ≡ (ok q, t))
    × (q.current_rtt_id ≡ some padded_rtt)
    × (q.status ≡ PlanStatus.reconciliation_required)
    × ((other : String) (how : Resolution) (paid : ℤ) (at : Datetime)
        → strip other ≡ strip padded_rtt
        → Refused t (resolve_reconciliation other how paid at t))
padded_failure-never_resolved_example =
    padded_failure-never_resolved started padded_rtt "late" (attempt_at started first_rtt) later 1
      started-valid run.held_padded run.created run.named_padded run.coded refl is_padded

-- ===== src/Execution/Tests/Rankings.antt =====
-- The theorems on railone_execution/scoring.py at the two routes of the tests.
use mathlib.Core.List.Perm
use railone_core.Prelude.{◌≡◌, refl, List, [], ◌∷◌, Result, ok, err, true}
use railone_core.Prelude.Int.{pos}
use railone_core.Prelude.Equality.{string_eq, nat_eq}
use railone_core.Execution.Models.{RouteCandidate, RankedRoute, ComponentScores}
use railone_core.Execution.Scoring.{default_weights, RankRequest}
use railone_core.Execution.Scoring.Bounds.{IsBps}
use railone_core.Execution.Scoring.Weighted.{score-IsBps}
use railone_core.Execution.Scoring.Specified.{IsRanking}
use railone_core.Execution.Scoring.Ranked.{rank-IsRanking, rank_order_free}
use railone_core.Execution.Lifecycle.Calls.{step, serve}
use railone_core.Execution.Tests.{noon, route, routes}
use railone_core.Prelude.Int.{◌+ℤ◌, ◌-ℤ◌, ◌*ℤ◌, floor_div}
use railone_core.Prelude.Dict.{lookup, insert}
use railone_core.Prelude.Text.{
  is_space, lstrip, rstrip, strip, nth_char, upper_char, upper, take_text,
}
use railone_core.Prelude.Sort.{insert_sorted, sort}
use railone_core.Prelude.Order.{text_leb}
use railone_core.Crypto.Json.{
  fields_of, items_of, find_field, item, as_text, as_natural, text_at, natural_at,
}
use railone_core.Crypto.Canonical.{
  digit, decimal_from, decimal, decimal_ℤ, escape_char, escape, quote, join_comma, member,
  write_object, content_id, canonical_json, canonical_items, canonical_fields,
}
use railone_core.Contracts.Validation.{require_text, require_minor_units}
use railone_core.Contracts.Endpoints.{role_of, account_type_of, endpoint_from_payload}
use railone_core.Execution.Models.{
  require_aware, require_bps, route_texts, route_numbers, route_window, normalized,
  candidate_payload, scores_payload, ranked_payload,
}
use railone_core.Execution.Scoring.{
  sum_ℤ, checked_weights, eligible, liquidity_score, cost_score, components, weighted, distinct,
  score_all, before, number_from, rank,
}
use railone_core.Execution.Store.{
  require_plan, require_attempt, plan_at, require_plan_for_utt, adopt_plan, create_plan,
  current_plan, commit_start, commit_transition,
}
use railone_core.Execution.Planning.{
  rank_request, payloads, new_plan, verified_utt, draft_plan, build_plan,
}
use railone_core.Execution.Attempts.{
  index_routes, select_route, next_route, started_plan, rtt_material, rtt_payload, born_attempt,
  check_endpoints, executable_utt, draft_attempt, start_next,
}
use railone_core.Execution.Attempts.{
  affordable_remains, retry_status, failure_status, failed_plan, failed_attempt, apply_failure,
  record_failure, finalized_plan, succeeded_attempt, apply_success, record_success, resolved,
  apply_resolution, resolve_reconciliation,
}

abbrev request : RankRequest
request = record {
  amount_minor = 8;
  currency_from = "KES";
  currency_to = "KES";
  routing_budget_minor = 9;
  source_institution_id = "I1";
  destination_institution_id = "I2";
}

abbrev swapped : List RouteCandidate
swapped = route "R2" (pos 1) ∷ route "R1" (pos 2) ∷ []

abbrev ranked_or : Result (List RankedRoute) → List RankedRoute
ranked_or (ok rs) = rs
ranked_or (err e) = []

unfoldable ranked : List RankedRoute
ranked = ranked_or (rank default_weights request noon routes)

abbrev scores : ComponentScores
scores = record {
  latency = pos 9997;
  congestion = pos 9998;
  liquidity = pos 1250;
  throughput = pos 5;
  speed = pos 6;
  cost = pos 8889;
  link = pos 10000;
}

record Run : Type 0 where
  pub returned : rank default_weights request noon routes ≡ ok ranked
  pub accepted : checked_weights default_weights ≡ ok default_weights
  pub valid : normalized (route "R2" (pos 1)) ≡ ok (route "R2" (pos 1))
  pub able : eligible request 7000000 (route "R2" (pos 1)) ≡ true
  pub scored : components request (route "R2" (pos 1)) ≡ ok scores

run : Run
unfolding ◌+ℤ◌ ◌-ℤ◌ ◌*ℤ◌ floor_div lookup insert is_space lstrip rstrip strip nth_char upper_char
    upper take_text insert_sorted sort text_leb fields_of items_of find_field item as_text
    as_natural text_at natural_at digit decimal_from decimal decimal_ℤ escape_char escape quote
    join_comma member write_object content_id canonical_json canonical_items canonical_fields
    require_text require_minor_units role_of account_type_of endpoint_from_payload require_aware
    require_bps route_texts route_numbers route_window normalized candidate_payload scores_payload
    ranked_payload sum_ℤ checked_weights eligible liquidity_score cost_score components weighted
    distinct score_all before number_from rank require_plan require_attempt plan_at
    require_plan_for_utt adopt_plan create_plan current_plan commit_start commit_transition
    rank_request payloads new_plan verified_utt draft_plan build_plan index_routes select_route
    next_route started_plan rtt_material rtt_payload born_attempt check_endpoints executable_utt
    draft_attempt start_next affordable_remains retry_status failure_status failed_plan
    failed_attempt apply_failure record_failure finalized_plan succeeded_attempt apply_success
    record_success resolved apply_resolution resolve_reconciliation step serve ranked
run = record { returned = refl; accepted = refl; valid = refl; able = refl; scored = refl }

rank-IsRanking_example : IsRanking default_weights request 7000000 routes ranked
rank-IsRanking_example = rank-IsRanking default_weights request noon routes ranked run.returned

rank_order_free_example : rank default_weights request noon swapped ≡ ok ranked
rank_order_free_example =
    rank_order_free default_weights request noon routes swapped ranked run.returned
      (Perm.swap (route "R2" (pos 1)) (route "R1" (pos 2)) [])

score-IsBps_example : IsBps (weighted default_weights scores)
score-IsBps_example =
    score-IsBps default_weights request 7000000 (route "R2" (pos 1)) scores run.accepted run.valid
      run.able run.scored

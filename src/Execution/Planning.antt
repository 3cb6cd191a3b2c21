-- ===== src/Execution/Planning.antt =====
-- `ExecutionPlanningService.build_plan` of railone_execution/service.py.
use Prim.Native.String.{◌++◌ as append}
use railone_core.Prelude.{
  ℕ, String, not, List, [], ◌∷◌, map, none, Result, ok, err, permission_error, no_eligible_route,
  and_then, raise_if,
}
use railone_core.Prelude.Int.{pos}
use railone_core.Prelude.Exec.{Exec, lift, ◌>>=◌}
use railone_core.Crypto.Json.{
  Json, int, text, array, object, fields_of, items_of, item, text_at, natural_at,
}
use railone_core.Crypto.Canonical.{content_id}
use railone_core.Crypto.Signatures.{SignatureEnvelope, SignatureService, ArtifactType}
use railone_core.Contracts.Validation.{require_text}
use railone_core.Execution.Models.{
  Datetime, require_aware, epoch_seconds, PlanStatus, RouteCandidate, RankedRoute, ranked_payload,
  ExecutionPlan,
}
use railone_core.Execution.Scoring.{RouteScoreWeights, RankRequest, rank}
use railone_core.Execution.Store.{ExecutionStore, create_plan}

-- The request that an UTT's terms make.
unfoldable pub rank_request : Json → Result RankRequest
rank_request utt = and_then (natural_at "amount_minor" utt) λ amount.
    and_then (text_at "currency_from" utt) λ currency_from.
      and_then (text_at "currency_to" utt) λ currency_to.
        and_then (natural_at "routing_budget_minor" utt) λ budget.
          and_then (institution_of "payer" utt) λ source.
            and_then (institution_of "beneficiary" utt) λ destination. ok (record {
              amount_minor = amount;
              currency_from = currency_from;
              currency_to = currency_to;
              routing_budget_minor = budget;
              source_institution_id = source;
              destination_institution_id = destination;
            })
  where
    institution_of : String → Json → Result String
    institution_of party utt =
        and_then (item party utt)
          λ p. and_then (item "endpoint" p) λ endpoint. text_at "institution_id" endpoint

unfoldable pub payloads : List RankedRoute → Result (List Json)
payloads [] = ok []
payloads (r ∷ rs) = and_then (ranked_payload r) λ p. and_then (payloads rs) λ ps. ok (p ∷ ps)

abbrev pub require_some_route : List RankedRoute → Result (Unit {0})
require_some_route [] = err (no_eligible_route "no eligible route for accepted UTT")
require_some_route (r ∷ rs) = ok tt

-- A new plan: every ranked route is still to be tried.
unfoldable pub new_plan : String → String → List RankedRoute → RankRequest → ℕ → ℕ → ExecutionPlan
new_plan plan_id utt_id ranked q max_attempts instant = record {
  plan_id = plan_id;
  utt_id = utt_id;
  ranked_routes = ranked;
  remaining_route_ids = map (λ r. r.candidate.route_id) ranked;
  failures = [];
  attempts_used = 0;
  max_attempts = max_attempts;
  routing_budget_minor = q.routing_budget_minor;
  routing_cost_spent_minor = 0;
  current_rtt_id = none;
  previous_rtt_id = none;
  previous_route_id = none;
  status = PlanStatus.active;
  successful_route_id = none;
  version = 1;
  created_at = instant;
  updated_at = instant;
}

-- `signed_utt.payload`, once its signature has been verified.
unfoldable pub verified_utt : SignatureService → SignatureEnvelope → Result Json
verified_utt signatures signed =
    let v = signatures.verify_artifact signed ArtifactType.utt in
    and_then (raise_if (not v.valid) (permission_error (append "UTT rejected: " v.reason)))
      λ _. ok signed.payload

module _ (signatures : SignatureService) (require_utt : String → Result SignatureEnvelope) where
  -- The plan that an UTT and the candidates determine.
  unfoldable pub draft_plan :
      RouteScoreWeights → String → List RouteCandidate → Datetime → Result ExecutionPlan
  draft_plan weights utt_id candidates at =
      and_then (require_aware "planning timestamp" at) λ instant.
        and_then (require_text "utt_id" utt_id) λ key. and_then (require_utt key) λ signed.
          and_then (verified_utt signatures signed) λ utt. and_then (rank_request utt) λ q.
            and_then (rank weights q at candidates) λ ranked.
              and_then (require_some_route ranked) λ _.
                and_then (text_at "payload_sha256" signed.protected) λ hash.
                  and_then (item "routing_policy_id" utt) λ policy.
                    and_then (payloads ranked) λ routes.
                      and_then (natural_at "max_attempts" utt) λ max_attempts.
                        let material = object (
                          fields_of (
                            ("utt_id", text utt_id)
                            ∷ ("utt_payload_sha256", text hash)
                            ∷ ("routing_policy_id", policy)
                            ∷ ("ranked_routes", array (items_of routes))
                            ∷ ("created_at", int (pos (epoch_seconds instant)))
                            ∷ [])) in
                        ok (
                          new_plan (content_id signatures.sha256_hex "PLAN" material) utt_id ranked
                            q max_attempts instant)

  unfoldable pub build_plan :
      RouteScoreWeights
      → String
      → List RouteCandidate
      → Datetime
      → Exec ExecutionStore ExecutionPlan
  build_plan weights utt_id candidates at = do
    plan ← lift (draft_plan weights utt_id candidates at)
    create_plan require_utt plan

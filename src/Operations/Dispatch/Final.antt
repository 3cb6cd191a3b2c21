-- ===== src/Operations/Dispatch/Final.antt =====
-- A submission of railone_operations/service.py that has its outcome is not submitted again.
use railone_core.Prelude.{
  ℕ, String, ◌≡◌, refl, sym, ap, true, not, some, Result, ok, err, Returns, and_then-Returns,
  Returns-eq_ok, runtime_error, not_dispatchable, ◌||◌, inl, inr, Bool-cases,
}
use railone_core.Crypto.Json.{item, text_at, natural_at, Json}
use railone_core.Contracts.Validation.{require_text}
use railone_core.Execution.Models.{RttAttemptRecord}
use railone_core.Prelude.Equality.{◌==◌, string_eq}
use railone_core.Prelude.Text.{upper}
use railone_core.Prelude.Dict.{lookup}
use mathlib.Core.Path.{◌∙◌, subst}
use railone_core.Prelude.Exec.{◌>>=◌}
use railone_core.Prelude.Exec.Branches.{guard_branches, lift_branches, part_branches}
use railone_core.Operations.Models.{
  ProviderExecutionRequest, ProviderSubmissionRecord, ProviderSubmissionState, OutboxRecord,
}
use railone_core.Operations.Store.{OperationsStore, prepare, prepare_over}
use railone_core.Operations.Preparation.{
  Collaborators, checked_request, execution_request, resolved_party, endpoint_of_party,
}
use railone_core.Execution.Models.{Datetime, require_aware}
use railone_core.Operations.Preparation.{
  submittable_attempt, bound_utt, drafted_submission, prepare_submission,
}
use railone_core.Operations.Dispatch.{
  ProviderAdapter, Operation, with_operations, is_final, proceed, dispatch,
}
use railone_core.Operations.Dispatch.AtMostOnce.{drafted-IsFirst}

module _ (v : Collaborators) (rtt_id : String) (attempt : RttAttemptRecord) (utt : Json) where
  abbrev IsFor : ProviderExecutionRequest → Type 0
  IsFor q = q.rtt_id ≡ rtt_id

  execution_request-IsFor : Returns IsFor (execution_request v rtt_id attempt utt)
  unfolding execution_request
  execution_request-IsFor =
      and_then-Returns IsFor (item "route" attempt.signed_rtt.payload) _ λ route _.
        and_then-Returns IsFor (text_at "provider" route) _ λ given _.
          and_then-Returns IsFor (require_text "provider" given) _ λ stripped _.
            and_then-Returns IsFor (endpoint_of_party v "payer" utt) _ λ payer_endpoint _.
              and_then-Returns IsFor (endpoint_of_party v "beneficiary" utt) _
                λ beneficiary_endpoint _.
                  and_then-Returns IsFor (resolved_party v payer_endpoint) _ λ payer _.
                    and_then-Returns IsFor (resolved_party v beneficiary_endpoint) _
                      λ beneficiary _.
                        and_then-Returns IsFor (text_at "adapter" route) _ λ adapter _.
                          and_then-Returns IsFor (text_at "rail" route) _ λ rail _.
                            and_then-Returns IsFor (natural_at "amount_minor" utt) _ λ amount _.
                              and_then-Returns IsFor (text_at "currency_from" utt) _
                                λ currency_from _.
                                  and_then-Returns IsFor (natural_at "receive_amount_minor" utt) _
                                    λ receive _.
                                      and_then-Returns IsFor (text_at "currency_to" utt) _
                                        λ currency_to _. refl

module _ (v : Collaborators) where
  -- An existing submission, as a preparation for its RTT leaves it.
  abbrev IsKept :
      ProviderSubmissionRecord
      → OperationsStore
      → Result (ProviderSubmissionRecord × ProviderExecutionRequest) × OperationsStore
      → Type 0
  IsKept r s (err e, t) = t ≡ s
  IsKept r s (ok (r', q), t) = (t ≡ s) × (r' ≡ r)

  prepare_over-IsKept :
      (d : ProviderSubmissionRecord) (row : OutboxRecord) (q : ProviderExecutionRequest)
      (r : ProviderSubmissionRecord) (s : OperationsStore)
      → IsKept r s ((prepare_over d row (some r) >>= checked_request q) s)
  unfolding prepare_over checked_request
  prepare_over-IsKept d row q r s =
      elim (Bool-cases (
        not (r.request_sha256 == d.request_sha256)
        || not (r.idempotency_key == d.idempotency_key))) [
          | inl differs ↦ rw (prepare_over, differs) refl
          | inr same ↦
              rw (prepare_over, same)
                (guard_branches (IsKept r s) (not (r.request_sha256 == q.request_sha256))
                  (runtime_error "prepared provider request does not match stored record") _ s
                  (λ _. refl) (λ _. (refl, refl)))
        ]

  prepare_submission-IsKept :
      (rtt_id : String) (at : Datetime) (r : ProviderSubmissionRecord) (s : OperationsStore)
      → lookup rtt_id s.submissions_by_rtt ≡ some r
      → IsKept r s (prepare_submission v rtt_id at s)
  unfolding prepare_submission prepare
  prepare_submission-IsKept rtt_id at r s held =
      lift_branches (IsKept r s) (require_aware "provider-operation timestamp" at) _ s (λ _. refl)
        λ instant _.
          lift_branches (IsKept r s) (submittable_attempt v rtt_id) _ s (λ _. refl)
            λ attempt _.
              lift_branches (IsKept r s) (bound_utt v attempt) _ s (λ _. refl)
                λ utt _.
                  lift_branches (IsKept r s) (execution_request v rtt_id attempt utt) _ s
                    (λ _. refl)
                    λ q requested.
                      lift_branches (IsKept r s) (drafted_submission v q instant) _ s (λ _. refl)
                        λ d drafted.
                          let same_rtt : d.0.rtt_id ≡ rtt_id =
                            (drafted-IsFirst v q instant d drafted).same_rtt
                            ∙ Returns-eq_ok (IsFor v rtt_id attempt utt)
                                (execution_request v rtt_id attempt utt)
                                (execution_request-IsFor v rtt_id attempt utt) requested in
                          let there : lookup d.0.rtt_id s.submissions_by_rtt ≡ some r =
                            subst (λ k. lookup k s.submissions_by_rtt ≡ some r) (sym same_rtt)
                              held in
                          subst (λ o. IsKept r s ((prepare_over d.0 d.1 o >>= checked_request q) s))
                            (sym there) (prepare_over-IsKept d.0 d.1 q r s)

final_proceed :
    (v : Collaborators) (adapter : ProviderAdapter) (state : ProviderSubmissionState)
    (r : ProviderSubmissionRecord) (q : ProviderExecutionRequest) (at : ℕ) (o : Operation)
    → is_final state ≡ true
    → proceed v adapter state r q at o ≡ (ok r, o)
unfolding proceed
final_proceed v adapter ProviderSubmissionState.prepared r q at o h = cc
final_proceed v adapter ProviderSubmissionState.dispatching r q at o h = cc
final_proceed v adapter ProviderSubmissionState.accepted r q at o h = refl
final_proceed v adapter ProviderSubmissionState.rejected r q at o h = refl
final_proceed v adapter ProviderSubmissionState.unknown r q at o h = refl

-- A returned submission is the one that was there, and nothing has changed.
abbrev pub IsAsBefore :
    ProviderSubmissionRecord → Operation → Result ProviderSubmissionRecord × Operation → Type 0
IsAsBefore r o (err e, p) = p ≡ o
IsAsBefore r o (ok r', p) = (p ≡ o) × (r' ≡ r)

-- Once the submission of an RTT is accepted, rejected or unknown, any dispatch for the RTT, with any
-- adapter, raises or answers that submission, and neither the store nor the requests that were sent
-- change.
pub final_dispatch-IsAsBefore :
    (v : Collaborators) (adapter : ProviderAdapter) (rtt_id : String) (at : Datetime)
    (r : ProviderSubmissionRecord) (o : Operation)
    → lookup rtt_id o.operations.submissions_by_rtt ≡ some r
    → is_final r.state ≡ true
    → IsAsBefore r o (dispatch v adapter rtt_id at o)
unfolding dispatch
final_dispatch-IsAsBefore v adapter rtt_id at r o held final =
    let kept = prepare_submission-IsKept v rtt_id at r o.operations held in
    lift_branches (IsAsBefore r o) (require_aware "provider-operation timestamp" at) _ o (λ _. refl)
      λ instant _.
        part_branches (IsAsBefore r o) (λ p. p.operations) with_operations
          (prepare_submission v rtt_id at) _ o
          (λ e t is.
            let same = subst (IsKept v r o.operations) is kept in ap (with_operations o) same)
          λ prepared t is.
            let (same, is_r) = subst (IsKept v r o.operations) is kept in
            guard_branches (IsAsBefore r o)
              (not (upper adapter.provider_id == prepared.0.provider_id))
              (not_dispatchable "adapter provider does not match RTT route") _ (with_operations o t)
              (λ _. ap (with_operations o) same)
              λ _.
                let ended : is_final prepared.0.state ≡ true = rw is_r final in
                rw
                  (final_proceed v adapter prepared.0.state prepared.0 prepared.1 instant
                    (with_operations o t) ended)
                  (ap (with_operations o) same, is_r)

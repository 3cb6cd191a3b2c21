-- ===== src/Operations/Dispatch/Sends.antt =====
-- What a dispatch of railone_operations/service.py leaves once it has prepared its submission.
use mathlib.Core.Path.{subst}
use railone_core.Prelude.{
  ℕ, ◌+◌, String, ◌≡◌, refl, true, false, List, ◌∷◌, some, Result, ok, err, Bool-cases, inl, inr,
  arith,
}
use railone_core.Prelude.Equality.{◌==◌, string_eq}
use text.Mathlib.TextEquality.{eq_iff}
use railone_core.Prelude.Dict.{Dict, lookup, insert, lookup-insert, lookup-insert_self}
use railone_core.Prelude.Exec.Branches.{lift_branches, bind_branches, part_branches}
use railone_core.Operations.Models.{
  ProviderExecutionRequest, ProviderSubmissionResult, ProviderSubmissionRecord,
  ProviderSubmissionState,
}
use railone_core.Operations.Store.{transition}
use railone_core.Operations.Events.{submission_event}
use railone_core.Operations.Preparation.{Collaborators}
use railone_core.Operations.Dispatch.{
  ProviderAdapter, Operation, with_operations, dispatching_submission, dispatch_details, send,
  send_and_complete, resume, proceed, unknown_outcome,
}
use railone_core.Operations.Dispatch.Once.{
  times, is_prepared, IsOnce, AreOnce, OnceIn, stored-Tells, Written, transition-Written,
  complete-AreOnce,
}

module _ (v : Collaborators) where
  -- What a request leaves.
  abbrev IsSent : ProviderSubmissionRecord → Result ProviderSubmissionResult × Operation → Type 0
  IsSent r (err e, o) = OnceIn o
  IsSent r (ok result, o) = OnceIn o × (lookup r.rtt_id o.operations.submissions_by_rtt ≡ some r)

  module _ (adapter : ProviderAdapter) where
    sent-AreOnce :
        (d : Dict String ProviderSubmissionRecord) (sent : List ProviderExecutionRequest)
        (q : ProviderExecutionRequest) (r : ProviderSubmissionRecord)
        → AreOnce d sent
        → q.rtt_id ≡ r.rtt_id
        → times r.rtt_id sent ≡ 0
        → r.version ≡ 2
        → is_prepared r.state ≡ false
        → AreOnce (insert r.rtt_id r d) (q ∷ sent)
    unfolding AreOnce times
    sent-AreOnce d sent q r once same_rtt none_before second underway k =
        elim (Bool-cases (r.rtt_id == k)) [
          | inl same ↦
              let is_k : r.rtt_id ≡ k = (eq_iff r.rtt_id k).0 same in
              let before : times k sent ≡ 0 = subst (λ j. times j sent ≡ 0) is_k none_before in
              rw (lookup-insert r.rtt_id k r d, same, same_rtt, same)
                (record {
                  own = is_k;
                  begun = omega (arith, second);
                  unsent = λ h. absurd (omega (arith, second, h));
                  first = λ h. cc (h, underway);
                  once = omega (arith, before);
                })
          | inr other ↦
              let as_before : times k sent ≡ 0 + times k sent = omega arith in
              rw (lookup-insert r.rtt_id k r d, other, same_rtt, other)
                (subst (IsOnce k (lookup k d)) as_before (once k))
        ]

    send-IsSent :
        (r : ProviderSubmissionRecord) (q : ProviderExecutionRequest) (at : ℕ) (o : Operation)
        → lookup r.rtt_id o.operations.submissions_by_rtt ≡ some r
        → q.rtt_id ≡ r.rtt_id
        → is_prepared r.state ≡ true
        → OnceIn o
        → IsSent (dispatching_submission r at) (send v adapter r q at o)
    unfolding send dispatching_submission
    send-IsSent r q at o held same_rtt prepared once =
        let under_way = dispatching_submission r at in
        let told = stored-Tells o.operations.submissions_by_rtt o.sent r.rtt_id r once held in
        lift_branches (IsSent under_way)
          (submission_event v.signatures v.event_signing_key_id under_way
            "PROVIDER_DISPATCH_STARTED" (dispatch_details v adapter under_way) at)
          _ o (λ _. once)
          λ event _.
            part_branches (IsSent under_way) (λ p. p.operations) with_operations
              (transition r.version under_way event) _ o
              (λ e t is.
                let same =
                  subst (Written under_way event o.operations) is
                    (transition-Written r.version under_way event o.operations) in
                rw same once)
              λ _ t is.
                let written =
                  subst (Written under_way event o.operations) is
                    (transition-Written r.version under_way event o.operations) in
                rw written (
                  sent-AreOnce o.operations.submissions_by_rtt o.sent q under_way once same_rtt
                      (told.unsent (told.first prepared)) (omega (arith, told.first prepared)) refl,
                  lookup-insert_self r.rtt_id under_way o.operations.submissions_by_rtt,
                )

    send_and_complete-OnceIn :
        (r : ProviderSubmissionRecord) (q : ProviderExecutionRequest) (at : ℕ) (o : Operation)
        → lookup r.rtt_id o.operations.submissions_by_rtt ≡ some r
        → q.rtt_id ≡ r.rtt_id
        → is_prepared r.state ≡ true
        → OnceIn o
        → OnceIn (send_and_complete v adapter r q at o).1
    unfolding send_and_complete dispatching_submission
    send_and_complete-OnceIn r q at o held same_rtt prepared once =
        let under_way = dispatching_submission r at in
        let sends = send-IsSent r q at o held same_rtt prepared once in
        bind_branches (λ p. OnceIn p.1) (send v adapter r q at) _ o
          (λ e t is. subst (IsSent under_way) is sends)
          λ result t is.
            let (kept, there) = subst (IsSent under_way) is sends in
            complete-AreOnce v under_way result at t.operations t.sent there kept

    pub proceed-OnceIn :
        (state : ProviderSubmissionState) (r : ProviderSubmissionRecord)
        (q : ProviderExecutionRequest) (at : ℕ) (o : Operation)
        → adapter.supports_idempotency ≡ false
        → r.state ≡ state
        → lookup r.rtt_id o.operations.submissions_by_rtt ≡ some r
        → q.rtt_id ≡ r.rtt_id
        → OnceIn o
        → OnceIn (proceed v adapter state r q at o).1
    unfolding proceed resume
    proceed-OnceIn ProviderSubmissionState.prepared r q at o risky is held same_rtt once =
        send_and_complete-OnceIn r q at o held same_rtt (rw is refl) once
    proceed-OnceIn ProviderSubmissionState.dispatching r q at o risky is held same_rtt once =
        rw (risky, resume)
          (complete-AreOnce v r (unknown_outcome "NON_IDEMPOTENT_RECOVERY_BLOCKED") at o.operations
            o.sent held once)
    proceed-OnceIn ProviderSubmissionState.accepted r q at o risky is held same_rtt once = once
    proceed-OnceIn ProviderSubmissionState.rejected r q at o risky is held same_rtt once = once
    proceed-OnceIn ProviderSubmissionState.unknown r q at o risky is held same_rtt once = once

-- ===== src/Operations/Dispatch/AtMostOnce.antt =====
-- Over any dispatches of railone_operations/service.py, a provider that might execute a request twice
-- is given at most one for an RTT.
use mathlib.Core.Path.{◌∙◌, subst}
use railone_core.Prelude.{
  ℕ, ◌≤◌, String, ◌≡◌, refl, sym, ap, false, not, List, [], Option, none, some, Result, ok, err,
  and_then-eq_ok, ok-injective, runtime_error, not_dispatchable, arith,
}
use railone_core.Prelude.Equality.{◌==◌, string_eq}
use railone_core.Prelude.Text.{upper}
use railone_core.Prelude.Dict.{lookup}
use railone_core.Prelude.Exec.{◌>>=◌}
use railone_core.Prelude.Exec.Branches.{guard_branches, lift_branches, bind_branches, part_branches}
use railone_core.Execution.Models.{Datetime, require_aware}
use railone_core.Operations.Models.{
  ProviderExecutionRequest, ProviderSubmissionRecord, OutboxRecord,
}
use railone_core.Operations.Store.{OperationsStore, prepare}
use railone_core.Operations.Outbox.Branches.{prepare_branches}
use railone_core.Operations.Submissions.{prepare-IsPrepared}
use railone_core.Crypto.Json.{text, field, end}
use railone_core.Operations.Events.{submission_event}
use railone_core.Operations.Preparation.{
  Collaborators, checked_request, submission_id_of, submittable_attempt, bound_utt,
  execution_request, new_submission, drafted_submission, prepare_submission,
}
use railone_core.Operations.Dispatch.{ProviderAdapter, Operation, with_operations, dispatch}
use railone_core.Operations.Dispatch.Once.{
  times, IsOnce, AreOnce, OnceIn, insert-AreOnce, stored-Tells, none_sent,
}
use railone_core.Operations.Dispatch.Sends.{proceed-OnceIn}

-- A prepared submission stands in the store, and its request is for the same RTT.
abbrev IsReady :
    List ProviderExecutionRequest
    → Result (ProviderSubmissionRecord × ProviderExecutionRequest) × OperationsStore
    → Type 0
IsReady sent (err e, s) = AreOnce s.submissions_by_rtt sent
IsReady sent (ok (r, q), s) =
    AreOnce s.submissions_by_rtt sent
    × (lookup r.rtt_id s.submissions_by_rtt ≡ some r)
    × (q.rtt_id ≡ r.rtt_id)

-- A submission as it is first stored.
pub record IsFirst (r : ProviderSubmissionRecord) (q : ProviderExecutionRequest) : Type 0 where
  pub same_rtt : r.rtt_id ≡ q.rtt_id
  pub first : r.version ≡ 1

prepare-AreOnce :
    (r : ProviderSubmissionRecord) (row : OutboxRecord) (s : OperationsStore)
    (sent : List ProviderExecutionRequest)
    → r.version ≡ 1
    → AreOnce s.submissions_by_rtt sent
    → AreOnce (prepare r row s).1.submissions_by_rtt sent
prepare-AreOnce r row s sent first once =
    prepare_branches (λ o. AreOnce o.1.submissions_by_rtt sent) r row s (λ _. once)
      λ free _ _.
        let unsent = none_sent s.submissions_by_rtt sent r.rtt_id once free in
        insert-AreOnce s.submissions_by_rtt sent r once (record {
          own = refl;
          begun = omega (arith, first);
          unsent = λ _. unsent;
          first = λ _. first;
          once = omega (arith, unsent);
        })

module _ (v : Collaborators) where
  pub drafted-IsFirst :
      (q : ProviderExecutionRequest) (at : ℕ) (d : ProviderSubmissionRecord × OutboxRecord)
      → drafted_submission v q at ≡ ok d
      → IsFirst d.0 q
  unfolding drafted_submission new_submission
  drafted-IsFirst q at d h =
      let r = new_submission (submission_id_of v q) q at in
      let (event, _, h₁) =
        and_then-eq_ok
          (submission_event v.signatures v.event_signing_key_id r "PROVIDER_SUBMISSION_PREPARED"
            (field "request_sha256" (text q.request_sha256) end) at)
          _ h in
      let is_d : r ≡ d.0 = ap (λ x. x.0) (ok-injective h₁) in
      rw (← is_d) (record { same_rtt = refl; first = refl })

  prepare_submission-IsReady :
      (rtt_id : String) (at : Datetime) (s : OperationsStore) (sent : List ProviderExecutionRequest)
      → AreOnce s.submissions_by_rtt sent
      → IsReady sent (prepare_submission v rtt_id at s)
  unfolding prepare_submission checked_request
  prepare_submission-IsReady rtt_id at s sent once =
      lift_branches (IsReady sent) (require_aware "provider-operation timestamp" at) _ s (λ _. once)
        λ instant _.
          lift_branches (IsReady sent) (submittable_attempt v rtt_id) _ s (λ _. once)
            λ attempt _.
              lift_branches (IsReady sent) (bound_utt v attempt) _ s (λ _. once)
                λ utt _.
                  lift_branches (IsReady sent) (execution_request v rtt_id attempt utt) _ s
                    (λ _. once)
                    λ q _.
                      lift_branches (IsReady sent) (drafted_submission v q instant) _ s (λ _. once)
                        λ d drafted. stored_next q d (drafted-IsFirst q instant d drafted)
    where
      stored_next :
          (q : ProviderExecutionRequest) (d : ProviderSubmissionRecord × OutboxRecord)
          → IsFirst d.0 q
          → IsReady sent ((prepare d.0 d.1 >>= checked_request q) s)
      stored_next q d f =
          let kept = prepare-AreOnce d.0 d.1 s sent f.first once in
          bind_branches (IsReady sent) (prepare d.0 d.1) _ s
            (λ e t is. subst (λ o. AreOnce o.1.submissions_by_rtt sent) is kept)
            λ r t is.
              let once_then = subst (λ o. AreOnce o.1.submissions_by_rtt sent) is kept in
              guard_branches (IsReady sent) (not (r.request_sha256 == q.request_sha256))
                (runtime_error "prepared provider request does not match stored record") _ t
                (λ _. once_then)
                λ _.
                  let there = prepare-IsPrepared d.0 r d.1 s t is in
                  let told =
                    stored-Tells t.submissions_by_rtt sent d.0.rtt_id r once_then there.held in
                  (
                    once_then,
                    subst (λ k. lookup k t.submissions_by_rtt ≡ some r) (sym told.own) there.held,
                    sym (told.own ∙ f.same_rtt),
                  )

  dispatch-OnceIn :
      (adapter : ProviderAdapter) (rtt_id : String) (at : Datetime) (o : Operation)
      → adapter.supports_idempotency ≡ false
      → OnceIn o
      → OnceIn (dispatch v adapter rtt_id at o).1
  unfolding dispatch
  dispatch-OnceIn adapter rtt_id at o risky once =
      let ready = prepare_submission-IsReady rtt_id at o.operations o.sent once in
      lift_branches (λ p. OnceIn p.1) (require_aware "provider-operation timestamp" at) _ o
        (λ _. once)
        λ instant _.
          part_branches (λ p. OnceIn p.1) (λ p. p.operations) with_operations
            (prepare_submission v rtt_id at) _ o (λ e t is. subst (IsReady o.sent) is ready)
            λ prepared t is.
              let (kept, held, same_rtt) = subst (IsReady o.sent) is ready in
              guard_branches (λ p. OnceIn p.1)
                (not (upper adapter.provider_id == prepared.0.provider_id))
                (not_dispatchable "adapter provider does not match RTT route") _
                (with_operations o t) (λ _. kept)
                λ _.
                  proceed-OnceIn v adapter prepared.0.state prepared.0 prepared.1 instant
                    (with_operations o t) risky refl held same_rtt kept

-- What dispatches leave, from a store without submissions, whatever the services and the adapters
-- answer each time. An answer without a code raises after the request was sent, and leaves what a
-- process leaves that dies then.
pub data Dispatched : Operation → Type 0 where
  idle : Dispatched (record {
    operations = record { submissions_by_rtt = []; rtt_by_idempotency = []; outbox = [] };
    sent = [];
  })
  dispatched :
      {o : Operation} (v : Collaborators) (adapter : ProviderAdapter) (rtt_id : String)
      (at : Datetime)
      → adapter.supports_idempotency ≡ false
      → Dispatched o
      → Dispatched (dispatch v adapter rtt_id at o).1

Dispatched-OnceIn : {o : Operation} → Dispatched o → OnceIn o
unfolding AreOnce lookup times
Dispatched-OnceIn idle = λ rtt_id. refl
Dispatched-OnceIn (dispatched {o} v adapter rtt_id at risky before) =
    dispatch-OnceIn v adapter rtt_id at o risky (Dispatched-OnceIn before)

times-le :
    (rtt_id : String) (r : Option ProviderSubmissionRecord) (n : ℕ) → IsOnce rtt_id r n → n ≤ 1
times-le rtt_id none n h = omega arith
times-le rtt_id (some r) n h = h.once

-- Whatever dispatches are made with adapters that do not support idempotency, whether they return or
-- raise, at most one request for an RTT is handed to a provider.
pub sent_once : {o : Operation} → Dispatched o → (rtt_id : String) → times rtt_id o.sent ≤ 1
unfolding AreOnce
sent_once {o} d rtt_id =
    times-le rtt_id (lookup rtt_id o.operations.submissions_by_rtt) (times rtt_id o.sent)
      (Dispatched-OnceIn d rtt_id)

-- ===== src/Operations/Dispatch/Once.antt =====
-- How often railone_operations/service.py hands a request to a provider that might execute it twice.
use mathlib.Core.Path.{subst}
use railone_core.Prelude.{
  ℕ, ◌+◌, ◌≤◌, String, ◌≡◌, refl, sym, ap, Bool, true, false, List, [], ◌∷◌, Option, none, some,
  Result, ok, err, if◌then◌else◌, and_then-eq_ok, ok-injective, Bool-cases, inl, inr, arith,
}
use railone_core.Prelude.Equality.{◌==◌, string_eq}
use text.Mathlib.TextEquality.{eq_iff}
use railone_core.Prelude.Text.{upper}
use railone_core.Prelude.Dict.{Dict, lookup, insert, lookup-insert}
use railone_core.Prelude.Exec.{pure}
use railone_core.Prelude.Exec.Branches.{lift_branches, bind_branches}
use railone_core.Operations.Models.{
  ProviderExecutionRequest, ProviderOutcome, RejectionDisposition, ProviderSubmissionResult,
  ProviderSubmissionRecord, ProviderSubmissionState, OutboxRecord,
}
use railone_core.Operations.Store.{OperationsStore, transition, write_transition}
use railone_core.Operations.Outbox.Branches.{transition_branches}
use railone_core.Contracts.Validation.{require_text}
use railone_core.Operations.Context.{provider_context}
use railone_core.Operations.Events.{submission_event}
use railone_core.Operations.Preparation.{Collaborators}
use railone_core.Operations.Dispatch.{
  Operation, completed_submission, completion_details, settled_state, drafted_completion, complete,
}

-- How many of the requests are for an RTT.
unfoldable pub times : String → List ProviderExecutionRequest → ℕ
times rtt_id [] = 0
times rtt_id (q ∷ qs) = (if q.rtt_id == rtt_id then 1 else 0) + times rtt_id qs

abbrev pub is_prepared : ProviderSubmissionState → Bool
is_prepared ProviderSubmissionState.prepared = true
is_prepared _ = false

-- What the submission of an RTT says of the requests that were sent for it.
pub record Tells (rtt_id : String) (r : ProviderSubmissionRecord) (n : ℕ) : Type 0 where
  pub own : r.rtt_id ≡ rtt_id
  pub begun : 1 ≤ r.version
  pub unsent : r.version ≡ 1 → n ≡ 0
  pub first : is_prepared r.state ≡ true → r.version ≡ 1
  pub once : n ≤ 1

abbrev pub IsOnce : String → Option ProviderSubmissionRecord → ℕ → Type 0
IsOnce rtt_id none n = n ≡ 0
IsOnce rtt_id (some r) n = Tells rtt_id r n

unfoldable pub AreOnce :
    Dict String ProviderSubmissionRecord → List ProviderExecutionRequest → Type 0
AreOnce d sent = (rtt_id : String) → IsOnce rtt_id (lookup rtt_id d) (times rtt_id sent)

abbrev pub OnceIn : Operation → Type 0
OnceIn o = AreOnce o.operations.submissions_by_rtt o.sent

-- A submission replaces the one of its RTT.
pub insert-AreOnce :
    (d : Dict String ProviderSubmissionRecord) (sent : List ProviderExecutionRequest)
    (r : ProviderSubmissionRecord)
    → AreOnce d sent
    → Tells r.rtt_id r (times r.rtt_id sent)
    → AreOnce (insert r.rtt_id r d) sent
unfolding AreOnce
insert-AreOnce d sent r once tells k = elim (Bool-cases (r.rtt_id == k)) [
  | inl same ↦
      let is_k : r.rtt_id ≡ k = (eq_iff r.rtt_id k).0 same in
      rw (lookup-insert r.rtt_id k r d, same) (subst (λ j. Tells j r (times j sent)) is_k tells)
  | inr other ↦ rw (lookup-insert r.rtt_id k r d, other) (once k)
]

pub stored-Tells :
    (d : Dict String ProviderSubmissionRecord) (sent : List ProviderExecutionRequest) (k : String)
    (r : ProviderSubmissionRecord)
    → AreOnce d sent
    → lookup k d ≡ some r
    → Tells k r (times k sent)
unfolding AreOnce
stored-Tells d sent k r once held = subst (λ o. IsOnce k o (times k sent)) held (once k)

pub none_sent :
    (d : Dict String ProviderSubmissionRecord) (sent : List ProviderExecutionRequest) (k : String)
    → AreOnce d sent
    → lookup k d ≡ none
    → times k sent ≡ 0
unfolding AreOnce
none_sent d sent k once free = subst (λ o. IsOnce k o (times k sent)) free (once k)

pub transition-AreOnce :
    (version : ℕ) (r : ProviderSubmissionRecord) (row : OutboxRecord) (s : OperationsStore)
    (sent : List ProviderExecutionRequest)
    → AreOnce s.submissions_by_rtt sent
    → Tells r.rtt_id r (times r.rtt_id sent)
    → AreOnce (transition version r row s).1.submissions_by_rtt sent
transition-AreOnce version r row s sent once tells =
    transition_branches (λ o. AreOnce o.1.submissions_by_rtt sent) version r row s (λ _. once)
      λ _ _ _ _ _. insert-AreOnce s.submissions_by_rtt sent r once tells

-- A transition raises and changes nothing, or writes.
abbrev pub Written :
    ProviderSubmissionRecord
    → OutboxRecord
    → OperationsStore
    → Result (Unit {0}) × OperationsStore
    → Type 0
Written r row s (err e, t) = t ≡ s
Written r row s (ok _, t) = t ≡ write_transition r row s

pub transition-Written :
    (version : ℕ) (r : ProviderSubmissionRecord) (row : OutboxRecord) (s : OperationsStore)
    → Written r row s (transition version r row s)
transition-Written version r row s =
    transition_branches (Written r row s) version r row s (λ _. refl) (λ _ _ _ _ _. refl)

-- A submission that replaces the one it was made from says no less.
record Follows (r r' : ProviderSubmissionRecord) : Type 0 where
  pub same_rtt : r'.rtt_id ≡ r.rtt_id
  pub later : r'.version ≡ r.version + 1
  pub underway : is_prepared r'.state ≡ false

Follows-Tells :
    (r r' : ProviderSubmissionRecord) (n : ℕ)
    → Follows r r'
    → Tells r.rtt_id r n
    → Tells r'.rtt_id r' n
Follows-Tells r r' n f tells = record {
  own = refl;
  begun = omega (arith, f.later, tells.begun);
  unsent = λ h. absurd (omega (arith, f.later, tells.begun, h));
  first = λ h. cc (h, f.underway);
  once = tells.once;
}

settled-underway :
    (o : ProviderOutcome) (d : Option RejectionDisposition) (x : ProviderSubmissionState × String)
    → settled_state o d ≡ ok x
    → is_prepared x.0 ≡ false
unfolding settled_state
settled-underway ProviderOutcome.rejected none x h = cc
settled-underway ProviderOutcome.rejected (some d) x h = rw (← ok-injective h) refl
settled-underway ProviderOutcome.accepted none x h = rw (← ok-injective h) refl
settled-underway ProviderOutcome.accepted (some d) x h = cc
settled-underway ProviderOutcome.unknown none x h = rw (← ok-injective h) refl
settled-underway ProviderOutcome.unknown (some d) x h = cc

module _ (v : Collaborators) where
  drafted_completion-Follows :
      (r : ProviderSubmissionRecord) (result : ProviderSubmissionResult) (at : ℕ)
      (d : ProviderSubmissionRecord × OutboxRecord)
      → drafted_completion v r result at ≡ ok d
      → Follows r d.0
  unfolding drafted_completion completed_submission
  drafted_completion-Follows r result at d h =
      let (given, _, h₁) = and_then-eq_ok (require_text "provider result code" result.code) _ h in
      let (context, _, h₂) = and_then-eq_ok (provider_context result.provider_context) _ h₁ in
      let (settled, known, h₃) =
        and_then-eq_ok (settled_state result.outcome result.rejection_disposition) _ h₂ in
      let updated = completed_submission r result settled.0 (upper given) context at in
      let (event, _, h₄) =
        and_then-eq_ok
          (submission_event v.signatures v.event_signing_key_id updated settled.1
            (completion_details result (upper given) context) at)
          _ h₃ in
      let is_d : updated ≡ d.0 = ap (λ x. x.0) (ok-injective h₄) in
      rw (← is_d) (record {
        same_rtt = refl;
        later = refl;
        underway = settled-underway result.outcome result.rejection_disposition settled known;
      })

  pub complete-AreOnce :
      (r : ProviderSubmissionRecord) (result : ProviderSubmissionResult) (at : ℕ)
      (s : OperationsStore) (sent : List ProviderExecutionRequest)
      → lookup r.rtt_id s.submissions_by_rtt ≡ some r
      → AreOnce s.submissions_by_rtt sent
      → AreOnce (complete v r result at s).1.submissions_by_rtt sent
  unfolding complete
  complete-AreOnce r result at s sent held once =
      let told = stored-Tells s.submissions_by_rtt sent r.rtt_id r once held in
      lift_branches (λ o. AreOnce o.1.submissions_by_rtt sent) (drafted_completion v r result at) _
        s (λ _. once)
        λ d drafted.
          let tells =
            Follows-Tells r d.0 (times r.rtt_id sent)
              (drafted_completion-Follows r result at d drafted) told in
          let kept = transition-AreOnce r.version d.0 d.1 s sent once (
            subst (λ j. Tells d.0.rtt_id d.0 (times j sent))
              (sym (drafted_completion-Follows r result at d drafted).same_rtt) tells) in
          bind_branches (λ o. AreOnce o.1.submissions_by_rtt sent) (transition r.version d.0 d.1)
            (λ _. pure d.0) s (λ e t is. subst (λ o. AreOnce o.1.submissions_by_rtt sent) is kept)
            (λ a t is. subst (λ o. AreOnce o.1.submissions_by_rtt sent) is kept)

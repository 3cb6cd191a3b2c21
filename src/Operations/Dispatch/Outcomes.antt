-- ===== src/Operations/Dispatch/Outcomes.antt =====
-- What railone_operations/service.py records of a provider's answer, and that a recorded outcome stays.
use railone_core.Prelude.{
  ℕ, ◌+◌, String, ◌≡◌, refl, sym, ap, Bool, true, false, List, Option, none, some, ok, Returns,
  and_then-Returns, Returns-eq_ok, ok-injective, arith,
}
use railone_core.Prelude.Sort.{sort}
use railone_core.Operations.Context.{provider_context, pair_leb}
use railone_core.Contracts.Validation.{require_text}
use railone_core.Prelude.Equality.{string_eq}
use railone_core.Prelude.Text.{strip, upper}
use railone_core.Prelude.Dict.{lookup, insert, lookup-insert_self}
use mathlib.Core.Path.{◌∙◌, subst}
use railone_core.Prelude.Exec.{pure}
use railone_core.Prelude.Exec.Branches.{lift_branches, bind_branches}
use railone_core.Operations.Models.{
  ProviderSubmissionResult, ProviderSubmissionRecord, ProviderOutcome, RejectionDisposition,
  ProviderSubmissionState, OutboxRecord,
}
use railone_core.Operations.Store.{OperationsStore, is_held, transition, write_transition}
use railone_core.Operations.Events.{submission_event}
use railone_core.Operations.Dispatch.{
  settled_state, completed_submission, completion_details, drafted_completion, complete,
}
use railone_core.Operations.Dispatch.Once.{Written, transition-Written}
use railone_core.Operations.Preparation.{Collaborators}

abbrev pub state_of : ProviderOutcome → ProviderSubmissionState
state_of ProviderOutcome.accepted = ProviderSubmissionState.accepted
state_of ProviderOutcome.rejected = ProviderSubmissionState.rejected
state_of ProviderOutcome.unknown = ProviderSubmissionState.unknown

abbrev pub is_rejected : ProviderOutcome → Bool
is_rejected ProviderOutcome.rejected = true
is_rejected _ = false

-- What a submission says once an answer has been recorded.
pub record IsOutcome (r r' : ProviderSubmissionRecord) (result : ProviderSubmissionResult)
    : Type 0 where
  pub own : r'.rtt_id ≡ r.rtt_id
  pub version : r'.version ≡ r.version + 1
  pub state : r'.state ≡ state_of result.outcome
  pub disposition : r'.rejection_disposition ≡ result.rejection_disposition
  pub rejected_only : is_held r'.rejection_disposition ≡ is_rejected result.outcome
  pub reference : r'.external_reference ≡ result.external_reference
  pub code : r'.normalized_code ≡ some (upper (strip result.code))
  pub context : r'.provider_context ≡ sort pair_leb result.provider_context

-- The store has it, for the same RTT.
pub record IsRecorded (r r' : ProviderSubmissionRecord) (result : ProviderSubmissionResult)
    (t : OperationsStore) : Type 0 where
  pub stored : lookup r.rtt_id t.submissions_by_rtt ≡ some r'
  pub outcome : IsOutcome r r' result

written-IsRecorded :
    (r r' : ProviderSubmissionRecord) (result : ProviderSubmissionResult) (row : OutboxRecord)
    (s : OperationsStore)
    → IsOutcome r r' result
    → IsRecorded r r' result (write_transition r' row s)
written-IsRecorded r r' result row s out = record {
  stored =
      subst (λ k. lookup k (insert r'.rtt_id r' s.submissions_by_rtt) ≡ some r') out.own
        (lookup-insert_self r'.rtt_id r' s.submissions_by_rtt);
  outcome = out;
}

abbrev FitsState :
    ProviderOutcome → Option RejectionDisposition → ProviderSubmissionState × String → Type 0
FitsState o d x = (x.0 ≡ state_of o) × (is_held d ≡ is_rejected o)

settled_state-Fits :
    (o : ProviderOutcome) (d : Option RejectionDisposition)
    → Returns (FitsState o d) (settled_state o d)
unfolding settled_state
settled_state-Fits ProviderOutcome.rejected none = tt
settled_state-Fits ProviderOutcome.rejected (some d) = (refl, refl)
settled_state-Fits ProviderOutcome.accepted none = (refl, refl)
settled_state-Fits ProviderOutcome.accepted (some d) = tt
settled_state-Fits ProviderOutcome.unknown none = (refl, refl)
settled_state-Fits ProviderOutcome.unknown (some d) = tt

require_text-strip : (name s given : String) → require_text name s ≡ ok given → given ≡ strip s
unfolding require_text
require_text-strip name s given h = ground arith

provider_context-sort :
    (values context : List (String × String))
    → provider_context values ≡ ok context
    → context ≡ sort pair_leb values
unfolding provider_context
provider_context-sort values context h = ground arith

module _ (v : Collaborators) where
  drafted_completion-IsOutcome :
      (r : ProviderSubmissionRecord) (result : ProviderSubmissionResult) (at : ℕ)
      → Returns (λ d. IsOutcome r d.0 result) (drafted_completion v r result at)
  unfolding drafted_completion completed_submission
  drafted_completion-IsOutcome r result at =
      let P = λ (d : ProviderSubmissionRecord × OutboxRecord). IsOutcome r d.0 result in
      and_then-Returns P (require_text "provider result code" result.code) _ λ given is_given.
        and_then-Returns P (provider_context result.provider_context) _ λ context is_context.
          and_then-Returns P (settled_state result.outcome result.rejection_disposition) _
            λ settled is_settled.
              let fits =
                Returns-eq_ok (FitsState result.outcome result.rejection_disposition)
                  (settled_state result.outcome result.rejection_disposition)
                  (settled_state-Fits result.outcome result.rejection_disposition) is_settled in
              let updated = completed_submission r result settled.0 (upper given) context at in
              and_then-Returns P
                (submission_event v.signatures v.event_signing_key_id updated settled.1
                  (completion_details result (upper given) context) at)
                _
                λ event _. record {
                  own = refl;
                  version = refl;
                  state = fits.0;
                  disposition = refl;
                  rejected_only = fits.1;
                  reference = refl;
                  code =
                      ap (λ s. some (upper s))
                        (require_text-strip "provider result code" result.code given is_given);
                  context = provider_context-sort result.provider_context context is_context;
                }

  -- A completion that returns has stored a next version of the submission, in the state of the answer's
  -- outcome, with its code, reference and context, and with a disposition if and only if the outcome is a
  -- rejection.
  pub complete-IsRecorded :
      (r r' : ProviderSubmissionRecord) (result : ProviderSubmissionResult) (at : ℕ)
      (s t : OperationsStore)
      → complete v r result at s ≡ (ok r', t)
      → IsRecorded r r' result t
  unfolding complete
  complete-IsRecorded r r' result at s t =
      lift_branches (λ o. o ≡ (ok r', t) → IsRecorded r r' result t)
        (drafted_completion v r result at) _ s (λ e h. absurd (cc (ap (λ o. o.0) h)))
        λ d drafted.
          bind_branches (λ o. o ≡ (ok r', t) → IsRecorded r r' result t)
            (transition r.version d.0 d.1) (λ _. pure d.0) s
            (λ e u _ h. absurd (cc (ap (λ o. o.0) h)))
            λ _ u is h.
              let out =
                Returns-eq_ok (λ d. IsOutcome r d.0 result) (drafted_completion v r result at)
                  (drafted_completion-IsOutcome r result at) drafted in
              let written = subst (Written d.0 d.1 s) is (transition-Written r.version d.0 d.1 s) in
              let is_t : write_transition d.0 d.1 s ≡ t = sym written ∙ ap (λ o. o.1) h in
              let is_r : d.0 ≡ r' = ok-injective (ap (λ o. o.0) h) in
              subst (λ u. IsRecorded r r' result u) is_t
                (subst (λ x. IsRecorded r x result (write_transition d.0 d.1 s)) is_r
                  (written-IsRecorded r d.0 result d.1 s out))

-- ===== src/Operations/Outbox/Branches.antt =====
-- How each operation of railone_operations/store.py branches: it raises with the store as it was, or
-- passes its guards and writes.
use railone_core.Prelude.{
  ℕ, ◌+◌, String, ◌≡◌, refl, Bool, true, false, not, ◌||◌, Option, none, some, Exception, Result,
  ok, err, arith, if◌then◌else◌, value_error, runtime_error, concurrent_submission_update,
}
use railone_core.Prelude.Int.{ℤ, pos_part}
use railone_core.Prelude.Equality.{◌==◌, string_eq, nat_eq}
use railone_core.Prelude.Text.{strip, is_empty}
use railone_core.Prelude.Dict.{lookup}
use railone_core.Prelude.Exec.{pure, raise, modify, ◌>>◌}
use railone_core.Prelude.Exec.Branches.{guard_branches, reads_branches}
use railone_core.Operations.Models.{ProviderSubmissionRecord, OutboxRecord, is_in_flight}
use railone_core.Operations.Store.{
  OperationsStore, is_held, within, require_owned_event, is_owner, published_row, rescheduled_row,
  with_row, mark_published, reschedule, prepare, prepare_over, write_prepared, key_taken,
  transition, write_transition, require_submission,
}

-- An event that a worker owns.
pub record IsOwned (event_id worker_id : String) (s : OperationsStore) (row : OutboxRecord)
    : Type 0 where
  pub held : lookup event_id s.outbox ≡ some row
  pub in_flight : is_in_flight row.delivery_state ≡ true
  pub owner : is_owner row.lease_owner worker_id ≡ true

pub require_owned_event-IsOwned :
    (event_id worker_id : String) (s : OperationsStore) (row : OutboxRecord)
    → require_owned_event event_id worker_id s ≡ ok row
    → IsOwned event_id worker_id s row
unfolding require_owned_event
require_owned_event-IsOwned event_id worker_id s row h = ground arith

module _ {ℓ} (P : Result OutboxRecord × OperationsStore → Type ℓ) (event_id worker_id : String)
    (at : ℕ) (s : OperationsStore) (raised : (e : Exception) → P (err e, s)) where
  pub mark_published_branches :
      ((row : OutboxRecord)
        → IsOwned event_id worker_id s row
        → P (ok (published_row at row), with_row event_id (published_row at row) s))
      → P (mark_published event_id worker_id at s)
  unfolding mark_published
  mark_published_branches passed =
      reads_branches P (require_owned_event event_id worker_id) _ s raised
        λ row found. passed row (require_owned_event-IsOwned event_id worker_id s row found)

  pub reschedule_branches :
      (available_at : ℕ) (error : String) (most : ℤ)
      → ((row : OutboxRecord)
          → IsOwned event_id worker_id s row
          → P (
            ok (rescheduled_row at available_at error (pos_part most) row),
            with_row event_id (rescheduled_row at available_at error (pos_part most) row) s,
          ))
      → P (reschedule event_id worker_id at available_at error most s)
  unfolding reschedule
  reschedule_branches available_at error most passed =
      guard_branches P (is_empty (strip error)) (value_error "outbox failure error is required") _ s
        raised
        λ _.
          guard_branches P (not (within most 100))
            (value_error "outbox max_attempts must be between 1 and 100") _ s raised
            λ _.
              reads_branches P (require_owned_event event_id worker_id) _ s raised
                λ row found. passed row (require_owned_event-IsOwned event_id worker_id s row found)

is_held-eq_false {ℓ} : {A : Type ℓ} (o : Option A) → is_held o ≡ false → o ≡ none
is_held-eq_false none h = refl
is_held-eq_false (some a) h = cc

module _ {ℓ} (P : Result ProviderSubmissionRecord × OperationsStore → Type ℓ)
    (submission : ProviderSubmissionRecord) (row : OutboxRecord) (s : OperationsStore)
    (same : (r : Result ProviderSubmissionRecord) → P (r, s)) where
  prepare_over_branches :
      (existing : Option ProviderSubmissionRecord)
      → (existing ≡ none
          → lookup submission.idempotency_key s.rtt_by_idempotency ≡ none
          → lookup row.event_id s.outbox ≡ none
          → P (ok submission, write_prepared submission row s))
      → P (prepare_over submission row existing s)
  unfolding prepare_over
  prepare_over_branches (some existing) written = by_case (
      not (existing.request_sha256 == submission.request_sha256)
      || not (existing.idempotency_key == submission.idempotency_key))
    where
      by_case :
          (b : Bool)
          → P (
              (if b
                  then raise (runtime_error "provider submission preparation conflict")
                  else pure existing)
                s)
      by_case true = same (err (runtime_error "provider submission preparation conflict"))
      by_case false = same (ok existing)
  prepare_over_branches none written =
      guard_branches P (is_held (lookup submission.idempotency_key s.rtt_by_idempotency))
        (key_taken (lookup submission.idempotency_key s.rtt_by_idempotency)) _ s (λ e. same (err e))
        λ key_free.
          guard_branches P (is_held (lookup row.event_id s.outbox))
            (runtime_error "outbox event identifier collision")
            (modify (write_prepared submission row) >> pure submission) s (λ e. same (err e))
            λ fresh. written refl (is_held-eq_false _ key_free) (is_held-eq_false _ fresh)

  -- A new event is written only under an identifier that no event has.
  pub prepare_branches :
      (lookup submission.rtt_id s.submissions_by_rtt ≡ none
        → lookup submission.idempotency_key s.rtt_by_idempotency ≡ none
        → lookup row.event_id s.outbox ≡ none
        → P (ok submission, write_prepared submission row s))
      → P (prepare submission row s)
  unfolding prepare
  prepare_branches written =
      prepare_over_branches (lookup submission.rtt_id s.submissions_by_rtt) written

require_submission-eq :
    (rtt_id : String) (s : OperationsStore) (r : ProviderSubmissionRecord)
    → require_submission rtt_id s ≡ ok r
    → lookup rtt_id s.submissions_by_rtt ≡ some r
unfolding require_submission
require_submission-eq rtt_id s r h = ground arith

nat_not-eq_false : (m n : ℕ) → not (m == n) ≡ false → m ≡ n
nat_not-eq_false m n h = ground arith

pub transition_branches {ℓ} :
    (P : Result (Unit {0}) × OperationsStore → Type ℓ) (version : ℕ)
    (submission : ProviderSubmissionRecord) (row : OutboxRecord) (s : OperationsStore)
    → ((e : Exception) → P (err e, s))
    → ((current : ProviderSubmissionRecord)
        → lookup submission.rtt_id s.submissions_by_rtt ≡ some current
        → current.version ≡ version
        → submission.version ≡ version + 1
        → lookup row.event_id s.outbox ≡ none
        → P (ok tt, write_transition submission row s))
    → P (transition version submission row s)
unfolding transition
transition_branches P version submission row s raised written =
    reads_branches P (require_submission submission.rtt_id) _ s raised λ current found.
      guard_branches P (not (current.version == version))
        (concurrent_submission_update "provider submission changed concurrently") _ s raised
        λ same_version.
          guard_branches P (not (submission.version == version + 1))
            (value_error "submission version must advance exactly once") _ s raised
            λ advanced.
              guard_branches P (is_held (lookup row.event_id s.outbox))
                (runtime_error "outbox event identifier collision")
                (modify (write_transition submission row)) s raised
                λ fresh.
                  written current (require_submission-eq submission.rtt_id s current found)
                    (nat_not-eq_false current.version version same_version)
                    (nat_not-eq_false submission.version (version + 1) advanced)
                    (is_held-eq_false _ fresh)

-- ===== src/Operations/Store.antt =====
-- railone_operations/store.py: `InMemoryOperationsStore`.
use Prim.Native.String.{◌++◌ as append}
use railone_core.Prelude.{
  ℕ, ◌+◌, ◌*◌, String, Bool, true, false, not, ◌||◌, ◌&&◌, List, [], ◌∷◌, Option, none, some,
  Exception, Result, ok, err, value_error, runtime_error, lookup_error, permission_error,
  submission_not_found, concurrent_submission_update, or_raise, if◌then◌else◌, leb, ltb, select,
  take, first_of,
}
use railone_core.Prelude.Equality.{◌==◌, string_eq, nat_eq}
use railone_core.Prelude.Int.{ℤ, pos, pos_part, leb_ℤ}
use railone_core.Prelude.Text.{strip, is_empty, take_text}
use railone_core.Prelude.Order.{text_leb}
use railone_core.Prelude.Sort.{sort}
use railone_core.Prelude.Dict.{Dict, lookup, insert, values}
use railone_core.Prelude.Exec.{Exec, pure, raise, reads, raise_when, modify, ◌>>=◌, ◌>>◌}
use railone_core.Operations.Models.{
  ProviderSubmissionRecord, OutboxRecord, OutboxDeliveryState, is_pending, is_in_flight,
}

pub record OperationsStore : Type 0 where
  pub submissions_by_rtt : Dict String ProviderSubmissionRecord
  pub rtt_by_idempotency : Dict String String
  pub outbox : Dict String OutboxRecord

abbrev pub is_held {ℓ} : {A : Type ℓ} → Option A → Bool
is_held none = false
is_held (some a) = true

abbrev pub write_prepared :
    ProviderSubmissionRecord → OutboxRecord → OperationsStore → OperationsStore
write_prepared submission row s = record s {
  submissions_by_rtt = insert submission.rtt_id submission s.submissions_by_rtt;
  rtt_by_idempotency = insert submission.idempotency_key submission.rtt_id s.rtt_by_idempotency;
  outbox = insert row.event_id row s.outbox;
}

abbrev pub key_taken : Option String → Exception
key_taken none = runtime_error "provider idempotency key already belongs to "
key_taken (some prior_rtt) =
    runtime_error (append "provider idempotency key already belongs to " prior_rtt)

-- What `prepare` does with the submission that the RTT has, if it has one.
unfoldable pub prepare_over :
    ProviderSubmissionRecord
    → OutboxRecord
    → Option ProviderSubmissionRecord
    → Exec OperationsStore ProviderSubmissionRecord
prepare_over submission row (some existing) =
    if not (existing.request_sha256 == submission.request_sha256)
      || not (existing.idempotency_key == submission.idempotency_key)
    then raise (runtime_error "provider submission preparation conflict")
    else pure existing
prepare_over submission row none = do
  prior ← reads (λ s. ok (lookup submission.idempotency_key s.rtt_by_idempotency))
  raise_when (is_held prior) (key_taken prior)
  held ← reads (λ s. ok (lookup row.event_id s.outbox))
  raise_when (is_held held) (runtime_error "outbox event identifier collision")
  modify (write_prepared submission row)
  pure submission

unfoldable pub prepare :
    ProviderSubmissionRecord → OutboxRecord → Exec OperationsStore ProviderSubmissionRecord
unfolding prepare_over
prepare submission row = do
  existing ← reads (λ s. ok (lookup submission.rtt_id s.submissions_by_rtt))
  prepare_over submission row existing

unfoldable pub require_submission : String → OperationsStore → Result ProviderSubmissionRecord
require_submission rtt_id s =
    or_raise (lookup rtt_id s.submissions_by_rtt)
      (submission_not_found (append "provider submission not found: " rtt_id))

abbrev pub has_reference : String → String → ProviderSubmissionRecord → Bool
has_reference provider_id reference r = r.provider_id == provider_id && is_text r.external_reference
  where
    is_text : Option String → Bool
    is_text none = false
    is_text (some x) = x == reference

unfoldable pub find_by_external_reference :
    String → String → OperationsStore → Option ProviderSubmissionRecord
find_by_external_reference provider_id reference s =
    first_of (has_reference provider_id reference) (values s.submissions_by_rtt)

abbrev pub write_transition :
    ProviderSubmissionRecord → OutboxRecord → OperationsStore → OperationsStore
write_transition submission row s = record s {
  submissions_by_rtt = insert submission.rtt_id submission s.submissions_by_rtt;
  outbox = insert row.event_id row s.outbox;
}

unfoldable pub transition :
    ℕ → ProviderSubmissionRecord → OutboxRecord → Exec OperationsStore (Unit {0})
unfolding require_submission
transition previous_version submission row = do
  current ← reads (require_submission submission.rtt_id)
  raise_when (not (current.version == previous_version))
      (concurrent_submission_update "provider submission changed concurrently")
  raise_when (not (submission.version == previous_version + 1))
      (value_error "submission version must advance exactly once")
  held ← reads (λ s. ok (lookup row.event_id s.outbox))
  raise_when (is_held held) (runtime_error "outbox event identifier collision")
  modify (write_transition submission row)

-- `1 <= value <= most`
abbrev pub within : ℤ → ℕ → Bool
within value most = leb_ℤ (pos 1) value && leb_ℤ value (pos most)

-- The sort key `(available_at, event_id)`.
unfoldable pub row_leb : OutboxRecord → OutboxRecord → Bool
row_leb a b =
    if ltb a.available_at b.available_at
    then true
    else if ltb b.available_at a.available_at
    then false
    else text_leb a.event_id b.event_id

unfoldable pub pending_outbox : ℤ → OperationsStore → Result (List OutboxRecord)
unfolding row_leb sort
pending_outbox limit s =
    if within limit 1000
    then ok (
        take (pos_part limit)
          (sort row_leb (select (λ r. is_pending r.delivery_state) (values s.outbox))))
    else err (value_error "outbox limit must be between 1 and 1000")

abbrev pub lease_is_over : ℕ → Option ℕ → Bool
lease_is_over at none = false
lease_is_over at (some until) = leb until at

-- A row is due, or its lease has run out.
unfoldable pub claimable : ℕ → OutboxRecord → Bool
claimable at row =
    (is_pending row.delivery_state && leb row.available_at at)
    || (is_in_flight row.delivery_state && lease_is_over at row.lease_until)

unfoldable pub claimed_row : String → ℕ → ℕ → OutboxRecord → OutboxRecord
claimed_row worker_id at lease_seconds row = record row {
  delivery_state = OutboxDeliveryState.in_flight;
  delivery_attempts = row.delivery_attempts + 1;
  lease_owner = some worker_id;
  lease_until = some (at + lease_seconds * 1000000);
  version = row.version + 1;
  updated_at = at;
}

-- The loop over the rows to claim.
unfoldable pub claim_rows :
    String → ℕ → ℕ → List OutboxRecord → Dict String OutboxRecord → Dict String OutboxRecord
unfolding claimed_row
claim_rows worker_id at lease [] d = d
claim_rows worker_id at lease (row ∷ rows) d =
    claim_rows worker_id at lease rows (insert row.event_id (claimed_row worker_id at lease row) d)

abbrev pub claimed_rows : String → ℕ → ℕ → List OutboxRecord → List OutboxRecord
claimed_rows worker_id at lease [] = []
claimed_rows worker_id at lease (row ∷ rows) =
    claimed_row worker_id at lease row ∷ claimed_rows worker_id at lease rows

-- The rows that a claim takes.
unfoldable pub due_rows : ℕ → ℕ → OperationsStore → List OutboxRecord
unfolding claimable row_leb sort
due_rows at limit s = take limit (sort row_leb (select (claimable at) (values s.outbox)))

unfoldable pub claim_outbox : String → ℕ → ℤ → ℤ → Exec OperationsStore (List OutboxRecord)
unfolding due_rows claim_rows
claim_outbox worker_id at lease_seconds limit = do
  raise_when (is_empty (strip worker_id)) (value_error "outbox worker_id is required")
  raise_when (not (within lease_seconds 300))
      (value_error "outbox lease_seconds must be between 1 and 300")
  raise_when (not (within limit 1000)) (value_error "outbox claim limit must be between 1 and 1000")
  rows ← reads (λ s. ok (due_rows at (pos_part limit) s))
  modify (λ s. record s { outbox = claim_rows worker_id at (pos_part lease_seconds) rows s.outbox })
  pure (claimed_rows worker_id at (pos_part lease_seconds) rows)

abbrev pub is_owner : Option String → String → Bool
is_owner none worker_id = false
is_owner (some owner) worker_id = owner == worker_id

-- `_require_owned_event`
unfoldable pub require_owned_event : String → String → OperationsStore → Result OutboxRecord
require_owned_event event_id worker_id s = elim (lookup event_id s.outbox) [
  | none ↦ err (lookup_error (append "outbox event not found: " event_id))
  | some row ↦
      if not (is_in_flight row.delivery_state) || not (is_owner row.lease_owner worker_id)
      then err (permission_error "worker does not own the outbox lease")
      else ok row
]

unfoldable pub published_row : ℕ → OutboxRecord → OutboxRecord
published_row at row = record row {
  delivery_state = OutboxDeliveryState.published;
  lease_owner = none;
  lease_until = none;
  last_error = none;
  published_at = some at;
  version = row.version + 1;
  updated_at = at;
}

abbrev pub with_row : String → OutboxRecord → OperationsStore → OperationsStore
with_row event_id row s = record s { outbox = insert event_id row s.outbox }

unfoldable pub mark_published : String → String → ℕ → Exec OperationsStore OutboxRecord
unfolding require_owned_event published_row
mark_published event_id worker_id at = do
  row ← reads (require_owned_event event_id worker_id)
  modify (with_row event_id (published_row at row))
  pure (published_row at row)

-- What a failed delivery makes of its row; the row is dead once its attempts are used up.
unfoldable pub rescheduled_row : ℕ → ℕ → String → ℕ → OutboxRecord → OutboxRecord
rescheduled_row at available_at error max_attempts row = record row {
  delivery_state =
      if leb max_attempts row.delivery_attempts
      then OutboxDeliveryState.dead_letter
      else OutboxDeliveryState.pending;
  available_at = available_at;
  lease_owner = none;
  lease_until = none;
  last_error = some (take_text 1000 error);
  version = row.version + 1;
  updated_at = at;
}

unfoldable pub reschedule : String → String → ℕ → ℕ → String → ℤ → Exec OperationsStore OutboxRecord
unfolding require_owned_event rescheduled_row
reschedule event_id worker_id at available_at error max_attempts = do
  raise_when (is_empty (strip error)) (value_error "outbox failure error is required")
  raise_when (not (within max_attempts 100))
      (value_error "outbox max_attempts must be between 1 and 100")
  row ← reads (require_owned_event event_id worker_id)
  modify (with_row event_id (rescheduled_row at available_at error (pos_part max_attempts) row))
  pure (rescheduled_row at available_at error (pos_part max_attempts) row)

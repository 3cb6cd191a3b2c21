-- ===== src/Operations/Tests.antt =====
-- The outbox of railone_operations at two events, of which one cannot be published.
use railone_core.Prelude.{
  ℕ, String, ◌≡◌, ◌≢◌, refl, Bool, true, false, List, [], ◌∷◌, Option, none, some, Exception,
  Result, ok, err, All, if◌then◌else◌, ◌+◌, arith,
}
use railone_core.Prelude.Int.{pos}
use railone_core.Prelude.Equality.{◌==◌, string_eq, nat_eq}
use railone_core.Crypto.Json.{null}
use railone_core.Crypto.Signatures.{SignatureEnvelope}
use railone_core.Execution.Models.{Datetime, require_aware}
use railone_core.Operations.Models.{
  ProviderSubmissionRecord, ProviderSubmissionState, OutboxRecord, OutboxDeliveryState,
}
use railone_core.Operations.Store.{OperationsStore}
use railone_core.Operations.Outbox.{IsKeyed}
use railone_core.Operations.Outbox.Leases.{lease_is_exclusive}
use railone_core.Operations.Outbox.Final.{
  preparing, claiming, rescheduling, operate_all, is_final, final_event-unchanged,
}
use railone_core.Operations.Delivery.{IsNamed}
use railone_core.Operations.Delivery.Outcomes.{StandsDelivered, publish_batch-delivers}
use railone_core.Operations.Submissions.{prepare_once, transition-leaves_version}
use railone_core.Prelude.Int.{◌+ℤ◌, ◌-ℤ◌, ◌*ℤ◌, floor_div}
use railone_core.Prelude.Dict.{lookup, insert}
use railone_core.Prelude.Text.{
  is_empty, is_space, lstrip, rstrip, strip, nth_char, upper_char, upper, take_text,
}
use railone_core.Prelude.Sort.{insert_sorted, sort}
use railone_core.Prelude.Order.{text_leb}
use railone_core.Contracts.Validation.{require_text, require_minor_units}
use railone_core.Operations.Store.{
  prepare_over, prepare, require_submission, find_by_external_reference, transition, row_leb,
  pending_outbox, claimable, claimed_row, claim_rows, due_rows, claim_outbox, require_owned_event,
  published_row, mark_published, rescheduled_row, reschedule,
}
use railone_core.Operations.Relay.{delay_seconds, settle_event, settle_events, publish_batch}

abbrev signed : SignatureEnvelope
signed = record { protected = null; payload = null; signature = "S" }

abbrev event : String → ℕ → OutboxRecord
event event_id at = record {
  event_id = event_id;
  aggregate_type = "PROVIDER_SUBMISSION";
  aggregate_id = "SUB";
  event_type = "PROVIDER_SUBMISSION_PREPARED";
  signed_event = signed;
  delivery_state = OutboxDeliveryState.pending;
  delivery_attempts = 0;
  available_at = at;
  lease_owner = none;
  lease_until = none;
  last_error = none;
  published_at = none;
  version = 1;
  created_at = at;
  updated_at = at;
}

abbrev submission : String → ProviderSubmissionRecord
submission rtt_id = record {
  submission_id = "SUB";
  idempotency_key = rtt_id;
  request_sha256 = "H";
  utt_id = "U";
  rtt_id = rtt_id;
  provider_id = "P";
  state = ProviderSubmissionState.prepared;
  dispatch_attempts = 0;
  normalized_code = none;
  external_reference = none;
  rejection_disposition = none;
  provider_context = [];
  version = 1;
  created_at = 5;
  updated_at = 5;
}

abbrev empty : OperationsStore
empty = record { submissions_by_rtt = []; rtt_by_idempotency = []; outbox = [] }

-- Two submissions have been prepared.
unfoldable two_events : OperationsStore
two_events =
    (prepare (submission "R2") (event "E2" 4) (prepare (submission "R1") (event "E1" 5) empty).1).1

unfoldable claimed : Result (List OutboxRecord) × OperationsStore
claimed = claim_outbox "w" 9 (pos 30) (pos 1) two_events

unfoldable claimed_again : Result (List OutboxRecord) × OperationsStore
claimed_again = claim_outbox "v" 11 (pos 30) (pos 5) claimed.1

abbrev rows_of : Result (List OutboxRecord) → List OutboxRecord
rows_of (ok rows) = rows
rows_of (err e) = []

-- The first event is refused by the publisher.
abbrev publisher : String → SignatureEnvelope → Option String
publisher event_id _ = if event_id == "E1" then some "TimeoutError" else none

abbrev noon : Datetime
noon = record { has_zone = true; micros = 9 }

unfoldable delivered : OperationsStore
delivered = (publish_batch publisher "w" (pos 30) (pos 10) (pos 100) noon two_events).1

abbrev first_event : OutboxRecord
first_event = event "E1" 5

unfoldable event_at : String → OperationsStore → OutboxRecord
event_at k s = found (lookup k s.outbox)
  where
    found : Option OutboxRecord → OutboxRecord
    found none = first_event
    found (some row) = row

abbrev dispatching : ProviderSubmissionRecord
dispatching =
    let r = submission "R1" in record r { state = ProviderSubmissionState.dispatching; version = 2 }

unfoldable moved : OperationsStore
moved = (transition 1 dispatching (event "E3" 6) two_events).1

record Run : Type 0 where
  pub keyed : IsKeyed two_events.outbox
  pub keyed_delivered : IsKeyed delivered.outbox
  pub first_claim :
      claim_outbox "w" 9 (pos 30) (pos 1) two_events ≡ (ok (rows_of claimed.0), claimed.1)
  pub second_claim :
      claim_outbox "v" 11 (pos 30) (pos 5) claimed.1
      ≡ (ok (rows_of claimed_again.0), claimed_again.1)
  pub published : lookup "E2" delivered.outbox ≡ some (event_at "E2" delivered)
  pub final : is_final (event_at "E2" delivered).delivery_state ≡ true
  pub named : is_empty (strip "w") ≡ false
  pub error_named : is_empty (strip "TimeoutError") ≡ false
  pub prepared :
      prepare (submission "R1") (event "E1" 5) empty
      ≡ (ok (submission "R1"), (prepare (submission "R1") (event "E1" 5) empty).1)
  pub moves : transition 1 dispatching (event "E3" 6) two_events ≡ (ok tt, moved)

run : Run
unfolding ◌+ℤ◌ ◌-ℤ◌ ◌*ℤ◌ floor_div lookup insert is_space lstrip rstrip strip nth_char upper_char
    upper take_text insert_sorted sort text_leb require_text require_minor_units prepare_over
    prepare require_submission find_by_external_reference transition row_leb pending_outbox
    claimable claimed_row claim_rows due_rows claim_outbox require_owned_event published_row
    mark_published rescheduled_row reschedule delay_seconds settle_event settle_events publish_batch
    two_events claimed claimed_again delivered event_at moved require_aware
run = record {
  keyed = (refl, refl, (refl, refl, tt));
  keyed_delivered = (refl, refl, (refl, refl, tt));
  first_claim = refl;
  second_claim = refl;
  published = refl;
  final = refl;
  named = refl;
  error_named = refl;
  prepared = refl;
  moves = refl;
}

publisher-IsNamed : IsNamed publisher "w" 9 (pos 30) (pos 10)
publisher-IsNamed event_id _ error h = go (event_id == "E1") h
  where
    go :
        (b : Bool)
        → (if b then some "TimeoutError" else none) ≡ some error
        → is_empty (strip error) ≡ false
    go true e = cc (e, run.error_named)
    go false e = cc

lease_is_exclusive_example :
    All
      (λ (row : OutboxRecord).
        All (λ (q : OutboxRecord). q.event_id ≢ row.event_id) (rows_of claimed_again.0))
      (rows_of claimed.0)
lease_is_exclusive_example =
    lease_is_exclusive "w" "v" 9 11 (pos 30) (pos 30) (pos 1) (pos 5) two_events claimed.1
      claimed_again.1 (rows_of claimed.0) (rows_of claimed_again.0) run.keyed run.first_claim
      run.second_claim (omega arith)

final_event-unchanged_example :
    lookup "E2"
      (operate_all delivered (
        claiming "v" 20 (pos 30) (pos 10)
        ∷ rescheduling "E2" "w" 30 40 "TimeoutError" (pos 3)
        ∷ preparing (submission "R3") (event "E2" 7)
        ∷ [])).outbox
    ≡ some (event_at "E2" delivered)
final_event-unchanged_example =
    final_event-unchanged delivered
      (claiming "v" 20 (pos 30) (pos 10)
        ∷ rescheduling "E2" "w" 30 40 "TimeoutError" (pos 3)
        ∷ preparing (submission "R3") (event "E2" 7)
        ∷ [])
      "E2" (event_at "E2" delivered) run.keyed_delivered run.published run.final

publish_batch-delivers_example :
    (rs : List OutboxRecord) × (t : OperationsStore) × (publish_batch publisher "w"
        (pos 30)
        (pos 10)
        (pos 100)
        noon
        two_events
      ≡ (ok rs, t))
    × All (StandsDelivered publisher "w" (pos 30) (pos 10) 9 t) (due_rows 9 100 two_events)
publish_batch-delivers_example =
    publish_batch-delivers publisher "w" (pos 30) (pos 10) (pos 100) noon two_events refl run.named
      refl refl refl publisher-IsNamed run.keyed

abbrev prepared_once : OperationsStore
prepared_once = (prepare (submission "R1") (event "E1" 5) empty).1

prepare_once_example :
    ((submission "R1").request_sha256 ≡ (submission "R1").request_sha256
      → (submission "R1").idempotency_key ≡ (submission "R1").idempotency_key
      → prepare (submission "R1") (event "E9" 8) prepared_once
        ≡ (ok (submission "R1"), prepared_once))
    × ((submission "R1").request_sha256 ≢ (submission "R1").request_sha256
        → (e : Exception) × (prepare (submission "R1") (event "E9" 8) prepared_once
            ≡ (err e, prepared_once)))
prepare_once_example =
    prepare_once (submission "R1") (submission "R1") (event "E1" 5) empty prepared_once
      (submission "R1") (event "E9" 8) run.prepared refl

transition-leaves_version_example :
    (lookup "R1" moved.submissions_by_rtt ≡ some dispatching)
    × (2 ≡ 1 + 1)
    × ((e : Exception) × (transition 1 dispatching (event "E4" 7) moved ≡ (err e, moved)))
transition-leaves_version_example =
    transition-leaves_version 1 dispatching dispatching (event "E3" 6) (event "E4" 7) two_events
      moved run.moves refl

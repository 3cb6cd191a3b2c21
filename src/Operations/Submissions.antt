-- ===== src/Operations/Submissions.antt =====
-- The provider submissions of railone_operations/store.py: preparing is idempotent, and a version is
-- left once.
use mathlib.Core.Path.{◌∙◌}
use railone_core.Prelude.{
  ℕ, ◌+◌, String, ◌≡◌, ◌≢◌, refl, sym, ap, false, not, ◌||◌, Option, none, some, Exception, ok, err,
  ok-injective, inl, inr, arith, Bool-cases, runtime_error,
}
use railone_core.Prelude.Equality.{◌==◌, string_eq, nat_eq}
use text.Mathlib.TextEquality.{eq_iff}
use railone_core.Prelude.Dict.{lookup, lookup-insert_self}
use railone_core.Prelude.Exec.{pure, modify, ◌>>◌}
use railone_core.Prelude.Exec.Branches.{guard_branches}
use railone_core.Operations.Models.{ProviderSubmissionRecord, OutboxRecord}
use railone_core.Operations.Store.{
  OperationsStore, is_held, key_taken, write_prepared, prepare, prepare_over, transition,
}
use railone_core.Operations.Outbox.Branches.{transition_branches}

-- The submission is stored for its RTT, with the request and the key that were prepared.
pub record IsPrepared (submission r : ProviderSubmissionRecord) (t : OperationsStore) : Type 0 where
  pub held : lookup submission.rtt_id t.submissions_by_rtt ≡ some r
  pub same_request : r.request_sha256 ≡ submission.request_sha256
  pub same_key : r.idempotency_key ≡ submission.idempotency_key

module _ (submission r : ProviderSubmissionRecord) (row : OutboxRecord)
    (s t : OperationsStore) where
  prepare_over-IsPrepared :
      (existing : Option ProviderSubmissionRecord)
      → lookup submission.rtt_id s.submissions_by_rtt ≡ existing
      → prepare_over submission row existing s ≡ (ok r, t)
      → IsPrepared submission r t
  unfolding prepare_over
  prepare_over-IsPrepared (some existing) is = λ h.
      elim (Bool-cases (
        not (existing.request_sha256 == submission.request_sha256)
        || not (existing.idempotency_key == submission.idempotency_key))) [
          | inl differs ↦ absurd (cc (ap (λ o. o.0) (rw (prepare_over, differs) at h)))
          | inr same ↦
              let result : (ok existing, s) ≡ (ok r, t) = rw (prepare_over, same) at h in
              let is_r : existing ≡ r = ok-injective (ap (λ o. o.0) result) in
              let is_t : s ≡ t = ap (λ o. o.1) result in
              record {
                held = rw (← is_t, ← is_r) is;
                same_request = rw (← is_r) (
                    ground (arith, same, eq_iff existing.request_sha256 submission.request_sha256));
                same_key = rw (← is_r) (
                    ground
                      (arith, same, eq_iff existing.idempotency_key submission.idempotency_key));
              }
        ]
  prepare_over-IsPrepared none is =
      guard_branches (λ o. o ≡ (ok r, t) → IsPrepared submission r t)
        (is_held (lookup submission.idempotency_key s.rtt_by_idempotency))
        (key_taken (lookup submission.idempotency_key s.rtt_by_idempotency)) _ s
        (λ e h. absurd (cc (ap (λ o. o.0) h)))
        λ _.
          guard_branches (λ o. o ≡ (ok r, t) → IsPrepared submission r t)
            (is_held (lookup row.event_id s.outbox))
            (runtime_error "outbox event identifier collision")
            (modify (write_prepared submission row) >> pure submission) s
            (λ e h. absurd (cc (ap (λ o. o.0) h)))
            λ _ h.
              let is_r : submission ≡ r = ok-injective (ap (λ o. o.0) h) in
              record {
                held =
                    rw (← ap (λ o. o.1) h, ← is_r)
                      (lookup-insert_self submission.rtt_id submission s.submissions_by_rtt);
                same_request = rw (← is_r) refl;
                same_key = rw (← is_r) refl;
              }

  pub prepare-IsPrepared : prepare submission row s ≡ (ok r, t) → IsPrepared submission r t
  unfolding prepare
  prepare-IsPrepared = prepare_over-IsPrepared (lookup submission.rtt_id s.submissions_by_rtt) refl

  -- Once a submission has been prepared: preparing one for the same RTT, with any event, answers the
  -- stored one and changes nothing if its request and its key are the same, and raises and changes
  -- nothing if its request is another.
  pub prepare_once :
      (again : ProviderSubmissionRecord) (event : OutboxRecord)
      → prepare submission row s ≡ (ok r, t)
      → again.rtt_id ≡ submission.rtt_id
      → (again.request_sha256 ≡ submission.request_sha256
          → again.idempotency_key ≡ submission.idempotency_key
          → prepare again event t ≡ (ok r, t))
        × (again.request_sha256 ≢ submission.request_sha256
            → (e : Exception) × (prepare again event t ≡ (err e, t)))
  unfolding prepare prepare_over
  prepare_once again event h same_rtt =
      let p = prepare-IsPrepared h in
      let held : lookup again.rtt_id t.submissions_by_rtt ≡ some r = rw same_rtt p.held in
      (
        (λ request key.
            rw
              (
                held,
                prepare_over,
                (eq_iff r.request_sha256 again.request_sha256).1 (p.same_request ∙ sym request),
                (eq_iff r.idempotency_key again.idempotency_key).1 (p.same_key ∙ sym key),
              )
              refl),
        (λ other.
            let apart : (r.request_sha256 == again.request_sha256) ≡ false =
              differ r.request_sha256 again.request_sha256 (λ e. other (sym e ∙ p.same_request)) in
            (
              runtime_error "provider submission preparation conflict",
              rw (held, prepare_over, apart) refl,
            )),
      )
    where
      differ : (x y : String) → x ≢ y → (x == y) ≡ false
      differ x y n = ground (arith, eq_iff x y, n)

-- A transition that is written advances the stored version by one; after it, any transition of the same
-- RTT from the version before raises and changes nothing.
pub transition-leaves_version :
    (version : ℕ) (submission other : ProviderSubmissionRecord) (row event : OutboxRecord)
    (s t : OperationsStore)
    → transition version submission row s ≡ (ok tt, t)
    → other.rtt_id ≡ submission.rtt_id
    → (lookup submission.rtt_id t.submissions_by_rtt ≡ some submission)
      × (submission.version ≡ version + 1)
      × ((e : Exception) × (transition version other event t ≡ (err e, t)))
transition-leaves_version version submission other row event s t h same =
    let (held, advanced) = written h in
    (
      held,
      advanced,
      transition_branches (λ o. (e : Exception) × (o ≡ (err e, t))) version other event t
          (λ e. (e, refl))
          λ current found at_version _ _.
            let is : current ≡ submission = cc (found, held, same) in
            absurd (stale current is at_version advanced),
    )
  where
    written :
        transition version submission row s ≡ (ok tt, t)
        → (lookup submission.rtt_id t.submissions_by_rtt ≡ some submission)
          × (submission.version ≡ version + 1)
    written =
        transition_branches
          (λ o.
            o ≡ (ok tt, t)
            → (lookup submission.rtt_id t.submissions_by_rtt ≡ some submission)
              × (submission.version ≡ version + 1))
          version submission row s (λ e h. absurd (cc (ap (λ o. o.0) h)))
          λ _ _ _ advanced _ h. (
            rw (← ap (λ o. o.1) h)
                (lookup-insert_self submission.rtt_id submission s.submissions_by_rtt),
            advanced,
          )

    stale :
        (current : ProviderSubmissionRecord)
        → current ≡ submission
        → current.version ≡ version
        → submission.version ≡ version + 1
        → ⊥
    stale current is v a = omega (arith, v, a, ap (λ (x : ProviderSubmissionRecord). x.version) is)

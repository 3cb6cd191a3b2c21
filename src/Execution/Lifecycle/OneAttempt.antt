-- ===== src/Execution/Lifecycle/OneAttempt.antt =====
-- Any calls of railone_execution/service.py keep the attempts of a UTT with its one plan.
use railone_core.Prelude.{ℕ, String, ◌≡◌, refl, true, some, List, [], ◌∷◌, All}
use railone_core.Prelude.Equality.{string_eq}
use railone_core.Prelude.Text.{strip}
use railone_core.Prelude.Dict.{lookup}
use railone_core.Prelude.Exec.Branches.{lift_branches}
use railone_core.Execution.Models.{
  Datetime, RouteCandidate, RankedRoute, ExecutionPlan, RttAttemptRecord,
}
use railone_core.Execution.Scoring.{RouteScoreWeights}
use railone_core.Execution.Store.{ExecutionStore, write_both, create_plan, adopt_plan}
use railone_core.Execution.Planning.{draft_plan, build_plan}
use railone_core.Execution.Attempts.{started_plan}
use railone_core.Execution.Lifecycle.Branches.{
  apply_failure_branches, apply_success_branches, apply_resolution_branches,
}
use railone_core.Execution.Lifecycle.Invariant.{StoreIsValid, is_open}
use railone_core.Execution.Lifecycle.Reports.{
  record_failure_branches, record_success_branches, resolve_reconciliation_branches,
}
use railone_core.Execution.Lifecycle.Birth.{Started, start_next_branches}
use railone_core.Execution.Lifecycle.Calls.{
  Call, build, start, fail, succeed, resolve, IsTrimmed, Services, step, step-IsValid, serve,
  serve-IsValid, empty_store, empty_store-IsValid, open_attempt_unique,
}
use railone_core.Execution.Lifecycle.Filed.{
  IsFiled, write_both-IsFiled, failed-IsFiled, finalized-IsFiled, resolved-IsFiled,
  adopt_plan-IsFiled,
}

module _ (services : Services) where
  open services use {signatures, require_utt, endpoints, allow_unverified, signing_key_id}

  build_plan-IsFiled :
      (weights : RouteScoreWeights) (s : ExecutionStore) (utt_id : String)
      (cs : List RouteCandidate) (at : Datetime)
      → IsFiled s
      → IsFiled (build_plan signatures require_utt weights utt_id cs at s).1
  unfolding build_plan create_plan
  build_plan-IsFiled weights s utt_id cs at f =
      lift_branches (λ o. IsFiled o.1) (draft_plan signatures require_utt weights utt_id cs at)
        (create_plan require_utt) s (λ e. f)
        λ plan drafted.
          lift_branches (λ o. IsFiled o.1) (require_utt plan.utt_id)
            (λ _ s. adopt_plan plan (lookup plan.utt_id s.plan_by_utt) s) s (λ e. f)
            λ utt known. adopt_plan-IsFiled plan (lookup plan.utt_id s.plan_by_utt) s refl f

  Started-IsFiled :
      (s : ExecutionStore) (utt_id : String) (plan : ExecutionPlan) (selected : RankedRoute)
      (a : RttAttemptRecord) (instant : ℕ)
      → IsFiled s
      → Started signatures require_utt endpoints allow_unverified signing_key_id s utt_id plan
          selected a
      → IsFiled (write_both (started_plan plan selected a.rtt_id instant) a s)
  unfolding started_plan
  Started-IsFiled s utt_id plan selected a instant f started =
      let own = f.filed plan.plan_id plan started.stored in
      write_both-IsFiled s (started_plan plan selected a.rtt_id instant) a f own
        (rw (started.payment, started.born.lineage) own)

  step-IsFiled :
      (s : ExecutionStore) (c : Call) → StoreIsValid s → IsFiled s → IsFiled (step services s c)
  unfolding step
  step-IsFiled s (build weights utt_id cs at) v f = build_plan-IsFiled weights s utt_id cs at f
  step-IsFiled s (start utt_id at) v f =
      start_next_branches signatures require_utt endpoints allow_unverified signing_key_id
        (λ o. IsFiled o.1) s utt_id at v (λ e. f)
        λ instant plan selected a started.
          Started-IsFiled s utt_id plan selected a instant f started
  step-IsFiled s (fail rtt_id code d cost at) v f =
      record_failure_branches (λ o. IsFiled o.1) s rtt_id (λ e. f) code d cost at
        λ r _ _.
          apply_failure_branches (λ o. IsFiled o.1) (strip rtt_id) s (λ e. f) r
            λ attempt plan reported _. failed-IsFiled (strip rtt_id) s attempt plan v f reported r
  step-IsFiled s (succeed rtt_id cost at) v f =
      record_success_branches (λ o. IsFiled o.1) s rtt_id (λ e. f) cost at
        λ r _.
          apply_success_branches (λ o. IsFiled o.1) (strip rtt_id) s (λ e. f) r
            λ attempt plan reported _.
              finalized-IsFiled (strip rtt_id) s attempt plan v f reported r
  step-IsFiled s (resolve rtt_id how cost at) v f =
      resolve_reconciliation_branches (λ o. IsFiled o.1) s rtt_id (λ e. f) how cost at
        λ r _.
          apply_resolution_branches (λ o. IsFiled o.1) (strip rtt_id) s (λ e. f) how r
            λ attempt plan u reported _ _ _ made.
              resolved-IsFiled (strip rtt_id) s attempt plan v f reported how r u made

  serve-IsFiled :
      (s : ExecutionStore) (cs : List Call)
      → All IsTrimmed cs
      → StoreIsValid s
      → IsFiled s
      → IsFiled (serve services s cs)
  unfolding serve
  serve-IsFiled s [] h v f = f
  serve-IsFiled s (c ∷ cs) h v f =
      serve-IsFiled (step services s c) cs h.1 (step-IsValid services s c h.0 v)
        (step-IsFiled s c v f)

  empty_store-IsFiled : IsFiled empty_store
  unfolding lookup
  empty_store-IsFiled = record { filed = λ k p h. cc; owned = λ k a h. cc }

  -- After any calls, from an empty store, whose reports name attempts without surrounding blanks: two
  -- stored attempts of one UTT whose outcomes are both open (under way, or awaiting reconciliation)
  -- are the same attempt, whatever plans they are of. So a UTT is never tried twice at once.
  pub one_open_attempt :
      (cs : List Call) (j k : String) (a b : RttAttemptRecord)
      → All IsTrimmed cs
      → lookup j (serve services empty_store cs).attempts ≡ some a
      → lookup k (serve services empty_store cs).attempts ≡ some b
      → a.utt_id ≡ b.utt_id
      → is_open a.state ≡ true
      → is_open b.state ≡ true
      → j ≡ k
  one_open_attempt cs j k a b trimmed held_a held_b same =
      let f = serve-IsFiled empty_store cs trimmed empty_store-IsValid empty_store-IsFiled in
      open_attempt_unique (serve services empty_store cs) j k a b
        (serve-IsValid services empty_store cs trimmed empty_store-IsValid) held_a held_b
        (cc (f.owned j a held_a, f.owned k b held_b, same))

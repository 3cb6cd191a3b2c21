-- ===== src/Lib.antt =====
-- RailOne core: a model of the payment core in the packages railone_*, and its correctness.
--
-- An accepted payment contract (a UTT) gets an execution plan: the candidate routes that may carry it,
-- scored and ranked. Attempts (RTTs) are then started one at a time, each on the next affordable
-- route, and the report of its outcome moves the plan: on to the next route, to its end, or into
-- reconciliation when the provider's outcome is unknown.
--
-- The files and the code they follow:
--   Prelude and below: native numbers, signed integers, dictionaries, texts, exceptions as values,
--     stateful calls that may raise (`Exec`), sorting.
--   Crypto/Json, Crypto/Canonical: railone_crypto/canonical_json.py and the content identifiers
--     (`_identifier`). SHA-256 is an argument. Crypto/Canonical/Members: the order of members. Crypto/Signatures: what the services use of
--     railone_crypto/signature_service.py, as an interface; Crypto/Signing, Keys and below: that file and
--     railone_crypto/key_provider.py, which implement it. Ed25519 is an argument, with signatures as
--     the texts that envelopes hold; the results' `key_id` and `artifact_type`, which nobody reads, are
--     left out.
--   Contracts/Validation, Contracts/Endpoints: `require_text`, `require_minor_units` and the account
--     endpoints of railone_contracts/models.py; the validator of railone_partners/store.py, which the
--     execution services use, is an interface. Contracts/Terms: actors, origin contexts and quoted terms
--     of the same file, with `Decimal` as an argument. Contracts/Store: railone_contracts/store.py;
--     Contracts/Terms/Bounds and Signed: what signed terms satisfy
--     and carry; Contracts/Tests: terms and an acceptance.
--     Contracts/Quotes and below: railone_contracts/quote_service.py; Contracts/Drafts, Acceptance and below:
--     railone_contracts/acceptance_service.py, what an acceptance checks, makes and answers again.
--   Authority and below: railone_authority/service.py and models.py.
--   Identity/Models, Attestation, Repository, Digests, Secrets, Bundles, Continuity: railone_identity/models.py,
--     attestation.py and continuity.py. HMAC and the Unicode normal form NFKC are arguments, and a digest is
--     its bytes. Identity/Histories: the ledger that a repository stands for; Identity/Effects, Indexes,
--     Appended, Attested and Calls: what a call does, on what, and what sequences of calls keep.
--   Partners/Models, Directory: railone_partners/models.py and store.py; Partners/Selection and
--     Bindings: what the directory selects and holds; Partners/Tests: one binding.
--   Execution/Models, Scoring, Store: railone_execution/models.py, scoring.py and store.py.
--   Execution/Planning: `ExecutionPlanningService.build_plan`; Execution/Attempts/Start:
--     `RttAttemptService.start_next`; Execution/Attempts/Outcomes: `record_failure`, `record_success`
--     and `resolve_reconciliation`, all of railone_execution/service.py.
--   Execution/Scoring and below: what rankings and scores are; Execution/Scoring/Specified says it without
--     the code's own order and tests. Execution/Lifecycle/Filed and OneAttempt: the one plan of a UTT and
--     its open attempt. Execution/Lifecycle and below: the
--     branches of the operations, the invariant, and what any sequence of calls keeps.
--   Execution/Tests and below: a small payment, and the theorems at it.
--   Operations/Models, Store: railone_operations/models.py and store.py; Operations/Relay:
--     `OutboxRelay` of railone_operations/service.py, whose publisher is an argument.
--     Operations/Outbox, Delivery and Submissions: leases, delivery and versions; Operations/Tests: the
--     theorems at two events.
--   Operations/Context, Events, Preparation, Dispatch: `_provider_context` and
--     `ProviderSubmissionCoordinator` of railone_operations/service.py; Operations/Resolver:
--     railone_operations/endpoints.py. Below Operations/Dispatch: how often a request is sent, what is
--     recorded of an answer, and the theorems at one attempt. The requests that adapters were given are
--     kept beside the store; signed values are compared by their canonical texts.
--   Api/RateLimit: `InMemoryRateLimitStore` of railone_api/guard.py; Api/RateLimit/Capped: what a window
--     lets through; Api/Tests: four requests.
--
-- State is passed explicitly: a method is a function from the store to a result and the store it
-- leaves, where a raise keeps what was written before. Each store method holds its lock throughout,
-- so it is one step. A `datetime` is its microseconds since 1970 in UTC together with whether it
-- carries a time zone; `datetime.now` is not modelled, callers give the instant. Type tests on
-- dynamic values are carried by the types. `upper` and `title` change ASCII letters only. No
-- definition runs out of fuel: loops are structural recursion, but for the digits of a number,
-- whose fuel is the number plus one, and each digit divides the number by ten.
--
-- Not modelled: the PostgreSQL adapters, whose meaning lies in SQL; HTTP and process entry points;
-- provider clients; the frozen step_* copies of earlier stages; and, so far, the access tokens and the
-- request guard of railone_api, and railone_callbacks, railone_history, railone_notifications,
-- railone_projection, railone_sandbox, railone_security, railone_certification and railone_institutions.
pub mod Prelude
pub mod Crypto
pub mod Contracts
pub mod Partners
pub mod Api
pub mod Authority
pub mod Identity
pub mod Execution
pub mod Operations

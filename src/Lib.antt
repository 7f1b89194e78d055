-- ===== src/Lib.antt =====
-- The platform core of anytoolai-platform: jobs, scenario sessions, handoffs and the quota
-- bookkeeping of executions, as the repositories of
-- packages/backend/platform-core/src/anytoolai_platform_core write them to one database, the event
-- log beside them, and the mappings that feed the steps of a workflow.
--
-- The program. An API starts a scenario session and a job for it; a worker claims the job, runs its
-- workflow and finishes it. An accepted start reserves one execution from a bucket, of a guest's
-- quota or of a paid allowance, and the end of the job consumes or releases it. A finished session
-- can hand its result over to another product by a handoff that a client views, accepts or declines
-- before it expires. The repositories and the terminal transition of a reservation write these
-- rows, in the transaction of their caller.
--
-- The files, by the package's directories:
--   Prelude, Prelude/Table: Boolean tests, and a table with a primary key (SELECT, INSERT, UPDATE)
--   Prelude/Texts: Python's operations on texts that the code uses (split, strip, join, str)
--   Json: the documents that rows carry, as Python's dicts (Json/Dict), and a test of every entry
--   Store: the database and a transaction over it; Store/Ensures and Store/Commits are how a
--     transaction's effect is argued, step by step
--   Transactions: storage/transactions.py, the callbacks that recover after a rollback, over any
--     world; Transactions/Registration and Order are about the order in which they run,
--     Transactions/Recovery about their runs
--   Workflows/Models, Workflows/Jobs: workflows/models.py, and `JobRepository` of
--     workflows/repository.py; Workflows/Jobs/Writes and Lifecycle are about its state machine
--   Workflows/Errors, Workflows/Mappings: workflows/errors.py and workflows/mappings.py; Resolution
--     resolves a step's input, condition and output, Contracts validates its contract; Targets and
--     Inputs are about what is set, Progress, Validated and Outputs about the errors that are left
--     after validation, Roots and Readback about a context that a later step reads
--   Events/Models, Log, Replay, Emitter, Sanitizer: events/envelope.py with
--     context/execution_context.py, events/repository.py, events/replay.py and events/emitter.py;
--     Sanitizer/Clean, Bounded and Bounds are about what is logged, Log/Retries and Emitter/Stored
--     about what a call stores, Replay/Order about the timestamps
--   Scenarios/Models, Sessions, Idempotency, Checkpoints: scenarios/models.py,
--     `ScenarioSessionRepository` of scenarios/repository.py (Idempotency has creation and the
--     lookup by key), and scenarios/checkpoints.py with scenarios/next_actions.py
--   Scenarios/Service: `ScenarioSessionService` of scenarios/service.py, which writes a session and
--     its events; Service/Started is about two starts with one key
--   Handoffs/Models, Handoffs/Repository: handoffs/models.py, and `HandoffRepository` of
--     handoffs/repository.py, with its state machine, the race of accepting and expiring, and the
--     read by token (Tokens)
--   Handoffs/Mapping, Handoffs/Preview: the mapping of a handoff's payload and the preview of it,
--     of handoffs/payloads.py; Mapping/Reached and Preview/Bounds are about what comes out
--   Quotas/Models, Readback, Usage, Paid, Reservations, Settlement: quotas/models.py,
--     quotas/readback.py, quotas/repository.py, quotas/execution_repository.py and the terminal
--     transition of quotas/finalization.py; Ledger, Balance, Tallies and Settled are about the
--     balance of the counters, Arbitration, Quantities, Admission, Isolation and Uniqueness about
--     what the name says
--   Quotas/Events, Quotas/Release: quotas/events.py with common/metadata.py, and
--     `release_execution` of quotas/finalization.py, with its locks, event and session;
--     Release/Books and Release/Balanced are about the quota tables around it, Release/Replayed about
--     a second release
--   Quotas/States: the quota states of quotas/service.py
--   Artifacts: the row of artifacts/models.py
--   Witnesses: the theorems at sample rows
--
-- The correspondence. A table is the list of its rows; a statement by primary key touches one row
-- at most, and the number of rows that it changed is the Boolean that the code tests. A method is a
-- function of the same name into `Tx`, from the store to an exception or to a value and the next
-- store. An exception that leaves a transaction rolls it back, so it has no store; row locks leave
-- the store as it is, and each method runs as one step of the database. What the clock and the
-- minting of identifiers return are arguments: of a service, functions of the number of the step
-- (`Minted`). The database's collation is a parameter; so are the standard library's JSON reader,
-- SHA-256 and case folding, and the taxonomy of event types, which is a file. A savepoint that
-- rolls back resumes from the store that it began with, and an assertion that fails raises like any
-- other exception. A row that violates its
-- primary key and a unique constraint is reported under the primary key, whose index is the older.
-- A table's CHECK constraints, its foreign keys and its columns' lengths are not
-- modelled: they only refuse more. Counters are natural numbers, as the CHECK constraints have
-- them. The code of these parts has no loop but those over a table's rows, a
-- list, a text or a JSON value, which are structural recursion; only the digits of a number use
-- fuel, the number itself and one more.
--
-- Not modelled: the rest of the services above the repositories (the admission of an execution, the
-- publication of a result, the start of a scenario, the service of handoffs), the workflow runner,
-- the worker and the HTTP interface; providers, prompts and configuration, which are input and
-- output; the clients in TypeScript.
pub mod Prelude
pub mod Json
pub mod Workflows
pub mod Scenarios
pub mod Events
pub mod Handoffs
pub mod Artifacts
pub mod Quotas
pub mod Store
pub mod Transactions
pub mod Witnesses

-- ===== src/Lib.antt =====
-- Verification of the Python programs of moonproj: the scripts that judge the evidence of a migration
-- from the ERP to the company's own target, and the service that runs commands on the target.
--
-- The migration. scripts/company_migration_cutover_gate.py reads a directory of JSON evidence that
-- the other scripts have left, makes its checks in 27 steps of a fixed order, and exits with 0 or 1.
-- Some of the files that it reads come from scripts/company_business_acceptance_check.py (the
-- decisions of the owners), scripts/company_shadow_period_check.py (the contract of the read-only
-- shadow period) and scripts/company_period_close_control.py (the reconciled cohorts of a period),
-- which read evidence of their own.
-- Evidence: the files of the directory (`WorkDir`, `Entry`), `load` (`load_object`, `load_value`)
--   and the exceptions (`Fault`); Evidence/Secrets: `reject_secrets`.
-- Gate/Check, Gate/Scope, Gate/Control, Gate/Replay: one function for each check of `run`, and
--   its condition as a function `…_passes`; Gate/Run: `run` (`steps`, `report`) and `main`.
--   Gate/Soundness, Gate/Exception and Gate/Cleared are about the exit status.
-- Shadow and Acceptance: `validate` of the two scripts, by the parts of its body; Shadow/Gated,
--   Acceptance/Decisions and Acceptance/Gated relate what they write to the gate.
-- PeriodClose: `run` of the period-close control, with SHA-256 as the parameter `digest`;
--   PeriodClose/Cohorts and PeriodClose/Gated relate it to the gate.
-- Production: scripts/company_production_deployment_check.py (Production/Deployment) and
--   scripts/company_production_service_check.py (Production/Service), whose results the gate reads, and
--   the second of which reads the result of the first; Production/Manifest has what they share, and
--   Production/Gated, Production/Approvals and Production/Pool are about their results.
-- scripts/company_sqlite_projection_apply.py writes the promoted items into the target and is run twice;
-- the gate reads the report of the second run.
-- Projection: Projection/Promotion is `load_receipt` and the texts made from an item,
--   Projection/Table the tables and the hash of their rows, Projection/Apply the application of the
--   items and `run`; Projection/Replay and Projection/Atomic are about runs. SHA-256, `json.dumps`,
--   `json.loads` and Python's `str` are the parameters of `Codec`; a transaction that raises leaves the
--   tables as they were, and the migrations before it are taken as applied.
-- A test may raise (`Checked`): Python's exceptions are values, so that a check on a malformed file
-- ends the gate with 1, as an uncaught exception does. JSON numbers are integers.
--
-- The service. scripts/company_postgres_service.py keeps the aggregates of the target as rows with
-- revisions in `company_aggregate_projection`, and a receipt for every command in `company_record`.
-- Service/Merge: `||` of jsonb and the text comparisons, by PostgreSQL's rules on NULL;
--   Service/Rows: the rows and the three statements on them; Service/Database: the receipts, the
--   transaction of a command around its block, and the two ends of a command in Python.
--   A block that raises is `none`, and its transaction changes nothing. The block is the `DO` body up to
--   its result; `commit` is the `UPDATE` of the receipt by the result, made one with the `INSERT` before.
--   Service/Settled is about the two ends of a transaction.
-- Service/Quoting: the texts that the script of a transaction can hold. A text with `$$` ends the `DO`
--   body in a literal, and `jsonb` refuses U+0000; both are taken as exceptions. A text made so that
--   the script goes on after `$$` as another valid one is outside the model. A revision is a 32-bit
--   `integer`, after the last of which `next_revision` is an exception.
-- Service/Attempt: `PsqlPool.execute_read` over a session that may lose a query or its answer.
-- Service/Pool: `PsqlPool` itself, its queue of sessions and its closed flag, as events of
--   concurrent requests; Service/Pool/Sessions and Service/Pool/Invariant are about the places of
--   its sessions.
-- Payment: Payment/Request is `_payment_request`, Payment/Transaction the block of
--   `payment_application_command`, Payment/Command the whole function. Payment/Transitions,
--   Payment/Committed, Payment/Allowed, Payment/Progress and Payment/States are about its state machine, Payment/Idempotent about the
--   receipts. What other requests commit between a command's steps is `Surroundings`.
-- Service/Exceptions: the statements of a block in sequence; Service/Command: the way of a command from
--   its request to its answer, which the payment and the loan commands share; Service/Kept is about
--   what it keeps of the database.
-- Loan: Loan/Checks has the commands and the checks on parts of a body, Loan/Create and Loan/Request
--   are `_loan_request`, Loan/Transaction the block of `loan_command`, Loan/Command the whole function.
--   Loan/Balance, Loan/Written, Loan/Changes, Loan/Fit, Loan/Admission, Loan/Ledger and Loan/Account are
--   about the amounts of the loans, from one block to the whole command, Loan/Offsets about the bound of an offset,
--   Loan/Authority about the grants. A `bigint` is an integer in its 64-bit range, and a value outside
--   it an exception.
-- Identity: who asks. scripts/company_postgres_dev_gateway.py takes signed assertions of identity and
--   forwards requests with a signed actor (Identity/Gateway); the service's handler checks them and runs
--   a loan command for a PUT or a DELETE (Identity/Handler, to `_loan_method_alias`).
--   Identity/Roundtrip and Identity/Applicant relate the two and the loans. HMAC and
--   SHA-256 are the parameters of `Digest`, the headers of a request a function from their names.
-- The contracts, plans and imported rows that the service reads, PostgreSQL's and Python's text of a
-- value, the random identifier and the date are parameters.
--
-- The tests and the runs at concrete inputs stand in the modules named Tests and Sample.
--
-- Base has the shared names: Boolean tests, lists, `Result` with do blocks, ℤ over the native ℕ,
-- Python's text functions (Base/Text) and JSON (Base/Values).
--
-- All recursion is structural, so there is no fuel. Not modelled: printing and writing files, SQL
-- other than the statements named, the service's other commands and handlers, the read model server,
-- the gateway's sessions and routing, the promotion plans, the other apply scripts, the parity
-- scripts, the smoke tests, and the packages in MoonBit.
pub mod Base
pub mod Evidence
pub mod Gate
pub mod Shadow
pub mod Acceptance
pub mod Identity
pub mod Loan
pub mod Payment
pub mod PeriodClose
pub mod Production
pub mod Projection
pub mod Service

-- ===== src/Lib.antt =====
-- A verification library for sudoagent, which guards the calls of an agent's tools: a policy decides
-- on each call, a human approves where the policy asks for it, budgets are charged, and every
-- decision and outcome is written to a tamper-evident ledger and to an audit log.
--
-- The parts, the code that each file is about, and how they meet:
--
-- - Engine (src/sudoagent/async_engine.py, with the classes of types.py, policies.py,
--   errors.py). `execute` and all that it calls, in Engine/Execute; `_build_state` in
--   Engine/Build, `_parse_approval_response` in Engine/Approval, `_log_decision` and
--   `_log_outcome` in Engine/Logging with the entries in Engine/Entries, reason codes and
--   metadata in Engine/Reasons, the validators and the constant policies in Engine/Policies. The
--   services that the engine is given (policy, approver, ledger, audit log, budget manager,
--   approval store, error hook) are fields of the record `Engine` in Engine/Services: operations
--   on a world, of any type, that return or raise anything. An exception is a value of `Exn`;
--   those that `except Exception` does not catch are `base_exception`. A run keeps the world,
--   the list of what happened with the last event first, and `_error_count`. Engine/Sync is the
--   class SudoEngine of src/sudoagent/engine.py, which runs the asynchronous engine to its end,
--   by `asyncio.run` or by `run_sync` of src/sudoagent/async_utils.py, each with the errors of a
--   thread that may not wait, and with the services behind Engine/Adapters,
--   src/sudoagent/adapters/sync_to_async.py. Engine/Execute/Stepwise carries what the services
--   keep over to the steps of the approval path, Engine/Sync/Rows puts a SQLiteApprovalStore behind its adapter, and
--   Engine/Sync/Bound and Engine/Sync/Approved follow the row of a request through the approval.
-- - Budgets (src/sudoagent/budgets.py). Budgets/Common has `_check_common` and `_commit_common`
--   with their callbacks as records, Budgets/Memory the class BudgetManager and Budgets/Sqlite
--   the class SQLiteBudgetManager. Each call is one step on the manager's state: the in-memory
--   one holds a lock, the durable one an immediate transaction. The clock's reading is an
--   argument. Budgets/Sqlite/Fitting bounds the costs of the tables.
-- - Approvals (src/sudoagent/approvals_store.py and src/sudoagent/approvals/). Approvals/Store
--   is the class SQLiteApprovalStore, Approvals/AsyncStore the class AsyncSQLiteApprovalStore
--   over the same table, with its creation in Approvals/AsyncStore/Database, Approvals/Common
--   their validators and the cap on expirations. Approvals/Polling is the class
--   PollingAsyncApprover of src/sudoagent/notifiers/async_approvers.py: it polls the store, in
--   which other processes make any calls between two polls; Engine/Approval/Polled meets its
--   answers with `_parse_approval_response`.
-- - Ledger (src/sudoagent/ledger/). Ledger/Jcs and Ledger/Numerals are jcs.py: canonical JSON,
--   with NFC normalization and the SHA-256 digest as parameters. Ledger/Chain is common.py and
--   validation.py with the entry that the JSONL ledger appends: it takes canonical JSON, the
--   hash and the signature functions as a record, `Hashing`, which Ledger/Chain/Parsed fills
--   from Ledger/Jcs. `append_all` is the ledger as it is written; Ledger/Chain/Appended has it as
--   it is read back, from a function for `json.loads`, with Ledger/Chain/Parsed and
--   Ledger/Chain/Resealed on what that keeps of an entry. Ledger/Jsonl is jsonl.py: Ledger/Jsonl
--   reads the end of the file in chunks of bytes, Ledger/Jsonl/Operations has `append` and
--   `verify` on the file's text.
--   Ledger/Jsonl/Locked has several processes that append in steps, each under the lock of
--   filelock.py. Ledger/Sqlite is sqlite.py, on a list of rows. `json.loads` is a parameter of
--   both, on UTF-8 bytes; a file that is not UTF-8, and the errors of the operating system and
--   of the database, are not modelled.
-- - Redaction (src/sudoagent/redaction.py), with `str.lower` as a parameter. The engine takes
--   `redact_args` and `redact_kwargs` as functions into a result, as they are defined there.
-- - Command line (src/sudoagent/cli.py). Cli reads the entries and has the filters, Cli/Commands
--   and Cli/Selecting the commands that write entries, Cli/Receipts the one that looks up a
--   receipt, and Cli/Main the rest and `main`, from the arguments that `argparse` has read. A
--   command is a function on a dictionary of files, what was printed and the lines on the error
--   stream; the generator of the entries reads the ledger when the output has been opened, as in
--   the code. `json`, `csv`, `fromisoformat` and `lower` are fields of the record `Runtime`;
--   `verify` is the one of Ledger/Jsonl. Directories are not modelled.
-- - Value: Python's values and dicts as far as the code looks into them. Base: names, tests,
--   integers, dictionaries as association lists, and what the code uses of `str`.
--
-- Numbers: instants are natural numbers of microseconds, costs are integers that `_validate_cost`
-- makes natural, and Python's integers have no bound; an integer of SQLite has 64 bits, and a cost or
-- a sum of costs from 2^63 on is an error. Loops over rows, entries and characters are
-- structural recursions. The digits of a number are made on fuel, the number itself, which is never
-- less than the number of its digits but one. The polling loop is on fuel, one more than its timeout:
-- the clock goes on by one from turn to turn at least. The loop that reads a file from its end is on
-- fuel too, the size of the file: each turn goes back by a byte at least.
--
-- Not modelled: the SQL of table creation, pragmas, how the operating system locks a file, the JSON
-- parser, Ed25519, how async_utils.py starts its thread and its event loop, the scheduling of asyncio,
-- and the approvers that ask at a terminal. Of the gaps between two statements of one call of a
-- SQLite approval store, in which another process may write, only the one in `fetch` is modelled, in
-- Approvals/Store/Gap; elsewhere a call is one step.
pub mod Base
pub mod Value
pub mod Budgets
pub mod Approvals
pub mod Engine
pub mod Ledger
pub mod Redaction
pub mod Cli

-- ===== src/Lib.antt =====
-- A model of SafeOps, an agent that diagnoses and repairs a Linux host, in a cubical type theory.
--
-- A language model proposes actions; the program decides about them. A proposal
-- (contracts/action.go) goes through the safety pipeline of internal/guard, which knows the tools by
-- a local catalogue. What is not denied is put into a signed envelope (contracts/envelope.go), where
-- needed under an approval of a person (internal/approval). The executor (internal/executor), a
-- process of its own, checks the envelope again, by the same pipeline, reserves its nonce, uses up
-- the approval and calls one of its fixed handlers. The task and the session live in files
-- (internal/storage), which workers write under leases; the runtime's budget is kept in the task
-- (internal/agent/reducer.go), and every step is recorded in a chain of hashes (internal/trace). What
-- the planner may call comes from a registry of MCP servers (internal/registry), and a request can
-- confine its reading to some paths (internal/agent/general_scope.go). Files that the agent takes
-- away go into a quarantine, from which they can come back (internal/rollback), and what it has
-- observed is kept in a graph (internal/evidence).
--
-- Files and what they model:
--   Contracts/Action, Snapshot, Envelope: contracts/action.go and contracts/envelope.go. Sealed is
--     about `Sign` and `VerifySignature`; Hex is encoding/hex.
--   Guard/Catalog, Intent, Risk, Static, Pipeline: the files of internal/guard of these names.
--     Verdicts, Scores and Loading are about them.
--   Disk: a directory of files written by a temporary file and a rename, as internal/approval,
--     internal/storage, internal/trace and the nonce store each do.
--   Approval/Types, Store: internal/approval/store.go. Equality, Lifecycle, Calls and SingleUse are
--     about sequences of its operations.
--   Executor/Nonce, Validator, Execute: nonce.go, validator.go and executor.go of internal/executor.
--     Checks, Authority and Replay are about them. Targets: target.go; Targeted is about it.
--   Task, Session: internal/task/task.go and internal/session/session.go.
--   Agent/Reducer: internal/agent/reducer.go and two limits of orchestrator.go. Budget is about it.
--   Storage/FileStore: internal/storage/file.go. Leases and Fencing are about workers on a running
--     store, without the recovery at start-up, Recovery about crashes of `PrepareTask`.
--   Agent/Mentions, Scope: internal/agent/general_scope.go, how a request is read for paths, and the
--     check of a tool call with its feedback. Mentioned and Scoped are about them.
--   Quarantine/Files: the files as internal/rollback/quarantine.go sees them, and its two checks of a
--     file's identity. Manager and Restore: `Quarantine`, and the operations on a manifest that is
--     there. Kept and Quarantined are about what a move comes to, Restored about the way back,
--     Recovered and Rounds about `Recover`.
--   Registry: internal/registry/manifest.go. Registry/Health: the dependencies and histories of
--     health.go. States, Servers and Manage: the operations of registry.go and `CheckAll`. Sound,
--     Reached, Kept and Sequences are about sequences of calls, Tools about tool calls. `SetEnabled`
--     is two steps there, as other calls can stand between its two parts.
--   Evidence: internal/evidence/graph.go. Whole is about it.
--   Context: internal/context/resolver.go.
--   Json: values of any JSON text.
--   Trace/Redaction, Chain, Append: internal/trace/trace.go. Clean, Extension, Restored, Continued and
--     Appended are about them.
--   Examples: a concrete input for each theorem.
--   Prelude: library names, tests, texts, dictionaries and results.
--
-- How it is modelled. A method of a store with a mutex is a function from the store before to the
-- result and the store after; Go's nil error is `none`, or `ok`. A Go string type with constants is
-- a data type with one more constructor for any other text. Times are nanoseconds, 0 the zero time;
-- each reading of the clock is an argument of its own, so two readings of one call can differ. Random
-- IDs, the error of a context and the answers of interfaces are arguments too. JSON, YAML, SHA-256,
-- HMAC and the regular expressions of the redaction are parameters; a theorem that needs something
-- of them has it as a hypothesis. A write that fails does so by the script of faults of its disk,
-- before the rename or after it. The fences of leases, the sequence numbers and the counters are
-- natural numbers: they count single steps and do not reach 2 ^ 64. A line of a trace has a length, for
-- the limit of its reader. Letters beyond ASCII keep their case where Go lowers them. The loops are structural
-- recursion on a list, so there is no fuel, except in the decimal digits of a number, where one round
-- more than the number is given and each round divides it by ten.
--
-- Not modelled: the dialogue with the language model, the diagnosis workflows, the preparation and
-- resumption of actions, the HTTP interface, the MCP servers, the retrieval and the root cause
-- analysis, which work on top of these parts; system calls; locks between processes; of
-- internal/storage the listings and the start of a store; of internal/trace the normal form of a decision and the loop of
-- `NewWriter` over the traces; of internal/rollback the making of the directories.
mod Prelude
pub mod Json
pub mod Contracts
pub mod Guard
pub mod Disk
pub mod Approval
pub mod Executor
pub mod Task
pub mod Session
pub mod Agent
pub mod Storage
pub mod Trace
pub mod Evidence
pub mod Quarantine
pub mod Context
pub mod Registry
mod Examples

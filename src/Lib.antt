-- ===== src/Lib.antt =====
-- A model of the parts of komizo that decide what runs on a host, with the theorems that make them
-- correct.
--
-- The parts and how they interact. A deployment of an application is one durable operation, a file
-- that `record` (src/workload/operation.rs) rewrites at each change of phase. An activation
-- (src/workload/activation.rs) brings the configured release up: it calls the methods of a runtime,
-- which the host implements (src/host/workload/activation.rs) with Docker, the proxy and that file.
-- Before an activation, the demand of the services is held against the operator's budgets
-- (src/workload/resources.rs), a stateful release against the data it would meet
-- (src/workload/stateful.rs), and the installed and the retained revisions are read from files of
-- the application (src/host/workload/transaction.rs). A deployment is
-- staged before it is activated: its files replace the installed ones, which are put back when it
-- fails (src/host/workload/deployment.rs). A deployment that was interrupted is ended by
-- a reconciliation (src/host/workload/reconciliation.rs), over the same file. A preview is let in only
-- when the host has room for it (src/host/preview/capacity.rs). Signed commands reach the host in an
-- inbox that its agent owns; root verifies each one and claims its id before it acts
-- (src/host/inbox.rs, src/host/results.rs, src/host/authority/commands.rs). Which hosts a preview has,
-- and its limits, is in a file of settings (src/host/preview/knob.rs).
--
-- Which file models which part:
--   Prelude       texts as lists of bytes, signed integers, errors as values, methods over a state
--   Identity      the identity formats of src/workload/mod.rs and src/workload/policy.rs
--   CleanPath     `clean_path` of src/host/inventory.rs
--   Operation     the phases, `legal` and `record` of src/workload/operation.rs, and the atomic write
--                 of src/statefile.rs; the file is the type Journal, a call is record_phase
--   Activation    Request, Runtime and Activate are src/workload/activation.rs; Host is the runtime of
--                 src/host/workload/activation.rs over the operation file
--   Resources     Budget, Amount and Bound are src/workload/resources.rs
--   Transaction   the environment file, the retention record and the credential of
--                 src/host/workload/transaction.rs
--   Reconciliation  `reconcile` of src/host/workload/reconciliation.rs over the operation file
--   Staging       Files is the installed files with `write_deployment` and `restore_snapshot` of
--                 src/host/workload/transaction.rs, Stage and Deployment `stage_deployment` of
--                 src/host/workload/deployment.rs
--   Stateful      src/workload/stateful.rs
--   Capacity      `check_floors` and `production_reserve` of src/host/preview/capacity.rs
--   Inbox         Command is `verify_command` of src/host/authority/commands.rs, Results the directory of
--                 src/host/results.rs with `claim_atomic` of src/host/store.rs, Apply
--                 `apply_pending_with_clock` of src/host/inbox.rs
--   Preview       App is the identities of src/host/preview/mod.rs; Settings, Knob, Hosts and Ask are
--                 src/host/preview/knob.rs
--   Stopped       File is the state file of an app, `read_state` of src/host/paths.rs and `is_stopped`,
--                 `mark_stopped`, `clear_stopped` and `set_values` of src/host/stopped.rs; Marked is what is
--                 read from the lines that are written, and Owner the stop that is read back
--   Examples      tests, and the theorems at concrete inputs
--
-- How the code is rendered. A `Result` is a value of the type Result, whose errors keep what callers
-- test for. A method that changes a state and may fail is a function from a state to its result and
-- the next state, so what was done before an error stays done. An i64 is an integer, with
-- `checked_add` and `checked_mul` refusing what does not fit; times are natural numbers of
-- nanoseconds. Maps are association lists, whose order of keys is not modelled but where it
-- is written to a file. Strings are their
-- bytes; a body that the code decodes with `from_utf8_lossy` is the decoded text, but
-- for the environment that is staged, where the decoding is a field of StageEffects.
--
-- Readings of the clock never go back, a file is as old as the clock's last reading when it was
-- written, and whether a result exists can always be read.
--
-- Bounds and fuel. Decimal printing recurs on fuel one more than the number, which each step
-- divides by ten. Every other loop recurs on the list or the text that the code iterates over.
--
-- What is not modelled. Docker, the proxy, the file system beyond the one atomic write, the clock,
-- the random source and floating-point numbers are parameters: the records HostEffects,
-- ReconcileEffects, Runtime, Machine, Floats, Codec, Effects,
-- StageEffects, FileEffects and Unicode. Process deadlines and cancellation stand behind the
-- methods of the runtime.
-- The JSON and YAML readers, the network transport of the caller, the commands, the observer, the
-- rest of the previews, the hosted API and the vendored template engine are left out.
pub mod Prelude
pub mod Identity
pub mod CleanPath
pub mod Operation
pub mod Activation
pub mod Resources
pub mod Stopped
pub mod Transaction
pub mod Staging
pub mod Stateful
pub mod Preview
pub mod Reconciliation
pub mod Capacity
pub mod Inbox
pub mod Examples

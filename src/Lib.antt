-- ===== src/Lib.antt =====
-- The control plane of harness-forge (services/control-plane, Go): projects hold conversations, a
-- user message starts a run, one run at a time is executed in a sandbox, and its products are
-- published. Paths below are relative to services/control-plane/internal.
--
-- Parts and files:
-- - Schema: the rows of the tables (runs/model.go, conversations/model.go, projects/model.go,
--   artifacts/store.go), the errors and their monad. A transaction is a function of the database
--   to a result with the next database; SELECT ... FOR UPDATE makes transactions on one row run one
--   after the other, so a committed transaction is one step.
-- - State: Start, Advance, Finish of runs/state.go.
-- - Events: AppendEventTx and ListEvents of runs/events.go; Events/Sequence and Events/Replay hold
--   the numbering and the deduplication.
-- - RunStore: runs/store.go. RunChanges and RunCommit: the transactions of runs/coordinator_store.go
--   and CancelQueued of runs/cancel.go; RunCommit/Promotion and RunCommit/Published follow a commit.
-- - Broker: runs/broker.go. Durable: `change` of runs/coordinator_store.go, with a connection that
--   fails before, at, or after COMMIT. Cancel: Canceller.Cancel and Coordinator.Cancel.
-- - Lifecycle: what a transaction does to one run, and the step relation of the transactions that
--   create, claim and change runs, with its invariant (Lifecycle/Steps). A hard delete is no step.
-- - Stream: the cursor and the loop of httpapi/run_events.go.
-- - Contracts: contracts/contracts.go. Contracts/Decode is how encoding/json fills a struct, Contracts/Parse
--   and Contracts/Envelope are ParseRuntimeEvent, Contracts/Manifest is ParseArtifactManifest;
--   Contracts/Valid, Contracts/RoundTrip, Contracts/Accepted and Contracts/Exact hold what they accept.
-- - Artifacts: ValidateManifest, ValidRelativePath and ContentType of artifacts/manifest.go, with the
--   limits. Objects: the store in memory of objectstore/memory.go. Publication: Prepare of
--   artifacts/publisher.go, on that store.
-- - Pump: the loop of runs/coordinator.go over the events and errors of an execution. Whether an
--   event comes back from its JSON is told by the delivery.
-- - Reconciler: runs/reconcile.go. Each call is a fact in a history; Reconciler/Steps says which orders
--   of facts are allowed and gives rules to show it of an action, Aborting, Finishing and Protocol apply
--   them to abortLease, finishLease and Reconcile.
-- - Scheduler: the loop of runs/scheduler.go, with the order of its moves and its waits.
-- - Projects and Conversations: projects/store.go, conversations/store.go and SubmitMessage of
--   conversations/service.go, with what a deletion closes.
-- - Cleanup: hardDelete of cleanup/purge.go, with the foreign keys of migrations/; Cleanup/Orphans is
--   the scan of cleanup/orphans.go.
-- - Sandbox: the fake provider, sandbox/fake.go.
-- - Examples: concrete runs of the model.
--
-- Identifiers are numbers and 0 is the nil UUID; times are numbers and 0 is Go's zero time. A
-- bigint counter that would pass 2 ^ 63 - 1 is an error. JSON is a tree whose objects are lists of
-- fields in order. Loops are recursion on the list that they range over, so no fuel is needed. How
-- a UUID and a time are written as text is a parameter (RunCommit.Format, Contracts/Envelope's Wire),
-- and so is what the provider and the Runtimes of its leases answer (Reconciler's Environment), what
-- becomes of the steps and deletions of a publication (Publication's Surroundings), and what becomes
-- of the listings, queries and deletions of a scan for orphans (Cleanup/Orphans' Survey).
--
-- Not modelled: the HTTP layer but for the event stream, the Docker sandbox, the file system, S3 but
-- for a DeletePrefix that stops after some objects (Objects), the advisory lock of a publication and
-- the other services of the repository, which are input and output; Coordinator.Execute but for its
-- pump and transactions; and of cleanup/purge.go the search for what to purge and the removal of its
-- objects and sessions.
pub mod Base
pub mod Schema
pub mod State
pub mod Events
pub mod Contracts
pub mod RunStore
pub mod RunChanges
pub mod RunCommit
pub mod Broker
pub mod Durable
pub mod Cancel
pub mod Lifecycle
pub mod Artifacts
pub mod Objects
pub mod Publication
pub mod Stream
pub mod Sandbox
pub mod Pump
pub mod Reconciler
pub mod Scheduler
pub mod Projects
pub mod Conversations
pub mod Cleanup
mod Examples

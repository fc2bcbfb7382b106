-- ===== src/Lib.antt =====
-- The synchronisation core of the CouchSync plugin: how a device compares its docs with those of a
-- CouchDB remote, what it takes over, what it sends, and what it remembers for later cycles.
--
-- The parts and their files, by the paths of the repository:
-- * VectorClock (src/sync/vector-clock.ts): clocks as counters by device id, and their comparison,
--   merge and increment. A clock is an object with string keys in insertion order; the keys that
--   JavaScript orders as array indices and the prototype are not modelled.
-- * Classify (src/sync/classify-sync-relation.ts, chunk-equality.ts and last-synced.ts): the relation
--   of two sides, from contents, clocks and the baseline of the last integration.
-- * DocId (src/types/doc-id.ts) and Docs (src/types.ts, src/utils/doc.ts): ids and documents.
-- * Resolver (src/conflict/conflict-resolver.ts): the verdict on a pulled doc.
-- * Store (src/db/dexie-store.ts, src/db/write-transaction.ts): the tables of docs and meta entries,
--   `runWriteTx` as a function from a store to a store or a rollback, and the changes feed.
-- * ChunkGc (src/db/chunk-gc.ts, chunk-refs.ts): which chunks a live doc or a config base owns, and
--   the sweeps of the vault store and the config store.
-- * PendingSets (src/db/sync/unpushed-ids.ts, pending-apply.ts and pending-conflict.ts): the entries
--   that persist between sessions, with their keys and parsers.
-- * Checkpoints (src/db/sync/checkpoints.ts): the cursors, and the commits that advance them together
--   with docs and entries.
-- * PendingApply (src/db/sync/pending-apply.ts): the docs still owed to the vault, and the drain.
-- * Echo (src/db/sync/echo-tracker.ts): which local changes only repeat a pull.
-- * PullWriter (src/db/sync/pull-writer.ts; `applyBatch` of src/db/sync/pull-pipeline.ts): PullWriter
--   judges the rows of a batch (`classify`), PullWriter.Commit commits it (`commit`) and runs a batch
--   (`apply_batch`). The other children are proofs.
-- * PushPipeline (src/db/sync/push-pipeline.ts): PushPipeline sorts the local files (`classifyFiles`),
--   PushPipeline.Transport sends a batch (`pushDocs`), PushPipeline.Cycle runs a cycle (`runOnce`). The
--   other children are proofs.
-- * AuthGate (src/db/sync/auth-gate.ts): the latch of rejected credentials.
-- * Reconnect (src/db/reconnect-policy.ts, src/db/sync/errors.ts): the reconnect policy and the
--   classification of errors. Backoff (src/db/sync/backoff.ts): the retry delays.
-- * Engine (src/db/sync-engine.ts): the supervisor. Engine has its state and its error paths,
--   Engine.Session opens a session, Engine.Reconnecting runs the reconnect chains, Engine.Verify the
--   probes and Engine.Health the health check. Each function is what runs between two awaits of an
--   operation, and Engine.Steps calls them in any order. Engine.Sound, Engine.Disposed and the children
--   of Engine.Steps are proofs.
-- * CompositionGate (src/sync/composition-gate.ts): the queues of vault writes that wait for the end of
--   an IME composition.
-- * VaultPath (src/utils/path.ts): the check of remote paths, and parent folders.
-- * ConfigMerge (src/sync/config-merge.ts): JSON values (ConfigMerge), pointers (Pointers), the merges
--   (Merge), the order of keys and `mergeJson` (Order), diff and patch (Patch), and the positions that a
--   device keeps as its own (Pin). The text format is not modelled.
-- * Reconcile (src/sync/reconciler.ts): the slow scan. Reconcile has the steps and the report,
--   Reconcile.Paths the cases of a path, Reconcile.Collision the collisions of folded paths, and
--   Reconcile.Scan the loop. Calls into the vault and the store are recorded, and their results are the
--   environment's.
-- Prelude has the notation and the lemmas on lists, texts and maps. Witness has the theorems at
-- concrete data.
--
-- A pull judges each row with the resolver, which asks the classifier, which compares clocks. The
-- batch is committed by the checkpoints in one transaction of the store, after which the vault writes
-- run and the pending set is settled. A push cycle reads the changes feed, leaves out the echoes, adds
-- the unpushed ids, sorts the files by the remote's clocks, sends chunks and then files, and commits
-- the cursor with the unpushed set.
--
-- Conventions. Strings are lists of UTF-16 code units and numbers are naturals: times, sizes, counters
-- and attempts are never negative in the source. State is passed from call to call, and a throw is a
-- value of the result. What the remote, the vault, the clock and the chunk fetch answer is a record of
-- functions that the operations take. The models run on the structure of their input, but for the loop
-- of reachability probes: its fuel is one attempt for each 1000 ms of its budget, which is enough since
-- attempts are spaced by as much. The engine's supervisor drives the sessions in which pulls and pushes
-- run, the reconciler and the gate stand between the store and the vault, and a probe's failure goes
-- through the classification of errors to the supervisor.
-- The sweep of the chunks reads and deletes in one snapshot of the store. A pulled file doc whose id has
-- no file prefix, for which the path lookup throws, does not occur.
-- A transaction rolls back only where the compare-and-swap of a doc fails: quota errors and lost
-- database handles are not modelled. The answers to a bulk write are not longer than the batch.
-- A pull without a resolver accepts every doc, as in the source. A session of the engine is its epoch, a
-- timer is what its callback needs, and the patterns that errors.ts tests a message for are marks of the
-- failure. JSON numbers are the indices of their doubles.
--
-- Not modelled: the loops around a batch and a cycle with their backoff, the events and the chunk fetch
-- of the engine, the fast path and the bookkeeping of a reconcile run, the vault writers, the config
-- synchronisation but for its merge, the conflict dialogs, setup, the repair of chunks,
-- encryption, history, logs and the user interface; and of the pull writer the repeated presentation
-- of conflicts and the events.
pub mod Prelude
pub mod VectorClock
pub mod Classify
pub mod DocId
pub mod Docs
pub mod Store
pub mod PendingSets
pub mod Checkpoints
pub mod ChunkGc
pub mod PendingApply
pub mod Echo
pub mod PullWriter
pub mod PushPipeline
pub mod AuthGate
pub mod CompositionGate
pub mod ConfigMerge
pub mod Reconcile
pub mod VaultPath
pub mod Reconnect
pub mod Backoff
pub mod Engine
pub mod Resolver
mod Witness

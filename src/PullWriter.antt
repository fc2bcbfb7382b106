-- ===== src/PullWriter.antt =====
-- The first phase of the pull writer (src/db/sync/pull-writer.ts): it judges a batch of pulled docs.
-- Chunk fetches and the probe for unpushed edits are the environment's.
pub mod Rows
pub mod Conflicts
pub mod Commit
pub mod Durable
pub mod Landed
pub mod Batches
use obsidian_couchsync.Prelude.{
  ℕ, bool_eq, ◌+◌, List, [], ◌∷◌, ◌++◌, map, Option, none, some, Bool, true, false, not, ◌&&◌, ◌||◌,
  eqb, ltb, if◌then◌else◌, or_default, is_some, filter, length, contains, ◌==◌,
}
use obsidian_couchsync.Prelude.Text.{Text, text_eq}
use obsidian_couchsync.Prelude.Dict.{keys}
use obsidian_couchsync.VectorClock.{VectorClock, VcRelation, equal, compare_vc, merge_vc}
use obsidian_couchsync.Classify.{chunk_lists_equal}
use obsidian_couchsync.DocId.{is_file_doc_id, file_path_from_id, config_path_from_id}
use obsidian_couchsync.Docs.{
  FileDoc, ConfigDoc, CouchSyncDoc, file_doc, chunk_doc, config_doc, doc_id, strip_rev,
  file_schema_version, config_schema_version,
}
use obsidian_couchsync.Resolver.{
  ResolvableDoc, file, config, chunks_of, deleted_of, vclock_of, PullVerdict, take_remote,
  keep_local, silent_merge, resolve_on_pull,
}
use obsidian_couchsync.Store.{Store}
use obsidian_couchsync.Store.Commit.{get_doc}
use obsidian_couchsync.PendingSets.{
  PendingConflictKind, pull_delete_vs_edit, local_delete_vs_remote_edit, edit_vs_edit,
}

-- A row of the remote changes feed.
pub record ChangeRow : Type 0 where
  pub id : Text
  pub deleted : Bool
  pub doc : Option CouchSyncDoc

pub record BatchStats : Type 0 where
  pub keep_local_count : ℕ
  pub chunk_count : ℕ
  pub deleted_count : ℕ
  pub converged_skip_count : ℕ
  pub vclock_only_drift_count : ℕ

pub record ConcurrentEntry : Type 0 where
  pub file_path : Text
  pub local_doc : CouchSyncDoc
  pub remote_doc : CouchSyncDoc

-- What `classify` gathers, and the field `emittedConflicts`.
pub record Batch : Type 0 where
  pub accepted : List CouchSyncDoc
  pub concurrent : List ConcurrentEntry
  pub conflicts : List (Text × PendingConflictKind)
  pub stats : BatchStats
  pub emitted : List Text

pub data PullError : Type 0 where
  schema_version_mismatch chunk_fetch_failed not_a_path_id : PullError

-- A throw keeps the conflicts that the writer has marked as emitted.
pub data Pulled : Type 0 where
  ok : Batch → Pulled
  err : PullError → List Text → Pulled

-- `ensure_chunks` says whether the fetch completes, `probe_unpushed` is `none` where the probe throws.
pub record PullEnv : Type 0 where
  pub store : Store
  pub has_resolver : Bool
  pub ensure_chunks : FileDoc → Bool
  pub probe_unpushed : Text → Option Bool

unfoldable pub build_deletion_tombstone : Text → FileDoc → FileDoc
build_deletion_tombstone id local_doc = record {
  id = id;
  rev = none;
  schema_version = file_schema_version;
  chunks = [];
  mtime = local_doc.mtime;
  ctime = local_doc.ctime;
  size = 0;
  deleted = true;
  vclock = some [];
}

unfoldable pub build_accepted_tombstone : Text → FileDoc → FileDoc
build_accepted_tombstone id local_doc = record {
  id = id;
  rev = none;
  schema_version = file_schema_version;
  chunks = [];
  mtime = local_doc.mtime;
  ctime = local_doc.ctime;
  size = 0;
  deleted = true;
  vclock = some (or_default local_doc.vclock []);
}

-- A probe that throws counts as an unpushed edit.
unfoldable pub probe_unpushed_safe : PullEnv → Text → Bool
probe_unpushed_safe env path = or_default (env.probe_unpushed path) true

abbrev add_emitted : Text → List Text → List Text
add_emitted id ids = if contains id ids then ids else ids ++ (id ∷ [])

abbrev pub accept : CouchSyncDoc → Batch → Batch
accept d b = record b { accepted = b.accepted ++ (d ∷ []) }

-- `pendingConflictAdd.push(...)` and `emittedConflicts.add(...)`
abbrev pub remember : Text → PendingConflictKind → Batch → Batch
remember id kind b = record b {
  conflicts = b.conflicts ++ ((id, kind) ∷ []);
  emitted = add_emitted id b.emitted;
}

abbrev pub present : Text → CouchSyncDoc → CouchSyncDoc → Batch → Batch
present path local_doc remote_doc b =
    let e : ConcurrentEntry = record {
      file_path = path;
      local_doc = local_doc;
      remote_doc = remote_doc;
    } in
    record b { concurrent = b.concurrent ++ (e ∷ []) }

-- `handlePulledDeletion`, from the path and the local doc on.
unfoldable pub pulled_deletion : PullEnv → Text → Text → Option CouchSyncDoc → Batch → Batch
pulled_deletion env id path (some (file_doc l)) b =
    if l.deleted
    then b
    else if probe_unpushed_safe env path
    then present path (file_doc l) (file_doc (build_deletion_tombstone id l))
        (remember id pull_delete_vs_edit b)
    else accept (file_doc (build_accepted_tombstone id l)) b
pulled_deletion env id path _ b = b

abbrev count_deleted : Batch → Batch
count_deleted b = record b {
  stats = record (b.stats) { deleted_count = b.stats.deleted_count + 1 };
}

unfoldable pub handle_pulled_deletion : PullEnv → Text → Batch → Pulled
handle_pulled_deletion env id b = elim (file_path_from_id id) [
  | none ↦ err not_a_path_id b.emitted
  | some path ↦ ok (count_deleted (pulled_deletion env id path (get_doc id env.store) b))
]

abbrev pub to_doc : ResolvableDoc → CouchSyncDoc
to_doc (file d) = file_doc d
to_doc (config d) = config_doc d

abbrev is_equal : VcRelation → Bool
is_equal equal = true
is_equal _ = false

-- The idempotency test before the resolver: a doc that has truly converged.
unfoldable pub is_converged : ResolvableDoc → ResolvableDoc → Bool
is_converged l r =
    ltb 0 (length (keys (vclock_of l)))
    && (is_equal (compare_vc (vclock_of l) (vclock_of r))
        && (chunk_lists_equal (chunks_of l) (chunks_of r) && bool_eq (deleted_of l) (deleted_of r)))

-- The kind under which a conflict of two file docs is persisted.
unfoldable pub conflict_kind : FileDoc → FileDoc → Option PendingConflictKind
conflict_kind l r =
    if r.deleted && not l.deleted
    then some pull_delete_vs_edit
    else if l.deleted && not r.deleted
    then some local_delete_vs_remote_edit
    else if not l.deleted && not r.deleted
    then some edit_vs_edit
    else none

abbrev remember_if : Text → Option PendingConflictKind → Batch → Batch
remember_if id none b = b
remember_if id (some kind) b = remember id kind b

-- The verdict "concurrent".
unfoldable pub on_concurrent : PullEnv → Text → ResolvableDoc → ResolvableDoc → Batch → Pulled
on_concurrent env path l (config r) b = ok (present path (to_doc l) (config_doc r) b)
on_concurrent env path (config l) (file r) b =
    if env.ensure_chunks r
    then ok (present path (config_doc l) (file_doc r) b)
    else err chunk_fetch_failed b.emitted
on_concurrent env path (file l) (file r) b =
    if env.ensure_chunks r
    then ok (present path (file_doc l) (file_doc r) (remember_if r.id (conflict_kind l r) b))
    else err chunk_fetch_failed b.emitted

-- The remote doc with the merged clock.
unfoldable pub with_merged_clock : ResolvableDoc → ResolvableDoc → CouchSyncDoc
with_merged_clock l (file r) =
    file_doc (record r { vclock = some (merge_vc (vclock_of l) (vclock_of (file r))) })
with_merged_clock l (config r) =
    config_doc (record r { vclock = some (merge_vc (vclock_of l) (vclock_of (config r))) })

abbrev count_kept : Batch → Batch
count_kept b = record b {
  stats = record (b.stats) { keep_local_count = b.stats.keep_local_count + 1 };
}

abbrev count_converged : Batch → Batch
count_converged b = record b {
  stats = record (b.stats) { converged_skip_count = b.stats.converged_skip_count + 1 };
}

abbrev pub count_drift : Batch → Batch
count_drift b = record b {
  stats = record (b.stats) { vclock_only_drift_count = b.stats.vclock_only_drift_count + 1 };
}

abbrev count_chunk : Batch → Batch
count_chunk b = record b { stats = record (b.stats) { chunk_count = b.stats.chunk_count + 1 } }

unfoldable pub on_verdict :
    PullEnv → Text → ResolvableDoc → ResolvableDoc → PullVerdict → Batch → Pulled
on_verdict env path l r keep_local b = ok (count_kept b)
on_verdict env path l r PullVerdict.concurrent b = on_concurrent env path l r b
on_verdict env path l r silent_merge b = ok (accept (with_merged_clock l r) (count_drift b))
on_verdict env path l r take_remote b = ok (accept (to_doc r) b)

abbrev pub path_of : ResolvableDoc → Option Text
path_of (file d) = file_path_from_id d.id
path_of (config d) = config_path_from_id d.id

-- A remote doc against a local one of a kind that has a clock.
unfoldable pub judge : PullEnv → ResolvableDoc → ResolvableDoc → Batch → Pulled
judge env l r b = if is_converged l r then ok (count_converged b) else elim (path_of r) [
  | none ↦ err not_a_path_id b.emitted
  | some path ↦ on_verdict env path l r (resolve_on_pull (some l) r none) b
]

unfoldable pub against_local : PullEnv → Option CouchSyncDoc → ResolvableDoc → Batch → Pulled
against_local env (some (file_doc l)) r b = judge env (file l) r b
against_local env (some (config_doc l)) r b = judge env (config l) r b
against_local env _ r b = ok (accept (to_doc r) b)

unfoldable pub classify_resolvable : PullEnv → ℕ → ℕ → ResolvableDoc → Batch → Pulled
classify_resolvable env version expected r b =
    if not (eqb version expected)
    then err schema_version_mismatch b.emitted
    else if env.has_resolver
    then against_local env (get_doc (doc_id (to_doc r)) env.store) r b
    else ok (accept (to_doc r) b)

unfoldable pub classify_doc : PullEnv → CouchSyncDoc → Batch → Pulled
classify_doc env (chunk_doc c) b = ok (count_chunk b)
classify_doc env (file_doc d) b =
    classify_resolvable env d.schema_version file_schema_version (file d) b
classify_doc env (config_doc d) b =
    classify_resolvable env d.schema_version config_schema_version (config d) b

unfoldable pub classify_row : PullEnv → ChangeRow → Batch → Pulled
classify_row env row b =
    if row.deleted
    then if is_file_doc_id row.id then handle_pulled_deletion env row.id b else ok b
    else elim (row.doc) [ none ↦ ok b | some d ↦ classify_doc env (strip_rev d) b ]

unfoldable pub classify_rows : PullEnv → List ChangeRow → Batch → Pulled
classify_rows env [] b = ok b
classify_rows env (row ∷ rows) b = elim (classify_row env row b) [
  | err e emitted ↦ err e emitted
  | ok b' ↦ classify_rows env rows b'
]

abbrev pub empty_batch : List Text → Batch
empty_batch emitted = record {
  accepted = [];
  concurrent = [];
  conflicts = [];
  stats = record {
    keep_local_count = 0;
    chunk_count = 0;
    deleted_count = 0;
    converged_skip_count = 0;
    vclock_only_drift_count = 0;
  };
  emitted = emitted;
}

-- `classify`, with `emittedConflicts` as it was.
unfoldable pub classify : PullEnv → List Text → List ChangeRow → Pulled
classify env emitted rows = classify_rows env rows (empty_batch emitted)

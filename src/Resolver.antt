-- ===== src/Resolver.antt =====
-- The pull-time verdict (src/conflict/conflict-resolver.ts).
pub mod Verdicts
use obsidian_couchsync.Prelude.{
  List, [], ◌∷◌, Option, none, some, Bool, true, false, ◌||◌, or_default, if◌then◌else◌,
}
use obsidian_couchsync.Prelude.Text.{Text}
use obsidian_couchsync.VectorClock.{VectorClock}
use obsidian_couchsync.Classify.{
  SyncRelation, identical, vclock_only_drift, remote_edit, local_edit, true_divergent,
  ClassifyInput, is_true, classify_sync_relation,
}
use obsidian_couchsync.Docs.{FileDoc, ConfigDoc}

-- `ResolvableDoc`: a file doc or a config doc, both with chunks, a deletion flag and a clock.
pub data ResolvableDoc : Type 0 where
  file : FileDoc → ResolvableDoc
  config : ConfigDoc → ResolvableDoc

abbrev pub chunks_of : ResolvableDoc → List Text
chunks_of (file d) = d.chunks
chunks_of (config d) = d.chunks

abbrev pub deleted_of : ResolvableDoc → Bool
deleted_of (file d) = d.deleted
deleted_of (config d) = d.deleted

-- `doc.vclock ?? {}`
abbrev pub vclock_of : ResolvableDoc → VectorClock
vclock_of (file d) = or_default d.vclock []
vclock_of (config d) = or_default d.vclock []

pub data PullVerdict : Type 0 where
  take_remote keep_local concurrent silent_merge : PullVerdict

-- What `resolveOnPull` hands to the classifier.
unfoldable pub pull_input : ResolvableDoc → ResolvableDoc → Option Bool → ClassifyInput
pull_input local_doc remote_doc recreate_authority = record {
  left_vc = vclock_of local_doc;
  left_chunks = chunks_of local_doc;
  left_deleted = some (deleted_of local_doc);
  left_vc_attributed = none;
  right_vc = vclock_of remote_doc;
  right_chunks = chunks_of remote_doc;
  right_deleted = some (deleted_of remote_doc);
  last_synced = none;
  recreate_authority = some (is_true recreate_authority);
}

unfoldable pub verdict_of : SyncRelation → PullVerdict
verdict_of identical = keep_local
verdict_of vclock_only_drift = silent_merge
verdict_of remote_edit = take_remote
verdict_of local_edit = keep_local
verdict_of true_divergent = concurrent

-- `extractVaultPath` serves the log alone: it throws on no id that a file or config doc has.
unfoldable pub resolve_on_pull : Option ResolvableDoc → ResolvableDoc → Option Bool → PullVerdict
resolve_on_pull none remote_doc recreate_authority = take_remote
resolve_on_pull (some local_doc) remote_doc recreate_authority =
    verdict_of (classify_sync_relation (pull_input local_doc remote_doc recreate_authority))

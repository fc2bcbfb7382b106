-- ===== src/PullWriter/Commit.antt =====
-- The commit of a pulled batch: `commit`, `computePendingApplyAdd` and `apply` of the pull writer,
-- and the batch step of the pull pipeline (src/db/sync/pull-pipeline.ts, `applyBatch`).
use obsidian_couchsync.Prelude.{
  ℕ, ◌+◌, List, [], ◌∷◌, map, Option, none, some, Bool, true, false, not, ◌&&◌, ltb, if◌then◌else◌,
  is_some, filter, length, contains,
}
use obsidian_couchsync.Prelude.Text.{Text, text_eq}
use obsidian_couchsync.Prelude.Dict.{lookup, keys}
use obsidian_couchsync.Docs.{FileDoc, CouchSyncDoc, file_doc, doc_id}
use obsidian_couchsync.Store.{Seq, Store, update_seq}
use obsidian_couchsync.PendingSets.{
  PendingApplyReason, missing_chunks, pending_deletion, PendingConflictKind,
}
use obsidian_couchsync.Checkpoints.{Checkpoints, commit_pull_batch, save_empty_pull_batch}
use obsidian_couchsync.PendingApply.{
  PendingApply, WriteOutcome, applied, declined, threw, note_recorded, resolve,
}
use obsidian_couchsync.Echo.{EchoTracker, record_pull_writes}
use obsidian_couchsync.PullWriter.{ChangeRow, Batch, ok, err, PullError, PullEnv, classify}

-- Why a doc of the batch may still be owed to the vault: a deletion, or chunks that
-- `localDb.getChunks` does not find.
unfoldable pub reason_for : Store → FileDoc → Option PendingApplyReason
reason_for s d =
    if d.deleted
    then some pending_deletion
    else if ltb (length (filter (λ c. is_some (lookup c s.docs)) d.chunks)) (length d.chunks)
    then some missing_chunks
    else none

unfoldable pub compute_pending_apply_add :
    Store → List CouchSyncDoc → List (Text × PendingApplyReason)
compute_pending_apply_add s [] = []
compute_pending_apply_add s (file_doc d ∷ docs) =
    let rest = compute_pending_apply_add s docs in
    elim (reason_for s d) [ none ↦ rest | some reason ↦ (d.id, reason) ∷ rest ]
compute_pending_apply_add s (_ ∷ docs) = compute_pending_apply_add s docs

-- What the environment does in `onCommit`.
pub record VaultEnv : Type 0 where
  pub now : ℕ
  pub ensure_chunks : FileDoc → Bool
  pub apply_pull_write : FileDoc → WriteOutcome

-- The body of the `try` for one doc: tombstones skip the chunk fetch.
unfoldable pub vault_outcome : VaultEnv → FileDoc → WriteOutcome
vault_outcome env d =
    if not d.deleted && not (env.ensure_chunks d) then threw else env.apply_pull_write d

-- The ids that the loop collects in `resolved`.
unfoldable pub resolved_ids : VaultEnv → List Text → List CouchSyncDoc → List Text
resolved_ids env pending_set [] = []
resolved_ids env pending_set (file_doc d ∷ docs) =
    let rest = resolved_ids env pending_set docs in
    elim (vault_outcome env d) [
      | threw ↦ rest
      | _ ↦ if contains d.id pending_set then d.id ∷ rest else rest
    ]
resolved_ids env pending_set (_ ∷ docs) = resolved_ids env pending_set docs

-- `writtenCount`, `skipCount` and `writeFailCount`.
pub record WriteStats : Type 0 where
  pub written_count : ℕ
  pub skip_count : ℕ
  pub write_fail_count : ℕ

unfoldable pub write_stats : VaultEnv → List CouchSyncDoc → WriteStats
write_stats env [] = record { written_count = 0; skip_count = 0; write_fail_count = 0 }
write_stats env (file_doc d ∷ docs) =
    let t = write_stats env docs in
    elim (vault_outcome env d) [
      | applied ↦ record t { written_count = t.written_count + 1 }
      | declined ↦ record t { skip_count = t.skip_count + 1 }
      | threw ↦ record t { write_fail_count = t.write_fail_count + 1 }
    ]
write_stats env (_ ∷ docs) = write_stats env docs

-- The state that a batch works on.
pub record PullState : Type 0 where
  pub checkpoints : Checkpoints
  pub store : Store
  pub echoes : EchoTracker
  pub pending : PendingApply

-- The batch after its transaction and the `onCommit` closure, and then after `resolve`.
-- `none`: the transaction failed.
unfoldable pub commit :
    VaultEnv
    → List CouchSyncDoc
    → Seq
    → List (Text × PendingConflictKind)
    → PullState
    → Option (PullState × WriteStats)
commit env accepted next conflicts st =
    let adds = compute_pending_apply_add st.store accepted in
    elim (commit_pull_batch env.now accepted next adds conflicts (st.checkpoints, st.store)) [
      | none ↦ none
      | some (cp, s) ↦
          let noted = note_recorded env.now adds st.pending in
          let resolved = resolved_ids env (keys adds) accepted in
          let settled = resolve env.now resolved (noted, s) in
          some (
            record {
              checkpoints = cp;
              store = settled.1;
              echoes =
                  record_pull_writes env.now (map doc_id accepted) (update_seq s.meta) st.echoes;
              pending = settled.0;
            },
            write_stats env accepted,
          )
    ]

-- `tx_failed`: the transaction failed. For an empty batch the pipeline then reports the error and
-- goes on to the drains.
pub data BatchResult : Type 0 where
  batched : PullState → Batch → BatchResult
  failed : PullError → BatchResult
  tx_failed : BatchResult

abbrev pub no_docs : List CouchSyncDoc → Bool
no_docs [] = true
no_docs (_ ∷ _) = false

-- `apply` and the checkpoint of an empty batch in `applyBatch`. The drains that follow are modelled
-- by themselves.
unfoldable pub apply_batch :
    PullEnv → VaultEnv → List Text → List ChangeRow → Seq → PullState → BatchResult
apply_batch penv env emitted rows next st = elim (classify penv emitted rows) [
  | err e _ ↦ failed e
  | ok b ↦
      if no_docs b.accepted
      then elim (save_empty_pull_batch env.now next b.conflicts (st.checkpoints, st.store)) [
        | none ↦ tx_failed
        | some (cp, s) ↦ batched (record st { checkpoints = cp; store = s }) b
      ]
      else elim (commit env b.accepted next b.conflicts st) [
        | none ↦ tx_failed
        | some (st', _) ↦ batched st' b
      ]
]

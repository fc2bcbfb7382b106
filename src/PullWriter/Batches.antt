-- ===== src/PullWriter/Batches.antt =====
-- A whole pull batch (`applyBatch` of src/db/sync/pull-pipeline.ts), from the rows to the store.
use obsidian_couchsync.Prelude.{
  ℕ, ◌≡◌, refl, ◌∙◌, inl, inr, List, [], ◌∷◌, Option, none, some, true, not, ◌||◌, arith,
  if◌then◌else◌, All, ◌==◌, is_some, Bool-cases,
}
use obsidian_couchsync.Prelude.Text.{Text, text_eq}
use obsidian_couchsync.Prelude.Dict.{lookup}
use obsidian_couchsync.Docs.{doc_id}
use obsidian_couchsync.Store.{Seq, seq, MetaValue}
use obsidian_couchsync.Store.{Store}
use obsidian_couchsync.PendingSets.{PendingConflictKind, pending_conflict_key}
use obsidian_couchsync.Checkpoints.{meta_remote_seq}
use obsidian_couchsync.Checkpoints.Writes.{last_entry}
use obsidian_couchsync.Checkpoints.Pull.{conflict_after, save_empty_pull_batch-EmptyLanded}
use obsidian_couchsync.PullWriter.{ChangeRow, ConcurrentEntry, PullEnv, classify}
use obsidian_couchsync.PullWriter.Rows.{Pulled-cases}
use obsidian_couchsync.PullWriter.Conflicts.{has_entry, both_files, Remembered, classify-Remembered}
use obsidian_couchsync.PullWriter.Commit.{
  VaultEnv, PullState, BatchResult, batched, failed, tx_failed, apply_batch, no_docs,
}
use obsidian_couchsync.PullWriter.Landed.{commit-CommitLanded}

last_entry-has_entry :
    (id : Text) (es : List (Text × PendingConflictKind)) (old : Option PendingConflictKind)
    → is_some (last_entry id es old) ≡ (has_entry id es || is_some old)
last_entry-has_entry id [] old = refl
last_entry-has_entry id ((j, k) ∷ es) old =
    last_entry-has_entry id es (if j == id then some k else old) ∙ ground arith

is_some-conflict_after :
    (now : ℕ) (es : List (Text × PendingConflictKind)) (id : Text) (old : Option MetaValue)
    → has_entry id es ≡ true
    → is_some (conflict_after now es id old) ≡ true
is_some-conflict_after now es id old h = ground (arith, last_entry-has_entry id es none)

-- The conflict, if it is one of two file docs, has a pending-conflict entry in the store.
abbrev pub Persisted : Store → ConcurrentEntry → Type 0
Persisted s e =
    (not (both_files e) || is_some (lookup (pending_conflict_key (doc_id e.remote_doc)) s.meta))
    ≡ true

All-Persisted :
    (now : ℕ) (conflicts : List (Text × PendingConflictKind)) (s t : Store)
    → ((id : Text)
        → lookup (pending_conflict_key id) t.meta
          ≡ conflict_after now conflicts id (lookup (pending_conflict_key id) s.meta))
    → (es : List ConcurrentEntry) → All (Remembered conflicts) es
    → All (Persisted t) es
All-Persisted now conflicts s t h [] r = tt
All-Persisted now conflicts s t h (e ∷ es) r = (
  ground (
    arith,
    h (doc_id e.remote_doc),
    is_some-conflict_after now conflicts (doc_id e.remote_doc)
        (lookup (pending_conflict_key (doc_id e.remote_doc)) s.meta),
  ),
  All-Persisted now conflicts s t h es r.1,
)

-- The outcome of a batch: a failed classification, or a state that is past the rows and has kept
-- every conflict.
abbrev pub BatchLanded : Seq → BatchResult → Type 0
BatchLanded next (failed e) = Unit
BatchLanded next tx_failed = ⊥
BatchLanded next (batched st b) =
    (lookup meta_remote_seq st.store.meta ≡ some (seq next))
    × (st.checkpoints.remote_seq ≡ next)
    × All (Persisted st.store) b.concurrent

-- The transaction of a pull batch never fails, and a batch that classifies lands: the new remote
-- cursor is in memory and on disk, and every conflict of two file docs that the batch presents has a
-- pending-conflict entry in the store, whether or not the batch brings docs, and whatever the rows,
-- the chunk fetches and the vault writes are. The remote cursor on disk is taken to be the one in
-- memory before the batch.
pub apply_batch-BatchLanded :
    (penv : PullEnv) (env : VaultEnv) (emitted : List Text) (rows : List ChangeRow) (next : Seq)
    (st : PullState)
    → lookup meta_remote_seq st.store.meta ≡ some (seq st.checkpoints.remote_seq)
    → BatchLanded next (apply_batch penv env emitted rows next st)
unfolding apply_batch
apply_batch-BatchLanded penv env emitted rows next st synced =
    elim (Pulled-cases (classify penv emitted rows)) [
      | inr (e, kept, fails) ↦ rw (fails, apply_batch) tt
      | inl (b, e) ↦
          let remembered = classify-Remembered penv emitted rows b e in
          elim (Bool-cases (no_docs b.accepted)) [
            | inl nothing ↦
                let (t, ran, (cursor, docs_are, kept)) =
                  save_empty_pull_batch-EmptyLanded env.now next b.conflicts st.checkpoints st.store
                    synced in
                rw (e, nothing, ran, apply_batch)
                  (
                    cursor,
                    refl,
                    All-Persisted env.now b.conflicts st.store t kept b.concurrent remembered,
                  )
            | inr some_docs ↦
                let (st', ran, (here, cursor, _, kept, _, _)) =
                  commit-CommitLanded env b.accepted next b.conflicts st in
                rw (e, some_docs, ran, apply_batch)
                  (
                    cursor,
                    here,
                    All-Persisted env.now b.conflicts st.store st'.store kept b.concurrent
                        remembered,
                  )
          ]
    ]

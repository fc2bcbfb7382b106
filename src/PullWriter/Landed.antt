-- ===== src/PullWriter/Landed.antt =====
-- What a committed pull batch leaves behind (`commit` of src/db/sync/pull-writer.ts, `applyBatch` of
-- src/db/sync/pull-pipeline.ts).
use obsidian_couchsync.Prelude.{
  ℕ, ◌≡◌, refl, ap, ◌∙◌, ◌⊎◌, inl, inr, List, ◌∷◌, ◌++◌, map, Option, none, some, Bool, true, false,
  contains, Bool-cases,
}
use obsidian_couchsync.Prelude.Text.{Text, text_eq, text_beq}
use obsidian_couchsync.Prelude.Dict.{lookup, keys}
use obsidian_couchsync.Docs.{FileDoc, CouchSyncDoc, file_doc, doc_id, strip_rev}
use obsidian_couchsync.Store.{Seq, seq, MetaValue, update_seq}
use obsidian_couchsync.Echo.{record_pull_writes}
use obsidian_couchsync.Store.Commit.{get_doc}
use obsidian_couchsync.PendingSets.{
  PendingApplyReason, PendingConflictKind, unpushed_key, pending_apply_key, pending_conflict_key,
  apply_value,
}
use obsidian_couchsync.Checkpoints.{meta_remote_seq}
use obsidian_couchsync.Checkpoints.Writes.{or_value}
use obsidian_couchsync.Checkpoints.Pull.{
  apply_after, conflict_after, last_pulled, commit_pull_batch-PullLanded,
}
use obsidian_couchsync.PendingApply.{threw, note_recorded, resolve}
use obsidian_couchsync.PendingApply.Resolve.{
  lookup-resolve_other, lookup-resolve_key, get_doc-resolve,
}
use obsidian_couchsync.PullWriter.Commit.{
  reason_for, compute_pending_apply_add, VaultEnv, vault_outcome, resolved_ids, write_stats,
  PullState, commit,
}
use obsidian_couchsync.PullWriter.Durable.{
  or_else, absent, last_entry-listed, last_pulled-listed, resolved-threw,
}

module _ (env : VaultEnv) (accepted : List CouchSyncDoc) (next : Seq)
    (conflicts : List (Text × PendingConflictKind)) (st : PullState) where
  abbrev adds : List (Text × PendingApplyReason)
  adds = compute_pending_apply_add st.store accepted

  -- The state after the commit of a batch, against the one before.
  abbrev pub CommitLanded : PullState → Type 0
  CommitLanded st' =
      (st'.checkpoints.remote_seq ≡ next)
      × (lookup meta_remote_seq st'.store.meta ≡ some (seq next))
      × ((id : Text) → get_doc id st'.store ≡ last_pulled id accepted (get_doc id st.store))
      × ((id : Text)
          → lookup (pending_conflict_key id) st'.store.meta
            ≡ conflict_after env.now conflicts id (lookup (pending_conflict_key id) st.store.meta))
      × ((id : Text)
          → lookup (unpushed_key id) st'.store.meta ≡ lookup (unpushed_key id) st.store.meta)
      × ((id : Text)
          → (contains id (resolved_ids env (keys adds) accepted) ≡ true)
            ⊎ (lookup (pending_apply_key id) st'.store.meta
                ≡ apply_after env.now adds id (lookup (pending_apply_key id) st.store.meta)))

  -- The commit of a pulled batch always goes through, whatever the chunk fetches and vault writes
  -- do. Afterwards the remote cursor is the new one, in memory and on disk, each doc of the batch is
  -- stored under its id, each conflict of the batch has its entry, and the unpushed set is untouched.
  -- Each id that no write has taken keeps the pending-apply entry that the batch recorded for it, or
  -- else the one it had.
  pub commit-CommitLanded :
      (st' : PullState) × (commit env accepted next conflicts st
        ≡ some (st', write_stats env accepted))
      × CommitLanded st'
  unfolding commit pending_apply_key pending_conflict_key unpushed_key text_beq
  commit-CommitLanded =
      let (t, ran, (cursor, docs_are, applies_are, conflicts_are, unpushed_are, _)) =
        commit_pull_batch-PullLanded env.now next adds conflicts accepted st.checkpoints st.store in
      let ids = resolved_ids env (keys adds) accepted in
      let noted = note_recorded env.now adds st.pending in
      (
        record {
          checkpoints = record (st.checkpoints) { remote_seq = next };
          store = (resolve env.now ids (noted, t)).1;
          echoes = record_pull_writes env.now (map doc_id accepted) (update_seq t.meta) st.echoes;
          pending = (resolve env.now ids (noted, t)).0;
        },
        rw (ran, commit) refl,
        (
          refl,
          lookup-resolve_key env.now ids noted t meta_remote_seq refl (λ a. refl) ∙ cursor,
          λ id. get_doc-resolve env.now ids noted t id ∙ docs_are id,
          λ id.
              lookup-resolve_key env.now ids noted t (pending_conflict_key id) refl (λ a. refl)
              ∙ conflicts_are id,
          λ id.
              lookup-resolve_key env.now ids noted t (unpushed_key id) refl (λ a. refl)
              ∙ unpushed_are id,
          λ id. elim (Bool-cases (contains id ids)) [
            | inl taken ↦ inl taken
            | inr free ↦ inr (lookup-resolve_other env.now ids noted t id free ∙ applies_are id)
          ],
        ),
      )

still_there {ℓ} : {P : Type ℓ} {b : Bool} → (b ≡ true) ⊎ P → b ≡ false → P
still_there (inl e) f = absurd (cc)
still_there (inr p) f = p

-- The entry that a batch at `now` records.
abbrev pub recorded : ℕ → PendingApplyReason → MetaValue
recorded now reason = apply_value (record { added_at = now; reason = reason; missing = none })

module _ (env : VaultEnv) (d : FileDoc) (before after : List CouchSyncDoc) (next : Seq)
    (conflicts : List (Text × PendingConflictKind)) (st : PullState) where
  abbrev batch : List CouchSyncDoc
  batch = before ++ (file_doc d ∷ after)

  -- After the commit of the batch the cursor is past the doc, the doc is in the store, and the
  -- pending-apply entry of its id is `found`.
  abbrev pub PassedWith : Option MetaValue → PullState → Type 0
  PassedWith found st' =
      (commit env batch next conflicts st ≡ some (st', write_stats env batch))
      × (lookup meta_remote_seq st'.store.meta ≡ some (seq next))
      × (get_doc d.id st'.store ≡ some (strip_rev (file_doc d)))
      × (lookup (pending_apply_key d.id) st'.store.meta ≡ found)

  failed_write :
      absent d.id (before ++ after) ≡ true
      → vault_outcome env d ≡ threw
      → (st' : PullState) × PassedWith
          (or_value
            (recorded env.now)
            (or_else (reason_for st.store d) none)
            (lookup (pending_apply_key d.id) st.store.meta))
          st'
  failed_write alone fails =
      let (st', ran, (_, cursor, docs_are, _, _, applies_are)) =
        commit-CommitLanded env batch next conflicts st in
      let adds = compute_pending_apply_add st.store batch in
      (
        st',
        (
          ran,
          cursor,
          docs_are d.id
              ∙ last_pulled-listed (file_doc d) before after (get_doc d.id st.store) alone,
          still_there (applies_are d.id) (resolved-threw env (keys adds) d before after alone fails)
              ∙ ap
                  (λ e.
                    or_value (recorded env.now) e (lookup (pending_apply_key d.id) st.store.meta))
                  (last_entry-listed st.store d before after none alone),
        ),
      )

  -- A doc whose vault write fails is not lost when its chunks are not all local or it is a
  -- tombstone: after the batch the cursor is past the doc and the doc is in the store, but its id
  -- has a pending-apply entry of this batch, with the reason. This holds for each doc that is alone
  -- under its id in the batch, wherever it stands and whatever happens to the other docs.
  pub failed_write-recorded :
      (reason : PendingApplyReason)
      → absent d.id (before ++ after) ≡ true
      → vault_outcome env d ≡ threw
      → reason_for st.store d ≡ some reason
      → (st' : PullState) × PassedWith (some (recorded env.now reason)) st'
  failed_write-recorded reason alone fails owed = rw owed at (failed_write alone fails)

  -- A doc that is alive and has all its chunks local is not recorded: if its vault write fails, the
  -- cursor moves past it and the pending-apply entry of its id stays as it was before the batch,
  -- so that without an earlier entry no drain retries the write.
  pub failed_write-unrecorded :
      absent d.id (before ++ after) ≡ true
      → vault_outcome env d ≡ threw
      → reason_for st.store d ≡ none
      → (st' : PullState) × PassedWith (lookup (pending_apply_key d.id) st.store.meta) st'
  failed_write-unrecorded alone fails owed = rw owed at (failed_write alone fails)

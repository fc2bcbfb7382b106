-- ===== src/PullWriter/Durable.antt =====
-- One doc of a batch among the entries to be recorded and the ids that the vault has taken
-- (`computePendingApplyAdd` and `commit` of src/db/sync/pull-writer.ts).
use obsidian_couchsync.Prelude.{
  ◌≡◌, refl, inl, inr, List, [], ◌∷◌, ◌++◌, map, Option, none, some, Bool, true, false, not, ◌||◌,
  arith, contains, ◌==◌, Option-cases,
}
use obsidian_couchsync.Prelude.Text.{Text, text_eq, text_beq_iff}
use obsidian_couchsync.Docs.{
  FileDoc, CouchSyncDoc, file_doc, chunk_doc, config_doc, doc_id, strip_rev,
}
use obsidian_couchsync.Store.{Store}
use obsidian_couchsync.PendingSets.{PendingApplyReason}
use obsidian_couchsync.Checkpoints.Writes.{last_entry}
use obsidian_couchsync.Checkpoints.Pull.{last_pulled}
use obsidian_couchsync.PendingApply.{threw}
use obsidian_couchsync.PullWriter.Commit.{
  reason_for, compute_pending_apply_add, VaultEnv, vault_outcome, resolved_ids,
}

abbrev pub or_else {ℓ} : {A : Type ℓ} → Option A → Option A → Option A
or_else none old = old
or_else (some x) old = some x

-- No doc of the list has the id.
abbrev pub absent : Text → List CouchSyncDoc → Bool
absent id docs = not (contains id (map doc_id docs))

differ : (d x : Text) (rest : Bool) → not (d == x || rest) ≡ true → (x == d) ≡ false
differ d x rest h = ground (arith, text_beq_iff d x, text_beq_iff x d)

module _ (s : Store) where
  last_entry-absent :
      (id : Text) (docs : List CouchSyncDoc) (old : Option PendingApplyReason)
      → absent id docs ≡ true
      → last_entry id (compute_pending_apply_add s docs) old ≡ old
  unfolding compute_pending_apply_add
  last_entry-absent id [] old h = refl
  last_entry-absent id (chunk_doc c ∷ docs) old h = last_entry-absent id docs old (ground arith)
  last_entry-absent id (config_doc c ∷ docs) old h = last_entry-absent id docs old (ground arith)
  last_entry-absent id (file_doc d ∷ docs) old h = elim (Option-cases (reason_for s d)) [
    | inl safe ↦ rw (safe, compute_pending_apply_add) (last_entry-absent id docs old (ground arith))
    | inr (reason, e) ↦
        rw (e, compute_pending_apply_add, differ id d.id (contains id (map doc_id docs)) h)
          (last_entry-absent id docs old (ground arith))
  ]

  -- The entry of a doc that stands alone under its id.
  pub last_entry-listed :
      (d : FileDoc) (before after : List CouchSyncDoc) (old : Option PendingApplyReason)
      → absent d.id (before ++ after) ≡ true
      → last_entry d.id (compute_pending_apply_add s (before ++ (file_doc d ∷ after))) old
        ≡ or_else (reason_for s d) old
  unfolding compute_pending_apply_add
  last_entry-listed d [] after old h = elim (Option-cases (reason_for s d)) [
    | inl safe ↦ rw (safe, compute_pending_apply_add) (last_entry-absent d.id after old h)
    | inr (reason, e) ↦
        rw (e, compute_pending_apply_add, (text_beq_iff d.id d.id).1 refl)
          (last_entry-absent d.id after (some reason) h)
  ]
  last_entry-listed d (chunk_doc c ∷ before) after old h =
      last_entry-listed d before after old (ground arith)
  last_entry-listed d (config_doc c ∷ before) after old h =
      last_entry-listed d before after old (ground arith)
  last_entry-listed d (file_doc x ∷ before) after old h = elim (Option-cases (reason_for s x)) [
    | inl safe ↦
        rw (safe, compute_pending_apply_add) (last_entry-listed d before after old (ground arith))
    | inr (reason, e) ↦
        rw
          (
            e,
            compute_pending_apply_add,
            differ d.id x.id (contains d.id (map doc_id (before ++ after))) h,
          )
          (last_entry-listed d before after old (ground arith))
  ]

last_pulled-absent :
    (id : Text) (docs : List CouchSyncDoc) (old : Option CouchSyncDoc)
    → absent id docs ≡ true
    → last_pulled id docs old ≡ old
last_pulled-absent id [] old h = refl
last_pulled-absent id (d ∷ docs) old h =
    rw (differ id (doc_id d) (contains id (map doc_id docs)) h)
      (last_pulled-absent id docs old (ground arith))

pub last_pulled-listed :
    (d : CouchSyncDoc) (before after : List CouchSyncDoc) (old : Option CouchSyncDoc)
    → absent (doc_id d) (before ++ after) ≡ true
    → last_pulled (doc_id d) (before ++ (d ∷ after)) old ≡ some (strip_rev d)
last_pulled-listed d [] after old h =
    rw ((text_beq_iff (doc_id d) (doc_id d)).1 refl, last_pulled)
      (last_pulled-absent (doc_id d) after (some (strip_rev d)) h)
last_pulled-listed d (x ∷ before) after old h = last_pulled-listed d before after _ (ground arith)

module _ (env : VaultEnv) (pending_set : List Text) where
  resolved-absent :
      (id : Text) (docs : List CouchSyncDoc)
      → absent id docs ≡ true
      → contains id (resolved_ids env pending_set docs) ≡ false
  unfolding resolved_ids
  resolved-absent id [] h = refl
  resolved-absent id (chunk_doc c ∷ docs) h = resolved-absent id docs (ground arith)
  resolved-absent id (config_doc c ∷ docs) h = resolved-absent id docs (ground arith)
  resolved-absent id (file_doc d ∷ docs) h = ground (arith, resolved-absent id docs)

  -- A doc whose vault write throws is not resolved.
  pub resolved-threw :
      (d : FileDoc) (before after : List CouchSyncDoc)
      → absent d.id (before ++ after) ≡ true
      → vault_outcome env d ≡ threw
      → contains d.id (resolved_ids env pending_set (before ++ (file_doc d ∷ after))) ≡ false
  unfolding resolved_ids
  resolved-threw d [] after h e = ground (arith, resolved-absent d.id after)
  resolved-threw d (chunk_doc c ∷ before) after h e = resolved-threw d before after (ground arith) e
  resolved-threw d (config_doc c ∷ before) after h e =
      resolved-threw d before after (ground arith) e
  resolved-threw d (file_doc x ∷ before) after h e = ground (arith, resolved-threw d before after)

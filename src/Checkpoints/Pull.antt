-- ===== src/Checkpoints/Pull.antt =====
-- The commits of pull batches (src/db/sync/checkpoints.ts, `commitPullBatch`, `saveEmptyPullBatch`).
use obsidian_couchsync.Prelude.{
  ℕ, ◌≡◌, refl, sym, ap, ◌∙◌, List, [], ◌∷◌, ◌++◌, Option, none, some, true, false, arith,
  if◌then◌else◌, ◌==◌, Bool-cases, inl, inr,
}
use obsidian_couchsync.Prelude.Text.{Text, text_eq, text_beq, text_beq_iff}
use obsidian_couchsync.Prelude.Dict.{lookup}
use obsidian_couchsync.Docs.{CouchSyncDoc, doc_id, strip_rev}
use obsidian_couchsync.Store.{Seq, num, opaque, seq, MetaValue, MetaWrite, put, Store, run_write_tx}
use obsidian_couchsync.Store.Meta.{last_write, last_write-append}
use obsidian_couchsync.Store.Commit.{get_doc, last_doc, run_write_tx-docs_meta}
use obsidian_couchsync.PendingSets.{
  PendingApplyReason, PendingConflictKind, unpushed_key, pending_apply_key, pending_conflict_key,
  apply_value, conflict_value,
}
use obsidian_couchsync.PendingSets.Keys.{
  pending_apply_key-beq, pending_conflict_key-beq, apply_ne_conflict, conflict_ne_apply,
}
use obsidian_couchsync.Checkpoints.{
  meta_remote_seq, meta_push_seq, Checkpoints, seq_beq, apply_writes, conflict_writes, meta_tx,
  commit_pull_batch, save_empty_pull_batch,
}
use obsidian_couchsync.Checkpoints.Writes.{
  last_entry, or_value, last_write-entry_writes, last_write-entry_writes_other, unguarded_lem,
}

abbrev pub last_pulled : Text → List CouchSyncDoc → Option CouchSyncDoc → Option CouchSyncDoc
last_pulled id [] old = old
last_pulled id (d ∷ ds) old = last_pulled id ds (if doc_id d == id then some (strip_rev d) else old)

last_doc-last_pulled :
    (id : Text) (docs : List CouchSyncDoc) (old : Option CouchSyncDoc)
    → last_doc id (meta_tx docs []).docs old ≡ last_pulled id docs old
last_doc-last_pulled id [] old = refl
last_doc-last_pulled id (d ∷ docs) old = last_doc-last_pulled id docs _

-- The entry under an id after the adds of a batch recorded at `now`.
abbrev pub apply_after :
    ℕ → List (Text × PendingApplyReason) → Text → Option MetaValue → Option MetaValue
apply_after now applies id old =
    or_value (λ reason. apply_value (record { added_at = now; reason = reason; missing = none }))
      (last_entry id applies none) old

abbrev pub conflict_after :
    ℕ → List (Text × PendingConflictKind) → Text → Option MetaValue → Option MetaValue
conflict_after now conflicts id old =
    or_value (λ kind. conflict_value (record { added_at = now; kind = kind }))
      (last_entry id conflicts none) old

remote_seq_ne_apply : (id : Text) → (meta_remote_seq == pending_apply_key id) ≡ false
unfolding pending_apply_key text_beq
remote_seq_ne_apply id = refl

remote_seq_ne_conflict : (id : Text) → (meta_remote_seq == pending_conflict_key id) ≡ false
unfolding pending_conflict_key text_beq
remote_seq_ne_conflict id = refl

remote_seq_ne_unpushed : (id : Text) → (meta_remote_seq == unpushed_key id) ≡ false
unfolding unpushed_key text_beq
remote_seq_ne_unpushed id = refl

module _ (now : ℕ) (next : Seq) (applies : List (Text × PendingApplyReason))
    (conflicts : List (Text × PendingConflictKind)) where
  abbrev batch_writes : List MetaWrite
  batch_writes =
      put meta_remote_seq (seq next) ∷ (apply_writes now applies ++ conflict_writes now conflicts)

  batch-remote_seq :
      (old : Option MetaValue) → last_write meta_remote_seq batch_writes old ≡ some (seq next)
  unfolding apply_writes conflict_writes pending_apply_key pending_conflict_key text_beq
  batch-remote_seq old =
      last_write-append meta_remote_seq (apply_writes now applies) (conflict_writes now conflicts) _
      ∙ last_write-entry_writes_other pending_conflict_key _ meta_remote_seq (λ a. refl) conflicts _
      ∙ last_write-entry_writes_other pending_apply_key _ meta_remote_seq (λ a. refl) applies _

  batch-apply :
      (id : Text) (old : Option MetaValue)
      → last_write (pending_apply_key id) batch_writes old ≡ apply_after now applies id old
  unfolding apply_writes conflict_writes
  batch-apply id old =
      last_write-append (pending_apply_key id) (apply_writes now applies)
        (conflict_writes now conflicts) _
      ∙ last_write-entry_writes_other pending_conflict_key _ (pending_apply_key id)
          (λ a. conflict_ne_apply a id) conflicts _
      ∙ last_write-entry_writes pending_apply_key _ pending_apply_key-beq id applies _
      ∙ rw remote_seq_ne_apply

  batch-conflict :
      (id : Text) (old : Option MetaValue)
      → last_write (pending_conflict_key id) batch_writes old ≡ conflict_after now conflicts id old
  unfolding apply_writes conflict_writes
  batch-conflict id old =
      last_write-append (pending_conflict_key id) (apply_writes now applies)
        (conflict_writes now conflicts) _
      ∙ last_write-entry_writes pending_conflict_key _ pending_conflict_key-beq id conflicts _
      ∙ ap (or_value _ (last_entry id conflicts none)) (
          last_write-entry_writes_other pending_apply_key _ (pending_conflict_key id)
            (λ a. apply_ne_conflict a id) applies _
          ∙ rw remote_seq_ne_conflict)

  batch-unpushed :
      (id : Text) (old : Option MetaValue) → last_write (unpushed_key id) batch_writes old ≡ old
  unfolding apply_writes conflict_writes pending_apply_key pending_conflict_key unpushed_key
      text_beq
  batch-unpushed id old =
      last_write-append (unpushed_key id) (apply_writes now applies) (conflict_writes now conflicts)
        _
      ∙ last_write-entry_writes_other pending_conflict_key _ (unpushed_key id) (λ a. refl) conflicts
          _
      ∙ last_write-entry_writes_other pending_apply_key _ (unpushed_key id) (λ a. refl) applies _

  batch-push_seq : (old : Option MetaValue) → last_write meta_push_seq batch_writes old ≡ old
  unfolding apply_writes conflict_writes pending_apply_key pending_conflict_key text_beq
  batch-push_seq old =
      last_write-append meta_push_seq (apply_writes now applies) (conflict_writes now conflicts) _
      ∙ last_write-entry_writes_other pending_conflict_key _ meta_push_seq (λ a. refl) conflicts _
      ∙ last_write-entry_writes_other pending_apply_key _ meta_push_seq (λ a. refl) applies _

  -- What holds of the store after the transaction of a pull batch.
  abbrev pub PullLanded : List CouchSyncDoc → Store → Store → Type 0
  PullLanded docs s t =
      (lookup meta_remote_seq t.meta ≡ some (seq next))
      × ((id : Text) → get_doc id t ≡ last_pulled id docs (get_doc id s))
      × ((id : Text)
          → lookup (pending_apply_key id) t.meta
            ≡ apply_after now applies id (lookup (pending_apply_key id) s.meta))
      × ((id : Text)
          → lookup (pending_conflict_key id) t.meta
            ≡ conflict_after now conflicts id (lookup (pending_conflict_key id) s.meta))
      × ((id : Text) → lookup (unpushed_key id) t.meta ≡ lookup (unpushed_key id) s.meta)
      × (lookup meta_push_seq t.meta ≡ lookup meta_push_seq s.meta)

  -- commitPullBatch always commits, since none of its docs is guarded by a clock. Its one
  -- transaction leaves the new remote cursor, each doc of the batch under its id, a pending-apply
  -- entry for each listed id and a pending-conflict entry for each listed id. All other docs and
  -- entries, the unpushed set and the push cursor stay as they were, and the cursor in memory is
  -- the one on disk.
  pub commit_pull_batch-PullLanded :
      (docs : List CouchSyncDoc) (cp : Checkpoints) (s : Store)
      → (t : Store) × (commit_pull_batch now docs next applies conflicts (cp, s)
          ≡ some (record cp { remote_seq = next }, t))
        × PullLanded docs s t
  unfolding commit_pull_batch pending_apply_key pending_conflict_key unpushed_key text_beq
  commit_pull_batch-PullLanded docs cp s =
      let (t, ran, docs_are, meta_is) =
        run_write_tx-docs_meta now (meta_tx docs []).docs batch_writes s (unguarded_lem docs) in
      (
        t,
        rw (ran, commit_pull_batch),
        (
          meta_is meta_remote_seq refl ∙ batch-remote_seq (lookup meta_remote_seq s.meta),
          λ id. docs_are id ∙ last_doc-last_pulled id docs (get_doc id s),
          λ id. meta_is (pending_apply_key id) refl ∙ batch-apply id _,
          λ id. meta_is (pending_conflict_key id) refl ∙ batch-conflict id _,
          λ id. meta_is (unpushed_key id) refl ∙ batch-unpushed id _,
          meta_is meta_push_seq refl ∙ batch-push_seq _,
        ),
      )

pub seq_beq_eq : (a b : Seq) → seq_beq a b ≡ true → a ≡ b
unfolding seq_beq
seq_beq_eq (num a) (num b) h = ground arith
seq_beq_eq (num a) (opaque b) h = ground arith
seq_beq_eq (opaque a) (num b) h = ground arith
seq_beq_eq (opaque a) (opaque b) h = ground (arith, text_beq_iff a b)

-- What holds of the store after an empty batch.
abbrev pub EmptyLanded : ℕ → Seq → List (Text × PendingConflictKind) → Store → Store → Type 0
EmptyLanded now next conflicts s t =
    (lookup meta_remote_seq t.meta ≡ some (seq next))
    × ((id : Text) → get_doc id t ≡ get_doc id s)
    × ((id : Text)
        → lookup (pending_conflict_key id) t.meta
          ≡ conflict_after now conflicts id (lookup (pending_conflict_key id) s.meta))

empty_batch_tx :
    (now : ℕ) (next : Seq) (conflicts : List (Text × PendingConflictKind)) (s : Store)
    → (t : Store) × (run_write_tx now
          (meta_tx [] (put meta_remote_seq (seq next) ∷ conflict_writes now conflicts))
          s
        ≡ some t)
      × EmptyLanded now next conflicts s t
unfolding pending_conflict_key text_beq apply_writes
empty_batch_tx now next conflicts s =
    let (t, ran, docs_are, meta_is) =
      run_write_tx-docs_meta now [] (batch_writes now next [] conflicts) s refl in
    (
      t,
      ran,
      (
        meta_is meta_remote_seq refl
            ∙ batch-remote_seq now next [] conflicts (lookup meta_remote_seq s.meta),
        docs_are,
        λ id. meta_is (pending_conflict_key id) refl ∙ batch-conflict now next [] conflicts id _,
      ),
    )

-- saveEmptyPullBatch always succeeds. If the cursor on disk is the one in memory, then afterwards the
-- new cursor is both in memory and on disk, also where the no-op guard skips the write, every listed
-- conflict has its entry, and the other conflict entries and the docs are as they were.
pub save_empty_pull_batch-EmptyLanded :
    (now : ℕ) (next : Seq) (conflicts : List (Text × PendingConflictKind)) (cp : Checkpoints)
    (s : Store)
    → lookup meta_remote_seq s.meta ≡ some (seq cp.remote_seq)
    → (t : Store) × (save_empty_pull_batch now next conflicts (cp, s)
        ≡ some (record cp { remote_seq = next }, t))
      × EmptyLanded now next conflicts s t
unfolding save_empty_pull_batch
save_empty_pull_batch-EmptyLanded now next [] cp s synced =
    let (t, ran, landed) = empty_batch_tx now next [] s in
    elim (Bool-cases (seq_beq next cp.remote_seq)) [
      | inl same ↦
          let e : next ≡ cp.remote_seq = seq_beq_eq next cp.remote_seq same in
          (
            s,
            rw same (ground arith),
            (synced ∙ ap (λ n. some (seq n)) (sym e), λ id. refl, λ id. refl),
          )
      | inr other ↦ (t, rw (other, ran, save_empty_pull_batch), landed)
    ]
save_empty_pull_batch-EmptyLanded now next (c ∷ conflicts) cp s synced =
    let (t, ran, landed) = empty_batch_tx now next (c ∷ conflicts) s in
    (t, rw (ran, save_empty_pull_batch), landed)

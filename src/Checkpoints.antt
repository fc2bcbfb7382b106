-- ===== src/Checkpoints.antt =====
-- The sync cursors and the commits that advance them (src/db/sync/checkpoints.ts).
pub mod Writes
pub mod Pull
pub mod Push
use obsidian_couchsync.Prelude.{
  ℕ, List, [], ◌∷◌, ◌++◌, map, Option, none, some, Bool, true, false, ◌&&◌, eqb, if◌then◌else◌,
  or_default, ◌==◌, not, ◌||◌, is_some,
}
use obsidian_couchsync.Prelude.Text.{Text, text_eq, lit}
use obsidian_couchsync.Prelude.Dict.{Dict, lookup}
use obsidian_couchsync.Docs.{CouchSyncDoc}
use obsidian_couchsync.Store.{
  Seq, num, opaque, MetaValue, seq, synced, entry, MetaWrite, put, Store, DocWrite,
  WriteTransaction, run_write_tx,
}
use obsidian_couchsync.PendingSets.{
  UnpushedReason, PendingApplyReason, PendingConflictKind, unpushed_key, pending_apply_key,
  pending_conflict_key, unpushed_value, apply_value, conflict_value,
}

abbrev pub meta_remote_seq : Text
meta_remote_seq = lit "_sync/remote-seq"

abbrev pub meta_push_seq : Text
meta_push_seq = lit "_sync/push-seq"

pub record Checkpoints : Type 0 where
  pub remote_seq : Seq
  pub last_pushed_seq : Seq

-- `a === b`
unfoldable pub seq_beq : Seq → Seq → Bool
seq_beq (num a) (num b) = eqb a b
seq_beq (opaque a) (opaque b) = a == b
seq_beq (num _) (opaque _) = false
seq_beq (opaque _) (num _) = false

-- `getMeta<number | string>(key)`
unfoldable pub get_seq : Text → Dict Text MetaValue → Option Seq
get_seq key meta = elim (lookup key meta) [ some (seq n) ↦ some n | _ ↦ none ]

abbrev pub initial : Checkpoints
initial = record { remote_seq = num 0; last_pushed_seq = num 0 }

abbrev seq_put : Text → Option Seq → List MetaWrite
seq_put key none = []
seq_put key (some n) = put key (seq n) ∷ []

-- `load()`: the cursors of the docs store, or else those of the legacy meta store, which move over.
-- `none`: a transaction failed.
unfoldable pub load : ℕ → Store → Store → Option (Checkpoints × Store × Store)
load now docs_store meta_store =
    let remote = get_seq meta_remote_seq docs_store.meta in
    let push = get_seq meta_push_seq docs_store.meta in
    let legacy_remote = get_seq meta_remote_seq meta_store.meta in
    let legacy_push = get_seq meta_push_seq meta_store.meta in
    if is_some remote || (is_some push || not (is_some legacy_remote || is_some legacy_push))
    then some (
      record { remote_seq = or_default remote (num 0); last_pushed_seq = or_default push (num 0) },
      docs_store,
      meta_store,
    )
    else elim (run_write_tx now
        (record {
          docs = [];
          chunks = [];
          deletes = [];
          vclocks = [];
          meta = seq_put meta_remote_seq legacy_remote ++ seq_put meta_push_seq legacy_push;
        })
        docs_store) [
          | none ↦ none
          | some docs_store' ↦
              elim (run_write_tx now
                (record {
                  docs = [];
                  chunks = [];
                  deletes = [];
                  vclocks = [];
                  meta = MetaWrite.delete meta_remote_seq ∷ MetaWrite.delete meta_push_seq ∷ [];
                })
                meta_store) [
                  | none ↦ none
                  | some meta_store' ↦ some (
                    record {
                      remote_seq = or_default legacy_remote (num 0);
                      last_pushed_seq = or_default legacy_push (num 0);
                    },
                    docs_store',
                    meta_store',
                  )
                ]
        ]

-- A loop that pushes one meta write for each entry.
unfoldable pub entry_writes {ℓ} :
    {E : Type ℓ} → (Text → Text) → (E → MetaValue) → List (Text × E) → List MetaWrite
entry_writes key value [] = []
entry_writes key value ((id, e) ∷ entries) = put (key id) (value e) ∷ entry_writes key value entries

unfoldable pub apply_writes : ℕ → List (Text × PendingApplyReason) → List MetaWrite
unfolding entry_writes
apply_writes now =
    entry_writes pending_apply_key
      (λ reason. apply_value (record { added_at = now; reason = reason; missing = none }))

unfoldable pub conflict_writes : ℕ → List (Text × PendingConflictKind) → List MetaWrite
unfolding entry_writes
conflict_writes now =
    entry_writes pending_conflict_key
      (λ kind. conflict_value (record { added_at = now; kind = kind }))

abbrev unguarded : List CouchSyncDoc → List DocWrite
unguarded = map (λ d. record { doc = d; expected_vclock = none })

abbrev pub meta_tx : List CouchSyncDoc → List MetaWrite → WriteTransaction
meta_tx docs meta = record {
  docs = unguarded docs;
  chunks = [];
  deletes = [];
  vclocks = [];
  meta = meta;
}

-- `commitPullBatch`: the transaction, and the cursor that `onCommit` sets before it calls on. The
-- caller's `onCommit` works on the result. `none`: the transaction failed.
unfoldable pub commit_pull_batch :
    ℕ
    → List CouchSyncDoc
    → Seq
    → List (Text × PendingApplyReason)
    → List (Text × PendingConflictKind)
    → Checkpoints × Store
    → Option (Checkpoints × Store)
unfolding apply_writes conflict_writes
commit_pull_batch now docs next applies conflicts (cp, s) =
    elim (run_write_tx now
      (meta_tx docs (
        put meta_remote_seq (seq next)
        ∷ (apply_writes now applies ++ conflict_writes now conflicts)))
      s) [ none ↦ none | some t ↦ some (record cp { remote_seq = next }, t) ]

abbrev is_nil {ℓ} : {A : Type ℓ} → List A → Bool
is_nil [] = true
is_nil (_ ∷ _) = false

unfoldable pub save_empty_pull_batch :
    ℕ → Seq → List (Text × PendingConflictKind) → Checkpoints × Store → Option (Checkpoints × Store)
unfolding conflict_writes
save_empty_pull_batch now next conflicts (cp, s) =
    if is_nil conflicts && seq_beq next cp.remote_seq
    then some (cp, s)
    else elim (run_write_tx now
        (meta_tx [] (put meta_remote_seq (seq next) ∷ conflict_writes now conflicts)) s) [
          | none ↦ none
          | some t ↦ some (record cp { remote_seq = next }, t)
        ]

pub record UnpushedAdd : Type 0 where
  pub reason : UnpushedReason
  pub attempts : ℕ

unfoldable pub unpushed_writes : ℕ → List (Text × UnpushedAdd) → List MetaWrite
unfolding entry_writes
unpushed_writes now =
    entry_writes unpushed_key
      (λ a. unpushed_value (record { added_at = now; reason = a.reason; attempts = a.attempts }))

unfoldable pub remove_writes : List Text → List MetaWrite
remove_writes [] = []
remove_writes (id ∷ ids) = MetaWrite.delete (unpushed_key id) ∷ remove_writes ids

unfoldable pub commit_push_cycle :
    ℕ
    → Seq
    → List (Text × UnpushedAdd)
    → List Text
    → Checkpoints × Store
    → Option (Checkpoints × Store)
unfolding unpushed_writes remove_writes
commit_push_cycle now next adds removes (cp, s) =
    if is_nil adds && (is_nil removes && seq_beq next cp.last_pushed_seq)
    then some (cp, s)
    else elim (run_write_tx now
        (meta_tx []
          (put meta_push_seq (seq next) ∷ (remove_writes removes ++ unpushed_writes now adds)))
        s) [ none ↦ none | some t ↦ some (record cp { last_pushed_seq = next }, t) ]

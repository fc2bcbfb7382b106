-- ===== src/PendingApply/Resolve.antt =====
-- Dropping ids from the set (src/db/sync/pending-apply.ts, `resolve`), key by key.
use obsidian_couchsync.Prelude.{
  ℕ, ◌≡◌, refl, ◌∙◌, ◌⊎◌, inl, inr, List, [], ◌∷◌, Option, false, arith, ◌==◌, contains,
  contains-filter, List-cases, is_some, filter,
}
use obsidian_couchsync.Prelude.Text.{Text, text_eq, text_beq, text_beq_iff}
use obsidian_couchsync.Prelude.Dict.{lookup}
use obsidian_couchsync.Store.{MetaValue, MetaWrite, Store, update_seq_key}
use obsidian_couchsync.Store.Meta.{last_write}
use obsidian_couchsync.Store.Commit.{get_doc, run_write_tx-docs_meta}
use obsidian_couchsync.PendingSets.{pending_apply_key}
use obsidian_couchsync.PendingSets.Keys.{pending_apply_key-beq}
use obsidian_couchsync.PendingApply.{
  PendingApply, load_entries, write_metas, delete_writes, resolve,
}

-- A transaction of meta writes alone leaves the docs and writes each key as listed.
pub write_metas_lem :
    (now : ℕ) (ws : List MetaWrite) (s : Store)
    → ((id : Text) → get_doc id (write_metas now ws s) ≡ get_doc id s)
      × ((k : Text)
          → (update_seq_key == k) ≡ false
          → lookup k (write_metas now ws s).meta ≡ last_write k ws (lookup k s.meta))
unfolding write_metas
write_metas_lem now ws s =
    let (t, ran, docs_are, meta_is) = run_write_tx-docs_meta now [] ws s refl in
    (λ id. rw ran (docs_are id), λ k h. rw ran (meta_is k h))

last_write-delete_writes :
    (id : Text) (ids : List Text) (old : Option MetaValue)
    → contains id ids ≡ false
    → last_write (pending_apply_key id) (delete_writes ids) old ≡ old
unfolding delete_writes
last_write-delete_writes id [] old h = refl
last_write-delete_writes id (j ∷ ids) old h =
    last_write-delete_writes id ids _ (ground arith)
    ∙ rw pending_apply_key-beq (ground (arith, text_beq_iff j id, text_beq_iff id j))

last_write-delete_writes_other :
    (k : Text)
    → ((a : Text) → (pending_apply_key a == k) ≡ false)
    → (ids : List Text) (old : Option MetaValue) → last_write k (delete_writes ids) old ≡ old
unfolding delete_writes
last_write-delete_writes_other k apart [] old = refl
last_write-delete_writes_other k apart (j ∷ ids) old =
    last_write-delete_writes_other k apart ids _ ∙ rw apart

module _ (now : ℕ) (ids : List Text) (p : PendingApply) (s : Store) where
  abbrev present : List Text
  present = filter (λ id. is_some (lookup id (load_entries p s))) ids

  resolved_store :
      ((resolve now ids (p, s)).1 ≡ s)
      ⊎ ((resolve now ids (p, s)).1 ≡ write_metas now (delete_writes present) s)
  unfolding resolve
  resolved_store = elim (List-cases present) [
    | inl nothing ↦ inl (rw (nothing, resolve))
    | inr (y, ys, some_ids) ↦ inr (rw (some_ids, resolve))
  ]

  -- An id that is not listed keeps its entry.
  pub lookup-resolve_other :
      (id : Text)
      → contains id ids ≡ false
      → lookup (pending_apply_key id) (resolve now ids (p, s)).1.meta
        ≡ lookup (pending_apply_key id) s.meta
  unfolding pending_apply_key text_beq
  lookup-resolve_other id h = elim resolved_store [
    | inl same ↦ rw same
    | inr written ↦ rw written (
        (write_metas_lem now (delete_writes present) s).1 (pending_apply_key id) refl
        ∙ last_write-delete_writes id present _
            (ground (arith, contains-filter (λ j. is_some (lookup j (load_entries p s))) id ids)))
  ]

  -- Every other key, and every doc, stays as it was.
  pub lookup-resolve_key :
      (k : Text)
      → (update_seq_key == k) ≡ false
      → ((a : Text) → (pending_apply_key a == k) ≡ false)
      → lookup k (resolve now ids (p, s)).1.meta ≡ lookup k s.meta
  lookup-resolve_key k not_seq apart = elim resolved_store [
    | inl same ↦ rw same
    | inr written ↦ rw written (
        (write_metas_lem now (delete_writes present) s).1 k not_seq
        ∙ last_write-delete_writes_other k apart present _)
  ]

  pub get_doc-resolve : (id : Text) → get_doc id (resolve now ids (p, s)).1 ≡ get_doc id s
  get_doc-resolve id = elim resolved_store [
    | inl same ↦ rw same
    | inr written ↦ rw written ((write_metas_lem now (delete_writes present) s).0 id)
  ]

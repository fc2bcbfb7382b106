-- ===== src/ChunkGc/Bases.antt =====
-- What the collection of the config store keeps (src/db/chunk-gc.ts, `gcOrphanConfigChunks`).
use obsidian_couchsync.Prelude.{
  ℕ, ◌≡◌, refl, ◌∙◌, ap, List, [], ◌∷◌, map, some, Bool, false, not, ◌&&◌, ◌||◌, arith, is_some,
  or_default, any, contains, Bool-cases, inl, inr,
}
use obsidian_couchsync.Prelude.Text.{Text, text_eq, starts_with}
use obsidian_couchsync.Prelude.Dict.{Dict, lookup}
use obsidian_couchsync.DocId.{config_prefix}
use obsidian_couchsync.Docs.{CouchSyncDoc, file_doc, chunk_doc, config_doc}
use obsidian_couchsync.Store.{MetaValue, seq, synced, entry, StoredDoc, Store}
use obsidian_couchsync.ChunkGc.{
  config_owner, add_bases, collect_referenced_chunks, config_docs_of, all_config_docs,
  config_last_synced_prefix, GcResult, gc_result, orphans, sweep_orphan_chunks,
  gc_orphan_config_chunks, config_refs,
}
use obsidian_couchsync.ChunkGc.Kept.{
  any-covers, covers, pins, is_some-add_refs, is_some-collect_loop, or_false, any-rows_between,
  Swept, delete_orphans-Swept, delete_orphans-lem,
}

-- A live config doc that lists the chunk, and a base of a config path that does.
abbrev pub config_pins : Text → CouchSyncDoc → Bool
config_pins id (file_doc _) = false
config_pins id (chunk_doc _) = false
config_pins id (config_doc d) = not d.deleted && contains id d.chunks

abbrev pub base_pins : Text → Text × MetaValue → Bool
base_pins id (key, seq _) = false
base_pins id (key, entry _) = false
base_pins id (key, synced base) =
    starts_with key config_last_synced_prefix && contains id (or_default base.chunks [])

is_some-add_bases :
    (id : Text) (meta : Dict Text MetaValue) (refs : Dict Text (List Text))
    → is_some (lookup id (add_bases meta refs))
      ≡ (any (base_pins id) meta || is_some (lookup id refs))
unfolding add_bases
is_some-add_bases id [] refs = refl
is_some-add_bases id ((key, seq _) ∷ meta) refs =
    is_some-add_bases id meta _ ∙ elim (Bool-cases (starts_with key config_last_synced_prefix)) [
      | inl ours ↦ rw ours refl
      | inr other ↦ rw other refl
    ]
is_some-add_bases id ((key, entry _) ∷ meta) refs =
    is_some-add_bases id meta _ ∙ elim (Bool-cases (starts_with key config_last_synced_prefix)) [
      | inl ours ↦ rw ours refl
      | inr other ↦ rw other refl
    ]
is_some-add_bases id ((key, synced base) ∷ meta) refs =
    is_some-add_bases id meta _ ∙ elim (Bool-cases (starts_with key config_last_synced_prefix)) [
      | inl ours ↦ rw (ours, is_some-add_refs) (ground arith)
      | inr other ↦ rw other refl
    ]

any-config_docs_of :
    (id : Text) (rows : Dict Text StoredDoc)
    → any (pins id) (map config_owner (config_docs_of rows))
      ≡ any (λ row. config_pins id row.1.doc) rows
unfolding config_docs_of
any-config_docs_of id [] = refl
any-config_docs_of id ((key, stored) ∷ rows) =
    elim (stored.doc)
      as (λ x.
        any (pins id) (
          map config_owner (elim x [
            | file_doc _ ↦ config_docs_of rows
            | chunk_doc _ ↦ config_docs_of rows
            | config_doc d ↦ d ∷ config_docs_of rows
          ]))
        ≡ (config_pins id x || any (λ row. config_pins id row.1.doc) rows)) [
          | file_doc _ ↦ any-config_docs_of id rows
          | chunk_doc _ ↦ any-config_docs_of id rows
          | config_doc d ↦ rw (any-config_docs_of id rows) refl
        ]

is_some-config_refs :
    (id : Text) (s : Store)
    → is_some (lookup id (config_refs s)) ≡ (
        any (base_pins id) s.meta
        || any (λ row. covers config_prefix row.0 && config_pins id row.1.doc) s.docs)
unfolding config_refs collect_referenced_chunks all_config_docs lookup
is_some-config_refs id s =
    is_some-add_bases id s.meta _
    ∙ rw (is_some-collect_loop, or_false, any-config_docs_of, any-rows_between)
        (ap (λ b. any (base_pins id) s.meta || b) (any-covers _ config_prefix s.docs))

-- The collection of the config store always commits. After it the chunks that neither a live config
-- doc nor the base of a config path lists are gone, and every other doc, with every chunk that one
-- of them lists, is kept. The config docs and the chunks are those that the ranges cover: the ids of
-- the prefix whose next code unit is below U+FFF0, or is U+FFF0 and the last. A live config doc whose
-- path begins higher protects no chunk.
pub gc_orphan_config_chunks-Swept :
    (now : ℕ) (s : Store)
    → (t : Store) × (r : GcResult) × (gc_orphan_config_chunks now s ≡ some (t, r))
      × ((id : Text)
          → Swept id
              (any (base_pins id) s.meta
                || any (λ row. covers config_prefix row.0 && config_pins id row.1.doc) s.docs)
              s
              t)
unfolding gc_orphan_config_chunks sweep_orphan_chunks
gc_orphan_config_chunks-Swept now s =
    let (t, ran, swept) = delete_orphans-lem now (orphans (config_refs s) s) s in
    (
      t,
      gc_result (config_refs s) s,
      rw ran refl,
      λ id. rw swept (delete_orphans-Swept id (config_refs s) s ∙ rw is_some-config_refs refl),
    )

-- ===== src/ChunkGc.antt =====
-- Garbage collection of orphaned chunks (src/db/chunk-gc.ts, src/db/chunk-refs.ts) over the ranges of
-- the local store (src/db/dexie-store.ts, local-db.ts, config-local-db.ts). The log line is left out.
pub mod Kept
pub mod Bases
use mathlib.Core.Option
use obsidian_couchsync.Prelude.{
  ℕ, List, [], ◌∷◌, ◌++◌, map, Option, none, some, Bool, true, false, not, ◌&&◌, if◌then◌else◌,
  is_some, or_default, filter, length, drop,
}
use obsidian_couchsync.Prelude.Text.{Text, text_eq, text_lt, lit, starts_with}
use obsidian_couchsync.Prelude.Dict.{Dict, keys, lookup, insert}
use obsidian_couchsync.DocId.{
  file_prefix, chunk_prefix, config_prefix, file_path_from_id, config_path_from_id,
}
use obsidian_couchsync.Docs.{FileDoc, ConfigDoc, file_doc, chunk_doc, config_doc}
use obsidian_couchsync.Store.{
  MetaValue, synced, StoredDoc, Store, WriteTransaction, empty_tx, run_write_tx,
}

pub record ChunkOwnerDoc : Type 0 where
  pub id : Text
  pub chunks : List Text
  pub deleted : Bool

abbrev pub file_owner : FileDoc → ChunkOwnerDoc
file_owner d = record { id = d.id; chunks = d.chunks; deleted = d.deleted }

abbrev pub config_owner : ConfigDoc → ChunkOwnerDoc
config_owner d = record { id = d.id; chunks = d.chunks; deleted = d.deleted }

-- The owners of one chunk, and those of each chunk of one owner.
unfoldable pub add_ref : Text → Text → Dict Text (List Text) → Dict Text (List Text)
add_ref label cid refs = insert cid (or_default (lookup cid refs) [] ++ (label ∷ [])) refs

unfoldable pub add_refs : Text → List Text → Dict Text (List Text) → Dict Text (List Text)
add_refs label [] refs = refs
add_refs label (cid ∷ cids) refs = add_refs label cids (add_ref label cid refs)

unfoldable pub collect_loop :
    (ChunkOwnerDoc → Text) → List ChunkOwnerDoc → Dict Text (List Text) → Dict Text (List Text)
collect_loop label_of [] refs = refs
collect_loop label_of (d ∷ docs) refs =
    collect_loop label_of docs (if d.deleted then refs else add_refs (label_of d) d.chunks refs)

unfoldable pub collect_referenced_chunks :
    List ChunkOwnerDoc → (ChunkOwnerDoc → Text) → Dict Text (List Text)
collect_referenced_chunks docs label_of = collect_loop label_of docs []

-- A file doc's id has its prefix, so that its path is there.
unfoldable pub collect_file_chunk_refs : List FileDoc → Dict Text (List Text)
collect_file_chunk_refs file_docs =
    collect_referenced_chunks (map file_owner file_docs)
      (λ d. or_default (file_path_from_id d.id) [])

-- The upper bound of a range is the prefix with U+FFF0.
abbrev pub in_range : Text → Text → Bool
in_range prefix id = not (text_lt id prefix) && not (text_lt (prefix ++ (65520 ∷ [])) id)

-- The rows of a range in the order of the primary key.
unfoldable pub insert_by_id : Text × StoredDoc → Dict Text StoredDoc → Dict Text StoredDoc
insert_by_id row [] = row ∷ []
insert_by_id row (r ∷ rows) =
    let rest = insert_by_id row rows in if text_lt r.0 row.0 then r ∷ rest else row ∷ r ∷ rows

unfoldable pub rows_between : Text → Dict Text StoredDoc → Dict Text StoredDoc
rows_between prefix [] = []
rows_between prefix (row ∷ docs) =
    let rest = rows_between prefix docs in
    if in_range prefix row.0 then insert_by_id row rest else rest

unfoldable pub list_ids : Text → Store → List Text
list_ids prefix s = keys (rows_between prefix s.docs)

unfoldable pub file_docs_of : Dict Text StoredDoc → List FileDoc
file_docs_of [] = []
file_docs_of ((_, stored) ∷ rows) =
    let rest = file_docs_of rows in
    elim (stored.doc) [ file_doc d ↦ d ∷ rest | chunk_doc _ ↦ rest | config_doc _ ↦ rest ]

unfoldable pub all_file_docs : Store → List FileDoc
all_file_docs s = file_docs_of (rows_between file_prefix s.docs)

unfoldable pub config_docs_of : Dict Text StoredDoc → List ConfigDoc
config_docs_of [] = []
config_docs_of ((_, stored) ∷ rows) =
    let rest = config_docs_of rows in
    elim (stored.doc) [ file_doc _ ↦ rest | chunk_doc _ ↦ rest | config_doc d ↦ d ∷ rest ]

unfoldable pub all_config_docs : Store → List ConfigDoc
all_config_docs s = config_docs_of (rows_between config_prefix s.docs)

pub record GcResult : Type 0 where
  pub scanned_chunks : ℕ
  pub referenced_chunks : ℕ
  pub deleted_chunks : ℕ

unfoldable pub orphans : Dict Text (List Text) → Store → List Text
orphans referenced s = filter (λ id. not (is_some (lookup id referenced))) (list_ids chunk_prefix s)

abbrev pub deletes_tx : List Text → WriteTransaction
deletes_tx ids = record empty_tx { deletes = ids }

abbrev pub gc_result : Dict Text (List Text) → Store → GcResult
gc_result referenced s = record {
  scanned_chunks = length (list_ids chunk_prefix s);
  referenced_chunks = length referenced;
  deleted_chunks = length (orphans referenced s);
}

-- One transaction deletes the orphans, where there are any; `none`: it rolls back.
unfoldable pub delete_orphans : ℕ → List Text → Store → Option Store
delete_orphans now [] s = some s
delete_orphans now (id ∷ ids) s = run_write_tx now (deletes_tx (id ∷ ids)) s

unfoldable pub sweep_orphan_chunks : ℕ → Dict Text (List Text) → Store → Option (Store × GcResult)
sweep_orphan_chunks now referenced s =
    Option.map (λ t. (t, gc_result referenced s)) (delete_orphans now (orphans referenced s) s)

unfoldable pub gc_orphan_chunks : ℕ → Store → Option (Store × GcResult)
gc_orphan_chunks now s = sweep_orphan_chunks now (collect_file_chunk_refs (all_file_docs s)) s

abbrev pub config_last_synced_prefix : Text
config_last_synced_prefix = lit "_local/config-last-synced/"

-- The chunks that the bases of the config paths hold. The store's table of meta values here is not
-- sorted by key, so that the owners of one chunk may come in another order.
unfoldable pub add_bases : Dict Text MetaValue → Dict Text (List Text) → Dict Text (List Text)
add_bases [] refs = refs
add_bases ((key, value) ∷ meta) refs = add_bases meta (
    if starts_with key config_last_synced_prefix
    then elim value [
      | synced base ↦
          add_refs (drop (length config_last_synced_prefix) key) (or_default base.chunks []) refs
      | _ ↦ refs
    ]
    else refs)

unfoldable pub config_refs : Store → Dict Text (List Text)
config_refs s = add_bases s.meta (
    collect_referenced_chunks (map config_owner (all_config_docs s))
      (λ d. or_default (config_path_from_id d.id) []))

unfoldable pub gc_orphan_config_chunks : ℕ → Store → Option (Store × GcResult)
gc_orphan_config_chunks now s = sweep_orphan_chunks now (config_refs s) s

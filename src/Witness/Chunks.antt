-- ===== src/Witness/Chunks.antt =====
-- The theorems about the collection of orphaned chunks at concrete stores.
use obsidian_couchsync.Prelude.{◌≡◌, [], ◌∷◌, some, none, true, false, ◌||◌, ◌&&◌, any}
use obsidian_couchsync.Prelude.Text.{Text, lit}
use obsidian_couchsync.DocId.{file_prefix, config_prefix}
use obsidian_couchsync.Docs.{CouchSyncDoc, file_doc, chunk_doc, config_doc}
use obsidian_couchsync.Store.{StoredDoc, Store, synced}
use obsidian_couchsync.ChunkGc.{GcResult, gc_orphan_chunks, gc_orphan_config_chunks}
use obsidian_couchsync.ChunkGc.Kept.{covers, Swept, file_pins, gc_orphan_chunks-Swept}
use obsidian_couchsync.ChunkGc.Bases.{config_pins, base_pins, gc_orphan_config_chunks-Swept}

abbrev row : Text → CouchSyncDoc → Text × StoredDoc
row id doc = (id, record { doc = doc; version = 1; local_seq = 1 })

abbrev chunk_row : Text → Text × StoredDoc
chunk_row id = row id (chunk_doc (record { id = id; rev = none; schema_version = 2; content = [] }))

-- A live note with one chunk, a deleted note with another, and a chunk that no doc lists.
abbrev notes : Store
notes = record {
  docs =
      row (lit "file:a.md") (
        file_doc (record {
          id = lit "file:a.md";
          rev = none;
          schema_version = 2;
          chunks = lit "chunk:x64:1" ∷ [];
          mtime = 1;
          ctime = 1;
          size = 1;
          deleted = false;
          vclock = none;
        }))
      ∷ row (lit "file:b.md") (
          file_doc (record {
            id = lit "file:b.md";
            rev = none;
            schema_version = 2;
            chunks = lit "chunk:x64:2" ∷ [];
            mtime = 1;
            ctime = 1;
            size = 1;
            deleted = true;
            vclock = none;
          }))
      ∷ chunk_row (lit "chunk:x64:1")
      ∷ chunk_row (lit "chunk:x64:2")
      ∷ chunk_row (lit "chunk:x64:3")
      ∷ [];
  meta = [];
}

gc_orphan_chunks-Swept_example :
    (t : Store) × (r : GcResult) × (gc_orphan_chunks 0 notes ≡ some (t, r))
    × ((id : Text)
        → Swept id
            (any (λ found. covers file_prefix found.0 && file_pins id found.1.doc) notes.docs)
            notes
            t)
gc_orphan_chunks-Swept_example = gc_orphan_chunks-Swept 0 notes

-- A config doc with one chunk, whose path has a base with another.
abbrev configs : Store
configs = record {
  docs =
      row (lit "config:app.json") (
        config_doc (record {
          id = lit "config:app.json";
          rev = none;
          schema_version = 3;
          chunks = lit "chunk:x64:1" ∷ [];
          mtime = 1;
          size = 1;
          vclock = none;
          deleted = false;
        }))
      ∷ chunk_row (lit "chunk:x64:1")
      ∷ chunk_row (lit "chunk:x64:2")
      ∷ chunk_row (lit "chunk:x64:3")
      ∷ [];
  meta =
      (
        lit "_local/config-last-synced/app.json",
        synced (record {
          vclock = [];
          chunks = some (lit "chunk:x64:2" ∷ []);
          size = none;
          mtime = none;
          deleted = false;
        }),
      )
      ∷ [];
}

gc_orphan_config_chunks-Swept_example :
    (t : Store) × (r : GcResult) × (gc_orphan_config_chunks 0 configs ≡ some (t, r))
    × ((id : Text)
        → Swept id
            (any (base_pins id) configs.meta
              || any
                  (λ found. covers config_prefix found.0 && config_pins id found.1.doc)
                  configs.docs)
            configs
            t)
gc_orphan_config_chunks-Swept_example = gc_orphan_config_chunks-Swept 0 configs

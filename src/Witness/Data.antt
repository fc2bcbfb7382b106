-- ===== src/Witness/Data.antt =====
-- Concrete clocks, docs and stores.
use obsidian_couchsync.Prelude.{List, [], ◌∷◌, none, some, Bool, false}
use obsidian_couchsync.Prelude.Text.{Text, lit}
use obsidian_couchsync.VectorClock.{VectorClock}
use obsidian_couchsync.Docs.{FileDoc, ChunkDoc, file_doc, chunk_doc, file_schema_version}
use obsidian_couchsync.Store.{Store, seq, num, update_seq_key}
use obsidian_couchsync.Checkpoints.{Checkpoints, meta_remote_seq, meta_push_seq}

abbrev pub desk : VectorClock
desk = (lit "desk", 2) ∷ []

abbrev pub both : VectorClock
both = (lit "desk", 2) ∷ (lit "phone", 1) ∷ []

abbrev pub phone : VectorClock
phone = (lit "phone", 1) ∷ []

abbrev pub note_id : Text
note_id = lit "file:a"

abbrev pub old_chunk : Text
old_chunk = lit "chunk:x64:1"

abbrev pub new_chunk : Text
new_chunk = lit "chunk:x64:2"

abbrev pub note : List Text → VectorClock → Bool → FileDoc
note chunks clock deleted = record {
  id = note_id;
  rev = none;
  schema_version = file_schema_version;
  chunks = chunks;
  mtime = 10;
  ctime = 5;
  size = 1;
  deleted = deleted;
  vclock = some clock;
}

abbrev pub old_note : FileDoc
old_note = note (old_chunk ∷ []) desk false

abbrev pub new_note : FileDoc
new_note = note (new_chunk ∷ []) both false

-- An edit of another device that has not seen `old_note`.
abbrev pub rival_note : FileDoc
rival_note = note (new_chunk ∷ []) phone false

abbrev pub a_chunk : ChunkDoc
a_chunk = record { id = old_chunk; rev = none; schema_version = 1; content = 1 ∷ [] }

-- A store with `old_note` and its chunk.
abbrev pub device : Store
device = record {
  docs =
      (note_id, record { doc = file_doc old_note; version = 1; local_seq = 1 })
      ∷ (old_chunk, record { doc = chunk_doc a_chunk; version = 1; local_seq = 1 })
      ∷ [];
  meta =
      (meta_remote_seq, seq (num 4))
      ∷ (meta_push_seq, seq (num 0))
      ∷ (update_seq_key, seq (num 1))
      ∷ [];
}

abbrev pub cursors : Checkpoints
cursors = record { remote_seq = num 4; last_pushed_seq = num 0 }

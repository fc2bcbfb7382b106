-- ===== src/Docs.antt =====
-- Replicated documents (src/types.ts), the codec-free parts: file, chunk and config docs.
use obsidian_couchsync.Prelude.{ℕ, List, [], Option, none, Bool, true, false, or_default}
use obsidian_couchsync.Prelude.Text.{Text}
use obsidian_couchsync.VectorClock.{VectorClock}

abbrev pub file_schema_version : ℕ
file_schema_version = 2

abbrev pub config_schema_version : ℕ
config_schema_version = 3

-- `deleted?: boolean` is read by its truth alone. The clock may be missing on a legacy doc.
pub record FileDoc : Type 0 where
  pub id : Text
  pub rev : Option Text
  pub schema_version : ℕ
  pub chunks : List Text
  pub mtime : ℕ
  pub ctime : ℕ
  pub size : ℕ
  pub deleted : Bool
  pub vclock : Option VectorClock

pub record ChunkDoc : Type 0 where
  pub id : Text
  pub rev : Option Text
  pub schema_version : ℕ
  pub content : List ℕ

pub record ConfigDoc : Type 0 where
  pub id : Text
  pub rev : Option Text
  pub schema_version : ℕ
  pub chunks : List Text
  pub mtime : ℕ
  pub size : ℕ
  pub vclock : Option VectorClock
  pub deleted : Bool

-- The constructor stands for the field `type`.
pub data CouchSyncDoc : Type 0 where
  file_doc : FileDoc → CouchSyncDoc
  chunk_doc : ChunkDoc → CouchSyncDoc
  config_doc : ConfigDoc → CouchSyncDoc

abbrev pub doc_id : CouchSyncDoc → Text
doc_id (file_doc d) = d.id
doc_id (chunk_doc d) = d.id
doc_id (config_doc d) = d.id

abbrev pub is_file_doc : CouchSyncDoc → Bool
is_file_doc (file_doc _) = true
is_file_doc _ = false

abbrev pub is_chunk_doc : CouchSyncDoc → Bool
is_chunk_doc (chunk_doc _) = true
is_chunk_doc _ = false

abbrev pub is_config_doc : CouchSyncDoc → Bool
is_config_doc (config_doc _) = true
is_config_doc _ = false

-- `stripRev` (src/utils/doc.ts)
abbrev pub strip_rev : CouchSyncDoc → CouchSyncDoc
strip_rev (file_doc d) = file_doc (record d { rev = none })
strip_rev (chunk_doc d) = chunk_doc (record d { rev = none })
strip_rev (config_doc d) = config_doc (record d { rev = none })

-- `doc.vclock ?? {}`
abbrev pub clock_of : FileDoc → VectorClock
clock_of d = or_default d.vclock []

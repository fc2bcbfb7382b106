-- ===== src/Store.antt =====
-- The local document store: the tables `docs` and `meta` and the atomic write `runWriteTx`
-- (src/db/dexie-store.ts, src/db/write-transaction.ts).
pub mod Meta
pub mod Commit
pub mod Changes
use obsidian_couchsync.Prelude.{
  ℕ, ◌+◌, List, [], ◌∷◌, ◌++◌, map, Option, none, some, Bool, true, false, not, ◌&&◌, eqb, ltb,
  if◌then◌else◌, or_default, is_some, filter, to_set, all,
}
use obsidian_couchsync.Prelude.Text.{Text, text_eq, lit}
use obsidian_couchsync.Prelude.Dict.{Dict, keys, lookup, insert, erase}
use obsidian_couchsync.VectorClock.{VectorClock, counter, union_keys}
use obsidian_couchsync.Classify.{LastSynced, stampable_mtime}
use obsidian_couchsync.Docs.{
  CouchSyncDoc, FileDoc, ChunkDoc, ConfigDoc, file_doc, chunk_doc, config_doc, doc_id, strip_rev,
}

-- A sequence number: `number | string`.
pub data Seq : Type 0 where
  num : ℕ → Seq
  opaque : Text → Seq

-- A JSON object of one of the persistent sets, read defensively: a field is there if it has the
-- expected type.
pub record RawEntry : Type 0 where
  pub added_at : Option ℕ
  pub reason : Option Text
  pub kind : Option Text
  pub attempts : Option ℕ
  pub missing_chunks : Option (List Text)

pub data MetaValue : Type 0 where
  seq : Seq → MetaValue
  synced : LastSynced → MetaValue
  entry : RawEntry → MetaValue

pub data MetaWrite : Type 0 where
  put : Text → MetaValue → MetaWrite
  delete : Text → MetaWrite

pub record StoredDoc : Type 0 where
  pub doc : CouchSyncDoc
  pub version : ℕ
  pub local_seq : ℕ

pub record Store : Type 0 where
  pub docs : Dict Text StoredDoc
  pub meta : Dict Text MetaValue

pub record DocWrite : Type 0 where
  pub doc : CouchSyncDoc
  pub expected_vclock : Option VectorClock

-- A path enters by its key, `toPathKey(path)`: the Unicode normalisation is the platform's.
pub data VclockUpdate : Type 0 where
  set : Text → VectorClock → List Text → ℕ → Option ℕ → Bool → VclockUpdate
  delete : Text → VclockUpdate

pub record WriteTransaction : Type 0 where
  pub docs : List DocWrite
  pub chunks : List CouchSyncDoc
  pub deletes : List Text
  pub vclocks : List VclockUpdate
  pub meta : List MetaWrite

abbrev pub empty_tx : WriteTransaction
empty_tx = record { docs = []; chunks = []; deletes = []; vclocks = []; meta = [] }

abbrev pub update_seq_key : Text
update_seq_key = lit "_update_seq"

abbrev pub vclock_key_prefix : Text
vclock_key_prefix = lit "_local/vclock/"

unfoldable pub vclock_meta_key : Text → Text
vclock_meta_key path_key = vclock_key_prefix ++ path_key

-- `(existing?.value as number) ?? 0`
unfoldable pub update_seq : Dict Text MetaValue → ℕ
update_seq meta = elim (lookup update_seq_key meta) [ some (seq (num n)) ↦ n | _ ↦ 0 ]

unfoldable pub vclocks_equal : Option VectorClock → VectorClock → Bool
vclocks_equal none b = elim (keys b) [ [] ↦ true | _ ∷ _ ↦ false ]
vclocks_equal (some a) b = all (λ k. eqb (counter k a) (counter k b)) (union_keys a b)

-- `stored?.vclock`
unfoldable pub stored_vclock : Option StoredDoc → Option VectorClock
stored_vclock none = none
stored_vclock (some stored) = elim (stored.doc) [
  | file_doc d ↦ d.vclock
  | chunk_doc d ↦ none
  | config_doc d ↦ d.vclock
]

unfoldable pub stored_version : Option StoredDoc → ℕ
stored_version none = 0
stored_version (some stored) = stored.version

-- Step 1: content-addressed put-if-absent, against the docs as the transaction found them.
unfoldable pub put_chunks :
    ℕ → Dict Text StoredDoc → List CouchSyncDoc → Dict Text StoredDoc → Dict Text StoredDoc
put_chunks n found [] docs = docs
put_chunks n found (c ∷ chunks) docs = put_chunks n found chunks (
    if is_some (lookup (doc_id c) found)
    then docs
    else insert (doc_id c) (record { doc = strip_rev c; version = 1; local_seq = n }) docs)

-- The guard of step 2, against the docs after step 1.
unfoldable pub cas_holds : Dict Text StoredDoc → DocWrite → Bool
cas_holds docs w = elim (w.expected_vclock) [
  | none ↦ true
  | some expected ↦ vclocks_equal (stored_vclock (lookup (doc_id w.doc) docs)) expected
]

-- Step 2: upsert. The version follows that of the doc that step 1 left.
unfoldable pub put_docs :
    ℕ → Dict Text StoredDoc → List DocWrite → Dict Text StoredDoc → Dict Text StoredDoc
put_docs n found [] docs = docs
put_docs n found (w ∷ writes) docs = put_docs n found writes (
    insert (doc_id w.doc)
      (record {
        doc = strip_rev w.doc;
        version = stored_version (lookup (doc_id w.doc) found) + 1;
        local_seq = n;
      })
      docs)

-- Step 3: physical removal.
unfoldable pub delete_docs : List Text → Dict Text StoredDoc → Dict Text StoredDoc
delete_docs [] docs = docs
delete_docs (id ∷ ids) docs = delete_docs ids (erase id docs)

-- Step 4: the integration baselines, as meta writes.
unfoldable pub vclock_write : ℕ → VclockUpdate → MetaWrite
unfolding vclock_meta_key
vclock_write now (set path clock chunks size mtime deleted) = put (vclock_meta_key path) (
    synced (record {
      vclock = clock;
      chunks = some chunks;
      size = some size;
      mtime = stampable_mtime mtime now;
      deleted = deleted;
    }))
vclock_write now (VclockUpdate.delete path) = MetaWrite.delete (vclock_meta_key path)

-- Step 5, and the writes of step 4.
unfoldable pub write_meta : List MetaWrite → Dict Text MetaValue → Dict Text MetaValue
write_meta [] meta = meta
write_meta (put k v ∷ writes) meta = write_meta writes (insert k v meta)
write_meta (MetaWrite.delete k ∷ writes) meta = write_meta writes (erase k meta)

-- The work of one transaction. `none`: a guard of step 2 fails, and the transaction rolls back.
unfoldable pub run_write_tx : ℕ → WriteTransaction → Store → Option Store
run_write_tx now tx s =
    let n = update_seq s.meta + 1 in
    let with_chunks = put_chunks n s.docs tx.chunks s.docs in
    let stamped = insert update_seq_key (seq (num n)) s.meta in
    if all (cas_holds with_chunks) tx.docs
    then some (record {
      docs = delete_docs tx.deletes (put_docs n with_chunks tx.docs with_chunks);
      meta = write_meta tx.meta (write_meta (map (vclock_write now) tx.vclocks) stamped);
    })
    else none

-- An index keeps its rows in ascending order of the sequence number.
unfoldable pub insert_row : StoredDoc → List StoredDoc → List StoredDoc
insert_row row [] = row ∷ []
insert_row row (r ∷ rows) =
    let rest = insert_row row rows in
    if ltb r.local_seq row.local_seq then r ∷ rest else row ∷ r ∷ rows

-- `changes(since)`: the rows above the sequence number in index order, and the number of the last
-- of them.
unfoldable pub rows_above : ℕ → Dict Text StoredDoc → List StoredDoc
rows_above since [] = []
rows_above since ((_, stored) ∷ docs) =
    let rest = rows_above since docs in
    if ltb since stored.local_seq then insert_row stored rest else rest

unfoldable pub last_seq_of : ℕ → List StoredDoc → ℕ
last_seq_of since [] = since
last_seq_of since (row ∷ rows) = last_seq_of row.local_seq rows

-- ===== src/PushPipeline/Transport.antt =====
-- `pushDocs` (src/db/sync/push-pipeline.ts): chunks first, then the files whose chunks all landed.
use obsidian_couchsync.Prelude.{
  ℕ, ◌+◌, List, [], ◌∷◌, map, Option, none, some, Bool, false, not, if◌then◌else◌, filter, any,
  contains, is_some, ◌==◌, ◌>>=◌,
}
use obsidian_couchsync.Prelude.Text.{Text, text_eq, lit}
use obsidian_couchsync.Prelude.Dict.{Dict, lookup, insert}
use obsidian_couchsync.Docs.{CouchSyncDoc, file_doc, chunk_doc, config_doc, doc_id}
use obsidian_couchsync.DocId.{is_chunk_doc_id}

-- A row of `allDocs` without the docs.
pub record RevRow : Type 0 where
  pub id : Text
  pub rev : Option Text
  pub deleted : Bool

-- A row of a bulk write: accepted, or refused with the word in `error`.
pub data BulkResult : Type 0 where
  accepted : BulkResult
  refused : Text → BulkResult

abbrev pub conflict_error : Text
conflict_error = lit "conflict"

abbrev pub forbidden_error : Text
forbidden_error = lit "forbidden"

-- The remote. `none`: the request throws. The answers to a bulk write are in the order of its docs.
pub record PushClient : Type 0 where
  pub all_revs : List Text → Option (List RevRow)
  pub bulk_chunks : List CouchSyncDoc → Option (List BulkResult)
  pub bulk_files : List CouchSyncDoc → Option (List BulkResult)

pub record PushDocsResult : Type 0 where
  pub pushed : List Text
  pub conflicts : List Text
  pub denied : ℕ

abbrev pub rev_of : CouchSyncDoc → Option Text
rev_of (file_doc d) = d.rev
rev_of (chunk_doc d) = d.rev
rev_of (config_doc d) = d.rev

abbrev pub set_rev : Option Text → CouchSyncDoc → CouchSyncDoc
set_rev rev (file_doc d) = file_doc (record d { rev = rev })
set_rev rev (chunk_doc d) = chunk_doc (record d { rev = rev })
set_rev rev (config_doc d) = config_doc (record d { rev = rev })

-- `remoteRevMap`
unfoldable pub rev_map : List RevRow → Dict Text Text → Dict Text Text
rev_map [] m = m
rev_map (row ∷ rows) m = elim (row.rev) [
  | none ↦ rev_map rows m
  | some rev ↦ if row.deleted then rev_map rows m else rev_map rows (insert row.id rev m)
]

abbrev pub need_rev : List CouchSyncDoc → List Text
need_rev docs = map doc_id (filter (λ d. not (is_some (rev_of d))) docs)

-- A doc with its state in the batch: held by the remote, a chunk to send, or another doc to send.
pub data Prepared : Type 0 where
  held to_chunks to_files : CouchSyncDoc → Prepared

-- Filling in the revs, and the split into positions.
unfoldable pub prepare : Dict Text Text → CouchSyncDoc → Prepared
prepare revs d =
    if is_some (rev_of d)
    then (if is_chunk_doc_id (doc_id d) then to_chunks d else to_files d)
    else elim (lookup (doc_id d) revs) [
      | none ↦ if is_chunk_doc_id (doc_id d) then to_chunks d else to_files d
      | some rev ↦ if is_chunk_doc_id (doc_id d) then held d else to_files (set_rev (some rev) d)
    ]

unfoldable pub chunk_items : List Prepared → List CouchSyncDoc
chunk_items [] = []
chunk_items (to_chunks d ∷ ps) = d ∷ chunk_items ps
chunk_items (_ ∷ ps) = chunk_items ps

-- Phase 1: the chunks whose write failed other than by a conflict.
unfoldable pub failed_chunks : List CouchSyncDoc → List BulkResult → List Text
failed_chunks (d ∷ ds) (accepted ∷ rs) = failed_chunks ds rs
failed_chunks (d ∷ ds) (refused error ∷ rs) =
    let rest = failed_chunks ds rs in if error == conflict_error then rest else doc_id d ∷ rest
failed_chunks _ _ = []

-- `refs?.some((c) => failedChunks.has(c))`
unfoldable pub is_blocked : List Text → CouchSyncDoc → Bool
is_blocked failed (file_doc d) = any (λ c. contains c failed) d.chunks
is_blocked failed _ = false

abbrev pub head_result : List BulkResult → Option BulkResult
head_result [] = none
head_result (r ∷ rs) = some r

abbrev pub tail_results : List BulkResult → List BulkResult
tail_results [] = []
tail_results (r ∷ rs) = rs

-- An entry of `results` with its doc: written, where a missing answer is `none`, or a file that is to
-- be sent.
pub data ResultSlot : Type 0 where
  written : CouchSyncDoc → Option BulkResult → ResultSlot
  unsent : CouchSyncDoc → ResultSlot

-- `results` after phase 1.
unfoldable pub after_chunks : List Prepared → List BulkResult → List ResultSlot
after_chunks [] cs = []
after_chunks (held d ∷ ps) cs = written d (some accepted) ∷ after_chunks ps cs
after_chunks (to_chunks d ∷ ps) cs = written d (head_result cs) ∷ after_chunks ps (tail_results cs)
after_chunks (to_files d ∷ ps) cs = unsent d ∷ after_chunks ps cs

-- The loop of phase 2, which withholds the blocked files.
unfoldable pub withhold : List Text → List ResultSlot → List ResultSlot
withhold failed [] = []
withhold failed (written d r ∷ slots) = written d r ∷ withhold failed slots
withhold failed (unsent d ∷ slots) =
    (if is_blocked failed d then written d (some (refused conflict_error)) else unsent d)
    ∷ withhold failed slots

unfoldable pub surviving_files : List ResultSlot → List CouchSyncDoc
surviving_files [] = []
surviving_files (written d r ∷ slots) = surviving_files slots
surviving_files (unsent d ∷ slots) = d ∷ surviving_files slots

-- `results[survivingPositions[i]] = res[i]`
unfoldable pub fill_results :
    List ResultSlot → List BulkResult → List (CouchSyncDoc × Option BulkResult)
fill_results [] fs = []
fill_results (written d r ∷ slots) fs = (d, r) ∷ fill_results slots fs
fill_results (unsent d ∷ slots) fs = (d, head_result fs) ∷ fill_results slots (tail_results fs)

abbrev pub no_result : PushDocsResult
no_result = record { pushed = []; conflicts = []; denied = 0 }

-- The last loop, over docs and results.
unfoldable pub summarise : List (CouchSyncDoc × Option BulkResult) → PushDocsResult
summarise [] = no_result
summarise ((d, none) ∷ rows) = summarise rows
summarise ((d, some accepted) ∷ rows) =
    let t = summarise rows in record t { pushed = doc_id d ∷ t.pushed }
summarise ((d, some (refused error)) ∷ rows) =
    let t = summarise rows in
    if error == forbidden_error
    then record t { denied = t.denied + 1 }
    else if error == conflict_error
    then record t { conflicts = doc_id d ∷ t.conflicts }
    else t

abbrev pub send_chunks : PushClient → List CouchSyncDoc → Option (List BulkResult)
send_chunks client [] = some []
send_chunks client (d ∷ ds) = client.bulk_chunks (d ∷ ds)

abbrev pub send_files : PushClient → List CouchSyncDoc → Option (List BulkResult)
send_files client [] = some []
send_files client (d ∷ ds) = client.bulk_files (d ∷ ds)

abbrev pub ask_revs : PushClient → List Text → Option (List RevRow)
ask_revs client [] = some []
ask_revs client (id ∷ ids) = client.all_revs (id ∷ ids)

-- What the two phases did: the files that were sent, and the rows of results.
pub record SentBatch : Type 0 where
  pub files : List CouchSyncDoc
  pub results : List (CouchSyncDoc × Option BulkResult)

abbrev pub sent_batch : List ResultSlot → List BulkResult → SentBatch
sent_batch slots fs = record { files = surviving_files slots; results = fill_results slots fs }

-- The two phases, on prepared docs.
unfoldable pub push_prepared : PushClient → List Prepared → Option SentBatch
push_prepared client ps = do
  cs ← send_chunks client (chunk_items ps)
  let slots = withhold (failed_chunks (chunk_items ps) cs) (after_chunks ps cs)
  fs ← send_files client (surviving_files slots)
  some (sent_batch slots fs)

unfoldable pub send_batch : PushClient → List CouchSyncDoc → Option SentBatch
send_batch client docs = do
  rows ← ask_revs client (need_rev docs)
  push_prepared client (map (prepare (rev_map rows [])) docs)

unfoldable pub push_rows :
    PushClient → List CouchSyncDoc → Option (List (CouchSyncDoc × Option BulkResult))
push_rows client docs = do batch ← send_batch client docs; some batch.results

-- `pushDocs`. `none`: a request threw.
unfoldable pub push_docs : PushClient → List CouchSyncDoc → Option PushDocsResult
push_docs client [] = some no_result
push_docs client (d ∷ docs) = do rows ← push_rows client (d ∷ docs); some (summarise rows)

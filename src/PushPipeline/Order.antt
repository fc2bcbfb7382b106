-- ===== src/PushPipeline/Order.antt =====
-- The order of chunks and files in `pushDocs` (src/db/sync/push-pipeline.ts).
use obsidian_couchsync.Prelude.{
  ◌≡◌, List, [], ◌∷◌, Option, some, Bool, true, false, not, ◌&&◌, ◌||◌, if◌then◌else◌, contains,
  any, All, ◌==◌,
}
use obsidian_couchsync.Prelude.Text.{Text, text_eq}
use obsidian_couchsync.Prelude.Dict.{Dict}
use obsidian_couchsync.Docs.{CouchSyncDoc, file_doc, doc_id}
use obsidian_couchsync.DocId.{is_chunk_doc_id}
use obsidian_couchsync.PushPipeline.Transport.{
  BulkResult, refused, conflict_error, Prepared, held, to_chunks, to_files, SentBatch,
}

-- The chunks of a batch that the remote has refused other than by a conflict.
abbrev pub hard_failed : List (CouchSyncDoc × Option BulkResult) → List Text
hard_failed [] = []
hard_failed ((d, some (refused e)) ∷ rows) =
    let rest = hard_failed rows in
    if is_chunk_doc_id (doc_id d) && not (e == conflict_error) then doc_id d ∷ rest else rest
hard_failed (_ ∷ rows) = hard_failed rows

abbrev pub is_withheld : Option BulkResult → Bool
is_withheld (some (refused e)) = e == conflict_error
is_withheld _ = false

-- The doc refers to one of the failed chunks.
abbrev pub depends_on : List Text → CouchSyncDoc → Bool
depends_on failed (file_doc d) = any (λ c. contains c failed) d.chunks
depends_on failed _ = false

-- A file doc that refers to a failed chunk has the result of a conflict.
abbrev pub respects : List Text → CouchSyncDoc × Option BulkResult → Bool
respects failed (d, r) = is_chunk_doc_id (doc_id d) || not (depends_on failed d) || is_withheld r

abbrev by_kind : Prepared → Bool
by_kind (held d) = is_chunk_doc_id (doc_id d)
by_kind (to_chunks d) = is_chunk_doc_id (doc_id d)
by_kind (to_files d) = not (is_chunk_doc_id (doc_id d))

-- The two sides of the contract: the results, and the files that were sent.
abbrev Ordered : SentBatch → Type 0
Ordered batch =
    All (λ row. respects (hard_failed batch.results) row ≡ true) batch.results
    × All (λ d. depends_on (hard_failed batch.results) d ≡ false) batch.files

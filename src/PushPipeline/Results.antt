-- ===== src/PushPipeline/Results.antt =====
-- The results of `pushDocs` (src/db/sync/push-pipeline.ts), row by row.
use obsidian_couchsync.Prelude.{
  Bool-cases, inl, inr, ◌≡◌, refl, ap, List, [], ◌∷◌, ◌++◌, Option, none, some, Bool, true, false,
  not, ◌&&◌, arith, if◌then◌else◌, contains, ◌==◌,
}
use obsidian_couchsync.Prelude.Text.{Text, text_eq, text_beq, text_beq_iff}
use obsidian_couchsync.Docs.{CouchSyncDoc, doc_id}
use obsidian_couchsync.PushPipeline.Transport.{
  BulkResult, accepted, refused, conflict_error, PushClient, summarise, push_docs, push_rows,
  push_prepared, send_batch, fill_results, after_chunks, withhold, chunk_items, surviving_files,
  forbidden_error,
}
use obsidian_couchsync.PushPipeline.Order.{is_withheld}

-- The ids of the rows that were accepted, and of those that are in conflict.
abbrev pub accepted_ids : List (CouchSyncDoc × Option BulkResult) → List Text
accepted_ids [] = []
accepted_ids ((d, some accepted) ∷ rows) = doc_id d ∷ accepted_ids rows
accepted_ids (_ ∷ rows) = accepted_ids rows

abbrev pub conflict_ids : List (CouchSyncDoc × Option BulkResult) → List Text
conflict_ids [] = []
conflict_ids ((d, r) ∷ rows) =
    let rest = conflict_ids rows in if is_withheld r then doc_id d ∷ rest else rest

forbidden_no_conflict : (e : Text) → (e == forbidden_error) ≡ true → (e == conflict_error) ≡ false
unfolding text_beq
forbidden_no_conflict e h =
    let same : e ≡ forbidden_error = (text_beq_iff e forbidden_error).0 h in rw same refl

pub summarise_ids :
    (rows : List (CouchSyncDoc × Option BulkResult))
    → ((summarise rows).pushed ≡ accepted_ids rows)
      × ((summarise rows).conflicts ≡ conflict_ids rows)
unfolding summarise
summarise_ids [] = (refl, refl)
summarise_ids ((d, none) ∷ rows) = summarise_ids rows
summarise_ids ((d, some accepted) ∷ rows) =
    let (p, q) = summarise_ids rows in (ap (λ ids. doc_id d ∷ ids) p, q)
summarise_ids ((d, some (refused e)) ∷ rows) =
    let (p, q) = summarise_ids rows in
    elim (Bool-cases (e == forbidden_error)) [
      | inl denied ↦
          (rw (denied, summarise) p, rw (denied, forbidden_no_conflict e denied, summarise) q)
      | inr other ↦ elim (Bool-cases (e == conflict_error)) [
        | inl clash ↦ (
          rw (other, clash, summarise) p,
          rw (other, clash, summarise) (ap (λ ids. doc_id d ∷ ids) q),
        )
        | inr third ↦ (rw (other, third, summarise) p, rw (other, third, summarise) q)
      ]
    ]

-- No row is of the id.
abbrev pub absent_row : Text → List (CouchSyncDoc × Option BulkResult) → Bool
absent_row id [] = true
absent_row id ((d, _) ∷ rows) = not (doc_id d == id) && absent_row id rows

summarise-absent :
    (id : Text) (rows : List (CouchSyncDoc × Option BulkResult))
    → absent_row id rows ≡ true
    → (contains id (summarise rows).pushed ≡ false)
      × (contains id (summarise rows).conflicts ≡ false)
unfolding summarise
summarise-absent id [] h = (refl, refl)
summarise-absent id ((d, none) ∷ rows) h = summarise-absent id rows (ground arith)
summarise-absent id ((d, some accepted) ∷ rows) h =
    let (p, q) = summarise-absent id rows (ground arith) in
    (ground (arith, text_beq_iff id (doc_id d), text_beq_iff (doc_id d) id), q)
summarise-absent id ((d, some (refused e)) ∷ rows) h =
    let (p, q) = summarise-absent id rows (ground arith) in
    (ground arith, ground (arith, text_beq_iff id (doc_id d), text_beq_iff (doc_id d) id))

pub summarise-refused :
    (d : CouchSyncDoc) (e : Text) (before after : List (CouchSyncDoc × Option BulkResult))
    → absent_row (doc_id d) (before ++ after) ≡ true
    → (e == conflict_error) ≡ false
    → (contains (doc_id d) (summarise (before ++ ((d, some (refused e)) ∷ after))).pushed ≡ false)
      × (contains (doc_id d) (summarise (before ++ ((d, some (refused e)) ∷ after))).conflicts
          ≡ false)
unfolding summarise
summarise-refused d e [] after h other =
    (let (p, q) = summarise-absent (doc_id d) after h in (ground arith, ground arith))
summarise-refused d e ((x, none) ∷ before) after h other =
    summarise-refused d e before after (ground arith) other
summarise-refused d e ((x, some accepted) ∷ before) after h other =
    let (p, q) = summarise-refused d e before after (ground arith) other in
    (ground (arith, text_beq_iff (doc_id d) (doc_id x), text_beq_iff (doc_id x) (doc_id d)), q)
summarise-refused d e ((x, some (refused f)) ∷ before) after h other =
    let (p, q) = summarise-refused d e before after (ground arith) other in
    (
      ground arith,
      ground (arith, text_beq_iff (doc_id d) (doc_id x), text_beq_iff (doc_id x) (doc_id d)),
    )

pub push_docs-push_rows :
    (client : PushClient) (docs : List CouchSyncDoc)
    (rows : List (CouchSyncDoc × Option BulkResult))
    → push_rows client docs ≡ some rows
    → push_docs client docs ≡ some (summarise rows)
unfolding push_docs push_rows send_batch push_prepared fill_results after_chunks withhold
    chunk_items surviving_files summarise
push_docs-push_rows client [] [] h = refl
push_docs-push_rows client [] (x ∷ rows) h = absurd (cc)
push_docs-push_rows client (d ∷ docs) rows h = rw h

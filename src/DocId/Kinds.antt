-- ===== src/DocId/Kinds.antt =====
-- The kinds of ids (src/types/doc-id.ts).
use obsidian_couchsync.Prelude.{◌≡◌, [], ◌∷◌, true, false, arith}
use obsidian_couchsync.Prelude.Text.{Text, starts_with}
use obsidian_couchsync.DocId.{is_file_doc_id, is_chunk_doc_id, is_config_doc_id, is_local_doc_id}

-- The three replicated kinds and the reserved ids exclude one another: an id with one of the
-- prefixes has none of the others.
pub kinds_disjoint :
    (id : Text)
    → (is_file_doc_id id ≡ true
        → (is_chunk_doc_id id ≡ false)
          × (is_config_doc_id id ≡ false)
          × (is_local_doc_id id ≡ false))
      × (is_chunk_doc_id id ≡ true → (is_config_doc_id id ≡ false) × (is_local_doc_id id ≡ false))
      × (is_config_doc_id id ≡ true → is_local_doc_id id ≡ false)
unfolding is_file_doc_id is_chunk_doc_id is_config_doc_id is_local_doc_id starts_with
kinds_disjoint [] = ground arith
kinds_disjoint (a ∷ []) = ground arith
kinds_disjoint (a ∷ b ∷ id) = ground arith

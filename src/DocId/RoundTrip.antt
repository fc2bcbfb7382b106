-- ===== src/DocId/RoundTrip.antt =====
-- Printing and parsing of ids (src/types/doc-id.ts).
use obsidian_couchsync.Prelude.{
  ℕ, zero, suc, ◌≡◌, refl, sym, ap, ◌∙◌, inl, inr, [], ◌∷◌, ◌++◌, Option, none, some, Bool, true,
  false, arith, eqb, length, take, drop, Bool-cases, Option-cases,
}
use obsidian_couchsync.Prelude.Text.{
  Text, text_eq, text_beq, text_beq_iff, lit, starts_with, append-drop,
}
use obsidian_couchsync.DocId.{
  file_prefix, chunk_prefix, config_prefix, ChunkHashAlg, x64, hmac, alg_tag, make_file_id,
  make_chunk_id, make_config_id, is_chunk_doc_id, index_of, alg_of_tag, split_chunk_id,
  parse_chunk_id, ParsedDocId, file, chunk, config, local, unknown, parse_doc_id,
}

-- The id of a replicated kind.
abbrev pub doc_id_of : ParsedDocId → Text
doc_id_of (file path) = make_file_id path
doc_id_of (chunk alg hash) = make_chunk_id hash alg
doc_id_of (config path) = make_config_id path
doc_id_of (local name) = name
doc_id_of unknown = []

abbrev pub is_replicated : ParsedDocId → Bool
is_replicated (local name) = false
is_replicated unknown = false
is_replicated _ = true

-- Parsing the id made for a file path, a config path or a chunk hash gives back what it was made
-- from, whatever characters the path or the hash holds.
pub parse_doc_id-doc_id_of :
    (d : ParsedDocId) → is_replicated d ≡ true → parse_doc_id (doc_id_of d) ≡ some d
unfolding parse_doc_id parse_chunk_id make_file_id make_chunk_id make_config_id starts_with text_beq
parse_doc_id-doc_id_of (file path) h = refl
parse_doc_id-doc_id_of (chunk x64 hash) h = refl
parse_doc_id-doc_id_of (chunk hmac hash) h = refl
parse_doc_id-doc_id_of (config path) h = refl
parse_doc_id-doc_id_of (local name) h = ground arith
parse_doc_id-doc_id_of unknown h = ground arith

-- The first colon cuts the text in two.
index_of_cut :
    (c : ℕ) (s : Text) (i : ℕ) → index_of c s ≡ some i → s ≡ take i s ++ (c ∷ drop (suc i) s)
unfolding index_of
index_of_cut c [] i h = ground arith
index_of_cut c (x ∷ s) zero h = elim (Bool-cases (eqb x c)) [
  | inl here ↦ ground arith
  | inr further ↦ elim (Option-cases (index_of c s)) [
    | inl lost ↦ ground arith
    | inr (j, e) ↦ ground arith
  ]
]
index_of_cut c (x ∷ s) (suc i) h = elim (Option-cases (index_of c s)) [
  | inl lost ↦ ground arith
  | inr (j, e) ↦ ap (λ r. x ∷ r) (index_of_cut c s i (ground arith))
]

alg_of_tag-alg_tag :
    (tag : Text) (alg : ChunkHashAlg) → alg_of_tag tag ≡ some alg → tag ≡ alg_tag alg
unfolding alg_of_tag
alg_of_tag-alg_tag tag x64 h =
    ground (arith, text_beq_iff tag (lit "x64"), text_beq_iff tag (lit "hmac"))
alg_of_tag-alg_tag tag hmac h =
    ground (arith, text_beq_iff tag (lit "x64"), text_beq_iff tag (lit "hmac"))

split_chunk_id-print :
    (rest : Text) (at : Option ℕ) (alg : ChunkHashAlg) (hash : Text)
    → index_of b':' rest ≡ at
    → split_chunk_id rest at ≡ some (alg, hash)
    → alg_tag alg ++ (lit ":" ++ hash) ≡ rest
unfolding split_chunk_id
split_chunk_id-print rest none alg hash e h = ground arith
split_chunk_id-print rest (some i) alg hash e h = elim (Option-cases (alg_of_tag (take i rest))) [
  | inl lost ↦ ground arith
  | inr (a, found) ↦
      let same : a ≡ alg = ground arith in
      let rest_is : drop (suc i) rest ≡ hash = ground arith in
      rw (← same, ← rest_is, ← alg_of_tag-alg_tag (take i rest) a found)
        (sym (index_of_cut b':' rest i e))
]

parse_chunk_id-print :
    (id : Text) (alg : ChunkHashAlg) (hash : Text)
    → parse_chunk_id id ≡ some (alg, hash)
    → make_chunk_id hash alg ≡ id
unfolding parse_chunk_id is_chunk_doc_id make_chunk_id
parse_chunk_id-print id alg hash h = elim (Bool-cases (starts_with id chunk_prefix)) [
  | inl chunky ↦
      let rest = drop (length chunk_prefix) id in
      ap (λ r. chunk_prefix ++ r)
        (split_chunk_id-print rest (index_of b':' rest) alg hash refl (rw chunky at h))
      ∙ append-drop chunk_prefix id chunky
  | inr other ↦ ground arith
]

-- Whatever parseDocId reads as a file, chunk or config id is the id made for the parts it returns:
-- no two ids of those kinds parse to the same result.
pub doc_id_of-parse_doc_id :
    (id : Text) (d : ParsedDocId)
    → parse_doc_id id ≡ some d
    → is_replicated d ≡ true
    → doc_id_of d ≡ id
unfolding parse_doc_id make_file_id make_config_id
doc_id_of-parse_doc_id id (file path) h r = ground (arith, append-drop file_prefix id)
doc_id_of-parse_doc_id id (chunk alg hash) h r = elim (Option-cases (parse_chunk_id id)) [
  | inl lost ↦ ground arith
  | inr ((a, x), found) ↦
      let same : (a ≡ alg) × (x ≡ hash) = ground arith in
      rw (← same.0, ← same.1) (parse_chunk_id-print id a x found)
]
doc_id_of-parse_doc_id id (config path) h r = ground (arith, append-drop config_prefix id)
doc_id_of-parse_doc_id id (local name) h r = ground arith
doc_id_of-parse_doc_id id unknown h r = ground arith

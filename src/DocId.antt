-- ===== src/DocId.antt =====
-- Document ids (src/types/doc-id.ts). `none` where the source throws.
pub mod Kinds
pub mod RoundTrip
use obsidian_couchsync.Prelude.{
  ℕ, zero, suc, List, [], ◌∷◌, ◌++◌, Option, none, some, Bool, true, false, not, ◌||◌, eqb,
  if◌then◌else◌, length, take, drop, ◌==◌,
}
use obsidian_couchsync.Prelude.Text.{Text, text_eq, lit, starts_with}
use mathlib.Core.Option

abbrev pub file_prefix : Text
file_prefix = lit "file:"

abbrev pub chunk_prefix : Text
chunk_prefix = lit "chunk:"

abbrev pub config_prefix : Text
config_prefix = lit "config:"

pub data ChunkHashAlg : Type 0 where
  x64 hmac : ChunkHashAlg

abbrev pub alg_tag : ChunkHashAlg → Text
alg_tag x64 = lit "x64"
alg_tag hmac = lit "hmac"

unfoldable pub make_file_id : Text → Text
make_file_id vault_path = file_prefix ++ vault_path

unfoldable pub make_chunk_id : Text → ChunkHashAlg → Text
make_chunk_id hash alg = chunk_prefix ++ (alg_tag alg ++ (lit ":" ++ hash))

unfoldable pub make_config_id : Text → Text
make_config_id vault_path = config_prefix ++ vault_path

unfoldable pub is_file_doc_id : Text → Bool
is_file_doc_id id = starts_with id file_prefix

unfoldable pub is_chunk_doc_id : Text → Bool
is_chunk_doc_id id = starts_with id chunk_prefix

unfoldable pub is_config_doc_id : Text → Bool
is_config_doc_id id = starts_with id config_prefix

unfoldable pub is_local_doc_id : Text → Bool
is_local_doc_id id = starts_with id (lit "_")

unfoldable pub is_replicated_doc_id : Text → Bool
unfolding is_file_doc_id is_chunk_doc_id is_config_doc_id
is_replicated_doc_id id = is_file_doc_id id || is_chunk_doc_id id || is_config_doc_id id

unfoldable pub file_path_from_id : Text → Option Text
file_path_from_id id = if is_file_doc_id id then some (drop (length file_prefix) id) else none

unfoldable pub config_path_from_id : Text → Option Text
config_path_from_id id = if is_config_doc_id id then some (drop (length config_prefix) id) else none

-- `s.indexOf(c)`: `none` stands for -1.
unfoldable pub index_of : ℕ → Text → Option ℕ
index_of c [] = none
index_of c (x ∷ xs) =
    let rest = Option.map suc (index_of c xs) in if eqb x c then some zero else rest

unfoldable pub alg_of_tag : Text → Option ChunkHashAlg
alg_of_tag tag =
    if tag == lit "x64" then some x64 else if tag == lit "hmac" then some hmac else none

-- The part of `parseChunkId` behind the search for the colon.
unfoldable pub split_chunk_id : Text → Option ℕ → Option (ChunkHashAlg × Text)
unfolding alg_of_tag
split_chunk_id rest none = none
split_chunk_id rest (some colon) =
    Option.map (λ alg. (alg, drop (suc colon) rest)) (alg_of_tag (take colon rest))

unfoldable pub parse_chunk_id : Text → Option (ChunkHashAlg × Text)
unfolding split_chunk_id index_of
parse_chunk_id id =
    let rest = drop (length chunk_prefix) id in
    if not (is_chunk_doc_id id) then none else split_chunk_id rest (index_of b':' rest)

pub data ParsedDocId : Type 0 where
  file : Text → ParsedDocId
  chunk : ChunkHashAlg → Text → ParsedDocId
  config : Text → ParsedDocId
  local : Text → ParsedDocId
  unknown : ParsedDocId

unfoldable pub parse_doc_id : Text → Option ParsedDocId
unfolding is_file_doc_id is_chunk_doc_id is_config_doc_id config_path_from_id file_path_from_id
parse_doc_id id =
    if is_config_doc_id id
    then Option.map config (config_path_from_id id)
    else if is_chunk_doc_id id
    then Option.map (λ (alg, hash). chunk alg hash) (parse_chunk_id id)
    else if is_file_doc_id id
    then Option.map file (file_path_from_id id)
    else if starts_with id (lit "_local/")
    then some (local (drop (length (lit "_local/")) id))
    else if starts_with id (lit "_")
    then some (local (drop 1 id))
    else some unknown

-- ===== src/Classify.antt =====
-- The sync-state classifier (src/sync/classify-sync-relation.ts), with chunk equality
-- (chunk-equality.ts) and the integration baseline (last-synced.ts).
pub mod Content
pub mod Safety
use obsidian_couchsync.Prelude.{
  bool_eq, ℕ, ◌-◌, ◌+◌, List, [], ◌∷◌, Option, none, some, Bool, true, false, not, ◌||◌, ◌&&◌, ltb,
  leb, eqb, if◌then◌else◌, or_default, length, is_some, ◌==◌,
}
use obsidian_couchsync.Prelude.Text.{Text, text_eq}
use obsidian_couchsync.VectorClock.{
  VectorClock, VcRelation, equal, dominates, dominated, concurrent, compare_vc,
}

-- The loop of `chunkListsEqual`, over two lists of one length.
unfoldable pub chunks_agree : List Text → List Text → Bool
chunks_agree [] bs = true
chunks_agree (a ∷ as') [] = false
chunks_agree (a ∷ as') (b ∷ bs) = a == b && chunks_agree as' bs

unfoldable pub chunk_lists_equal : List Text → List Text → Bool
unfolding chunks_agree
chunk_lists_equal a b = if not (eqb (length a) (length b)) then false else chunks_agree a b

-- `deleted?: true` is either there or not.
pub record LastSynced : Type 0 where
  pub vclock : VectorClock
  pub chunks : Option (List Text)
  pub size : Option ℕ
  pub mtime : Option ℕ
  pub deleted : Bool

abbrev pub racy_mtime_window_ms : ℕ
racy_mtime_window_ms = 3000

-- `mtime <= now - RACY_MTIME_WINDOW_MS`, where the right side may be negative.
unfoldable pub stampable_mtime : Option ℕ → ℕ → Option ℕ
stampable_mtime none now = none
stampable_mtime (some mtime) now =
    if leb (mtime + racy_mtime_window_ms) now then some mtime else none

unfoldable pub storable_last_synced : LastSynced → ℕ → LastSynced
unfolding stampable_mtime
storable_last_synced entry now =
    if not (is_some entry.mtime) || is_some (stampable_mtime entry.mtime now)
    then entry
    else record entry { mtime = none }

pub data SyncRelation : Type 0 where
  identical vclock_only_drift remote_edit local_edit true_divergent : SyncRelation

pub record ClassifyInput : Type 0 where
  pub left_vc : VectorClock
  pub left_chunks : List Text
  pub left_deleted : Option Bool
  pub left_vc_attributed : Option Bool
  pub right_vc : VectorClock
  pub right_chunks : List Text
  pub right_deleted : Option Bool
  pub last_synced : Option LastSynced
  pub recreate_authority : Option Bool

-- `b === true` of an optional flag.
abbrev pub is_true : Option Bool → Bool
is_true none = false
is_true (some b) = b

-- The fields of `lastSynced` that `leftMatchesBaseline` tests.
unfoldable pub explains : Option LastSynced → Option Bool → List Text → Bool
unfolding chunk_lists_equal
explains none left_deleted left_chunks = false
explains (some base) left_deleted left_chunks =
    not base.deleted
    && (is_some base.chunks
        && (is_some base.size
            && (not (is_true left_deleted)
                && chunk_lists_equal left_chunks (or_default base.chunks []))))

unfoldable pub refine_remote_edit : ClassifyInput → SyncRelation
refine_remote_edit input =
    if not (is_true input.left_vc_attributed)
    then remote_edit
    else if explains input.last_synced input.left_deleted input.left_chunks
    then remote_edit
    else true_divergent

unfoldable pub chunks_equal : ClassifyInput → Bool
unfolding chunk_lists_equal
chunks_equal input =
    let left_deleted = is_true input.left_deleted in
    let right_deleted = is_true input.right_deleted in
    bool_eq left_deleted right_deleted
    && (left_deleted || chunk_lists_equal input.left_chunks input.right_chunks)

-- The chain of returns once the content differs, from the clocks' relation.
unfoldable pub differing : ClassifyInput → VcRelation → SyncRelation
unfolding refine_remote_edit
differing input concurrent = true_divergent
differing input dominated = refine_remote_edit input
differing input dominates = local_edit
differing input equal =
    if not (is_true input.left_vc_attributed)
    then if is_true input.recreate_authority then remote_edit else true_divergent
    else local_edit

unfoldable pub same_content : VcRelation → SyncRelation
same_content equal = identical
same_content _ = vclock_only_drift

unfoldable pub classify_sync_relation : ClassifyInput → SyncRelation
unfolding chunks_equal differing same_content
classify_sync_relation input =
    let vc_rel = compare_vc input.left_vc input.right_vc in
    if chunks_equal input then same_content vc_rel else differing input vc_rel

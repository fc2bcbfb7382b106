-- ===== src/Classify/Content.antt =====
-- The classifier and the content of the two sides (src/sync/classify-sync-relation.ts).
use obsidian_couchsync.Prelude.{
  ◌≡◌, refl, ◌↔◌, ◌⊎◌, List, [], ◌∷◌, true, false, arith, if◌then◌else◌,
}
use obsidian_couchsync.Prelude.Text.{Text, text_eq, text_beq_iff}
use obsidian_couchsync.VectorClock.{equal, compare_vc}
use obsidian_couchsync.VectorClock.Order.{LeVc, compare_vc-flip, compare_vc_iff}
use obsidian_couchsync.Classify.{
  chunk_lists_equal, SyncRelation, identical, vclock_only_drift, remote_edit, local_edit,
  true_divergent, ClassifyInput, is_true, same_content, differing, chunks_equal,
  classify_sync_relation,
}

pub chunk_lists_equal_iff : (a b : List Text) → (chunk_lists_equal a b ≡ true) ↔ (a ≡ b)
unfolding chunk_lists_equal
chunk_lists_equal_iff [] [] = ground arith
chunk_lists_equal_iff [] (y ∷ b) = ground arith
chunk_lists_equal_iff (x ∷ a) [] = ground arith
chunk_lists_equal_iff (x ∷ a) (y ∷ b) = ground (arith, text_beq_iff x y, chunk_lists_equal_iff a b)

-- Both sides are deletions, or both are alive with the same list of chunks.
abbrev pub SameContent : ClassifyInput → Type 0
SameContent i =
    (is_true i.left_deleted ≡ true) × (is_true i.right_deleted ≡ true)
    ⊎ (is_true i.left_deleted ≡ false)
      × (is_true i.right_deleted ≡ false)
      × (i.left_chunks ≡ i.right_chunks)

pub chunks_equal_iff : (i : ClassifyInput) → (chunks_equal i ≡ true) ↔ SameContent i
unfolding chunks_equal
chunks_equal_iff i = ground (arith, chunk_lists_equal_iff i.left_chunks i.right_chunks)

pub classify_of_chunks :
    (i : ClassifyInput)
    → classify_sync_relation i ≡ (
        let r = compare_vc i.left_vc i.right_vc in
        if chunks_equal i then same_content r else differing i r)
unfolding classify_sync_relation
classify_of_chunks i = refl

-- The classifier answers identical or vclock-only-drift exactly when the two sides have the same
-- content, whatever the clocks say: two deletions, or two alive sides with equal chunk lists. Of
-- these it answers identical exactly when every counter of the two clocks agrees too.
pub classify-SameContent :
    (i : ClassifyInput)
    → (((classify_sync_relation i ≡ identical) ⊎ (classify_sync_relation i ≡ vclock_only_drift))
        ↔ SameContent i)
      × ((classify_sync_relation i ≡ identical)
          ↔ (SameContent i × LeVc i.left_vc i.right_vc × LeVc i.right_vc i.left_vc))
unfolding same_content differing
classify-SameContent i =
    rw classify_of_chunks
      (ground (arith, chunks_equal_iff i, compare_vc_iff equal i.left_vc i.right_vc))

abbrev pub mirror : SyncRelation → SyncRelation
mirror identical = identical
mirror vclock_only_drift = vclock_only_drift
mirror remote_edit = local_edit
mirror local_edit = remote_edit
mirror true_divergent = true_divergent

-- The question that the other device asks about the same two docs.
abbrev pub swap : ClassifyInput → ClassifyInput
swap i = record i {
  left_vc = i.right_vc;
  left_chunks = i.right_chunks;
  left_deleted = i.right_deleted;
  right_vc = i.left_vc;
  right_chunks = i.left_chunks;
  right_deleted = i.left_deleted;
}

-- Two devices that compare the same two docs, each with its own as the left side, reach mirrored
-- answers: where one takes the other's edit the other keeps its own, and both see the same
-- conflicts. This is for pulls, where both clocks are the docs' own, outside a recreate re-pull.
pub classify-swap :
    (i : ClassifyInput)
    → is_true i.left_vc_attributed ≡ false
    → is_true i.recreate_authority ≡ false
    → classify_sync_relation (swap i) ≡ mirror (classify_sync_relation i)
unfolding classify_sync_relation
classify-swap i pull fresh = ground (
  arith,
  compare_vc-flip i.left_vc i.right_vc,
  chunk_lists_equal_iff i.left_chunks i.right_chunks,
  chunk_lists_equal_iff i.right_chunks i.left_chunks,
)

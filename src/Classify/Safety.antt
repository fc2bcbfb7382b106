-- ===== src/Classify/Safety.antt =====
-- The classifier and the clocks of the two sides (src/sync/classify-sync-relation.ts).
use obsidian_couchsync.Prelude.{
  ◌≡◌, refl, ◌↔◌, ◌⊎◌, List, [], Option, none, some, Bool, true, false, arith, or_default, is_some,
}
use obsidian_couchsync.Prelude.Text.{Text}
use obsidian_couchsync.VectorClock.{equal, dominates, dominated, concurrent, compare_vc}
use obsidian_couchsync.VectorClock.Order.{LeVc, compare_vc_iff}
use obsidian_couchsync.Classify.{
  LastSynced, explains, remote_edit, local_edit, true_divergent, ClassifyInput, is_true,
  chunks_equal, same_content, differing, classify_sync_relation,
}
use obsidian_couchsync.Classify.Content.{
  chunk_lists_equal_iff, classify_of_chunks, SameContent, chunks_equal_iff,
}

-- An alive baseline with a fingerprint that the left side, alive too, still matches.
abbrev pub IsExplained : ClassifyInput → Type 0
IsExplained i =
    (is_true i.left_deleted ≡ false)
    × ((base : LastSynced) × (i.last_synced ≡ some base)
        × (base.deleted ≡ false)
        × (is_some base.size ≡ true)
        × (base.chunks ≡ some i.left_chunks))

explains_iff :
    (base : Option LastSynced) (d : Option Bool) (chunks : List Text)
    → explains base d chunks ≡ true
    → (is_true d ≡ false)
      × ((b : LastSynced) × (base ≡ some b)
          × (b.deleted ≡ false)
          × (is_some b.size ≡ true)
          × (b.chunks ≡ some chunks))
unfolding explains
explains_iff none d chunks h = ground arith
explains_iff (some b) d chunks h = (
  ground arith,
  (
    b,
    refl,
    ground arith,
    ground arith,
    ground (arith, chunk_lists_equal_iff chunks (or_default b.chunks [])),
  ),
)

remote_edit_causes :
    (i : ClassifyInput)
    → is_true i.left_vc_attributed ≡ true
    → classify_sync_relation i ≡ remote_edit
    → (chunks_equal i ≡ false)
      × (compare_vc i.left_vc i.right_vc ≡ dominated)
      × (explains i.last_synced i.left_deleted i.left_chunks ≡ true)
unfolding same_content differing
remote_edit_causes i site h = ground (arith, classify_of_chunks i)

-- Where the left clock is only attributed to the disk, the classifier lets the right side replace
-- the disk content (remote-edit) only if the contents differ, the right clock is strictly above the
-- left, the disk file is alive, and an alive baseline with chunks and a size records exactly the
-- disk's chunks.
pub remote_edit-IsExplained :
    (i : ClassifyInput)
    → is_true i.left_vc_attributed ≡ true
    → classify_sync_relation i ≡ remote_edit
    → (¬ SameContent i) × LeVc i.left_vc i.right_vc × (¬ LeVc i.right_vc i.left_vc) × IsExplained i
remote_edit-IsExplained i site h =
    let (differ, below, explained) = remote_edit_causes i site h in
    let relation = (compare_vc_iff dominated i.left_vc i.right_vc).0 below in
    (
      λ same. cc ((chunks_equal_iff i).1 same),
      relation.0,
      relation.1,
      explains_iff i.last_synced i.left_deleted i.left_chunks explained,
    )

-- Between two docs with clocks of their own, outside a recreate re-pull, the classifier has the
-- right side taken (remote-edit) exactly when the contents differ and the right clock is strictly
-- above the left, has the left side kept (local-edit) exactly in the mirrored case, and asks the
-- user (true-divergent) in every other case of differing contents.
pub classify_pull :
    (i : ClassifyInput)
    → is_true i.left_vc_attributed ≡ false
    → is_true i.recreate_authority ≡ false
    → ((classify_sync_relation i ≡ remote_edit)
        ↔ ((¬ SameContent i) × LeVc i.left_vc i.right_vc × ¬ LeVc i.right_vc i.left_vc))
      × ((classify_sync_relation i ≡ local_edit)
          ↔ ((¬ SameContent i) × LeVc i.right_vc i.left_vc × ¬ LeVc i.left_vc i.right_vc))
      × ((classify_sync_relation i ≡ true_divergent) ↔ (
          (¬ SameContent i)
          × ((LeVc i.left_vc i.right_vc × LeVc i.right_vc i.left_vc)
              ⊎ (¬ LeVc i.left_vc i.right_vc) × ¬ LeVc i.right_vc i.left_vc)))
unfolding same_content differing
classify_pull i pull fresh = rw classify_of_chunks (
    ground (
      arith,
      chunks_equal_iff i,
      compare_vc_iff equal i.left_vc i.right_vc,
      compare_vc_iff dominates i.left_vc i.right_vc,
      compare_vc_iff dominated i.left_vc i.right_vc,
      compare_vc_iff concurrent i.left_vc i.right_vc,
    ))

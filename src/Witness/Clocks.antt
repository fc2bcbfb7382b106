-- ===== src/Witness/Clocks.antt =====
-- The theorems about clocks, the classifier and doc ids at concrete data.
use obsidian_couchsync.Prelude.{
  ◌≡◌, refl, ◌↔◌, ◌⊎◌, [], ◌∷◌, none, some, true, false, arith, to_set, to_set_go,
}
use obsidian_couchsync.Prelude.Text.{Text, lit, text_eq, text_beq, text_beq_iff}
use obsidian_couchsync.Prelude.Dict.{lookup, keys}
use obsidian_couchsync.VectorClock.{
  VectorClock, dominates, compare_vc, merge_vc, compare_loop, relation_of_flags, union_keys,
  counter,
}
use obsidian_couchsync.VectorClock.Order.{Relates, LeVc, compare_vc_iff}
use obsidian_couchsync.VectorClock.Merge.{merge_vc-least}
use obsidian_couchsync.VectorClock.Latest.{NodupKeys}
use obsidian_couchsync.Classify.{
  remote_edit, local_edit, true_divergent, ClassifyInput, chunk_lists_equal, chunks_agree,
  chunks_equal, differing, same_content, explains, refine_remote_edit, classify_sync_relation,
}
use obsidian_couchsync.Classify.Content.{SameContent}
use obsidian_couchsync.Classify.Safety.{IsExplained, remote_edit-IsExplained, classify_pull}
use obsidian_couchsync.DocId.{chunk, x64, parse_doc_id}
use obsidian_couchsync.DocId.RoundTrip.{doc_id_of, parse_doc_id-doc_id_of}
use obsidian_couchsync.Witness.Data.{desk, both, phone, old_chunk, new_chunk}

compare_vc_iff_example : (compare_vc both desk ≡ dominates) ↔ Relates dominates both desk
compare_vc_iff_example = compare_vc_iff dominates both desk

merge_vc-least_example : LeVc (merge_vc desk phone) both ↔ (LeVc desk both × LeVc phone both)
merge_vc-least_example = merge_vc-least desk phone both

-- `both`, written in the other order.
abbrev other_order : VectorClock
other_order = (lit "phone", 1) ∷ (lit "desk", 2) ∷ []

nodup_both : NodupKeys both
unfolding lookup text_beq
nodup_both = (refl, (refl, tt))

nodup_other_order : NodupKeys other_order
unfolding lookup text_beq
nodup_other_order = (refl, (refl, tt))

names_differ : text_beq (lit "phone") (lit "desk") ≡ false
unfolding text_beq
names_differ = refl

same_counters : (k : Text) → lookup k both ≡ lookup k other_order
unfolding lookup
same_counters k =
    ground (arith, text_beq_iff (lit "desk") k, text_beq_iff (lit "phone") k, names_differ)

-- A disk file that still has the chunk of its baseline, against an edit of another device.
abbrev on_disk : ClassifyInput
on_disk = record {
  left_vc = desk;
  left_chunks = old_chunk ∷ [];
  left_deleted = none;
  left_vc_attributed = some true;
  right_vc = both;
  right_chunks = new_chunk ∷ [];
  right_deleted = none;
  last_synced = some (record {
    vclock = desk;
    chunks = some (old_chunk ∷ []);
    size = some 1;
    mtime = none;
    deleted = false;
  });
  recreate_authority = none;
}

disk_replaced : classify_sync_relation on_disk ≡ remote_edit
unfolding classify_sync_relation compare_vc compare_loop relation_of_flags union_keys counter
    chunk_lists_equal chunks_agree chunks_equal differing same_content refine_remote_edit explains
    text_beq lookup keys to_set to_set_go
disk_replaced = refl

remote_edit-IsExplained_example :
    (¬ SameContent on_disk) × LeVc desk both × (¬ LeVc both desk) × IsExplained on_disk
remote_edit-IsExplained_example = remote_edit-IsExplained on_disk refl disk_replaced

-- The same two sides in a pull.
abbrev in_pull : ClassifyInput
in_pull = record on_disk { left_vc_attributed = none; last_synced = none }

classify_pull_example :
    ((classify_sync_relation in_pull ≡ remote_edit)
      ↔ ((¬ SameContent in_pull) × LeVc desk both × ¬ LeVc both desk))
    × ((classify_sync_relation in_pull ≡ local_edit)
        ↔ ((¬ SameContent in_pull) × LeVc both desk × ¬ LeVc desk both))
    × ((classify_sync_relation in_pull ≡ true_divergent) ↔ (
        (¬ SameContent in_pull)
        × ((LeVc desk both × LeVc both desk) ⊎ (¬ LeVc desk both) × ¬ LeVc both desk)))
classify_pull_example = classify_pull in_pull refl refl

parse_doc_id-doc_id_of_example :
    parse_doc_id (doc_id_of (chunk x64 (lit "1f"))) ≡ some (chunk x64 (lit "1f"))
parse_doc_id-doc_id_of_example = parse_doc_id-doc_id_of (chunk x64 (lit "1f")) refl

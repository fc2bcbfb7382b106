-- ===== src/Witness/Pulls.antt =====
-- The theorems about pulled batches at concrete data.
use obsidian_couchsync.Prelude.{
  ◌≡◌, refl, List, [], ◌∷◌, none, some, true, false, All, if◌then◌else◌, contains, leb, arith,
  to_set, to_set_go, ◌&&◌, not,
}
use obsidian_couchsync.Prelude.Text.{lit, text_eq, text_beq, starts_with}
use obsidian_couchsync.Prelude.Dict.{lookup, keys}
use obsidian_couchsync.VectorClock.{
  compare_vc, compare_loop, relation_of_flags, union_keys, counter,
}
use obsidian_couchsync.Classify.{
  chunk_lists_equal, chunks_agree, chunks_equal, differing, same_content, refine_remote_edit,
  classify_sync_relation,
}
use obsidian_couchsync.DocId.{is_file_doc_id, file_path_from_id}
use obsidian_couchsync.Docs.{FileDoc, file_doc}
use obsidian_couchsync.Echo.{
  EchoTracker, default_ttl_ms, is_pull_echo, record_pull_writes, sweep_pull_written,
}
use obsidian_couchsync.Echo.Laws.{distinct, is_fresh, is_pull_echo_recorded}
use obsidian_couchsync.Checkpoints.{meta_remote_seq}
use obsidian_couchsync.PendingApply.{threw}
use obsidian_couchsync.PullWriter.Commit.{
  reason_for, VaultEnv, vault_outcome, PullState, commit, write_stats, apply_batch,
}
use obsidian_couchsync.PullWriter.Landed.{
  CommitLanded, commit-CommitLanded, PassedWith, recorded, failed_write-recorded,
  failed_write-unrecorded,
}
use obsidian_couchsync.PullWriter.Batches.{BatchLanded, apply_batch-BatchLanded}
use obsidian_couchsync.Resolver.{file, take_remote, pull_input, verdict_of, resolve_on_pull}
use obsidian_couchsync.Store.{num, seq}
use obsidian_couchsync.Store.Commit.{get_doc}
use obsidian_couchsync.PullWriter.{
  ChangeRow, Batch, ok, PullEnv, is_converged, conflict_kind, on_concurrent, on_verdict, judge,
  against_local, classify_resolvable, classify_doc, classify_row, classify_rows, classify,
  empty_batch, accept, present, remember,
}
use obsidian_couchsync.PendingSets.{edit_vs_edit, missing_chunks, pending_apply_key}
use obsidian_couchsync.PullWriter.Rows.{Covers, classify-Covers}
use obsidian_couchsync.PullWriter.Conflicts.{Remembered, classify-Remembered}
use obsidian_couchsync.Witness.Data.{
  both, note, old_chunk, cursors, device, new_note, rival_note, old_note, note_id,
}

abbrev penv : PullEnv
penv = record {
  store = device;
  has_resolver = true;
  ensure_chunks = λ d. true;
  probe_unpushed = λ p. some false;
}

abbrev newer_rows : List ChangeRow
newer_rows = record { id = note_id; deleted = false; doc = some (file_doc new_note) } ∷ []

abbrev newer_batch : Batch
newer_batch = accept (file_doc new_note) (empty_batch [])

newer_classified : classify penv [] newer_rows ≡ ok newer_batch
unfolding classify classify_rows classify_row classify_doc classify_resolvable against_local judge
    is_converged on_verdict file_path_from_id is_file_doc_id starts_with resolve_on_pull pull_input
    verdict_of classify_sync_relation compare_vc compare_loop relation_of_flags union_keys counter
    chunk_lists_equal chunks_agree chunks_equal differing same_content refine_remote_edit text_beq
    lookup keys get_doc to_set to_set_go
newer_classified = refl

classify-Covers_example : All (Covers penv) newer_batch.accepted
classify-Covers_example = classify-Covers penv [] newer_rows newer_batch refl newer_classified

abbrev rival_rows : List ChangeRow
rival_rows = record { id = note_id; deleted = false; doc = some (file_doc rival_note) } ∷ []

abbrev rival_batch : Batch
rival_batch =
    present (lit "a") (file_doc old_note) (file_doc rival_note)
      (remember note_id edit_vs_edit (empty_batch []))

rival_classified : classify penv [] rival_rows ≡ ok rival_batch
unfolding classify classify_rows classify_row classify_doc classify_resolvable against_local judge
    is_converged on_verdict file_path_from_id is_file_doc_id starts_with resolve_on_pull pull_input
    verdict_of classify_sync_relation compare_vc compare_loop relation_of_flags union_keys counter
    chunk_lists_equal chunks_agree chunks_equal differing same_content refine_remote_edit text_beq
    lookup keys get_doc to_set to_set_go on_concurrent conflict_kind
rival_classified = refl

classify-Remembered_example : All (Remembered rival_batch.conflicts) rival_batch.concurrent
classify-Remembered_example = classify-Remembered penv [] rival_rows rival_batch rival_classified

abbrev pulling : PullState
pulling = record {
  checkpoints = cursors;
  store = device;
  echoes = [];
  pending = record { entries = none; attempts = []; notices = [] };
}

-- A vault in which every write fails.
abbrev locked : VaultEnv
locked = record { now = 50; ensure_chunks = λ d. true; apply_pull_write = λ d. threw }

remote_synced : lookup meta_remote_seq device.meta ≡ some (seq cursors.remote_seq)
unfolding lookup text_beq
remote_synced = refl

apply_batch-BatchLanded_example :
    BatchLanded (num 5) (apply_batch penv locked [] rival_rows (num 5) pulling)
apply_batch-BatchLanded_example =
    apply_batch-BatchLanded penv locked [] rival_rows (num 5) pulling remote_synced

commit-CommitLanded_example :
    (st : PullState) × (commit locked (file_doc new_note ∷ []) (num 5) [] pulling
      ≡ some (st, write_stats locked (file_doc new_note ∷ [])))
    × CommitLanded locked (file_doc new_note ∷ []) (num 5) [] pulling st
commit-CommitLanded_example = commit-CommitLanded locked (file_doc new_note ∷ []) (num 5) [] pulling

write_fails : (d : FileDoc) → vault_outcome locked d ≡ threw
unfolding vault_outcome
write_fails d = ground arith

new_note_owed : reason_for device new_note ≡ some missing_chunks
unfolding reason_for lookup text_beq
new_note_owed = refl

failed_write-recorded_example :
    (st : PullState) × PassedWith locked new_note [] []
      (num 5)
      []
      pulling
      (some (recorded 50 missing_chunks))
      st
failed_write-recorded_example =
    failed_write-recorded locked new_note [] [] (num 5) [] pulling missing_chunks refl
      (write_fails new_note) new_note_owed

-- The chunk of the doc is local.
abbrev moved_note : FileDoc
moved_note = note (old_chunk ∷ []) both false

moved_note_free : reason_for device moved_note ≡ none
unfolding reason_for lookup text_beq
moved_note_free = refl

failed_write-unrecorded_example :
    (st : PullState) × PassedWith locked moved_note [] []
      (num 5)
      []
      pulling
      (lookup (pending_apply_key note_id) device.meta)
      st
failed_write-unrecorded_example =
    failed_write-unrecorded locked moved_note [] [] (num 5) [] pulling refl (write_fails moved_note)
      moved_note_free

new_note_taken : resolve_on_pull (some (file old_note)) (file new_note) none ≡ take_remote
unfolding resolve_on_pull pull_input verdict_of classify_sync_relation compare_vc compare_loop
    relation_of_flags union_keys counter chunk_lists_equal chunks_agree chunks_equal differing
    same_content refine_remote_edit text_beq lookup keys to_set to_set_go
new_note_taken = refl

-- The record of the note, and an old one of another doc.
abbrev two_records : EchoTracker
two_records =
    (note_id, record { seq = 3; added_at = 90000 })
    ∷ (lit "file:b.md", record { seq = 4; added_at = 100 })
    ∷ []

two_distinct : distinct two_records ≡ true
unfolding distinct keys text_beq
two_distinct = refl

is_pull_echo_recorded_example :
    (is_pull_echo note_id 7 (record_pull_writes 90001 (lit "file:b.md" ∷ []) 8 two_records) ≡ (
      if contains note_id (lit "file:b.md" ∷ [])
      then leb 7 8
      else is_pull_echo note_id 7 two_records))
    × (is_pull_echo note_id 7
          (sweep_pull_written default_ttl_ms 90001 (lit "file:b.md" ∷ []) two_records)
        ≡ (is_pull_echo note_id 7 two_records
            && not (contains note_id (lit "file:b.md" ∷ []))
            && is_fresh default_ttl_ms 90001 (lookup note_id two_records)))
is_pull_echo_recorded_example =
    is_pull_echo_recorded 90001 (lit "file:b.md" ∷ []) 8 two_records default_ttl_ms note_id 7
      two_distinct

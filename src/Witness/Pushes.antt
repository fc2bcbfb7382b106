-- ===== src/Witness/Pushes.antt =====
-- The theorems about push cycles, transactions and the changes feed at concrete data.
use obsidian_couchsync.Prelude.{
  ◌≡◌, refl, List, [], ◌∷◌, Option, none, some, true, false, All, ◌==◌, contains, to_set, to_set_go,
}
use obsidian_couchsync.Prelude.Text.{lit, text_eq, text_beq, starts_with}
use obsidian_couchsync.Prelude.Dict.{lookup, insert, keys}
use obsidian_couchsync.VectorClock.{
  compare_vc, compare_loop, relation_of_flags, union_keys, counter,
}
use obsidian_couchsync.Classify.{chunk_lists_equal, chunks_agree}
use obsidian_couchsync.DocId.{is_chunk_doc_id}
use obsidian_couchsync.Docs.{FileDoc, CouchSyncDoc, file_doc, chunk_doc}
use obsidian_couchsync.Store.{Store, StoredDoc, num, seq}
use obsidian_couchsync.PendingSets.{unpushed_key, missing_chunks, divergent}
use obsidian_couchsync.Checkpoints.{
  meta_remote_seq, meta_push_seq, commit_pull_batch, UnpushedAdd, commit_push_cycle,
}
use obsidian_couchsync.Checkpoints.Pull.{PullLanded, commit_pull_batch-PullLanded}
use obsidian_couchsync.Checkpoints.Push.{PushLanded, commit_push_cycle-PushLanded}
use obsidian_couchsync.PushPipeline.{
  FileRow, FileClassifyResult, classify_loop, classify_file, add_verdict, same_state,
  remote_vclocks, remote_docs, remote_revs,
}
use obsidian_couchsync.PushPipeline.Clocks.{HasSeen, remote_clock, classify_loop-HasSeen}
use obsidian_couchsync.PushPipeline.Transport.{
  BulkResult, accepted, refused, conflict_error, PushClient, prepare, chunk_items, failed_chunks,
  is_blocked, surviving_files, after_chunks, withhold, fill_results, SentBatch, send_batch,
  push_prepared, push_rows, rev_map, forbidden_error,
}
use obsidian_couchsync.PushPipeline.Cycle.{
  PushEnv, PushState, committed, finish_cycle, escalate, is_escalated, bare_adds, divergent_adds,
  to_bulk,
}
use obsidian_couchsync.PushPipeline.Results.{accepted_ids, conflict_ids}
use obsidian_couchsync.PushPipeline.Account.{
  CycleLanded, finish_cycle-CycleLanded, refused_push-unrecorded, kept_files, surfaced, early_adds,
}
use obsidian_couchsync.Witness.Data.{
  both, note, note_id, old_chunk, a_chunk, old_note, new_note, device, cursors,
}

remote_synced : lookup meta_remote_seq device.meta ≡ some (seq cursors.remote_seq)
unfolding lookup text_beq
remote_synced = refl

push_synced : lookup meta_push_seq device.meta ≡ some (seq cursors.last_pushed_seq)
unfolding lookup text_beq
push_synced = refl

commit_pull_batch-PullLanded_example :
    (t : Store) × (commit_pull_batch 50
        (file_doc new_note ∷ [])
        (num 5)
        ((note_id, missing_chunks) ∷ [])
        []
        (cursors, device)
      ≡ some (record cursors { remote_seq = num 5 }, t))
    × PullLanded 50 (num 5) ((note_id, missing_chunks) ∷ []) [] (file_doc new_note ∷ []) device t
commit_pull_batch-PullLanded_example =
    commit_pull_batch-PullLanded 50 (num 5) ((note_id, missing_chunks) ∷ []) []
      (file_doc new_note ∷ []) cursors device

abbrev flag : UnpushedAdd
flag = record { reason = divergent; attempts = 1 }

commit_push_cycle-PushLanded_example :
    (t : Store) × (commit_push_cycle 50
        (num 1)
        ((note_id, flag) ∷ [])
        (old_chunk ∷ [])
        (cursors, device)
      ≡ some (record cursors { last_pushed_seq = num 1 }, t))
    × PushLanded 50 (num 1) ((note_id, flag) ∷ []) (old_chunk ∷ []) device t
commit_push_cycle-PushLanded_example =
    commit_push_cycle-PushLanded 50 (num 1) ((note_id, flag) ∷ []) (old_chunk ∷ []) cursors device
      push_synced

abbrev note_row : StoredDoc
note_row = record { doc = file_doc old_note; version = 1; local_seq = 1 }

-- The remote has a doc that the local one has not seen, and one that it has.
abbrev remote_row : FileDoc → List FileRow
remote_row d = record { id = note_id; rev = some (lit "1-a"); deleted = false; doc = some d } ∷ []

classify_loop-HasSeen_example :
    All
      (λ p. HasSeen (remote_clock p.doc.id (remote_row old_note) none) p.doc)
      (classify_loop (remote_row old_note) [] (new_note ∷ [])).proceed
classify_loop-HasSeen_example = classify_loop-HasSeen (remote_row old_note) [] (new_note ∷ [])

-- A silent merge: a higher clock with the same chunks.
abbrev merged_note : FileDoc
merged_note = note (old_chunk ∷ []) both false

merged_skipped :
    contains note_id (classify_loop (remote_row old_note) [] (merged_note ∷ [])).skipped_equal
    ≡ true
unfolding classify_loop classify_file add_verdict same_state remote_vclocks remote_docs remote_revs
    compare_vc compare_loop relation_of_flags union_keys counter chunk_lists_equal chunks_agree
    text_beq lookup insert keys to_set to_set_go
merged_skipped = refl

-- A remote that refuses the chunk, and would accept any file.
abbrev full_disk : PushClient
full_disk = record {
  all_revs = λ ids. some [];
  bulk_chunks = λ ds. some (refused (lit "insufficient_storage") ∷ []);
  bulk_files = λ ds. some (accepted ∷ []);
}

abbrev sent_docs : List CouchSyncDoc
sent_docs = chunk_doc a_chunk ∷ file_doc old_note ∷ []

abbrev answered_rows : List (CouchSyncDoc × Option BulkResult)
answered_rows =
    (chunk_doc a_chunk, some (refused (lit "insufficient_storage")))
    ∷ (file_doc old_note, some (refused conflict_error))
    ∷ []

abbrev answered_batch : SentBatch
answered_batch = record { files = []; results = answered_rows }

-- A remote without write permission.
abbrev read_only : PushClient
read_only = record {
  all_revs = λ ids. some [];
  bulk_chunks = λ ds. some (refused forbidden_error ∷ []);
  bulk_files = λ ds. some (refused forbidden_error ∷ []);
}

abbrev env_of : PushClient → PushEnv
env_of client = record {
  now = 50;
  parse_seq = λ t. 0;
  all_docs = λ ids. some [];
  client = client;
  cancelled_after_changes = false;
  cancelled_after_classify = false;
}

abbrev pushing : PushState
pushing = record { checkpoints = cursors; store = device; echoes = [] }

abbrev one_file : FileClassifyResult
one_file = record {
  proceed = record { doc = old_note; remote_rev = none; prev_attempts = 0 } ∷ [];
  divergent = [];
  skipped_equal = [];
}

file_withheld :
    push_rows full_disk (
      to_bulk
        (chunk_doc a_chunk ∷ [])
        (kept_files (env_of full_disk) (num 1) [] (chunk_doc a_chunk ∷ []) [] one_file [] pushing))
    ≡ some answered_rows
unfolding push_rows send_batch push_prepared prepare rev_map chunk_items failed_chunks is_blocked
    surviving_files after_chunks withhold fill_results escalate is_escalated is_chunk_doc_id
    starts_with lookup text_beq
file_withheld = refl

finish_cycle-CycleLanded_example :
    (st : PushState) × CycleLanded
      (env_of full_disk)
      (num 1)
      []
      (chunk_doc a_chunk ∷ [])
      []
      one_file
      []
      pushing
      (accepted_ids answered_rows)
      (conflict_ids answered_rows)
      st
finish_cycle-CycleLanded_example =
    finish_cycle-CycleLanded (env_of full_disk) (num 1) [] (chunk_doc a_chunk ∷ []) [] one_file []
      pushing answered_rows file_withheld push_synced

file_denied :
    push_rows read_only
      (to_bulk [] (kept_files (env_of read_only) (num 1) [] [] [] one_file [] pushing))
    ≡ some ((file_doc old_note, some (refused forbidden_error)) ∷ [])
unfolding push_rows send_batch push_prepared prepare rev_map chunk_items failed_chunks is_blocked
    surviving_files after_chunks withhold fill_results escalate is_escalated is_chunk_doc_id
    starts_with lookup text_beq
file_denied = refl

forbidden_is_other : (forbidden_error == conflict_error) ≡ false
unfolding text_beq
forbidden_is_other = refl

denied_not_added :
    contains note_id (keys (early_adds (env_of read_only) (num 1) [] [] [] one_file [] pushing))
    ≡ false
unfolding divergent_adds bare_adds keys escalate is_escalated lookup text_beq
denied_not_added = refl

refused_push-unrecorded_example :
    (st : PushState) × (finish_cycle (env_of read_only) (num 1) [] [] [] (one_file, []) pushing
      ≡ (st, committed (surfaced (env_of read_only) (num 1) [] [] [] one_file [] pushing)))
    × (lookup meta_push_seq st.store.meta ≡ some (seq (num 1)))
    × (lookup (unpushed_key note_id) st.store.meta ≡ lookup (unpushed_key note_id) device.meta)
refused_push-unrecorded_example =
    refused_push-unrecorded (env_of read_only) (num 1) [] [] [] one_file [] pushing
      (file_doc old_note) forbidden_error [] [] file_denied refl forbidden_is_other denied_not_added
      refl push_synced

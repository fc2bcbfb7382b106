-- ===== src/Witness/Cycles.antt =====
-- The theorems about retries and about the candidates of a push at concrete data.
use obsidian_couchsync.Prelude.{
  is_some, ◌≡◌, refl, List, [], ◌∷◌, none, some, true, false, contains,
}
use obsidian_couchsync.Prelude.Text.{Text, text_beq, text_eq, starts_with}
use obsidian_couchsync.Prelude.Dict.{lookup, insert, keys}
use obsidian_couchsync.Docs.{file_doc}
use obsidian_couchsync.DocId.{
  is_replicated_doc_id, is_file_doc_id, is_chunk_doc_id, is_config_doc_id, is_local_doc_id,
}
use obsidian_couchsync.Store.{StoredDoc}
use obsidian_couchsync.Store.Changes.{lists}
use obsidian_couchsync.PendingSets.{
  load_all, id_from_key, parse_apply, pending_apply_key, UnpushedEntry, race_stale,
}
use obsidian_couchsync.Echo.{is_pull_echo}
use obsidian_couchsync.PendingApply.{ApplyEnv, PendingApply, applied, apply, load_entries, map_of}
use obsidian_couchsync.PendingApply.Outcome.{Settled, lands, lacks_chunks, apply-Settled}
use obsidian_couchsync.Witness.Data.{device, new_note, new_chunk, old_note, note_id}

-- The remote was asked, and the chunk is nowhere.
abbrev lost_chunk : ApplyEnv
lost_chunk = record {
  now = 50;
  ensure_chunks = λ d. some (record { still_missing = new_chunk ∷ []; remote_consulted = true });
  write = λ d. applied;
}

abbrev unloaded : PendingApply
unloaded = record { entries = none; attempts = []; notices = [] }

new_note_synced :
    is_some (lookup note_id (load_entries unloaded device))
    ≡ is_some (lookup (pending_apply_key note_id) device.meta)
unfolding load_entries map_of load_all id_from_key parse_apply pending_apply_key lookup insert
    text_beq starts_with
new_note_synced = refl

apply-Settled_example :
    Settled lost_chunk new_note
      (lands lost_chunk new_note)
      (lacks_chunks lost_chunk new_note)
      (apply lost_chunk new_note (unloaded, device))
apply-Settled_example = apply-Settled lost_chunk new_note unloaded device new_note_synced

abbrev changed : StoredDoc
changed = record { doc = file_doc old_note; version = 1; local_seq = 1 }

changed_listed : lists changed (changed ∷ []) ≡ true
unfolding text_beq
changed_listed = refl

note_replicated : is_replicated_doc_id note_id ≡ true
unfolding is_replicated_doc_id is_file_doc_id is_chunk_doc_id is_config_doc_id is_local_doc_id
    starts_with text_beq
note_replicated = refl

no_echo : is_pull_echo note_id 1 [] ≡ false
unfolding is_pull_echo lookup
no_echo = refl

abbrev flagged : List (Text × UnpushedEntry)
flagged = (note_id, record { added_at = 40; reason = race_stale; attempts = 1 }) ∷ []

note_flagged : contains note_id (keys flagged) ≡ true
unfolding keys text_beq
note_flagged = refl

-- ===== src/PendingSets.antt =====
-- The three persistent id sets, one meta entry for each id: unpushed ids
-- (src/db/sync/unpushed-ids.ts), pending applies (pending-apply.ts) and pending conflicts
-- (pending-conflict.ts).
pub mod Keys
use obsidian_couchsync.Prelude.{
  ℕ, List, [], ◌∷◌, ◌++◌, Option, none, some, Bool, true, false, if◌then◌else◌, or_default, length,
  drop, ◌==◌,
}
use obsidian_couchsync.Prelude.Text.{Text, text_eq, lit, starts_with}
use obsidian_couchsync.Prelude.Dict.{Dict}
use obsidian_couchsync.Store.{RawEntry, MetaValue, seq, synced, entry}

abbrev pub unpushed_key_prefix : Text
unpushed_key_prefix = lit "_sync/unpushed/"

abbrev pub pending_apply_key_prefix : Text
pending_apply_key_prefix = lit "_sync/pending-apply/"

abbrev pub pending_conflict_key_prefix : Text
pending_conflict_key_prefix = lit "_sync/pending-conflict/"

pub data UnpushedReason : Type 0 where
  race_stale divergent : UnpushedReason

pub record UnpushedEntry : Type 0 where
  pub added_at : ℕ
  pub reason : UnpushedReason
  pub attempts : ℕ

pub data PendingApplyReason : Type 0 where
  missing_chunks pending_deletion : PendingApplyReason

pub record PendingApplyEntry : Type 0 where
  pub added_at : ℕ
  pub reason : PendingApplyReason
  pub missing : Option (List Text)

pub data PendingConflictKind : Type 0 where
  pull_delete_vs_edit local_delete_vs_remote_edit edit_vs_edit : PendingConflictKind

pub record PendingConflictEntry : Type 0 where
  pub added_at : ℕ
  pub kind : PendingConflictKind

unfoldable pub unpushed_key : Text → Text
unpushed_key doc_id = unpushed_key_prefix ++ doc_id

unfoldable pub pending_apply_key : Text → Text
pending_apply_key doc_id = pending_apply_key_prefix ++ doc_id

unfoldable pub pending_conflict_key : Text → Text
pending_conflict_key doc_id = pending_conflict_key_prefix ++ doc_id

-- `unpushedIdFromKey`, `pendingApplyIdFromKey` and `pendingConflictIdFromKey`, by prefix.
unfoldable pub id_from_key : Text → Text → Option Text
id_from_key prefix key = if starts_with key prefix then some (drop (length prefix) key) else none

abbrev pub unpushed_reason_text : UnpushedReason → Text
unpushed_reason_text race_stale = lit "race-stale"
unpushed_reason_text divergent = lit "divergent"

abbrev pub apply_reason_text : PendingApplyReason → Text
apply_reason_text missing_chunks = lit "missing-chunks"
apply_reason_text pending_deletion = lit "pending-deletion"

abbrev pub conflict_kind_text : PendingConflictKind → Text
conflict_kind_text pull_delete_vs_edit = lit "pull-delete-vs-edit"
conflict_kind_text local_delete_vs_remote_edit = lit "local-delete-vs-remote-edit"
conflict_kind_text edit_vs_edit = lit "edit-vs-edit"

-- The values that the writers put under the keys.
unfoldable pub unpushed_value : UnpushedEntry → MetaValue
unpushed_value e = entry (record {
  added_at = some e.added_at;
  reason = some (unpushed_reason_text e.reason);
  kind = none;
  attempts = some e.attempts;
  missing_chunks = none;
})

unfoldable pub apply_value : PendingApplyEntry → MetaValue
apply_value e = entry (record {
  added_at = some e.added_at;
  reason = some (apply_reason_text e.reason);
  kind = none;
  attempts = none;
  missing_chunks = e.missing;
})

unfoldable pub conflict_value : PendingConflictEntry → MetaValue
conflict_value e = entry (record {
  added_at = some e.added_at;
  reason = none;
  kind = some (conflict_kind_text e.kind);
  attempts = none;
  missing_chunks = none;
})

unfoldable pub read_unpushed_reason : Option Text → Option UnpushedReason
read_unpushed_reason none = none
read_unpushed_reason (some t) =
    if t == lit "race-stale"
    then some race_stale
    else if t == lit "divergent"
    then some divergent
    else none

unfoldable pub read_apply_reason : Option Text → Option PendingApplyReason
read_apply_reason none = none
read_apply_reason (some t) =
    if t == lit "missing-chunks"
    then some missing_chunks
    else if t == lit "pending-deletion"
    then some pending_deletion
    else none

unfoldable pub read_conflict_kind : Option Text → Option PendingConflictKind
read_conflict_kind none = none
read_conflict_kind (some t) =
    if t == lit "pull-delete-vs-edit"
    then some pull_delete_vs_edit
    else if t == lit "local-delete-vs-remote-edit"
    then some local_delete_vs_remote_edit
    else if t == lit "edit-vs-edit"
    then some edit_vs_edit
    else none

-- `parseEntry` of the three files: a malformed value is dropped, a missing number read as 0.
unfoldable pub parse_unpushed : MetaValue → Option UnpushedEntry
unfolding read_unpushed_reason
parse_unpushed (entry r) = elim (read_unpushed_reason r.reason) [
  | none ↦ none
  | some reason ↦ some (record {
    added_at = or_default r.added_at 0;
    reason = reason;
    attempts = or_default r.attempts 0;
  })
]
parse_unpushed _ = none

unfoldable pub parse_apply : MetaValue → Option PendingApplyEntry
unfolding read_apply_reason
parse_apply (entry r) = elim (read_apply_reason r.reason) [
  | none ↦ none
  | some reason ↦
      some
        (record { added_at = or_default r.added_at 0; reason = reason; missing = r.missing_chunks })
]
parse_apply _ = none

unfoldable pub parse_conflict : MetaValue → Option PendingConflictEntry
unfolding read_conflict_kind
parse_conflict (entry r) = elim (read_conflict_kind r.kind) [
  | none ↦ none
  | some kind ↦ some (record { added_at = or_default r.added_at 0; kind = kind })
]
parse_conflict _ = none

-- `loadAllUnpushed`, `loadAllPendingApply` and `loadAllPendingConflict` over the meta table: the
-- rows whose key has the prefix and whose value parses.
unfoldable pub load_all {ℓ} :
    {E : Type ℓ} → Text → (MetaValue → Option E) → Dict Text MetaValue → List (Text × E)
unfolding id_from_key
load_all prefix parse [] = []
load_all prefix parse ((key, value) ∷ meta) =
    let rest = load_all prefix parse meta in
    elim (id_from_key prefix key) [
      | none ↦ rest
      | some id ↦ elim (parse value) [ none ↦ rest | some e ↦ (id, e) ∷ rest ]
    ]

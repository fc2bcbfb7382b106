-- ===== src/PendingApply.antt =====
-- The docs that are in the local store and not yet in the vault, and their retries
-- (src/db/sync/pending-apply.ts). Chunk fetches and vault writes are the environment's.
pub mod Resolve
pub mod Outcome
use obsidian_couchsync.Prelude.{
  ℕ, ◌+◌, List, [], ◌∷◌, ◌++◌, map, Option, none, some, Bool, true, false, not, ◌&&◌, if◌then◌else◌,
  or_default, is_some, filter, ◌==◌,
}
use obsidian_couchsync.Prelude.Text.{Text, text_eq}
use obsidian_couchsync.Prelude.Dict.{Dict, lookup, insert, erase}
use obsidian_couchsync.Docs.{FileDoc, CouchSyncDoc, file_doc, chunk_doc, config_doc}
use obsidian_couchsync.Classify.{chunk_lists_equal}
use obsidian_couchsync.Store.{MetaWrite, put, Store, run_write_tx}
use obsidian_couchsync.Store.Commit.{get_doc}
use obsidian_couchsync.PendingSets.{
  PendingApplyReason, missing_chunks, pending_deletion, PendingApplyEntry, pending_apply_key_prefix,
  pending_apply_key, apply_value, parse_apply, load_all,
}
use obsidian_couchsync.Checkpoints.{meta_tx}

-- What `ensureChunks` reports.
pub record EnsureChunksResult : Type 0 where
  pub still_missing : List Text
  pub remote_consulted : Bool

-- `WriteResult`, or a throw.
pub data WriteOutcome : Type 0 where
  applied declined threw : WriteOutcome

-- What the environment answers. `none`: `ensureChunks` throws.
pub record ApplyEnv : Type 0 where
  pub now : ℕ
  pub ensure_chunks : FileDoc → Option EnsureChunksResult
  pub write : FileDoc → WriteOutcome

pub data Notice : Type 0 where
  quarantined recovered : Text → Notice

-- The fields `entries` and `attempts`, and the callbacks `notify` and `onRecovered` as a trace.
pub record PendingApply : Type 0 where
  pub entries : Option (Dict Text PendingApplyEntry)
  pub attempts : Dict Text ℕ
  pub notices : List Notice

-- `new Map(rows.map(...))`
unfoldable pub map_of {ℓ} : {V : Type ℓ} → Dict Text V → List (Text × V) → Dict Text V
map_of m [] = m
map_of m ((id, e) ∷ rows) = map_of (insert id e m) rows

unfoldable pub load_entries : PendingApply → Store → Dict Text PendingApplyEntry
unfolding map_of load_all
load_entries p s = elim (p.entries) [
  | some entries ↦ entries
  | none ↦ map_of [] (load_all pending_apply_key_prefix parse_apply s.meta)
]

unfoldable pub note_entries :
    ℕ → List (Text × PendingApplyReason) → Dict Text PendingApplyEntry → Dict Text PendingApplyEntry
note_entries now [] m = m
note_entries now ((id, reason) ∷ added) m =
    note_entries now added
      (insert id (record { added_at = now; reason = reason; missing = none }) m)

-- `noteRecorded`: nothing before the first load.
unfoldable pub note_recorded : ℕ → List (Text × PendingApplyReason) → PendingApply → PendingApply
unfolding note_entries
note_recorded now added p = elim (p.entries) [
  | none ↦ p
  | some m ↦ record p { entries = some (note_entries now added m) }
]

abbrev pub invalidate : PendingApply → PendingApply
invalidate p = record p { entries = none; attempts = [] }

-- A transaction of meta writes alone. Without guarded docs it does not roll back.
unfoldable pub write_metas : ℕ → List MetaWrite → Store → Store
write_metas now writes s = or_default (run_write_tx now (meta_tx [] writes) s) s

unfoldable pub delete_writes : List Text → List MetaWrite
delete_writes [] = []
delete_writes (id ∷ ids) = MetaWrite.delete (pending_apply_key id) ∷ delete_writes ids

unfoldable pub erase_all {ℓ} : {V : Type ℓ} → List Text → Dict Text V → Dict Text V
erase_all [] m = m
erase_all (id ∷ ids) m = erase_all ids (erase id m)

-- `resolve(ids)`
unfoldable pub resolve : ℕ → List Text → PendingApply × Store → PendingApply × Store
unfolding load_entries write_metas delete_writes erase_all
resolve now ids (p, s) =
    let entries = load_entries p s in
    elim (filter (λ id. is_some (lookup id entries)) ids) [
      | [] ↦ (record p { entries = some entries }, s)
      | id ∷ rest ↦ (
        record p {
          entries = some (erase_all (id ∷ rest) entries);
          attempts = erase_all (id ∷ rest) p.attempts;
        },
        write_metas now (delete_writes (id ∷ rest)) s,
      )
    ]

unfoldable pub same_ids : Option (List Text) → Option (List Text) → Bool
same_ids none none = true
same_ids none (some b) = false
same_ids (some a) none = false
same_ids (some a) (some b) = chunk_lists_equal a b

abbrev reason_beq : PendingApplyReason → PendingApplyReason → Bool
reason_beq missing_chunks missing_chunks = true
reason_beq pending_deletion pending_deletion = true
reason_beq _ _ = false

-- `prev !== undefined && prev.reason === next.reason && sameIds(...)`
unfoldable pub unchanged : Option PendingApplyEntry → PendingApplyReason → Option (List Text) → Bool
unfolding same_ids
unchanged none reason missing = false
unchanged (some prev) reason missing =
    reason_beq prev.reason reason && same_ids prev.missing missing

abbrev prev_missing : Option PendingApplyEntry → Option (List Text)
prev_missing none = none
prev_missing (some prev) = prev.missing

abbrev prev_added_at : Option PendingApplyEntry → ℕ → ℕ
prev_added_at none now = now
prev_added_at (some prev) now = prev.added_at

-- `record(id, reason, missingChunks)`, with its result.
unfoldable pub record_entry :
    ℕ
    → Text
    → PendingApplyReason
    → Option (List Text)
    → PendingApply × Store
    → Bool × PendingApply × Store
unfolding load_entries unchanged write_metas
record_entry now id reason missing (p, s) =
    let entries = load_entries p s in
    let prev = lookup id entries in
    let next : PendingApplyEntry = record {
      added_at = prev_added_at prev now;
      reason = reason;
      missing = missing;
    } in
    if unchanged prev reason missing then (false, record p { entries = some entries }, s) else (
      is_some missing && not (same_ids (prev_missing prev) missing),
      record p { entries = some (insert id next entries) },
      write_metas now (put (pending_apply_key id) (apply_value next) ∷ []) s,
    )

pub data ApplyOutcome : Type 0 where
  done quarantine skipped : ApplyOutcome

-- The part of `apply` that records a miss: the outcome, and the notice of a newly broken doc.
unfoldable pub record_miss :
    ApplyEnv → FileDoc → Option (List Text) → PendingApply × Store → PendingApply × Store
unfolding record_entry
record_miss env doc missing world =
    let (broke, p, s) = record_entry env.now doc.id missing_chunks missing world in
    if broke then (record p { notices = p.notices ++ (quarantined doc.id ∷ []) }, s) else (p, s)

-- The end of `apply`: the doc no longer waits for chunks.
unfoldable pub settle : ApplyEnv → FileDoc → PendingApply × Store → PendingApply × Store
unfolding resolve
settle env doc (p, s) =
    let entries = load_entries p s in
    if is_some (lookup doc.id entries)
    then (let (p', s') = resolve env.now (doc.id ∷ []) (record p { entries = some entries }, s) in
        (record p' { notices = p'.notices ++ (recovered doc.id ∷ []) }, s'))
    else (record p { entries = some entries }, s)

-- `apply(doc)`
unfoldable pub apply :
    ApplyEnv → FileDoc → PendingApply × Store → ApplyOutcome × PendingApply × Store
unfolding record_miss settle
apply env doc world = elim (env.ensure_chunks doc) [
  | none ↦ let (p, s) = record_miss env doc none world in (skipped, p, s)
  | some res ↦ elim (res.still_missing) [
    | c ∷ missing ↦
        if res.remote_consulted
        then (let (p, s) = record_miss env doc (some (c ∷ missing)) world in (quarantine, p, s))
        else (let (p, s) = record_miss env doc none world in (skipped, p, s))
    | [] ↦ elim (env.write doc) [
      | threw ↦ let (p, s) = record_miss env doc none world in (skipped, p, s)
      | _ ↦ let (p, s) = settle env doc world in (done, p, s)
    ]
  ]
]

-- What a drain has done so far: the state, the moot ids, and the report by outcome, by doc id.
pub record Drained : Type 0 where
  pub pending : PendingApply
  pub store : Store
  pub moot : List Text
  pub applied_ids : List Text
  pub quarantined_ids : List Text
  pub skipped_ids : List Text

abbrev bump : Text → PendingApply → PendingApply
bump id p = record p { attempts = insert id (or_default (lookup id p.attempts) 0 + 1) p.attempts }

-- A recorded deletion, of a doc that is still a tombstone.
unfoldable pub drain_deletion : ApplyEnv → FileDoc → Text → Drained → Drained
unfolding resolve
drain_deletion env doc id d = elim (env.write doc) [
  | threw ↦ record d { pending = bump id d.pending; skipped_ids = d.skipped_ids ++ (id ∷ []) }
  | _ ↦
      let (p, s) = resolve env.now (id ∷ []) (d.pending, d.store) in
      record d { pending = p; store = s; applied_ids = d.applied_ids ++ (id ∷ []) }
]

-- A recorded write, of a doc that is still alive.
unfoldable pub drain_live : ApplyEnv → FileDoc → Text → Drained → Drained
unfolding apply
drain_live env doc id d =
    let (outcome, p, s) = apply env doc (d.pending, d.store) in
    elim outcome [
      | done ↦ record d { pending = p; store = s; applied_ids = d.applied_ids ++ (id ∷ []) }
      | quarantine ↦ record d {
        pending = bump id p;
        store = s;
        quarantined_ids = d.quarantined_ids ++ (id ∷ []);
      }
      | skipped ↦ record d {
        pending = bump id p;
        store = s;
        skipped_ids = d.skipped_ids ++ (id ∷ []);
      }
    ]

abbrev moot_id : Text → Drained → Drained
moot_id id d = record d { moot = d.moot ++ (id ∷ []) }

unfoldable pub drain_entry : ApplyEnv → Drained → Text × PendingApplyEntry → Drained
unfolding drain_deletion drain_live
drain_entry env d (id, e) = elim (get_doc id d.store) [
  | some (file_doc doc) ↦ elim (e.reason) [
    | pending_deletion ↦ if doc.deleted then drain_deletion env doc id d else moot_id id d
    | missing_chunks ↦ if doc.deleted then moot_id id d else drain_live env doc id d
  ]
  | _ ↦ moot_id id d
]

unfoldable pub drain_entries : ApplyEnv → Drained → List (Text × PendingApplyEntry) → Drained
unfolding drain_entry
drain_entries env d [] = d
drain_entries env d (row ∷ rows) = drain_entries env (drain_entry env d row) rows

-- `runDrain()`
unfoldable pub run_drain : ApplyEnv → PendingApply × Store → Drained
unfolding drain_entries
run_drain env (p, s) =
    let entries = load_entries p s in
    let start : Drained = record {
      pending = record p { entries = some entries };
      store = s;
      moot = [];
      applied_ids = [];
      quarantined_ids = [];
      skipped_ids = [];
    } in
    let d = drain_entries env start entries in
    let (p', s') = resolve env.now d.moot (d.pending, d.store) in
    record d { pending = p'; store = s' }

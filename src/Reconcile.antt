-- ===== src/Reconcile.antt =====
-- The reconciler of vault and local store (src/sync/reconciler.ts): its steps and its report. What a
-- step calls is recorded, and how the call ends is the environment's.
pub mod Paths
pub mod Collision
pub mod Scan
use obsidian_couchsync.Prelude.{
  ℕ, ◌+◌, List, [], ◌∷◌, ◌++◌, Option, none, some, Bool, true, false, not, ◌&&◌, if◌then◌else◌,
}
use obsidian_couchsync.Prelude.Text.{Text}
use obsidian_couchsync.Classify.{LastSynced, SyncRelation}
use obsidian_couchsync.Docs.{FileDoc}
use obsidian_couchsync.PendingApply.{ApplyOutcome, done, quarantine, skipped}
use obsidian_couchsync.VectorClock.{VectorClock}

pub data ReconcileMode : Type 0 where
  apply report : ReconcileMode

abbrev pub is_apply : ReconcileMode → Bool
is_apply apply = true
is_apply report = false

-- A doc with its path, `filePathFromId(doc._id)`.
pub record PathDoc : Type 0 where
  pub path : Text
  pub doc : FileDoc

-- The calls that write to the vault, the local store or the baselines.
pub data Call : Type 0 where
  push_file mark_deleted remove_file : Text → Call
  write_doc align_tombstone write_remote : PathDoc → Call
  ask_recreate ask_local_edit align_baseline adopt_clock : Text → PathDoc → Call
  ask_local_delete : PathDoc → Call

-- What the rest of the plugin answers: whether the run is disposed by the time of a call, whether the
-- call returns, what `fileToDb` and `PendingApply.apply` return (`none`: a throw), the filters, the
-- baselines, the classification (`none`: a throw), and the unpushed edits of colliding files.
pub record ReconcileEnv : Type 0 where
  pub mode : ReconcileMode
  pub disposed : Call → Bool
  pub returns : Call → Bool
  pub records : Text → Bool
  pub applies : PathDoc → Option ApplyOutcome
  pub should_sync : Text → Bool
  pub last_synced : Text → Option LastSynced
  pub relation : Text → PathDoc → Option SyncRelation
  pub unpushed : Text → Bool
  pub has_orchestrator : Bool
  pub clock_as_object : FileDoc → VectorClock
  pub in_manifest : Option (Text → Bool)
  pub is_local_device : Text → Bool

pub record ReconcileReport : Type 0 where
  pub in_sync : ℕ
  pub local_wins : List Text
  pub remote_wins : List Text
  pub pushed : List Text
  pub deleted : List Text
  pub restored : List Text
  pub quarantined : List Text
  pub collisions_resolved : List Text

abbrev pub empty_report : ReconcileReport
empty_report = record {
  in_sync = 0;
  local_wins = [];
  remote_wins = [];
  pushed = [];
  deleted = [];
  restored = [];
  quarantined = [];
  collisions_resolved = [];
}

-- The report so far, with the calls that were made, in order.
pub record Run : Type 0 where
  pub made : List Call
  pub log : ReconcileReport

abbrev pub call : Call → Run → Run
call c r = record r { made = r.made ++ (c ∷ []) }

-- `tryStep`
unfoldable pub try_step : ReconcileEnv → Call → Run → Bool × Run
try_step env c r =
    if not (is_apply env.mode)
    then (true, r)
    else if env.disposed c
    then (false, r)
    else (env.returns c, call c r)

-- `tryPush`
unfoldable pub try_push : ReconcileEnv → Text → Run → Bool × Run
try_push env path r =
    let (ok, after) = try_step env (push_file path) r in
    if not (is_apply env.mode) then (env.should_sync path, r) else (ok && env.records path, after)

abbrev pub caught : Option ApplyOutcome → ApplyOutcome
caught none = skipped
caught (some outcome) = outcome

-- `applyRemoteToVault`
unfoldable pub apply_remote_to_vault : ReconcileEnv → PathDoc → Run → ApplyOutcome × Run
apply_remote_to_vault env d r =
    if not (is_apply env.mode)
    then (done, r)
    else if env.disposed (write_remote d)
    then (skipped, r)
    else (caught (env.applies d), call (write_remote d) r)

-- `if (done) report.<list>.push(path)`
abbrev pub note : (ReconcileReport → ReconcileReport) → Bool × Run → Run
note add (ok, r) = if ok then record r { log = add r.log } else r

abbrev pub add_in_sync : ReconcileReport → ReconcileReport
add_in_sync log = record log { in_sync = log.in_sync + 1 }

abbrev pub add_pushed : Text → ReconcileReport → ReconcileReport
add_pushed path log = record log { pushed = log.pushed ++ (path ∷ []) }

abbrev pub add_deleted : Text → ReconcileReport → ReconcileReport
add_deleted path log = record log { deleted = log.deleted ++ (path ∷ []) }

abbrev pub add_restored : Text → ReconcileReport → ReconcileReport
add_restored path log = record log { restored = log.restored ++ (path ∷ []) }

abbrev pub add_quarantined : Text → ReconcileReport → ReconcileReport
add_quarantined path log = record log { quarantined = log.quarantined ++ (path ∷ []) }

abbrev pub add_local_win : Text → ReconcileReport → ReconcileReport
add_local_win path log = record log { local_wins = log.local_wins ++ (path ∷ []) }

abbrev pub add_remote_win : Text → ReconcileReport → ReconcileReport
add_remote_win path log = record log { remote_wins = log.remote_wins ++ (path ∷ []) }

abbrev pub add_collision : Text → ReconcileReport → ReconcileReport
add_collision path log = record log { collisions_resolved = log.collisions_resolved ++ (path ∷ []) }

-- `if (r === "applied") … else if (r === "quarantined") …`
abbrev pub note_applied : (ReconcileReport → ReconcileReport) → Text → ApplyOutcome × Run → Run
note_applied add path (done, r) = record r { log = add r.log }
note_applied add path (quarantine, r) = record r { log = add_quarantined path r.log }
note_applied add path (skipped, r) = r

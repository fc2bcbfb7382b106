-- ===== src/Reconcile/Paths.antt =====
-- One path of the slow scan (src/sync/reconciler.ts, `runOnce`), with one file and one doc at most.
pub mod Guards
pub mod Permitted
use obsidian_couchsync.Prelude.{
  List, [], ◌∷◌, ◌++◌, Option, none, some, Bool, true, false, not, ◌&&◌, ◌||◌, if◌then◌else◌,
}
use obsidian_couchsync.Prelude.Text.{Text}
use obsidian_couchsync.Classify.{
  LastSynced, SyncRelation, identical, vclock_only_drift, remote_edit, local_edit, true_divergent,
}
use obsidian_couchsync.Docs.{FileDoc, clock_of}
use obsidian_couchsync.PendingApply.{ApplyOutcome, done, quarantine, skipped}
use obsidian_couchsync.Reconcile.{
  PathDoc, Call, push_file, mark_deleted, write_doc, align_tombstone, ask_recreate, ask_local_edit,
  ask_local_delete, align_baseline, adopt_clock, ReconcileEnv, ReconcileReport, Run, note,
  note_applied, add_in_sync, add_pushed, add_deleted, add_restored, add_local_win, add_remote_win,
  try_step, try_push, apply_remote_to_vault,
}
use obsidian_couchsync.VectorClock.{
  VcRelation, equal, dominates, dominated, concurrent, compare_vc, latest_device,
}

-- Case E: neither has the path.
unfoldable pub reconcile_absent : ReconcileEnv → Option PathDoc → Run → Run
reconcile_absent env none r = r
reconcile_absent env (some d) r =
    let (ok, aligned) = try_step env (align_tombstone d) r in
    elim (env.last_synced d.path) [ none ↦ r | some ls ↦ if ls.deleted then r else aligned ]

-- Case C: a file over a tombstone.
unfoldable pub reconcile_tombstone : ReconcileEnv → Text → PathDoc → Run → Run
reconcile_tombstone env path d r = elim (env.relation path d) [
  | none ↦ r
  | some local_edit ↦ note (add_pushed path) (try_push env path r)
  | some remote_edit ↦ note (add_deleted path) (try_step env (write_doc d) r)
  | some true_divergent ↦
      if env.has_orchestrator
      then note (add_pushed path) (try_step env (ask_recreate path d) r)
      else r
  | some identical ↦ r
  | some vclock_only_drift ↦ r
]

-- `classifyMissingFromVault`: is the missing file a deletion?
unfoldable pub is_missing_deletion : ReconcileEnv → PathDoc → Bool
is_missing_deletion env d =
    let by_writer = elim (latest_device (clock_of d.doc)) as (λ _. Bool) [
      | none ↦ false
      | some writer ↦ env.is_local_device writer
    ] in
    elim env.in_manifest [ none ↦ false | some listed ↦ by_writer || listed d.path ]

abbrev pub restore : ReconcileEnv → PathDoc → Run → Run
restore env d r = note_applied (add_restored d.path) d.path (apply_remote_to_vault env d r)

abbrev pub propagate : ReconcileEnv → PathDoc → Run → Run
propagate env d r = note (add_deleted d.path) (try_step env (mark_deleted d.path) r)

abbrev pub ask_delete : ReconcileEnv → PathDoc → Run → Run
ask_delete env d r = note (add_deleted d.path) (try_step env (ask_local_delete d) r)

-- Case D: an alive doc without a file.
unfoldable pub reconcile_missing : ReconcileEnv → PathDoc → Run → Run
reconcile_missing env d r = elim (env.last_synced d.path) [
  | none ↦ if is_missing_deletion env d then propagate env d r else restore env d r
  | some ls ↦
      let after_deletion = elim (compare_vc (clock_of d.doc) ls.vclock) as (λ _. Run) [
        | dominates ↦ restore env d r
        | concurrent ↦ if env.has_orchestrator then ask_delete env d r else restore env d r
        | _ ↦ propagate env d r
      ] in
      let after_content = elim (compare_vc (clock_of d.doc) ls.vclock) as (λ _. Run) [
        | dominates ↦ if env.has_orchestrator then ask_delete env d r else r
        | _ ↦ propagate env d r
      ] in
      if ls.deleted then after_deletion else after_content
]

-- Case A/B: a file and an alive doc.
unfoldable pub reconcile_both : ReconcileEnv → Text → PathDoc → Run → Run
reconcile_both env path d r =
    let by_relation = elim (env.relation path d) as (λ _. Run) [
      | none ↦ r
      | some identical ↦
          (try_step env (align_baseline path d) (record r { log = add_in_sync r.log })).1
      | some vclock_only_drift ↦ note add_in_sync (try_step env (adopt_clock path d) r)
      | some local_edit ↦ note (add_local_win path) (try_push env path r)
      | some remote_edit ↦ note_applied (add_remote_win path) path (apply_remote_to_vault env d r)
      | some true_divergent ↦
          if env.has_orchestrator
          then note (add_remote_win path) (try_step env (ask_local_edit path d) r)
          else r
    ] in
    if env.should_sync path then by_relation else r

-- One file and one doc at most.
unfoldable pub reconcile_one : ReconcileEnv → Option Text → Option PathDoc → Run → Run
reconcile_one env none none r = reconcile_absent env none r
reconcile_one env none (some d) r =
    if d.doc.deleted then reconcile_absent env (some d) r else reconcile_missing env d r
reconcile_one env (some path) none r = note (add_pushed path) (try_push env path r)
reconcile_one env (some path) (some d) r =
    if d.doc.deleted then reconcile_tombstone env path d r else reconcile_both env path d r

-- ===== src/Reconcile/Paths/Permitted.antt =====
-- Every call of the reconciler for a path is permitted (src/sync/reconciler.ts).
use obsidian_couchsync.Prelude.{
  [], Option, none, some, Bool, true, false, not, ◌&&◌, if◌then◌else◌, all, ◌==◌, ◌≡◌, refl, sym,
  ◌∙◌, ◌||◌, is_some, arith, beq_refl, Option-cases, inl, inr,
}
use obsidian_couchsync.Prelude.Text.{Text, text_eq}
use obsidian_couchsync.Classify.{
  SyncRelation, identical, vclock_only_drift, remote_edit, local_edit, true_divergent,
}
use obsidian_couchsync.VectorClock.{VcRelation, equal, dominates, dominated, concurrent, compare_vc}
use obsidian_couchsync.Docs.{clock_of}
use obsidian_couchsync.Reconcile.{
  PathDoc, ReconcileEnv, ReconcileReport, Run, push_file, mark_deleted, write_doc, align_tombstone,
  ask_recreate, ask_local_edit, ask_local_delete, align_baseline, adopt_clock, add_in_sync,
  add_deleted, add_restored, add_pushed, add_remote_win, add_local_win,
}
use obsidian_couchsync.Reconcile.Paths.{
  reconcile_absent, reconcile_tombstone, reconcile_missing, reconcile_both, reconcile_one, restore,
  propagate, ask_delete, is_missing_deletion,
}
use obsidian_couchsync.Reconcile.Paths.Guards.{
  is_remote_edit, is_dominating, was_here, listed_there, written_here, allowed, permitted, Good,
  branch-Good, test-Good, try_step-Good, step-Good, push-Good, write-Good,
}

or_comm : (a b : Bool) → (a || b) ≡ (b || a)
or_comm a b = ground arith

is_missing_deletion-lem :
    (env : ReconcileEnv) (d : PathDoc)
    → is_missing_deletion env d
      ≡ (is_some env.in_manifest && (listed_there env d.path || written_here env d))
unfolding is_missing_deletion
is_missing_deletion-lem env d = elim (Option-cases env.in_manifest) [
  | inl first ↦ rw (first, is_missing_deletion) refl
  | inr (listed, e) ↦ rw (e, is_missing_deletion) (or_comm (written_here env d) (listed d.path))
]

both_true : (a b : Bool) → a ≡ true → b ≡ true → (a && b) ≡ true
both_true a b p q = ground arith

absent-Good :
    (env : ReconcileEnv) (d : Option PathDoc) (r : Run)
    → Good env none d r
    → Good env none d (reconcile_absent env d r)
unfolding reconcile_absent allowed
absent-Good env none r h = h
absent-Good env (some d) r h = elim (Option-cases (env.last_synced d.path)) [
  | inl e ↦ rw (reconcile_absent, e) h
  | inr (ls, e) ↦
      rw (reconcile_absent, e)
        (branch-Good env none (some d) ls.deleted _ _ h
          (try_step-Good env none (some d) (align_tombstone d) r refl h))
]

tombstone-Good :
    (relation : Option SyncRelation) (env : ReconcileEnv) (path : Text) (d : PathDoc) (r : Run)
    → env.relation path d ≡ relation
    → d.doc.deleted ≡ true
    → Good env (some path) (some d) r
    → Good env (some path) (some d) (reconcile_tombstone env path d r)
unfolding reconcile_tombstone allowed
tombstone-Good none env path d r e gone h = rw (reconcile_tombstone, e) h
tombstone-Good (some local_edit) env path d r e gone h =
    rw (reconcile_tombstone, e)
      (push-Good env (some path) (some d) (add_pushed path) path r (rw (beq_refl path, e) refl) h)
tombstone-Good (some remote_edit) env path d r e gone h =
    rw (reconcile_tombstone, e)
      (step-Good env (some path) (some d) (add_deleted path) (write_doc d) r
        (both_true d.doc.deleted (is_remote_edit (env.relation path d)) gone (rw e refl)) h)
tombstone-Good (some true_divergent) env path d r e gone h =
    rw (reconcile_tombstone, e)
      (test-Good env (some path) (some d) env.has_orchestrator _ _
        (λ asks.
          step-Good env (some path) (some d) (add_pushed path) (ask_recreate path d) r asks h)
        (λ _. h))
tombstone-Good (some identical) env path d r e gone h = rw (reconcile_tombstone, e) h
tombstone-Good (some vclock_only_drift) env path d r e gone h = rw (reconcile_tombstone, e) h

both-Good :
    (relation : Option SyncRelation) (env : ReconcileEnv) (path : Text) (d : PathDoc) (r : Run)
    → env.relation path d ≡ relation
    → Good env (some path) (some d) r
    → Good env (some path) (some d) (reconcile_both env path d r)
unfolding reconcile_both allowed
both-Good none env path d r e h =
    rw (reconcile_both, e) (branch-Good env (some path) (some d) (env.should_sync path) _ _ h h)
both-Good (some identical) env path d r e h =
    rw (reconcile_both, e)
      (branch-Good env (some path) (some d) (env.should_sync path) _ _
        (try_step-Good env (some path) (some d) (align_baseline path d)
          (record r { log = add_in_sync r.log }) refl h)
        h)
both-Good (some vclock_only_drift) env path d r e h =
    rw (reconcile_both, e)
      (branch-Good env (some path) (some d) (env.should_sync path) _ _
        (step-Good env (some path) (some d) add_in_sync (adopt_clock path d) r refl h) h)
both-Good (some local_edit) env path d r e h =
    rw (reconcile_both, e)
      (branch-Good env (some path) (some d) (env.should_sync path) _ _
        (push-Good env (some path) (some d) (add_local_win path) path r (rw (beq_refl path, e) refl)
          h)
        h)
both-Good (some remote_edit) env path d r e h =
    rw (reconcile_both, e)
      (branch-Good env (some path) (some d) (env.should_sync path) _ _
        (write-Good env (some path) (some d) (add_remote_win path) path d r (rw e refl) h) h)
both-Good (some true_divergent) env path d r e h =
    rw (reconcile_both, e)
      (branch-Good env (some path) (some d) (env.should_sync path) _ _
        (test-Good env (some path) (some d) env.has_orchestrator _ _
          (λ asks.
            step-Good env (some path) (some d) (add_remote_win path) (ask_local_edit path d) r asks
              h)
          (λ _. h))
        h)

module _ (env : ReconcileEnv) (d : PathDoc) (r : Run) (h : Good env none (some d) r) where
  restore-Good : Good env none (some d) (restore env d r)
  unfolding allowed
  restore-Good = write-Good env none (some d) (add_restored d.path) d.path d r refl h

  propagate-Good :
      d.doc.deleted ≡ false → was_here env d ≡ true → Good env none (some d) (propagate env d r)
  unfolding allowed
  propagate-Good alive here =
      step-Good env none (some d) (add_deleted d.path) (mark_deleted d.path) r
        (both_true (not d.doc.deleted && d.path == d.path) (was_here env d)
          (both_true (not d.doc.deleted) (d.path == d.path) (rw alive refl) (beq_refl d.path)) here)
        h

  asked-Good : Good env none (some d) (if env.has_orchestrator then ask_delete env d r else r)
  unfolding allowed
  asked-Good =
      test-Good env none (some d) env.has_orchestrator _ _
        (λ asks. step-Good env none (some d) (add_deleted d.path) (ask_local_delete d) r asks h)
        (λ _. h)

  -- The two tests of the doc's clock against the baseline's.
  ahead :
      (rel : VcRelation)
      → (is_dominating rel ≡ false → Good env none (some d) (propagate env d r))
      → Good env none (some d) (elim rel [
        | dominates ↦ if env.has_orchestrator then ask_delete env d r else r
        | _ ↦ propagate env d r
      ])
  ahead equal p = p refl
  ahead dominates p = asked-Good
  ahead dominated p = p refl
  ahead concurrent p = p refl

  recreated :
      (rel : VcRelation)
      → (is_dominating rel ≡ false → Good env none (some d) (propagate env d r))
      → Good env none (some d) (elim rel [
        | dominates ↦ restore env d r
        | concurrent ↦ if env.has_orchestrator then ask_delete env d r else restore env d r
        | _ ↦ propagate env d r
      ])
  unfolding allowed
  recreated equal p = p refl
  recreated dominates p = restore-Good
  recreated dominated p = p refl
  recreated concurrent p =
      test-Good env none (some d) env.has_orchestrator _ _
        (λ asks. step-Good env none (some d) (add_deleted d.path) (ask_local_delete d) r asks h)
        (λ _. restore-Good)

  missing-Good : d.doc.deleted ≡ false → Good env none (some d) (reconcile_missing env d r)
  unfolding reconcile_missing
  missing-Good alive = elim (Option-cases (env.last_synced d.path)) [
    | inl e ↦
        rw (reconcile_missing, e)
          (test-Good env none (some d) (is_missing_deletion env d) _ _
            (λ gone.
              propagate-Good alive (rw (was_here, e) (sym (is_missing_deletion-lem env d) ∙ gone)))
            (λ _. restore-Good))
    | inr (ls, e) ↦
        let spread : is_dominating (compare_vc (clock_of d.doc) ls.vclock) ≡ false
            → Good env none (some d) (propagate env d r) =
          λ behind. propagate-Good alive (rw (was_here, e) (rw behind refl)) in
        rw (reconcile_missing, e)
          (branch-Good env none (some d) ls.deleted _ _
            (recreated (compare_vc (clock_of d.doc) ls.vclock) spread)
            (ahead (compare_vc (clock_of d.doc) ls.vclock) spread))
  ]

pushable : (env : ReconcileEnv) (path : Text) → allowed env (some path) none (push_file path) ≡ true
unfolding allowed
pushable env path = beq_refl path

-- For a path with one file and one doc at most, every call that the reconciler makes is permitted.
-- In report mode, and once the run is disposed, there is none. A file on disk is written over or
-- deleted only if the classifier calls the doc a remote edit, and is pushed only if there is no doc
-- or it is a local edit. A doc is marked deleted only if it is alive, its file is missing, and
-- either its clock does not dominate the baseline's or, without a baseline, there is the manifest of
-- an earlier run, and it lists the path or this device wrote the doc last. The user is asked only where there is an orchestrator.
pub reconcile_one-permitted :
    (env : ReconcileEnv) (file : Option Text) (doc : Option PathDoc) (log : ReconcileReport)
    → all
        (permitted env file doc)
        (reconcile_one env file doc (record { made = []; log = log })).made
      ≡ true
unfolding reconcile_one
reconcile_one-permitted env none none log =
    absent-Good env none (record { made = []; log = log }) refl
reconcile_one-permitted env none (some d) log =
    test-Good env none (some d) d.doc.deleted _ _
      (λ _. absent-Good env (some d) (record { made = []; log = log }) refl)
      (λ alive. missing-Good env d (record { made = []; log = log }) refl alive)
reconcile_one-permitted env (some path) none log =
    push-Good env (some path) none (add_pushed path) path (record { made = []; log = log })
      (pushable env path) refl
reconcile_one-permitted env (some path) (some d) log =
    test-Good env (some path) (some d) d.doc.deleted _ _
      (λ gone.
        tombstone-Good (env.relation path d) env path d (record { made = []; log = log }) refl gone
          refl)
      (λ _. both-Good (env.relation path d) env path d (record { made = []; log = log }) refl refl)

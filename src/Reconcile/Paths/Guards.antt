-- ===== src/Reconcile/Paths/Guards.antt =====
-- The calls that the reconciler makes for a path (src/sync/reconciler.ts).
use obsidian_couchsync.Prelude.{
  List, [], ◌∷◌, ◌++◌, Option, none, some, Bool, true, false, not, ◌&&◌, ◌||◌, if◌then◌else◌, all,
  is_some, ◌==◌, ◌≡◌, refl, arith, Bool-cases, inl, inr,
}
use obsidian_couchsync.Prelude.Text.{Text, text_eq}
use obsidian_couchsync.Classify.{SyncRelation, remote_edit, local_edit}
use obsidian_couchsync.PendingApply.{ApplyOutcome, done, quarantine, skipped}
use obsidian_couchsync.VectorClock.{VcRelation, dominates, compare_vc, latest_device}
use obsidian_couchsync.Docs.{clock_of}
use obsidian_couchsync.Reconcile.{
  is_apply, PathDoc, Call, ReconcileEnv, ReconcileReport, Run, note, note_applied, try_step,
  try_push, apply_remote_to_vault, write_remote, push_file, mark_deleted, write_doc,
  align_tombstone, ask_recreate, ask_local_edit, ask_local_delete, align_baseline, adopt_clock,
  remove_file,
}

abbrev pub is_remote_edit : Option SyncRelation → Bool
is_remote_edit (some remote_edit) = true
is_remote_edit _ = false

abbrev pub is_local_edit : Option SyncRelation → Bool
is_local_edit (some local_edit) = true
is_local_edit _ = false

abbrev pub is_dominating : VcRelation → Bool
is_dominating dominates = true
is_dominating _ = false

-- The manifest of the last run lists the path.
abbrev pub listed_there : ReconcileEnv → Text → Bool
listed_there env path = elim (env.in_manifest) [ none ↦ false | some listed ↦ listed path ]

-- The device whose counter is the latest in the doc's clock is this one.
abbrev pub written_here : ReconcileEnv → PathDoc → Bool
written_here env d = elim (latest_device (clock_of d.doc)) [
  | none ↦ false
  | some writer ↦ env.is_local_device writer
]

-- Does this device take the missing file of `d` for a deletion of its own: the doc has not advanced
-- past the baseline, or there is none, there is a manifest of an earlier run, and it lists the path
-- or this device wrote the doc last.
abbrev pub was_here : ReconcileEnv → PathDoc → Bool
was_here env d = elim (env.last_synced d.path) [
  | none ↦ is_some env.in_manifest && (listed_there env d.path || written_here env d)
  | some ls ↦ not (is_dominating (compare_vc (clock_of d.doc) ls.vclock))
]

-- What may be called for a path, by the file and the doc that it has.
unfoldable pub allowed : ReconcileEnv → Option Text → Option PathDoc → Call → Bool
allowed env none (some d) (mark_deleted p) = not d.doc.deleted && p == d.path && was_here env d
allowed env file doc (mark_deleted p) = false
allowed env file doc (remove_file p) = false
allowed env (some path) none (push_file p) = p == path
allowed env (some path) (some d) (push_file p) = p == path && is_local_edit (env.relation path d)
allowed env none doc (push_file p) = false
allowed env none doc (write_remote e) = true
allowed env (some path) doc (write_remote e) = is_remote_edit (env.relation path e)
allowed env none doc (write_doc e) = false
allowed env (some path) doc (write_doc e) = e.doc.deleted && is_remote_edit (env.relation path e)
allowed env file doc (ask_recreate p e) = env.has_orchestrator
allowed env file doc (ask_local_edit p e) = env.has_orchestrator
allowed env file doc (ask_local_delete e) = env.has_orchestrator
allowed env file doc (align_tombstone e) = not (is_some file)
allowed env file doc (align_baseline p e) = true
allowed env file doc (adopt_clock p e) = true

-- Only a run that applies, and is not disposed, calls anything.
abbrev pub permitted : ReconcileEnv → Option Text → Option PathDoc → Call → Bool
permitted env file doc c = is_apply env.mode && not (env.disposed c) && allowed env file doc c

module _ (env : ReconcileEnv) (file : Option Text) (doc : Option PathDoc) where
  abbrev pub Good : Run → Type 0
  Good r = all (permitted env file doc) r.made ≡ true

  pub branch-Good : (b : Bool) (r s : Run) → Good r → Good s → Good (if b then r else s)
  branch-Good true r s p q = p
  branch-Good false r s p q = q

  pub test-Good :
      (b : Bool) (r s : Run)
      → (b ≡ true → Good r)
      → (b ≡ false → Good s)
      → Good (if b then r else s)
  test-Good true r s p q = p refl
  test-Good false r s p q = q refl

  pub all-snoc :
      (c : Call) (cs : List Call)
      → all (permitted env file doc) cs ≡ true
      → permitted env file doc c ≡ true
      → all (permitted env file doc) (cs ++ (c ∷ [])) ≡ true
  all-snoc c [] h g = ground arith
  all-snoc c (x ∷ cs) h g = ground (arith, all-snoc c cs (ground arith) g)

  pub called-Good :
      (c : Call) (r : Run)
      → allowed env file doc c ≡ true
      → Good r
      → is_apply env.mode ≡ true
      → env.disposed c ≡ false
      → all (permitted env file doc) (r.made ++ (c ∷ [])) ≡ true
  called-Good c r ok h live on = all-snoc c r.made h (ground arith)

  pub try_step-Good :
      (c : Call) (r : Run) → allowed env file doc c ≡ true → Good r → Good (try_step env c r).1
  unfolding try_step
  try_step-Good c r ok h = elim (Bool-cases (is_apply env.mode)) [
    | inr dry ↦ rw (try_step, dry) h
    | inl live ↦ elim (Bool-cases (env.disposed c)) [
      | inl off ↦ rw (try_step, live, off) h
      | inr on ↦ rw (try_step, live, on) (called-Good c r ok h live on)
    ]
  ]

  pub try_push-Good :
      (path : Text) (r : Run)
      → allowed env file doc (push_file path) ≡ true
      → Good r
      → Good (try_push env path r).1
  unfolding try_push
  try_push-Good path r ok h = elim (Bool-cases (is_apply env.mode)) [
    | inr dry ↦ rw (try_push, dry) h
    | inl live ↦ rw (try_push, live) (try_step-Good (push_file path) r ok h)
  ]

  pub remote-Good :
      (d : PathDoc) (r : Run)
      → allowed env file doc (write_remote d) ≡ true
      → Good r
      → Good (apply_remote_to_vault env d r).1
  unfolding apply_remote_to_vault
  remote-Good d r ok h = elim (Bool-cases (is_apply env.mode)) [
    | inr dry ↦ rw (apply_remote_to_vault, dry) h
    | inl live ↦ elim (Bool-cases (env.disposed (write_remote d))) [
      | inl off ↦ rw (apply_remote_to_vault, live, off) h
      | inr on ↦ rw (apply_remote_to_vault, live, on) (called-Good (write_remote d) r ok h live on)
    ]
  ]

  pub note-Good :
      (add : ReconcileReport → ReconcileReport) (ok : Bool) (r : Run)
      → Good r
      → Good (note add (ok, r))
  note-Good add true r h = h
  note-Good add false r h = h

  pub applied-Good :
      (add : ReconcileReport → ReconcileReport) (path : Text) (o : ApplyOutcome) (r : Run)
      → Good r
      → Good (note_applied add path (o, r))
  applied-Good add path done r h = h
  applied-Good add path quarantine r h = h
  applied-Good add path skipped r h = h

  pub step-Good :
      (add : ReconcileReport → ReconcileReport) (c : Call) (r : Run)
      → allowed env file doc c ≡ true
      → Good r
      → Good (note add (try_step env c r))
  step-Good add c r ok h =
      note-Good add (try_step env c r).0 (try_step env c r).1 (try_step-Good c r ok h)

  pub push-Good :
      (add : ReconcileReport → ReconcileReport) (path : Text) (r : Run)
      → allowed env file doc (push_file path) ≡ true
      → Good r
      → Good (note add (try_push env path r))
  push-Good add path r ok h =
      note-Good add (try_push env path r).0 (try_push env path r).1 (try_push-Good path r ok h)

  pub write-Good :
      (add : ReconcileReport → ReconcileReport) (path : Text) (d : PathDoc) (r : Run)
      → allowed env file doc (write_remote d) ≡ true
      → Good r
      → Good (note_applied add path (apply_remote_to_vault env d r))
  write-Good add path d r ok h =
      applied-Good add path (apply_remote_to_vault env d r).0 (apply_remote_to_vault env d r).1
        (remote-Good d r ok h)

-- ===== src/Witness/Reconciles.antt =====
-- The theorems about the reconciler at concrete data.
use obsidian_couchsync.Prelude.{◌≡◌, ◌⊎◌, [], ◌∷◌, none, some, true, false, all, ◌==◌}
use obsidian_couchsync.Prelude.Text.{Text, text_eq, lit}
use obsidian_couchsync.Classify.{remote_edit}
use obsidian_couchsync.Docs.{FileDoc, clock_of}
use obsidian_couchsync.PendingApply.{done}
use obsidian_couchsync.Reconcile.{apply, PathDoc, ReconcileEnv, empty_report}
use obsidian_couchsync.Reconcile.Collision.{resolve_collision}
use obsidian_couchsync.Reconcile.Collision.Kept.{Harmless, keeps, resolve_collision-keeps}
use obsidian_couchsync.Reconcile.Paths.{reconcile_one}
use obsidian_couchsync.Reconcile.Paths.Guards.{permitted}
use obsidian_couchsync.Reconcile.Paths.Permitted.{reconcile_one-permitted}

abbrev doc_of : Text → FileDoc
doc_of path = record {
  id = path;
  rev = none;
  schema_version = 2;
  chunks = lit "chunk:x1:a" ∷ [];
  mtime = 100;
  ctime = 100;
  size = 5;
  deleted = false;
  vclock = some ((lit "desk", 2) ∷ []);
}

abbrev lower : PathDoc
lower = record { path = lit "scripts/x.md"; doc = doc_of (lit "file:scripts/x.md") }

abbrev upper : PathDoc
upper = record { path = lit "Scripts/x.md"; doc = doc_of (lit "file:Scripts/x.md") }

abbrev applying : ReconcileEnv
applying = record {
  mode = apply;
  disposed = λ c. false;
  returns = λ c. true;
  records = λ p. true;
  applies = λ d. some done;
  should_sync = λ p. true;
  last_synced = λ p. none;
  relation = λ p d. some remote_edit;
  unpushed = λ p. false;
  has_orchestrator = true;
  clock_as_object = clock_of;
  in_manifest = some (λ p. p == lit "scripts/x.md");
  is_local_device = λ w. w == lit "phone";
}

reconcile_one-permitted_example :
    all
      (permitted applying (some (lit "scripts/x.md")) (some lower))
      (reconcile_one applying
        (some (lit "scripts/x.md"))
        (some lower)
        (record { made = []; log = empty_report })).made
    ≡ true
reconcile_one-permitted_example =
    reconcile_one-permitted applying (some (lit "scripts/x.md")) (some lower) empty_report

resolve_collision-keeps_example :
    ((resolve_collision applying
        (lit "scripts/x.md" ∷ [])
        (lower ∷ upper ∷ [])
        (record { made = []; log = empty_report })).made
      ≡ [])
    ⊎ ((k : PathDoc) × Harmless applying (lit "scripts/x.md" ∷ []) (lower ∷ upper ∷ []) k
        × (all
              (keeps (lit "scripts/x.md" ∷ []) (lower ∷ upper ∷ []) k.path)
              (resolve_collision applying
                (lit "scripts/x.md" ∷ [])
                (lower ∷ upper ∷ [])
                (record { made = []; log = empty_report })).made
            ≡ true))
resolve_collision-keeps_example =
    resolve_collision-keeps applying (lit "scripts/x.md" ∷ []) lower (upper ∷ []) empty_report

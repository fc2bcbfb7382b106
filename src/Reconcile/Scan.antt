-- ===== src/Reconcile/Scan.antt =====
-- The slow scan (src/sync/reconciler.ts, `runOnce`).
use obsidian_couchsync.Prelude.{
  List, [], ◌∷◌, Option, none, some, not, ◌||◌, filter, length, ltb, if◌then◌else◌,
}
use obsidian_couchsync.Prelude.Text.{Text}
use obsidian_couchsync.Reconcile.{PathDoc, ReconcileEnv, Run}
use obsidian_couchsync.Reconcile.Collision.{resolve_collision}
use obsidian_couchsync.Reconcile.Paths.{reconcile_one}

-- The files and the docs of one folded path.
pub record Occupants : Type 0 where
  pub files : List Text
  pub docs : List PathDoc

abbrev pub first {ℓ} : {A : Type ℓ} → List A → Option A
first [] = none
first (x ∷ xs) = some x

abbrev pub alive_docs : List PathDoc → List PathDoc
alive_docs docs = filter (λ d. not d.doc.deleted) docs

-- `aliveDocs[0] ?? docs[0]`
abbrev pub representative : List PathDoc → List PathDoc → Option PathDoc
representative [] docs = first docs
representative (d ∷ alive) docs = some d

unfoldable pub reconcile_key : ReconcileEnv → Occupants → Run → Run
reconcile_key env o r =
    let alive = alive_docs o.docs in
    if ltb 1 (length o.files) || ltb 1 (length alive)
    then resolve_collision env o.files alive r
    else reconcile_one env (first o.files) (representative alive o.docs) r

unfoldable pub reconcile_keys : ReconcileEnv → List Occupants → Run → Run
reconcile_keys env [] r = r
reconcile_keys env (o ∷ keys) r = reconcile_keys env keys (reconcile_key env o r)

-- ===== src/Reconcile/Collision.antt =====
-- Several files or docs for one folded path (src/sync/reconciler.ts, `resolvePathKeyCollision`).
pub mod Canonical
pub mod Kept
use obsidian_couchsync.Prelude.{
  List, [], ◌∷◌, ◌++◌, map, Option, none, some, Bool, true, false, not, ◌&&◌, ◌||◌, if◌then◌else◌,
  ◌==◌, all, any, contains, to_set,
}
use obsidian_couchsync.Prelude.Text.{Text, text_eq, text_lt}
use obsidian_couchsync.Classify.{chunk_lists_equal}
use obsidian_couchsync.Docs.{FileDoc}
use obsidian_couchsync.Reconcile.{
  PathDoc, Call, remove_file, mark_deleted, ReconcileEnv, Run, add_collision, try_step,
  apply_remote_to_vault,
}
use obsidian_couchsync.VectorClock.{
  VectorClock, VcRelation, equal, dominates, dominated, concurrent, compare_vc,
}

abbrev pub not_behind : VcRelation → Bool
not_behind equal = true
not_behind dominates = true
not_behind _ = false

-- The candidate is compared with itself too, which is no different.
unfoldable pub dominates_all : (FileDoc → VectorClock) → PathDoc → List PathDoc → Bool
dominates_all clock d [] = true
dominates_all clock d (other ∷ others) =
    not_behind (compare_vc (clock d.doc) (clock other.doc)) && dominates_all clock d others

unfoldable pub find_dominator_in :
    (FileDoc → VectorClock) → List PathDoc → List PathDoc → Option PathDoc
find_dominator_in clock everyone [] = none
find_dominator_in clock everyone (d ∷ candidates) =
    let rest = find_dominator_in clock everyone candidates in
    if dominates_all clock d everyone then some d else rest

unfoldable pub find_dominator : (FileDoc → VectorClock) → List PathDoc → Option PathDoc
find_dominator clock (d ∷ []) = some d
find_dominator clock items = find_dominator_in clock items items

-- The first after sorting by path.
unfoldable pub smallest_path : PathDoc → List PathDoc → PathDoc
smallest_path best [] = best
smallest_path best (d ∷ docs) = smallest_path (if text_lt d.path best.path then d else best) docs

unfoldable pub canonical_doc : (FileDoc → VectorClock) → PathDoc → List PathDoc → PathDoc
canonical_doc clock d docs = elim (find_dominator clock (d ∷ docs)) [
  | none ↦ smallest_path d docs
  | some dominator ↦ dominator
]

abbrev pub doc_paths : List PathDoc → List Text
doc_paths docs = map (λ d. d.path) docs

unfoldable pub variants_of : List Text → List PathDoc → List Text
variants_of files docs = to_set (files ++ doc_paths docs)

-- Every file has a doc, and all docs have the chunks of the first.
unfoldable pub content_equal : List Text → List PathDoc → Bool
content_equal files [] = false
content_equal files (d ∷ docs) =
    all (λ f. contains f (doc_paths (d ∷ docs))) files
    && all (λ e. chunk_lists_equal e.doc.chunks d.doc.chunks) (d ∷ docs)

-- The loop that removes the other variants.
unfoldable pub drop_variants :
    ReconcileEnv → Text → List Text → List PathDoc → List Text → Run → Run
drop_variants env kept files docs [] r = r
drop_variants env kept files docs (raw ∷ variants) r =
    let on_disk = drop_variants env kept files docs variants (try_step env (remove_file raw) r).1 in
    let in_store =
      drop_variants env kept files docs variants (try_step env (mark_deleted raw) r).1 in
    let passed = drop_variants env kept files docs variants r in
    if raw == kept
    then passed
    else if contains raw files
    then on_disk
    else if contains raw (doc_paths docs)
    then in_store
    else passed

unfoldable pub resolve_collision : ReconcileEnv → List Text → List PathDoc → Run → Run
resolve_collision env files [] r = r
resolve_collision env files (d ∷ docs) r =
    let kept = canonical_doc env.clock_as_object d docs in
    let dropped = drop_variants env kept.path files (d ∷ docs) (variants_of files (d ∷ docs)) r in
    let restored = (apply_remote_to_vault env kept dropped).1 in
    let placed = if contains kept.path files then dropped else restored in
    if not (content_equal files (d ∷ docs)) || any env.unpushed files
    then r
    else record placed { log = add_collision kept.path placed.log }

-- ===== src/Reconcile/Collision/Kept.antt =====
-- What a resolved collision keeps (src/sync/reconciler.ts, `resolvePathKeyCollision`).
use mathlib.Core.Path.{subst}
use obsidian_couchsync.Classify.{chunk_lists_equal}
use obsidian_couchsync.Classify.Content.{chunk_lists_equal_iff}
use obsidian_couchsync.Prelude.{
  All, sym, ◌⊎◌, List, [], ◌∷◌, ◌++◌, Bool, true, false, not, ◌&&◌, if◌then◌else◌, all, any,
  contains, ◌==◌, ◌≡◌, refl, arith, beq_refl, Bool-cases, inl, inr,
}
use obsidian_couchsync.Prelude.Text.{Text, text_eq}
use obsidian_couchsync.Reconcile.{
  is_apply, PathDoc, Call, remove_file, mark_deleted, write_remote, ReconcileEnv, ReconcileReport,
  Run, try_step, apply_remote_to_vault,
}
use obsidian_couchsync.Reconcile.Collision.Canonical.{Among, IsCanonical, canonical_doc-IsCanonical}
use obsidian_couchsync.Reconcile.Collision.{
  canonical_doc, content_equal, doc_paths, drop_variants, resolve_collision, variants_of,
}

-- The calls that keep the variant `kept`: other files are removed, docs without a file are deleted,
-- and the kept one is restored where it is not on disk.
abbrev pub keeps : List Text → List PathDoc → Text → Call → Bool
keeps files docs kept (remove_file p) = not (p == kept) && contains p files
keeps files docs kept (mark_deleted p) =
    not (p == kept) && not (contains p files) && contains p (doc_paths docs)
keeps files docs kept (write_remote e) = e.path == kept && not (contains e.path files)
keeps files docs kept _ = false

-- Nothing is lost by a collision that is resolved to `k`.
abbrev pub Harmless : ReconcileEnv → List Text → List PathDoc → PathDoc → Type 0
Harmless env files docs k =
    IsCanonical env.clock_as_object docs k
    × (all (λ f. contains f (doc_paths docs)) files ≡ true)
    × All (λ e. e.doc.chunks ≡ k.doc.chunks) docs
    × (any env.unpushed files ≡ false)

module _ (q : Call → Bool) (env : ReconcileEnv) where
  abbrev AllMade : Run → Type 0
  AllMade r = all q r.made ≡ true

  all-snoc :
      (c : Call) (cs : List Call) → all q cs ≡ true → q c ≡ true → all q (cs ++ (c ∷ [])) ≡ true
  all-snoc c [] h g = ground arith
  all-snoc c (x ∷ cs) h g = ground (arith, all-snoc c cs (ground arith) g)

  try_step-AllMade : (c : Call) (r : Run) → q c ≡ true → AllMade r → AllMade (try_step env c r).1
  unfolding try_step
  try_step-AllMade c r ok h = elim (Bool-cases (is_apply env.mode)) [
    | inr dry ↦ rw (try_step, dry) h
    | inl live ↦ elim (Bool-cases (env.disposed c)) [
      | inl off ↦ rw (try_step, live, off) h
      | inr on ↦ rw (try_step, live, on) (all-snoc c r.made h ok)
    ]
  ]

  remote-AllMade :
      (d : PathDoc) (r : Run)
      → q (write_remote d) ≡ true
      → AllMade r
      → AllMade (apply_remote_to_vault env d r).1
  unfolding apply_remote_to_vault
  remote-AllMade d r ok h = elim (Bool-cases (is_apply env.mode)) [
    | inr dry ↦ rw (apply_remote_to_vault, dry) h
    | inl live ↦ elim (Bool-cases (env.disposed (write_remote d))) [
      | inl off ↦ rw (apply_remote_to_vault, live, off) h
      | inr on ↦ rw (apply_remote_to_vault, live, on) (all-snoc (write_remote d) r.made h ok)
    ]
  ]

  dropped-AllMade :
      (kept : Text) (files : List Text) (docs : List PathDoc)
      → ((p : Text) → (p == kept) ≡ false → contains p files ≡ true → q (remove_file p) ≡ true)
      → ((p : Text)
          → (p == kept) ≡ false
          → contains p files ≡ false
          → contains p (doc_paths docs) ≡ true
          → q (mark_deleted p) ≡ true)
      → (variants : List Text) (r : Run) → AllMade r
      → AllMade (drop_variants env kept files docs variants r)
  unfolding drop_variants
  dropped-AllMade kept files docs on_disk in_store [] r h = h
  dropped-AllMade kept files docs on_disk in_store (raw ∷ variants) r h =
      elim (Bool-cases (raw == kept)) [
        | inl e ↦ rw e (dropped-AllMade kept files docs on_disk in_store variants r h)
        | inr e ↦ elim (Bool-cases (contains raw files)) [
          | inl f ↦
              rw (e, f)
                (dropped-AllMade kept files docs on_disk in_store variants
                  (try_step env (remove_file raw) r).1
                  (try_step-AllMade (remove_file raw) r (on_disk raw e f) h))
          | inr f ↦ elim (Bool-cases (contains raw (doc_paths docs))) [
            | inl g ↦
                rw (e, f, g)
                  (dropped-AllMade kept files docs on_disk in_store variants
                    (try_step env (mark_deleted raw) r).1
                    (try_step-AllMade (mark_deleted raw) r (in_store raw e f g) h))
            | inr g ↦ rw (e, f, g) (dropped-AllMade kept files docs on_disk in_store variants r h)
          ]
        ]
      ]

  branch-AllMade :
      (b : Bool) (r s : Run)
      → (b ≡ true → AllMade r)
      → (b ≡ false → AllMade s)
      → AllMade (if b then r else s)
  branch-AllMade true r s g h = g refl
  branch-AllMade false r s g h = h refl

chunks_of_first :
    (c : List Text) (docs : List PathDoc)
    → all (λ e. chunk_lists_equal e.doc.chunks c) docs ≡ true
    → All (λ e. e.doc.chunks ≡ c) docs
chunks_of_first c [] h = tt
chunks_of_first c (e ∷ docs) h =
    ((chunk_lists_equal_iff e.doc.chunks c).0 (ground arith), chunks_of_first c docs (ground arith))

chunks_of_kept :
    (c : List Text) (k : PathDoc) (docs : List PathDoc)
    → All (λ e. e.doc.chunks ≡ c) docs
    → Among k docs
    → k.doc.chunks ≡ c
chunks_of_kept c k [] h among = absurd among
chunks_of_kept c k (e ∷ docs) (x, h) (inl same) = rw same x
chunks_of_kept c k (e ∷ docs) (x, h) (inr later) = chunks_of_kept c k docs h later

-- Where several files or docs share a folded path, the reconciler calls nothing, or it settles on
-- one of the docs: every file has a doc, all docs have the chunks of the one that is kept, no file
-- has an unpushed edit, and if one of the docs has seen all the others, so has the kept one. It then
-- removes only files other than the kept one, deletes only docs of another path without a file, and
-- writes none but the kept one, if it is not on disk.
pub resolve_collision-keeps :
    (env : ReconcileEnv) (files : List Text) (d : PathDoc) (docs : List PathDoc)
    (log : ReconcileReport)
    → ((resolve_collision env files (d ∷ docs) (record { made = []; log = log })).made ≡ [])
      ⊎ ((k : PathDoc) × Harmless env files (d ∷ docs) k
          × (all
                (keeps files (d ∷ docs) k.path)
                (resolve_collision env files (d ∷ docs) (record { made = []; log = log })).made
              ≡ true))
unfolding resolve_collision content_equal
resolve_collision-keeps env files d docs log =
    let r : Run = record { made = []; log = log } in
    let kept = canonical_doc env.clock_as_object d docs in
    let q = keeps files (d ∷ docs) kept.path in
    let dropped = drop_variants env kept.path files (d ∷ docs) (variants_of files (d ∷ docs)) r in
    elim (Bool-cases (content_equal files (d ∷ docs))) [
      | inr differs ↦ inl (rw (resolve_collision, differs) refl)
      | inl same ↦ elim (Bool-cases (any env.unpushed files)) [
        | inl edited ↦ inl (rw (resolve_collision, same, edited) refl)
        | inr clean ↦
            let canonical = canonical_doc-IsCanonical env.clock_as_object d docs in
            let chunks = chunks_of_first d.doc.chunks (d ∷ docs) (ground arith) in
            let safe =
              dropped-AllMade q env kept.path files (d ∷ docs) (λ p other there. ground arith)
                (λ p other there listed. ground arith) (variants_of files (d ∷ docs)) r refl in
            inr (
              kept,
              (
                canonical,
                ground arith,
                subst (λ c. All (λ e. e.doc.chunks ≡ c) (d ∷ docs))
                    (sym (chunks_of_kept d.doc.chunks kept (d ∷ docs) chunks canonical.0)) chunks,
                clean,
              ),
              rw (resolve_collision, same, clean)
                  (branch-AllMade q env (contains kept.path files) _ _ (λ _. safe)
                    (λ gone.
                      remote-AllMade q env kept dropped (ground (arith, beq_refl kept.path)) safe)),
            )
      ]
    ]

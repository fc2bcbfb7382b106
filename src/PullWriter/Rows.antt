-- ===== src/PullWriter/Rows.antt =====
-- The accepted docs of a classified batch (src/db/sync/pull-writer.ts, `classify`).
use mathlib.Core.Path.{subst}
use native.Mathlib.Nat.{le_refl}
use obsidian_couchsync.Prelude.{
  ℕ, ◌≡◌, refl, ◌⊎◌, inl, inr, List, [], ◌∷◌, ◌++◌, Option, none, some, true, arith, or_default,
  All, Bool-cases, Option-cases, eqb,
}
use obsidian_couchsync.Prelude.Text.{Text, text_eq}
use obsidian_couchsync.Prelude.Dict.{lookup}
use obsidian_couchsync.VectorClock.{VectorClock, counter, merge_vc}
use obsidian_couchsync.VectorClock.Order.{LeVc}
use obsidian_couchsync.VectorClock.Merge.{merge_vc-above}
use obsidian_couchsync.Docs.{
  ChunkDoc, CouchSyncDoc, file_doc, chunk_doc, config_doc, doc_id, strip_rev, file_schema_version,
  config_schema_version,
}
use obsidian_couchsync.Resolver.{
  ResolvableDoc, file, config, vclock_of, PullVerdict, take_remote, keep_local, concurrent,
  silent_merge, resolve_on_pull,
}
use obsidian_couchsync.Resolver.Verdicts.{take_remote-dominates}
use obsidian_couchsync.Store.Commit.{get_doc}
use obsidian_couchsync.DocId.{file_path_from_id, is_file_doc_id}
use obsidian_couchsync.PullWriter.{
  ChangeRow, Batch, PullError, Pulled, ok, err, PullEnv, build_accepted_tombstone,
  probe_unpushed_safe, accept, pulled_deletion, handle_pulled_deletion, to_doc, is_converged,
  conflict_kind, on_concurrent, path_of, with_merged_clock, count_drift, on_verdict, judge,
  against_local, classify_resolvable, classify_doc, classify_row, classify_rows, classify,
  empty_batch,
}

-- The clock of a doc; chunks have none.
abbrev pub doc_clock : CouchSyncDoc → VectorClock
doc_clock (file_doc d) = or_default d.vclock []
doc_clock (chunk_doc d) = []
doc_clock (config_doc d) = or_default d.vclock []

-- The doc has seen all that the local doc of its id has seen.
abbrev pub CoversDoc : Option CouchSyncDoc → CouchSyncDoc → Type 0
CoversDoc none d = Unit
CoversDoc (some l) d = LeVc (doc_clock l) (doc_clock d)

abbrev pub Covers : PullEnv → CouchSyncDoc → Type 0
Covers env d = CoversDoc (get_doc (doc_id d) env.store) d

pub All-append {ℓ κ} :
    {T : Type ℓ} (Q : T → Type κ) (before after : List T)
    → All Q before
    → All Q after
    → All Q (before ++ after)
All-append Q [] after h k = k
All-append Q (t ∷ before) after (here, h) k = (here, All-append Q before after h k)

Covers-accept :
    (env : PullEnv) (d : CouchSyncDoc) (b : Batch)
    → Covers env d
    → All (Covers env) b.accepted
    → All (Covers env) (accept d b).accepted
Covers-accept env d b c h = All-append (Covers env) b.accepted (d ∷ []) h (c, tt)

clock-Covers :
    (env : PullEnv) (d l : CouchSyncDoc)
    → get_doc (doc_id d) env.store ≡ some l
    → LeVc (doc_clock l) (doc_clock d)
    → Covers env d
clock-Covers env d l here le = rw (here, CoversDoc) le

absent-Covers :
    (env : PullEnv) (d : CouchSyncDoc) → get_doc (doc_id d) env.store ≡ none → Covers env d
absent-Covers env d gone = rw (gone, CoversDoc) tt

chunk-Covers :
    (env : PullEnv) (d : CouchSyncDoc) (c : ChunkDoc)
    → get_doc (doc_id d) env.store ≡ some (chunk_doc c)
    → Covers env d
unfolding counter lookup
chunk-Covers env d c here = clock-Covers env d (chunk_doc c) here (λ k. omega arith)

doc_clock-to_doc : (r : ResolvableDoc) → doc_clock (to_doc r) ≡ vclock_of r
doc_clock-to_doc (file d) = refl
doc_clock-to_doc (config d) = refl

merged_fields :
    (l r : ResolvableDoc)
    → (doc_id (with_merged_clock l r) ≡ doc_id (to_doc r))
      × (doc_clock (with_merged_clock l r) ≡ merge_vc (vclock_of l) (vclock_of r))
unfolding with_merged_clock
merged_fields l (file d) = (refl, refl)
merged_fields l (config d) = (refl, refl)

pub Pulled-cases :
    (p : Pulled)
    → ((b : Batch) × (p ≡ ok b)) ⊎ ((e : PullError) × (emitted : List Text) × (p ≡ err e emitted))
Pulled-cases (ok b) = inl (b, refl)
Pulled-cases (err e emitted) = inr (e, emitted, refl)

module _ (env : PullEnv) where
  abbrev Keeps : Batch → Type 0
  Keeps b = All (Covers env) b.accepted

  abbrev KeepsOk : Pulled → Type 0
  KeepsOk (ok b) = Keeps b
  KeepsOk (err e emitted) = Unit

  pulled_deletion-Keeps :
      (id path : Text) (found : Option CouchSyncDoc) (b : Batch)
      → get_doc id env.store ≡ found
      → Keeps b
      → Keeps (pulled_deletion env id path found b)
  unfolding pulled_deletion build_accepted_tombstone
  pulled_deletion-Keeps id path none b here h = h
  pulled_deletion-Keeps id path (some (chunk_doc c)) b here h = h
  pulled_deletion-Keeps id path (some (config_doc c)) b here h = h
  pulled_deletion-Keeps id path (some (file_doc l)) b here h = elim (Bool-cases l.deleted) [
    | inl dead ↦ rw dead h
    | inr alive ↦ elim (Bool-cases (probe_unpushed_safe env path)) [
      | inl edited ↦ rw (alive, edited) h
      | inr clean ↦
          rw (alive, clean)
            (Covers-accept env (file_doc (build_accepted_tombstone id l)) b
              (clock-Covers env (file_doc (build_accepted_tombstone id l)) (file_doc l) here
                (λ k. le_refl (counter k (or_default l.vclock []))))
              h)
    ]
  ]

  handle_pulled_deletion-Keeps :
      (id : Text) (b : Batch) → Keeps b → KeepsOk (handle_pulled_deletion env id b)
  unfolding handle_pulled_deletion
  handle_pulled_deletion-Keeps id b h = elim (Option-cases (file_path_from_id id)) [
    | inl lost ↦ rw (lost, KeepsOk) tt
    | inr (path, e) ↦
        rw (e, KeepsOk) (pulled_deletion-Keeps id path (get_doc id env.store) b refl h)
  ]

  on_concurrent-Keeps :
      (path : Text) (l r : ResolvableDoc) (b : Batch)
      → Keeps b
      → KeepsOk (on_concurrent env path l r b)
  unfolding on_concurrent
  on_concurrent-Keeps path l (config r) b h = h
  on_concurrent-Keeps path (config l) (file r) b h = elim (Bool-cases (env.ensure_chunks r)) [
    | inl fetched ↦ rw fetched h
    | inr failed ↦ rw failed tt
  ]
  on_concurrent-Keeps path (file l) (file r) b h = elim (Bool-cases (env.ensure_chunks r)) [
    | inl fetched ↦ elim (Option-cases (conflict_kind l r)) [
      | inl none_kept ↦ rw (fetched, none_kept) h
      | inr (kind, e) ↦ rw (fetched, e) h
    ]
    | inr failed ↦ rw failed tt
  ]

  on_verdict-Keeps :
      (path : Text) (l r : ResolvableDoc) (v : PullVerdict) (b : Batch)
      → get_doc (doc_id (to_doc r)) env.store ≡ some (to_doc l)
      → resolve_on_pull (some l) r none ≡ v
      → Keeps b
      → KeepsOk (on_verdict env path l r v b)
  unfolding on_verdict
  on_verdict-Keeps path l r keep_local b here e h = h
  on_verdict-Keeps path l r concurrent b here e h = on_concurrent-Keeps path l r b h
  on_verdict-Keeps path l r silent_merge b here e h =
      let (id_is, clock_is) = merged_fields l r in
      Covers-accept env (with_merged_clock l r) (count_drift b)
        (clock-Covers env (with_merged_clock l r) (to_doc l) (rw id_is here)
          (rw (clock_is, doc_clock-to_doc) (merge_vc-above (vclock_of l) (vclock_of r)).0))
        h
  on_verdict-Keeps path l r take_remote b here e h =
      Covers-accept env (to_doc r) b
        (clock-Covers env (to_doc r) (to_doc l) here
          (rw (doc_clock-to_doc l, doc_clock-to_doc r) (take_remote-dominates l r e).1))
        h

  judge-Keeps :
      (l r : ResolvableDoc) (b : Batch)
      → get_doc (doc_id (to_doc r)) env.store ≡ some (to_doc l)
      → Keeps b
      → KeepsOk (judge env l r b)
  unfolding judge
  judge-Keeps l r b here h = elim (Bool-cases (is_converged l r)) [
    | inl converged ↦ rw (converged, KeepsOk) h
    | inr differs ↦ elim (Option-cases (path_of r)) [
      | inl lost ↦ rw (differs, lost, KeepsOk) tt
      | inr (path, e) ↦
          rw (differs, e, KeepsOk)
            (on_verdict-Keeps path l r (resolve_on_pull (some l) r none) b here refl h)
    ]
  ]

  against_local-Keeps :
      (r : ResolvableDoc) (found : Option CouchSyncDoc) (b : Batch)
      → get_doc (doc_id (to_doc r)) env.store ≡ found
      → Keeps b
      → KeepsOk (against_local env found r b)
  unfolding against_local
  against_local-Keeps r none b here h =
      Covers-accept env (to_doc r) b (absent-Covers env (to_doc r) here) h
  against_local-Keeps r (some (file_doc l)) b here h = judge-Keeps (file l) r b here h
  against_local-Keeps r (some (config_doc l)) b here h = judge-Keeps (config l) r b here h
  against_local-Keeps r (some (chunk_doc l)) b here h =
      Covers-accept env (to_doc r) b (chunk-Covers env (to_doc r) l here) h

  module _ (resolves : env.has_resolver ≡ true) where
    classify_resolvable-Keeps :
        (version expected : ℕ) (r : ResolvableDoc) (b : Batch)
        → Keeps b
        → KeepsOk (classify_resolvable env version expected r b)
    unfolding classify_resolvable
    classify_resolvable-Keeps version expected r b h = elim (Bool-cases (eqb version expected)) [
      | inl current ↦
          simp (current, resolves)
            (against_local-Keeps r (get_doc (doc_id (to_doc r)) env.store) b refl h)
      | inr other ↦ rw (other, KeepsOk) tt
    ]

    classify_doc-Keeps : (d : CouchSyncDoc) (b : Batch) → Keeps b → KeepsOk (classify_doc env d b)
    unfolding classify_doc
    classify_doc-Keeps (chunk_doc c) b h = h
    classify_doc-Keeps (file_doc d) b h =
        classify_resolvable-Keeps d.schema_version file_schema_version (file d) b h
    classify_doc-Keeps (config_doc d) b h =
        classify_resolvable-Keeps d.schema_version config_schema_version (config d) b h

    classify_row-Keeps : (row : ChangeRow) (b : Batch) → Keeps b → KeepsOk (classify_row env row b)
    unfolding classify_row
    classify_row-Keeps row b h = elim (Bool-cases row.deleted) [
      | inl gone ↦ elim (Bool-cases (is_file_doc_id row.id)) [
        | inl file_id ↦ rw (gone, file_id, KeepsOk) (handle_pulled_deletion-Keeps row.id b h)
        | inr other ↦ rw (gone, other, KeepsOk) h
      ]
      | inr there ↦ elim (Option-cases row.doc) [
        | inl no_doc ↦ rw (there, no_doc, KeepsOk) h
        | inr (d, e) ↦ rw (there, e, KeepsOk) (classify_doc-Keeps (strip_rev d) b h)
      ]
    ]

    classify_rows-Keeps :
        (rows : List ChangeRow) (b : Batch) → Keeps b → KeepsOk (classify_rows env rows b)
    unfolding classify_rows
    classify_rows-Keeps [] b h = h
    classify_rows-Keeps (row ∷ rows) b h = elim (Pulled-cases (classify_row env row b)) [
      | inl (b', e) ↦
          rw (e, KeepsOk)
            (classify_rows-Keeps rows b' (subst KeepsOk e (classify_row-Keeps row b h)))
      | inr (error, emitted, e) ↦ rw (e, KeepsOk) tt
    ]

-- No pulled doc loses what this device has seen: with a resolver in place, every doc that a batch
-- accepts for the local store has a clock at or above the clock of the local doc of its id, whatever
-- rows the server sends. That holds of docs taken over, of silent merges, and of the tombstones made
-- for hard deletions.
pub classify-Covers :
    (env : PullEnv) (emitted : List Text) (rows : List ChangeRow) (b : Batch)
    → env.has_resolver ≡ true
    → classify env emitted rows ≡ ok b
    → All (Covers env) b.accepted
unfolding classify
classify-Covers env emitted rows b resolves e =
    subst (KeepsOk env) e (classify_rows-Keeps env resolves rows (empty_batch emitted) tt)

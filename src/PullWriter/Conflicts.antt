-- ===== src/PullWriter/Conflicts.antt =====
-- The conflicts of a classified batch (src/db/sync/pull-writer.ts, `classify`).
use mathlib.Core.Path.{subst}
use obsidian_couchsync.Prelude.{
  ℕ, ◌≡◌, refl, inl, inr, List, [], ◌∷◌, ◌++◌, Option, none, some, Bool, true, false, not, ◌&&◌,
  ◌||◌, arith, All, ◌==◌, Bool-cases, Option-cases, eqb,
}
use obsidian_couchsync.Prelude.Text.{Text, text_eq, text_beq_iff}
use obsidian_couchsync.Docs.{
  FileDoc, CouchSyncDoc, file_doc, chunk_doc, config_doc, doc_id, is_file_doc, strip_rev,
  file_schema_version, config_schema_version,
}
use obsidian_couchsync.Resolver.{
  ResolvableDoc, file, config, PullVerdict, take_remote, keep_local, concurrent, silent_merge,
  resolve_on_pull,
}
use obsidian_couchsync.Resolver.Verdicts.{concurrent-not-SameDoc}
use obsidian_couchsync.Store.Commit.{get_doc}
use obsidian_couchsync.PendingSets.{PendingConflictKind, pull_delete_vs_edit}
use obsidian_couchsync.DocId.{file_path_from_id, is_file_doc_id}
use obsidian_couchsync.PullWriter.{
  ChangeRow, ConcurrentEntry, Batch, Pulled, ok, err, PullEnv, build_deletion_tombstone,
  probe_unpushed_safe, present, remember, pulled_deletion, handle_pulled_deletion, to_doc,
  is_converged, conflict_kind, on_concurrent, path_of, on_verdict, judge, against_local,
  classify_resolvable, classify_doc, classify_row, classify_rows, classify, empty_batch,
}
use obsidian_couchsync.PullWriter.Rows.{Pulled-cases, All-append}

both_deleted : (l r : FileDoc) → conflict_kind l r ≡ none → (l.deleted ≡ true) × (r.deleted ≡ true)
unfolding conflict_kind
both_deleted l r h = ground arith

-- Two file docs in conflict are not both deleted: the conflict has a kind.
pub conflict_kind-concurrent :
    (l r : FileDoc)
    → resolve_on_pull (some (file l)) (file r) none ≡ concurrent
    → (kind : PendingConflictKind) × (conflict_kind l r ≡ some kind)
conflict_kind-concurrent l r e = elim (Option-cases (conflict_kind l r)) [
  | inl no_kind ↦
      absurd (concurrent-not-SameDoc (file l) (file r) e (inl (both_deleted l r no_kind)))
  | inr found ↦ found
]

abbrev pub has_entry : Text → List (Text × PendingConflictKind) → Bool
has_entry id [] = false
has_entry id ((j, _) ∷ entries) = j == id || has_entry id entries

has_entry-append :
    (id : Text) (xs ys : List (Text × PendingConflictKind))
    → has_entry id (xs ++ ys) ≡ (has_entry id xs || has_entry id ys)
has_entry-append id [] ys = refl
has_entry-append id ((j, _) ∷ xs) ys = ground (arith, has_entry-append id xs ys)

abbrev pub both_files : ConcurrentEntry → Bool
both_files e = is_file_doc e.local_doc && is_file_doc e.remote_doc

-- A presented conflict of two file docs has an entry under the remote doc's id.
abbrev pub Remembered : List (Text × PendingConflictKind) → ConcurrentEntry → Type 0
Remembered entries e = (not (both_files e) || has_entry (doc_id e.remote_doc) entries) ≡ true

Remembered-mono :
    (xs ys : List (Text × PendingConflictKind)) (es : List ConcurrentEntry)
    → All (Remembered xs) es
    → All (Remembered (xs ++ ys)) es
Remembered-mono xs ys [] h = tt
Remembered-mono xs ys (e ∷ es) (h, hs) =
    (ground (arith, has_entry-append (doc_id e.remote_doc) xs ys), Remembered-mono xs ys es hs)

abbrev Keeps : Batch → Type 0
Keeps b = All (Remembered b.conflicts) b.concurrent

abbrev KeepsOk : Pulled → Type 0
KeepsOk (ok b) = Keeps b
KeepsOk (err e emitted) = Unit

present_other-Keeps :
    (path : Text) (l r : CouchSyncDoc) (b : Batch)
    → (is_file_doc l && is_file_doc r) ≡ false
    → Keeps b
    → Keeps (present path l r b)
present_other-Keeps path l r b other h =
    All-append (Remembered b.conflicts) b.concurrent _ h (ground arith, tt)

present_file-Keeps :
    (path : Text) (kind : PendingConflictKind) (l r : CouchSyncDoc) (b : Batch)
    → Keeps b
    → Keeps (present path l r (remember (doc_id r) kind b))
present_file-Keeps path kind l r b h =
    All-append (Remembered (b.conflicts ++ ((doc_id r, kind) ∷ []))) b.concurrent _
      (Remembered-mono b.conflicts ((doc_id r, kind) ∷ []) b.concurrent h)
      (
        ground (
          arith,
          has_entry-append (doc_id r) b.conflicts ((doc_id r, kind) ∷ []),
          text_beq_iff (doc_id r) (doc_id r),
        ),
        tt,
      )

module _ (env : PullEnv) where
  pulled_deletion-Keeps :
      (id path : Text) (found : Option CouchSyncDoc) (b : Batch)
      → Keeps b
      → Keeps (pulled_deletion env id path found b)
  unfolding pulled_deletion
  pulled_deletion-Keeps id path none b h = h
  pulled_deletion-Keeps id path (some (chunk_doc c)) b h = h
  pulled_deletion-Keeps id path (some (config_doc c)) b h = h
  pulled_deletion-Keeps id path (some (file_doc l)) b h = elim (Bool-cases l.deleted) [
    | inl dead ↦ simp dead h
    | inr alive ↦ elim (Bool-cases (probe_unpushed_safe env path)) [
      | inl edited ↦
          simp (alive, edited)
            (unfold build_deletion_tombstone in
              present_file-Keeps path pull_delete_vs_edit (file_doc l)
                (file_doc (build_deletion_tombstone id l)) b h)
      | inr clean ↦ simp (alive, clean) h
    ]
  ]

  handle_pulled_deletion-Keeps :
      (id : Text) (b : Batch) → Keeps b → KeepsOk (handle_pulled_deletion env id b)
  unfolding handle_pulled_deletion
  handle_pulled_deletion-Keeps id b h = elim (Option-cases (file_path_from_id id)) [
    | inl lost ↦ rw (lost, KeepsOk) tt
    | inr (path, e) ↦ rw (e, KeepsOk) (pulled_deletion-Keeps id path (get_doc id env.store) b h)
  ]

  on_concurrent-Keeps :
      (path : Text) (l r : ResolvableDoc) (b : Batch)
      → resolve_on_pull (some l) r none ≡ concurrent
      → Keeps b
      → KeepsOk (on_concurrent env path l r b)
  unfolding on_concurrent
  on_concurrent-Keeps path (file l) (config r) b e h =
      present_other-Keeps path (file_doc l) (config_doc r) b refl h
  on_concurrent-Keeps path (config l) (config r) b e h =
      present_other-Keeps path (config_doc l) (config_doc r) b refl h
  on_concurrent-Keeps path (config l) (file r) b e h = elim (Bool-cases (env.ensure_chunks r)) [
    | inl fetched ↦ simp fetched (present_other-Keeps path (config_doc l) (file_doc r) b refl h)
    | inr failed ↦ simp failed tt
  ]
  on_concurrent-Keeps path (file l) (file r) b e h = elim (Bool-cases (env.ensure_chunks r)) [
    | inl fetched ↦
        let (kind, known) = conflict_kind-concurrent l r e in
        simp (fetched, known) (present_file-Keeps path kind (file_doc l) (file_doc r) b h)
    | inr failed ↦ simp failed tt
  ]

  on_verdict-Keeps :
      (path : Text) (l r : ResolvableDoc) (v : PullVerdict) (b : Batch)
      → resolve_on_pull (some l) r none ≡ v
      → Keeps b
      → KeepsOk (on_verdict env path l r v b)
  unfolding on_verdict
  on_verdict-Keeps path l r keep_local b e h = h
  on_verdict-Keeps path l r concurrent b e h = on_concurrent-Keeps path l r b e h
  on_verdict-Keeps path l r silent_merge b e h = h
  on_verdict-Keeps path l r take_remote b e h = h

  judge-Keeps : (l r : ResolvableDoc) (b : Batch) → Keeps b → KeepsOk (judge env l r b)
  unfolding judge
  judge-Keeps l r b h = elim (Bool-cases (is_converged l r)) [
    | inl converged ↦ rw (converged, KeepsOk) h
    | inr differs ↦ elim (Option-cases (path_of r)) [
      | inl lost ↦ rw (differs, lost, KeepsOk) tt
      | inr (path, e) ↦
          rw (differs, e, KeepsOk)
            (on_verdict-Keeps path l r (resolve_on_pull (some l) r none) b refl h)
    ]
  ]

  against_local-Keeps :
      (r : ResolvableDoc) (found : Option CouchSyncDoc) (b : Batch)
      → Keeps b
      → KeepsOk (against_local env found r b)
  unfolding against_local
  against_local-Keeps r none b h = h
  against_local-Keeps r (some (file_doc l)) b h = judge-Keeps (file l) r b h
  against_local-Keeps r (some (config_doc l)) b h = judge-Keeps (config l) r b h
  against_local-Keeps r (some (chunk_doc l)) b h = h

  classify_resolvable-Keeps :
      (version expected : ℕ) (r : ResolvableDoc) (b : Batch)
      → Keeps b
      → KeepsOk (classify_resolvable env version expected r b)
  unfolding classify_resolvable
  classify_resolvable-Keeps version expected r b h = elim (Bool-cases (eqb version expected)) [
    | inl current ↦ elim (Bool-cases env.has_resolver) [
      | inl resolves ↦
          simp (current, resolves)
            (against_local-Keeps r (get_doc (doc_id (to_doc r)) env.store) b h)
      | inr bare ↦ simp (current, bare) h
    ]
    | inr other ↦ rw (other, KeepsOk) tt
  ]

  classify_doc-Keeps : (d : CouchSyncDoc) (b : Batch) → Keeps b → KeepsOk (classify_doc env d b)
  unfolding classify_doc
  classify_doc-Keeps (chunk_doc c) b h = h
  classify_doc-Keeps (file_doc d) b h =
      classify_resolvable-Keeps d.schema_version file_schema_version (file d) b h
  classify_doc-Keeps (config_doc d) b h =
      classify_resolvable-Keeps d.schema_version config_schema_version (config d) b h

  classify_row-Keeps : (row : ChangeRow) (b : Batch) → Keeps b → KeepsOk (classify_row env row b)
  unfolding classify_row
  classify_row-Keeps row b h = elim (Bool-cases row.deleted) [
    | inl gone ↦ elim (Bool-cases (is_file_doc_id row.id)) [
      | inl file_id ↦ rw (gone, file_id, KeepsOk) (handle_pulled_deletion-Keeps row.id b h)
      | inr other ↦ rw (gone, other, KeepsOk) h
    ]
    | inr there ↦ elim (Option-cases row.doc) [
      | inl no_doc ↦ rw (there, no_doc, KeepsOk) h
      | inr (d, e) ↦ rw (there, e, KeepsOk) (classify_doc-Keeps (strip_rev d) b h)
    ]
  ]

  classify_rows-Keeps :
      (rows : List ChangeRow) (b : Batch) → Keeps b → KeepsOk (classify_rows env rows b)
  unfolding classify_rows
  classify_rows-Keeps [] b h = h
  classify_rows-Keeps (row ∷ rows) b h = elim (Pulled-cases (classify_row env row b)) [
    | inl (b', e) ↦
        rw (e, KeepsOk) (classify_rows-Keeps rows b' (subst KeepsOk e (classify_row-Keeps row b h)))
    | inr (error, emitted, e) ↦ rw (e, KeepsOk) tt
  ]

-- Whatever rows the server sends, each conflict between two file docs that a batch presents to the
-- user also has its id among the conflicts to be persisted with the cursor: edits against edits,
-- deletions against edits on either side, and hard deletions against unpushed edits.
pub classify-Remembered :
    (env : PullEnv) (emitted : List Text) (rows : List ChangeRow) (b : Batch)
    → classify env emitted rows ≡ ok b
    → All (Remembered b.conflicts) b.concurrent
unfolding classify
classify-Remembered env emitted rows b e =
    subst KeepsOk e (classify_rows-Keeps env rows (empty_batch emitted) tt)

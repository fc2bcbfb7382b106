-- ===== src/PushPipeline.antt =====
-- The push pipeline (src/db/sync/push-pipeline.ts): `classifyFiles`, which sorts the local file docs
-- by the state of the remote. What the remote answers is the environment's.
pub mod Transport
pub mod Cycle
pub mod Order
pub mod Results
pub mod Account
pub mod Clocks
pub mod Candidates
use obsidian_couchsync.Prelude.{
  ℕ, bool_eq, ◌+◌, List, [], ◌∷◌, ◌++◌, map, Option, none, some, Bool, true, false, not, ◌&&◌,
  if◌then◌else◌, or_default, ◌>>=◌,
}
use obsidian_couchsync.Prelude.Text.{Text, text_eq}
use obsidian_couchsync.Prelude.Dict.{Dict, lookup, insert}
use obsidian_couchsync.VectorClock.{
  VectorClock, VcRelation, equal, dominates, dominated, concurrent, compare_vc,
}
use obsidian_couchsync.Classify.{chunk_lists_equal}
use obsidian_couchsync.Docs.{FileDoc, clock_of}

-- A row of `allDocs` with the docs.
pub record FileRow : Type 0 where
  pub id : Text
  pub rev : Option Text
  pub deleted : Bool
  pub doc : Option FileDoc

pub record ClassifiedFile : Type 0 where
  pub doc : FileDoc
  pub remote_rev : Option Text
  pub prev_attempts : ℕ

-- Without `filePath`, which is read off the local doc's id.
pub record DivergentFile : Type 0 where
  pub local_doc : FileDoc
  pub remote_doc : FileDoc
  pub relation : VcRelation
  pub prev_attempts : ℕ

pub record FileClassifyResult : Type 0 where
  pub proceed : List ClassifiedFile
  pub divergent : List DivergentFile
  pub skipped_equal : List Text

-- The maps `remoteRev`, `remoteDocMap` and `remoteVc`.
unfoldable pub remote_revs : List FileRow → Dict Text Text → Dict Text Text
remote_revs [] m = m
remote_revs (row ∷ rows) m = elim (row.rev) [
  | none ↦ remote_revs rows m
  | some rev ↦ if row.deleted then remote_revs rows m else remote_revs rows (insert row.id rev m)
]

unfoldable pub remote_docs : List FileRow → Dict Text FileDoc → Dict Text FileDoc
remote_docs [] m = m
remote_docs (row ∷ rows) m = elim (row.doc) [
  | none ↦ remote_docs rows m
  | some d ↦ remote_docs rows (insert row.id d m)
]

abbrev pub doc_vclock : Option FileDoc → Option VectorClock
doc_vclock none = none
doc_vclock (some d) = d.vclock

unfoldable pub remote_vclocks : List FileRow → Dict Text VectorClock → Dict Text VectorClock
remote_vclocks [] m = m
remote_vclocks (row ∷ rows) m = elim (doc_vclock row.doc) [
  | none ↦ remote_vclocks rows m
  | some vc ↦ remote_vclocks rows (insert row.id vc m)
]

-- `rDoc && chunkListsEqual(...) && !!doc.deleted === !!rDoc.deleted`
unfoldable pub same_state : FileDoc → Option FileDoc → Bool
same_state d none = false
same_state d (some r) = chunk_lists_equal d.chunks r.chunks && bool_eq d.deleted r.deleted

-- What becomes of one file doc.
pub data FileVerdict : Type 0 where
  ship : Option Text → FileVerdict
  skip : FileVerdict
  diverge : FileDoc → VcRelation → FileVerdict

-- The body of the loop, against the remote clock, doc and rev.
unfoldable pub classify_file :
    FileDoc → Option VectorClock → Option FileDoc → Option Text → FileVerdict
classify_file d none r rev = ship none
classify_file d (some vc) r rev = elim (compare_vc (clock_of d) vc) [
  | dominates ↦ if same_state d r then skip else ship rev
  | equal ↦ if same_state d r then skip else diverge (or_default r d) concurrent
  | concurrent ↦ diverge (or_default r d) concurrent
  | dominated ↦ diverge (or_default r d) dominated
]

unfoldable pub add_verdict : FileDoc → ℕ → FileVerdict → FileClassifyResult → FileClassifyResult
add_verdict d prev (ship rev) c =
    (let p : ClassifiedFile = record { doc = d; remote_rev = rev; prev_attempts = prev } in
      record c { proceed = p ∷ c.proceed })
add_verdict d prev skip c = record c { skipped_equal = d.id ∷ c.skipped_equal }
add_verdict d prev (diverge r rel) c =
    (let p : DivergentFile = record {
      local_doc = d;
      remote_doc = r;
      relation = rel;
      prev_attempts = prev;
    } in
      record c { divergent = p ∷ c.divergent })

-- The loop over the docs; the lists are in the order of the docs.
unfoldable pub classify_loop : List FileRow → Dict Text ℕ → List FileDoc → FileClassifyResult
classify_loop rows prev [] = record { proceed = []; divergent = []; skipped_equal = [] }
classify_loop rows prev (d ∷ docs) =
    add_verdict d (or_default (lookup d.id prev) 0)
      (classify_file d (lookup d.id (remote_vclocks rows [])) (lookup d.id (remote_docs rows []))
        (lookup d.id (remote_revs rows [])))
      (classify_loop rows prev docs)

-- `classifyFiles`: its result and `remoteDocMap`. The remote is not asked about no docs. `none`: the
-- request throws.
unfoldable pub classify_files :
    (List Text → Option (List FileRow))
    → Dict Text ℕ
    → List FileDoc
    → Option (FileClassifyResult × Dict Text FileDoc)
classify_files all_docs prev [] = some (classify_loop [] prev [], [])
classify_files all_docs prev (d ∷ docs) = do
  rows ← all_docs (map (λ x. x.id) (d ∷ docs))
  some (classify_loop rows prev (d ∷ docs), remote_docs rows [])

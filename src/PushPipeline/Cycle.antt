-- ===== src/PushPipeline/Cycle.antt =====
-- One push cycle (src/db/sync/push-pipeline.ts, `runOnce`).
use obsidian_couchsync.Prelude.{
  ℕ, ◌+◌, List, [], ◌∷◌, ◌++◌, map, Option, none, some, Bool, true, false, not, ◌&&◌, if◌then◌else◌,
  or_default, contains, leb,
}
use obsidian_couchsync.Prelude.Text.{Text, text_eq}
use obsidian_couchsync.Prelude.Dict.{Dict, lookup}
use obsidian_couchsync.VectorClock.{concurrent}
use obsidian_couchsync.Docs.{FileDoc, CouchSyncDoc, file_doc, doc_id, strip_rev}
use obsidian_couchsync.DocId.{is_file_doc_id, is_chunk_doc_id, is_replicated_doc_id}
use obsidian_couchsync.Store.{Seq, num, opaque, StoredDoc, Store, rows_above, last_seq_of}
use obsidian_couchsync.Store.Commit.{get_doc}
use obsidian_couchsync.PendingSets.{
  race_stale, divergent, UnpushedEntry, unpushed_key_prefix, parse_unpushed, load_all,
}
use obsidian_couchsync.Checkpoints.{Checkpoints, UnpushedAdd, commit_push_cycle}
use obsidian_couchsync.Echo.{EchoTracker, default_ttl_ms, is_pull_echo, sweep_pull_written}
use obsidian_couchsync.PushPipeline.{
  FileRow, ClassifiedFile, DivergentFile, FileClassifyResult, classify_files,
}
use obsidian_couchsync.PushPipeline.Transport.{PushClient, push_docs}

-- `parseInt` reads an opaque cursor as environment data.
pub record PushEnv : Type 0 where
  pub now : ℕ
  pub parse_seq : Text → ℕ
  pub all_docs : List Text → Option (List FileRow)
  pub client : PushClient
  pub cancelled_after_changes : Bool
  pub cancelled_after_classify : Bool

pub record PushState : Type 0 where
  pub checkpoints : Checkpoints
  pub store : Store
  pub echoes : EchoTracker

abbrev seq_num : PushEnv → Seq → ℕ
seq_num env (num n) = n
seq_num env (opaque t) = env.parse_seq t

-- [2]
unfoldable pub from_changes : EchoTracker → List StoredDoc → List (Text × CouchSyncDoc)
from_changes echoes [] = []
from_changes echoes (row ∷ rows) =
    let rest = from_changes echoes rows in
    let id = doc_id row.doc in
    if is_replicated_doc_id id && not (is_pull_echo id row.local_seq echoes)
    then (id, row.doc) ∷ rest
    else rest

-- [3] The docs of the unpushed ids that are not among the changes, and the zombies.
unfoldable pub union_unpushed :
    Store → List Text → List (Text × UnpushedEntry) → List (Text × CouchSyncDoc) × List Text
union_unpushed s seen [] = ([], [])
union_unpushed s seen ((id, _) ∷ rows) =
    let (docs, zombies) = union_unpushed s (id ∷ seen) rows in
    if contains id seen then (docs, zombies) else elim (get_doc id s) [
      | none ↦ (docs, id ∷ zombies)
      | some d ↦ if is_replicated_doc_id id then ((id, d) ∷ docs, zombies) else (docs, id ∷ zombies)
    ]

unfoldable pub prev_attempts : List (Text × UnpushedEntry) → Dict Text ℕ
prev_attempts [] = []
prev_attempts ((id, e) ∷ rows) = (id, e.attempts) ∷ prev_attempts rows

-- [4]
unfoldable pub file_candidates : List (Text × CouchSyncDoc) → List FileDoc
file_candidates [] = []
file_candidates ((id, file_doc d) ∷ cs) =
    let rest = file_candidates cs in if is_file_doc_id id then d ∷ rest else rest
file_candidates (_ ∷ cs) = file_candidates cs

abbrev is_file_candidate : Text × CouchSyncDoc → Bool
is_file_candidate (id, file_doc d) = is_file_doc_id id
is_file_candidate (id, _) = false

unfoldable pub chunk_candidates : List (Text × CouchSyncDoc) → List CouchSyncDoc
chunk_candidates [] = []
chunk_candidates (c ∷ cs) =
    let rest = chunk_candidates cs in
    if not (is_file_candidate c) && is_chunk_doc_id c.0 then c.1 ∷ rest else rest

abbrev race_stale_escalation_threshold : ℕ
race_stale_escalation_threshold = 3

abbrev is_race_stale : Option UnpushedEntry → Bool
is_race_stale none = false
is_race_stale (some e) = elim (e.reason) [ race_stale ↦ true | divergent ↦ false ]

-- [6] An unpushed id that has been retried often enough.
unfoldable pub is_escalated : List (Text × UnpushedEntry) → ClassifiedFile → Bool
is_escalated rows p =
    is_race_stale (lookup p.doc.id rows) && leb race_stale_escalation_threshold p.prev_attempts

-- The files that go on, those that are surfaced with the remote's doc, and those without one. The
-- loop runs from the end.
unfoldable pub escalate :
    List (Text × UnpushedEntry)
    → Dict Text FileDoc
    → List ClassifiedFile
    → List ClassifiedFile × List DivergentFile × List (Text × ℕ)
escalate rows remote [] = ([], [], [])
escalate rows remote (p ∷ ps) =
    let (kept, surfaced, bare) = escalate rows remote ps in
    if is_escalated rows p
    then elim (lookup p.doc.id remote) [
      | none ↦ (kept, surfaced, bare ++ ((p.doc.id, p.prev_attempts) ∷ []))
      | some r ↦ (
        kept,
        surfaced
            ++ (record {
              local_doc = p.doc;
              remote_doc = r;
              relation = concurrent;
              prev_attempts = p.prev_attempts;
            }
                ∷ []),
        bare,
      )
    ]
    else (p ∷ kept, surfaced, bare)

-- [7]
unfoldable pub divergent_adds : List DivergentFile → List (Text × UnpushedAdd)
divergent_adds [] = []
divergent_adds (v ∷ vs) =
    (v.local_doc.id, record { reason = divergent; attempts = v.prev_attempts + 1 })
    ∷ divergent_adds vs

unfoldable pub bare_adds : List (Text × ℕ) → List (Text × UnpushedAdd)
bare_adds [] = []
bare_adds ((id, n) ∷ ids) = (id, record { reason = divergent; attempts = n + 1 }) ∷ bare_adds ids

-- [8]
abbrev pub with_rev : ClassifiedFile → CouchSyncDoc
with_rev p = file_doc (record (p.doc) { rev = p.remote_rev })

abbrev pub to_bulk : List CouchSyncDoc → List ClassifiedFile → List CouchSyncDoc
to_bulk chunks proceed = map strip_rev chunks ++ map with_rev proceed

-- [9]
unfoldable pub race_adds : Dict Text ℕ → List Text → List (Text × UnpushedAdd)
race_adds prev [] = []
race_adds prev (id ∷ ids) =
    let rest = race_adds prev ids in
    if is_file_doc_id id
    then (id, record { reason = race_stale; attempts = or_default (lookup id prev) 0 + 1 }) ∷ rest
    else rest

-- `committed` has the conflicts that the cycle surfaced. A cycle that throws in `pushDocs` has
-- surfaced them too, which is not recorded.
pub data CycleEnd : Type 0 where
  committed : List DivergentFile → CycleEnd
  cancelled threw tx_failed : CycleEnd

-- From the classified files on: [6] to [10].
unfoldable pub finish_cycle :
    PushEnv
    → Seq
    → List (Text × UnpushedEntry)
    → List CouchSyncDoc
    → List Text
    → FileClassifyResult × Dict Text FileDoc
    → PushState
    → PushState × CycleEnd
finish_cycle env last_seq rows chunks zombies (c, remote) st =
    let prev = prev_attempts rows in
    let (kept, surfaced, bare) = escalate rows remote c.proceed in
    let diverging = c.divergent ++ surfaced in
    elim (push_docs env.client (to_bulk chunks kept)) [
      | none ↦ (st, threw)
      | some r ↦
          elim (commit_push_cycle env.now last_seq
            (divergent_adds diverging ++ (bare_adds bare ++ race_adds prev r.conflicts))
            (zombies ++ (c.skipped_equal ++ r.pushed)) (st.checkpoints, st.store)) [
              | none ↦ (st, tx_failed)
              | some (cp, s) ↦ (record st { checkpoints = cp; store = s }, committed diverging)
            ]
    ]

-- `runOnce`
unfoldable pub run_once : PushEnv → PushState → PushState × CycleEnd
run_once env st =
    let since = seq_num env st.checkpoints.last_pushed_seq in
    let changes = rows_above since st.store.docs in
    let fresh = from_changes st.echoes changes in
    let swept =
      sweep_pull_written default_ttl_ms env.now (map (λ row. doc_id row.doc) changes) st.echoes in
    let st' : PushState = record st { echoes = swept } in
    let rows = load_all unpushed_key_prefix parse_unpushed st.store.meta in
    let (older, zombies) = union_unpushed st.store (map (λ c. c.0) fresh) rows in
    let candidates = fresh ++ older in
    if env.cancelled_after_changes
    then (st, cancelled)
    else elim (classify_files env.all_docs (prev_attempts rows) (file_candidates candidates)) [
      | none ↦ (st', threw)
      | some c ↦
          if env.cancelled_after_classify
          then (st', cancelled)
          else finish_cycle env (num (last_seq_of since changes)) rows (chunk_candidates candidates)
              zombies c st'
    ]

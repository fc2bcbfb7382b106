-- ===== src/PushPipeline/Candidates.antt =====
-- The candidates of a push cycle (src/db/sync/push-pipeline.ts, `runOnce`, [2] and [3]).
use obsidian_couchsync.Prelude.{
  ◌≡◌, inl, inr, List, [], ◌∷◌, true, false, ◌&&◌, ◌||◌, arith, contains, eqb, ◌==◌, Bool-cases,
  Option-cases,
}
use obsidian_couchsync.Prelude.Text.{Text, text_eq, text_beq_iff}
use obsidian_couchsync.Prelude.Dict.{keys}
use obsidian_couchsync.Docs.{doc_id}
use obsidian_couchsync.DocId.{is_replicated_doc_id}
use obsidian_couchsync.Store.{StoredDoc, Store}
use obsidian_couchsync.Store.Commit.{get_doc}
use obsidian_couchsync.Store.Changes.{lists}
use obsidian_couchsync.PendingSets.{UnpushedEntry}
use obsidian_couchsync.Echo.{EchoTracker, is_pull_echo}
use obsidian_couchsync.PushPipeline.Cycle.{from_changes, union_unpushed}

-- No local change is overlooked: each row of the changes feed whose id is replicated and which is not
-- the echo of a pull is a candidate for the push.
pub from_changes-Complete :
    (echoes : EchoTracker) (rows : List StoredDoc) (x : StoredDoc)
    → lists x rows ≡ true
    → is_replicated_doc_id (doc_id x.doc) ≡ true
    → is_pull_echo (doc_id x.doc) x.local_seq echoes ≡ false
    → contains (doc_id x.doc) (keys (from_changes echoes rows)) ≡ true
unfolding from_changes keys
from_changes-Complete echoes [] x m r e = absurd (cc)
from_changes-Complete echoes (row ∷ rows) x m r e =
    elim (Bool-cases (eqb row.local_seq x.local_seq && doc_id row.doc == doc_id x.doc)) [
      | inl here ↦
          let same_id : doc_id row.doc ≡ doc_id x.doc =
            ground (arith, text_beq_iff (doc_id row.doc) (doc_id x.doc)) in
          let same_seq : row.local_seq ≡ x.local_seq = ground arith in
          rw (same_id, same_seq, r, e, from_changes)
            (ground (arith, text_beq_iff (doc_id x.doc) (doc_id x.doc)))
      | inr there ↦ ground (arith, from_changes-Complete echoes rows x)
    ]

-- No unpushed id is overlooked: each id of the set is among the changes, or its doc is a candidate, or
-- it is dropped as a zombie.
pub union_unpushed-Complete :
    (s : Store) (seen : List Text) (rows : List (Text × UnpushedEntry)) (id : Text)
    → contains id (keys rows) ≡ true
    → (contains id seen
        || (contains id (keys (union_unpushed s seen rows).0)
            || contains id (union_unpushed s seen rows).1))
      ≡ true
unfolding union_unpushed keys
union_unpushed-Complete s seen [] id m = absurd (cc)
union_unpushed-Complete s seen ((j, e) ∷ rows) id m = elim (Bool-cases (contains j seen)) [
  | inl known ↦ elim (Bool-cases (id == j)) [
    | inl here ↦ let same : id ≡ j = (text_beq_iff id j).0 here in rw same (rw known)
    | inr other ↦
        rw (known, union_unpushed) (ground (arith, union_unpushed-Complete s (j ∷ seen) rows id))
  ]
  | inr new ↦ elim (Option-cases (get_doc j s)) [
    | inl gone ↦
        rw (new, gone, union_unpushed)
          (ground (arith, union_unpushed-Complete s (j ∷ seen) rows id))
    | inr (d, found) ↦ elim (Bool-cases (is_replicated_doc_id j)) [
      | inl ours ↦
          rw (new, found, ours, union_unpushed)
            (ground (arith, union_unpushed-Complete s (j ∷ seen) rows id))
      | inr foreign ↦
          rw (new, found, foreign, union_unpushed)
            (ground (arith, union_unpushed-Complete s (j ∷ seen) rows id))
    ]
  ]
]

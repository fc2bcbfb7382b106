-- ===== src/Store/Commit.antt =====
-- A committed transaction of docs and meta writes (src/db/dexie-store.ts, `runWriteTx`).
use obsidian_couchsync.Prelude.{
  ℕ, ◌+◌, ◌≡◌, refl, ◌∙◌, List, [], ◌∷◌, Option, none, some, true, false, not, arith, if◌then◌else◌,
  ◌==◌, is_some, all,
}
use obsidian_couchsync.Prelude.Text.{Text, text_eq, text_beq_iff}
use obsidian_couchsync.Prelude.Dict.{Dict, lookup, insert, lookup-insert}
use obsidian_couchsync.Docs.{CouchSyncDoc, doc_id, strip_rev}
use obsidian_couchsync.Store.{
  num, seq, MetaWrite, StoredDoc, Store, DocWrite, update_seq_key, update_seq, put_chunks,
  cas_holds, put_docs, delete_docs, write_meta, run_write_tx,
}
use obsidian_couchsync.Store.Meta.{last_write, lookup-write_meta}

-- The last write of `id` among the doc writes.
abbrev pub last_doc : Text → List DocWrite → Option CouchSyncDoc → Option CouchSyncDoc
last_doc id [] old = old
last_doc id (w ∷ ws) old =
    last_doc id ws (if doc_id w.doc == id then some (strip_rev w.doc) else old)

abbrev doc_at : Option StoredDoc → Option CouchSyncDoc
doc_at none = none
doc_at (some stored) = some stored.doc

-- What a reader of the store gets for an id.
unfoldable pub get_doc : Text → Store → Option CouchSyncDoc
get_doc id s = doc_at (lookup id s.docs)

doc_at-put_docs :
    (n : ℕ) (found : Dict Text StoredDoc) (ws : List DocWrite) (docs : Dict Text StoredDoc)
    (id : Text)
    → doc_at (lookup id (put_docs n found ws docs)) ≡ last_doc id ws (doc_at (lookup id docs))
unfolding put_docs
doc_at-put_docs n found [] docs id = refl
doc_at-put_docs n found (w ∷ ws) docs id =
    doc_at-put_docs n found ws _ id
    ∙ rw lookup-insert (ground (arith, text_beq_iff (doc_id w.doc) id))

cas_holds_of_unguarded :
    (docs : Dict Text StoredDoc) (ws : List DocWrite)
    → all (λ w. not (is_some w.expected_vclock)) ws ≡ true
    → all (cas_holds docs) ws ≡ true
unfolding cas_holds
cas_holds_of_unguarded docs [] h = refl
cas_holds_of_unguarded docs (w ∷ ws) h = ground (arith, cas_holds_of_unguarded docs ws)

-- A transaction of docs and meta writes alone, as every commit of the sync cursors is, writes with
-- no clock guard cannot roll back. After it each id holds the last doc written under it, the ids
-- not written hold what they held, and each meta key but the update counter holds its last write.
pub run_write_tx-docs_meta :
    (now : ℕ) (ws : List DocWrite) (metas : List MetaWrite) (s : Store)
    → all (λ w. not (is_some w.expected_vclock)) ws ≡ true
    → (t : Store) × (run_write_tx now
          (record { docs = ws; chunks = []; deletes = []; vclocks = []; meta = metas })
          s
        ≡ some t)
      × ((id : Text) → get_doc id t ≡ last_doc id ws (get_doc id s))
      × ((k : Text)
          → (update_seq_key == k) ≡ false
          → lookup k t.meta ≡ last_write k metas (lookup k s.meta))
unfolding run_write_tx put_chunks delete_docs get_doc write_meta
run_write_tx-docs_meta now ws metas s free = (
  record {
    docs = put_docs (update_seq s.meta + 1) s.docs ws s.docs;
    meta = write_meta metas (insert update_seq_key (seq (num (update_seq s.meta + 1))) s.meta);
  },
  rw (cas_holds_of_unguarded s.docs ws free),
  λ id. doc_at-put_docs (update_seq s.meta + 1) s.docs ws s.docs id,
  λ k h. rw (lookup-write_meta, lookup-insert, h),
)

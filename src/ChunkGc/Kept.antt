-- ===== src/ChunkGc/Kept.antt =====
-- What the collection of orphaned chunks keeps (src/db/chunk-gc.ts).
use obsidian_couchsync.Prelude.{
  ap, drop, length, ltb, ℕ, ◌+◌, ◌≡◌, refl, ◌∙◌, List, [], ◌∷◌, map, Option, none, some, Bool, true,
  false, not, ◌&&◌, ◌||◌, arith, if◌then◌else◌, ◌==◌, is_some, any, contains, contains-filter,
  Bool-cases, inl, inr,
}
use obsidian_couchsync.Prelude.Text.{Text, text_lt, starts_with, text_eq, text_beq_iff}
use obsidian_couchsync.Prelude.Dict.{
  Dict, keys, lookup, insert, lookup-insert, lookup-erase, contains-keys,
}
use obsidian_couchsync.DocId.{file_prefix, chunk_prefix}
use obsidian_couchsync.Docs.{CouchSyncDoc, file_doc, chunk_doc, config_doc}
use obsidian_couchsync.Store.{
  num, seq, StoredDoc, Store, update_seq_key, update_seq, write_meta, put_docs, put_chunks,
  delete_docs, run_write_tx,
}
use obsidian_couchsync.ChunkGc.{
  ChunkOwnerDoc, file_owner, add_ref, add_refs, collect_loop, collect_referenced_chunks,
  collect_file_chunk_refs, in_range, insert_by_id, rows_between, list_ids, file_docs_of,
  all_file_docs, GcResult, gc_result, orphans, delete_orphans, sweep_orphan_chunks,
  gc_orphan_chunks,
}

is_some-or :
    {A : Type 0} (b : Bool) (x : A) (o : Option A)
    → is_some (if b then some x else o) ≡ (b || is_some o)
is_some-or true x o = refl
is_some-or false x o = refl

pub is_some-add_refs :
    (id label : Text) (cids : List Text) (refs : Dict Text (List Text))
    → is_some (lookup id (add_refs label cids refs))
      ≡ (contains id cids || is_some (lookup id refs))
unfolding add_refs add_ref
is_some-add_refs id label [] refs = refl
is_some-add_refs id label (cid ∷ cids) refs =
    is_some-add_refs id label cids _
    ∙ rw lookup-insert (rw is_some-or (ground (arith, text_beq_iff cid id, text_beq_iff id cid)))

abbrev pub pins : Text → ChunkOwnerDoc → Bool
pins id d = not d.deleted && contains id d.chunks

pub is_some-collect_loop :
    (label_of : ChunkOwnerDoc → Text) (id : Text) (docs : List ChunkOwnerDoc)
    (refs : Dict Text (List Text))
    → is_some (lookup id (collect_loop label_of docs refs))
      ≡ (any (pins id) docs || is_some (lookup id refs))
unfolding collect_loop
is_some-collect_loop label_of id [] refs = refl
is_some-collect_loop label_of id (d ∷ docs) refs =
    is_some-collect_loop label_of id docs _ ∙ elim (Bool-cases d.deleted) [
      | inl gone ↦ rw gone refl
      | inr live ↦ rw (live, is_some-add_refs) (ground arith)
    ]

pub or_false : (b : Bool) → (b || false) ≡ b
or_false b = ground arith

any-insert_by_id :
    (p : Text × StoredDoc → Bool) (row : Text × StoredDoc) (rows : Dict Text StoredDoc)
    → any p (insert_by_id row rows) ≡ (p row || any p rows)
unfolding insert_by_id
any-insert_by_id p row [] = refl
any-insert_by_id p row (r ∷ rows) = ground (arith, any-insert_by_id p row rows)

pub any-rows_between :
    (p : Text × StoredDoc → Bool) (prefix : Text) (docs : Dict Text StoredDoc)
    → any p (rows_between prefix docs) ≡ any (λ row. in_range prefix row.0 && p row) docs
unfolding rows_between
any-rows_between p prefix [] = refl
any-rows_between p prefix (row ∷ docs) = elim (Bool-cases (in_range prefix row.0)) [
  | inl inside ↦ rw (inside, any-insert_by_id, any-rows_between p prefix docs) refl
  | inr outside ↦ rw (outside, any-rows_between p prefix docs) refl
]

-- A live file doc that lists the chunk.
abbrev pub file_pins : Text → CouchSyncDoc → Bool
file_pins id (file_doc d) = not d.deleted && contains id d.chunks
file_pins id (chunk_doc _) = false
file_pins id (config_doc _) = false

any-file_docs_of :
    (id : Text) (rows : Dict Text StoredDoc)
    → any (pins id) (map file_owner (file_docs_of rows)) ≡ any (λ row. file_pins id row.1.doc) rows
unfolding file_docs_of
any-file_docs_of id [] = refl
any-file_docs_of id ((key, stored) ∷ rows) =
    elim (stored.doc)
      as (λ x.
        any (pins id) (
          map file_owner (elim x [
            | file_doc d ↦ d ∷ file_docs_of rows
            | chunk_doc _ ↦ file_docs_of rows
            | config_doc _ ↦ file_docs_of rows
          ]))
        ≡ (file_pins id x || any (λ row. file_pins id row.1.doc) rows)) [
          | file_doc d ↦ rw (any-file_docs_of id rows) refl
          | chunk_doc _ ↦ any-file_docs_of id rows
          | config_doc _ ↦ any-file_docs_of id rows
        ]

keyed_lem :
    (id : Text) (rows : Dict Text StoredDoc)
    → contains id (keys rows) ≡ any (λ row. id == row.0) rows
unfolding keys
keyed_lem id [] = refl
keyed_lem id (row ∷ rows) = rw (keyed_lem id rows) refl

any-range :
    (id prefix : Text) (docs : Dict Text StoredDoc)
    → any (λ row. in_range prefix row.0 && (id == row.0)) docs
      ≡ (in_range prefix id && contains id (keys docs))
unfolding keys
any-range id prefix [] = ground arith
any-range id prefix (row ∷ docs) = elim (Bool-cases (id == row.0)) [
  | inl same ↦
      rw (any-range id prefix docs) (
        rw ((text_beq_iff id row.0).0 same) (rw ((text_beq_iff row.0 row.0).1 refl) (ground arith)))
  | inr other ↦ rw (any-range id prefix docs) (rw other (ground arith))
]

contains-list_ids :
    (id prefix : Text) (s : Store)
    → contains id (list_ids prefix s) ≡ (in_range prefix id && is_some (lookup id s.docs))
unfolding list_ids
contains-list_ids id prefix s =
    keyed_lem id _
    ∙ any-rows_between _ prefix s.docs
    ∙ any-range id prefix s.docs
    ∙ rw contains-keys refl

lookup-delete_docs :
    (id : Text) (ids : List Text) (docs : Dict Text StoredDoc)
    → lookup id (delete_docs ids docs) ≡ (if contains id ids then none else lookup id docs)
unfolding delete_docs
lookup-delete_docs id [] docs = refl
lookup-delete_docs id (j ∷ ids) docs =
    lookup-delete_docs id ids _
    ∙ rw lookup-erase (ground (arith, text_beq_iff j id, text_beq_iff id j))

-- The ids of a prefix that a range up to the prefix with U+FFF0 covers: the prefix alone, and those
-- whose next code unit is below U+FFF0, or is U+FFF0 and the last.
abbrev below_cap : Text → Bool
below_cap [] = true
below_cap (c ∷ []) = ltb c 65521
below_cap (c ∷ _ ∷ _) = ltb c 65520

unfoldable pub covers : Text → Text → Bool
covers prefix id = starts_with id prefix && below_cap (drop (length prefix) id)

in_range-covers : (prefix id : Text) → in_range prefix id ≡ covers prefix id
unfolding covers starts_with text_lt
in_range-covers [] [] = refl
in_range-covers [] (x ∷ []) = ground arith
in_range-covers [] (x ∷ y ∷ ys) = ground arith
in_range-covers (p ∷ ps) [] = refl
in_range-covers (p ∷ ps) (x ∷ xs) = ground (arith, in_range-covers ps xs)

pub any-covers :
    (q : Text × StoredDoc → Bool) (prefix : Text) (docs : Dict Text StoredDoc)
    → any (λ row. in_range prefix row.0 && q row) docs
      ≡ any (λ row. covers prefix row.0 && q row) docs
any-covers q prefix [] = refl
any-covers q prefix (row ∷ docs) =
    ap (λ b. (b && q row) || any (λ r. in_range prefix r.0 && q r) docs)
      (in_range-covers prefix row.0)
    ∙ ap (λ b. (covers prefix row.0 && q row) || b) (any-covers q prefix docs)

-- Every chunk of the range that the map does not name is gone, and all else is there as before.
abbrev pub Swept : Text → Bool → Store → Store → Type 0
Swept id referenced s t =
    lookup id t.docs ≡ (if covers chunk_prefix id && not referenced then none else lookup id s.docs)

contains-orphans :
    (id : Text) (referenced : Dict Text (List Text)) (s : Store)
    → contains id (orphans referenced s) ≡ (
        in_range chunk_prefix id
        && is_some (lookup id s.docs)
        && not (is_some (lookup id referenced)))
unfolding orphans
contains-orphans id referenced s =
    contains-filter _ id (list_ids chunk_prefix s) ∙ rw contains-list_ids (ground arith)

unless_there :
    {A : Type 0} (r p : Bool) (o : Option A)
    → (if r && is_some o && p then none else o) ≡ (if r && p then none else o)
unless_there r p none = ground arith
unless_there true p (some a) = refl
unless_there false p (some a) = refl

pub delete_orphans-Swept :
    (id : Text) (referenced : Dict Text (List Text)) (s : Store)
    → lookup id (delete_docs (orphans referenced s) s.docs) ≡ (
        if covers chunk_prefix id && not (is_some (lookup id referenced))
        then none
        else lookup id s.docs)
delete_orphans-Swept id referenced s =
    lookup-delete_docs id (orphans referenced s) s.docs
    ∙ rw contains-orphans (
        unless_there (in_range chunk_prefix id) (not (is_some (lookup id referenced)))
          (lookup id s.docs))
    ∙ ap (λ b. if b && not (is_some (lookup id referenced)) then none else lookup id s.docs)
        (in_range-covers chunk_prefix id)

pub delete_orphans-lem :
    (now : ℕ) (ids : List Text) (s : Store)
    → (t : Store) × (delete_orphans now ids s ≡ some t) × (t.docs ≡ delete_docs ids s.docs)
unfolding delete_orphans run_write_tx put_docs put_chunks write_meta delete_docs
delete_orphans-lem now [] s = (s, refl, refl)
delete_orphans-lem now (id ∷ ids) s = (
  record {
    docs = delete_docs (id ∷ ids) s.docs;
    meta = insert update_seq_key (seq (num (update_seq s.meta + 1))) s.meta;
  },
  refl,
  refl,
)

-- The chunks of the map are those that a live file doc of the store lists.
is_some-collect_file_chunk_refs :
    (id : Text) (s : Store)
    → is_some (lookup id (collect_file_chunk_refs (all_file_docs s)))
      ≡ any (λ row. covers file_prefix row.0 && file_pins id row.1.doc) s.docs
unfolding collect_file_chunk_refs collect_referenced_chunks all_file_docs lookup
is_some-collect_file_chunk_refs id s =
    is_some-collect_loop _ id _ []
    ∙ or_false _
    ∙ any-file_docs_of id _
    ∙ any-rows_between _ file_prefix s.docs
    ∙ any-covers _ file_prefix s.docs

-- The collection of the vault store always commits. After it the chunks that no live file doc of the
-- store lists are gone, and every other doc, with every chunk that such a file doc lists, is kept. The
-- file docs and the chunks are those that the ranges cover: the ids of the prefix whose next code
-- unit is below U+FFF0, or is U+FFF0 and the last. A live file doc whose path begins higher protects
-- no chunk.
pub gc_orphan_chunks-Swept :
    (now : ℕ) (s : Store)
    → (t : Store) × (r : GcResult) × (gc_orphan_chunks now s ≡ some (t, r))
      × ((id : Text)
          → Swept id (any (λ row. covers file_prefix row.0 && file_pins id row.1.doc) s.docs) s t)
unfolding gc_orphan_chunks sweep_orphan_chunks
gc_orphan_chunks-Swept now s =
    let referenced = collect_file_chunk_refs (all_file_docs s) in
    let (t, ran, swept) = delete_orphans-lem now (orphans referenced s) s in
    (
      t,
      gc_result referenced s,
      rw ran refl,
      λ id.
          rw swept (delete_orphans-Swept id referenced s ∙ rw is_some-collect_file_chunk_refs refl),
    )

-- ===== src/PushPipeline/Account.antt =====
-- What a push cycle leaves in the unpushed set (src/db/sync/push-pipeline.ts, `runOnce`, [6] to
-- [10]).
use mathlib.Core.Path.{subst}
use obsidian_couchsync.Prelude.{
  ℕ, ◌≡◌, refl, ap, ◌∙◌, List, [], ◌∷◌, ◌++◌, Option, none, some, Bool, true, false, not, ◌&&◌,
  ◌||◌, arith, if◌then◌else◌, contains, contains-append, All, ◌==◌, is_some,
}
use obsidian_couchsync.Prelude.Text.{Text, text_eq, text_beq_iff}
use obsidian_couchsync.Prelude.Dict.{Dict, lookup, keys}
use obsidian_couchsync.Docs.{FileDoc, CouchSyncDoc, doc_id}
use obsidian_couchsync.DocId.{is_file_doc_id}
use obsidian_couchsync.Store.{Seq, seq, MetaValue, Store}
use obsidian_couchsync.PendingSets.{UnpushedEntry, unpushed_key}
use obsidian_couchsync.Checkpoints.{meta_push_seq, UnpushedAdd}
use obsidian_couchsync.Checkpoints.Writes.{last_entry}
use obsidian_couchsync.Checkpoints.Push.{unpushed_after, commit_push_cycle-PushLanded}
use obsidian_couchsync.PushPipeline.{ClassifiedFile, DivergentFile, FileClassifyResult}
use obsidian_couchsync.PushPipeline.Transport.{
  BulkResult, refused, conflict_error, PushDocsResult, summarise, push_docs, push_rows,
}
use obsidian_couchsync.PushPipeline.Results.{
  accepted_ids, conflict_ids, absent_row, summarise_ids, summarise-refused, push_docs-push_rows,
}
use obsidian_couchsync.PushPipeline.Cycle.{
  PushEnv, PushState, prev_attempts, escalate, divergent_adds, bare_adds, to_bulk, race_adds,
  committed, finish_cycle,
}

last_entry-keys {ℓ} :
    {E : Type ℓ} (id : Text) (es : List (Text × E)) (old : Option E)
    → is_some (last_entry id es old) ≡ (contains id (keys es) || is_some old)
unfolding keys
last_entry-keys id [] old = refl
last_entry-keys id ((j, e) ∷ es) old =
    last_entry-keys id es (if j == id then some e else old)
    ∙ ground (arith, text_beq_iff j id, text_beq_iff id j)

keys-append {ℓ} :
    {E : Type ℓ} (id : Text) (xs ys : List (Text × E))
    → contains id (keys (xs ++ ys)) ≡ (contains id (keys xs) || contains id (keys ys))
unfolding keys
keys-append id [] ys = refl
keys-append id ((j, e) ∷ xs) ys = ground (arith, keys-append id xs ys)

keys-race_adds :
    (prev : Dict Text ℕ) (id : Text) (ids : List Text)
    → contains id (keys (race_adds prev ids)) ≡ (contains id ids && is_file_doc_id id)
unfolding keys race_adds
keys-race_adds prev id [] = refl
keys-race_adds prev id (j ∷ ids) = ground (arith, keys-race_adds prev id ids, text_beq_iff id j)

-- The id has an unpushed entry in the store.
abbrev is_flagged : Store → Text → Bool
is_flagged s id = is_some (lookup (unpushed_key id) s.meta)

flagged_of_add :
    (now : ℕ) (adds : List (Text × UnpushedAdd)) (removes : List Text) (id : Text)
    (old : Option MetaValue)
    → contains id (keys adds) ≡ true
    → is_some (unpushed_after now adds removes id old) ≡ true
flagged_of_add now adds removes id old h = ground (arith, last_entry-keys id adds none)

unpushed_after-other :
    (now : ℕ) (adds : List (Text × UnpushedAdd)) (removes : List Text) (id : Text)
    (old : Option MetaValue)
    → contains id (keys adds) ≡ false
    → contains id removes ≡ false
    → unpushed_after now adds removes id old ≡ old
unpushed_after-other now adds removes id old h k = ground (arith, last_entry-keys id adds none)

module _ (s : Store) (adds : List (Text × UnpushedAdd))
    (added : (id : Text) → contains id (keys adds) ≡ true → is_flagged s id ≡ true) where
  flagged_divergent :
      (vs : List DivergentFile)
      → ((id : Text)
          → contains id (keys (divergent_adds vs)) ≡ true
          → contains id (keys adds) ≡ true)
      → All (λ v. is_flagged s v.local_doc.id ≡ true) vs
  unfolding divergent_adds keys
  flagged_divergent [] h = tt
  flagged_divergent (v ∷ vs) h = (
    added v.local_doc.id
        (h v.local_doc.id (ground (arith, text_beq_iff v.local_doc.id v.local_doc.id))),
    flagged_divergent vs (λ id m. h id (ground arith)),
  )

  flagged_conflicts :
      (ids : List Text)
      → ((id : Text)
          → contains id ids ≡ true
          → is_file_doc_id id ≡ true
          → contains id (keys adds) ≡ true)
      → All (λ id. (not (is_file_doc_id id) || is_flagged s id) ≡ true) ids
  flagged_conflicts [] h = tt
  flagged_conflicts (id ∷ ids) h = (
    ground (arith, h id, added id, text_beq_iff id id),
    flagged_conflicts ids (λ j m f. h j (ground arith) f),
  )

module _ (env : PushEnv) (last_seq : Seq) (rows : List (Text × UnpushedEntry))
    (chunks : List CouchSyncDoc) (zombies : List Text) (c : FileClassifyResult)
    (remote : Dict Text FileDoc) (st : PushState) where
  -- The files to push, and the conflicts to surface.
  abbrev pub kept_files : List ClassifiedFile
  kept_files = (escalate rows remote c.proceed).0

  abbrev pub surfaced : List DivergentFile
  surfaced = c.divergent ++ (escalate rows remote c.proceed).1

  abbrev pub early_adds : List (Text × UnpushedAdd)
  early_adds = divergent_adds surfaced ++ bare_adds (escalate rows remote c.proceed).2

  abbrev cycle_adds : List Text → List (Text × UnpushedAdd)
  cycle_adds conflicts =
      divergent_adds surfaced
      ++ (bare_adds (escalate rows remote c.proceed).2 ++ race_adds (prev_attempts rows) conflicts)

  abbrev cycle_removes : List Text → List Text
  cycle_removes pushes = zombies ++ (c.skipped_equal ++ pushes)

  -- The state after a push cycle, by the ids whose write was accepted and those in conflict.
  abbrev pub CycleLanded : List Text → List Text → PushState → Type 0
  CycleLanded accepts conflicts st' =
      (finish_cycle env last_seq rows chunks zombies (c, remote) st ≡ (st', committed surfaced))
      × (lookup meta_push_seq st'.store.meta ≡ some (seq last_seq))
      × ((id : Text)
          → lookup (unpushed_key id) st'.store.meta
            ≡ unpushed_after env.now (cycle_adds conflicts) (cycle_removes accepts) id
                (lookup (unpushed_key id) st.store.meta))
      × All (λ v. is_flagged st'.store v.local_doc.id ≡ true) surfaced
      × All (λ id. (not (is_file_doc_id id) || is_flagged st'.store id) ≡ true) conflicts

  docs_pushed :
      (r : PushDocsResult)
      → push_docs env.client (to_bulk chunks kept_files) ≡ some r
      → lookup meta_push_seq st.store.meta ≡ some (seq st.checkpoints.last_pushed_seq)
      → (st' : PushState) × CycleLanded r.pushed r.conflicts st'
  unfolding finish_cycle
  docs_pushed r answered synced =
      let (t, ran, (cursor, flags, _, _, _)) =
        commit_push_cycle-PushLanded env.now last_seq (cycle_adds r.conflicts)
          (cycle_removes r.pushed) st.checkpoints st.store synced in
      let added : (id : Text)
          → contains id (keys (cycle_adds r.conflicts)) ≡ true
          → is_flagged t id ≡ true =
        λ id m.
          ap is_some (flags id)
          ∙ flagged_of_add env.now (cycle_adds r.conflicts) (cycle_removes r.pushed) id _ m in
      let bare = bare_adds (escalate rows remote c.proceed).2 in
      let races = race_adds (prev_attempts rows) r.conflicts in
      (
        record st {
          checkpoints = record (st.checkpoints) { last_pushed_seq = last_seq };
          store = t;
        },
        (
          rw (answered, ran, finish_cycle) refl,
          cursor,
          flags,
          flagged_divergent t (cycle_adds r.conflicts) added surfaced
              (λ id m. ground (arith, keys-append id (divergent_adds surfaced) (bare ++ races))),
          flagged_conflicts t (cycle_adds r.conflicts) added r.conflicts (λ id m f. ground (
            arith,
            keys-append id (divergent_adds surfaced) (bare ++ races),
            keys-append id bare races,
            keys-race_adds (prev_attempts rows) id r.conflicts,
          )),
        ),
      )

  -- A push cycle whose requests return commits: the push cursor moves to the last row that was
  -- enumerated. Every conflict surfaced to the user, and every file among the rows of the batch that
  -- was refused with a conflict or withheld, has an unpushed entry, and an id whose write was
  -- accepted, or that was skipped or is a zombie, has none unless the cycle adds one. Every other id
  -- has the entry that it had. The push cursor on disk is taken to be the one in memory before the
  -- cycle.
  pub finish_cycle-CycleLanded :
      (answers : List (CouchSyncDoc × Option BulkResult))
      → push_rows env.client (to_bulk chunks kept_files) ≡ some answers
      → lookup meta_push_seq st.store.meta ≡ some (seq st.checkpoints.last_pushed_seq)
      → (st' : PushState) × CycleLanded (accepted_ids answers) (conflict_ids answers) st'
  finish_cycle-CycleLanded answers sent synced =
      let (pushes, conflicts) = summarise_ids answers in
      subst (λ ids. (st' : PushState) × CycleLanded ids (conflict_ids answers) st') pushes
        (subst (λ ids. (st' : PushState) × CycleLanded (summarise answers).pushed ids st') conflicts
          (docs_pushed (summarise answers) (push_docs-push_rows env.client _ answers sent) synced))

  -- A file whose write the remote refuses with another error than a conflict, such as `forbidden`,
  -- is left behind: the cycle commits and moves the push cursor past it, and its unpushed entry stays
  -- as it was before the cycle, so that without an earlier entry no later cycle sends it again. This
  -- holds for an id that is alone among the results and is not otherwise added to or removed from
  -- the set in the cycle.
  pub refused_push-unrecorded :
      (d : CouchSyncDoc) (e : Text) (before after : List (CouchSyncDoc × Option BulkResult))
      → push_rows env.client (to_bulk chunks kept_files)
        ≡ some (before ++ ((d, some (refused e)) ∷ after))
      → absent_row (doc_id d) (before ++ after) ≡ true
      → (e == conflict_error) ≡ false
      → contains (doc_id d) (keys early_adds) ≡ false
      → contains (doc_id d) (zombies ++ c.skipped_equal) ≡ false
      → lookup meta_push_seq st.store.meta ≡ some (seq st.checkpoints.last_pushed_seq)
      → (st' : PushState) × (finish_cycle env last_seq rows chunks zombies (c, remote) st
          ≡ (st', committed surfaced))
        × (lookup meta_push_seq st'.store.meta ≡ some (seq last_seq))
        × (lookup (unpushed_key (doc_id d)) st'.store.meta
            ≡ lookup (unpushed_key (doc_id d)) st.store.meta)
  refused_push-unrecorded d e before after sent alone other not_added not_removed synced =
      let r = summarise (before ++ ((d, some (refused e)) ∷ after)) in
      let (not_pushed, no_conflict) = summarise-refused d e before after alone other in
      let (st', (ran, cursor, flags, _, _)) =
        docs_pushed r (push_docs-push_rows env.client _ _ sent) synced in
      let bare = bare_adds (escalate rows remote c.proceed).2 in
      let races = race_adds (prev_attempts rows) r.conflicts in
      (
        st',
        ran,
        cursor,
        flags (doc_id d)
            ∙ unpushed_after-other env.now (cycle_adds r.conflicts) (cycle_removes r.pushed)
                (doc_id d) _
                (ground (
                  arith,
                  keys-append (doc_id d) (divergent_adds surfaced) (bare ++ races),
                  keys-append (doc_id d) (divergent_adds surfaced) bare,
                  keys-append (doc_id d) bare races,
                  keys-race_adds (prev_attempts rows) (doc_id d) r.conflicts,
                ))
                (ground (
                  arith,
                  contains-append (doc_id d) zombies c.skipped_equal,
                  contains-append (doc_id d) zombies (c.skipped_equal ++ r.pushed),
                  contains-append (doc_id d) c.skipped_equal r.pushed,
                )),
      )

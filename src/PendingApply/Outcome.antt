-- ===== src/PendingApply/Outcome.antt =====
-- The outcome of a retry (src/db/sync/pending-apply.ts, `apply`) and the in-memory set.
use obsidian_couchsync.Prelude.{
  [], ◌&&◌, ◌∙◌, beq_refl, ℕ, ◌≡◌, refl, sym, ap, List-cases, ◌⊎◌, inl, inr, List, ◌∷◌, Option,
  none, some, Bool, true, false, not, arith, is_some, Bool-cases, Option-cases,
}
use obsidian_couchsync.Prelude.Text.{Text, text_eq, text_beq, text_beq_iff}
use obsidian_couchsync.Prelude.Dict.{Dict, lookup, insert, lookup-insert, lookup-erase}
use obsidian_couchsync.Docs.{FileDoc}
use obsidian_couchsync.Store.{MetaValue, MetaWrite, put, Store}
use obsidian_couchsync.PendingSets.{
  pending_apply_key, PendingApplyReason, PendingApplyEntry, missing_chunks,
}
use obsidian_couchsync.PendingApply.Resolve.{write_metas_lem}
use obsidian_couchsync.PendingApply.{
  EnsureChunksResult, delete_writes, write_metas, WriteOutcome, applied, declined, threw, ApplyEnv,
  PendingApply, load_entries, erase_all, resolve, unchanged, record_entry, ApplyOutcome, done,
  quarantine, skipped, record_miss, settle, apply,
}

-- The set is loaded and has an entry for the id.
abbrev tracks : PendingApply → Text → Bool
tracks p id = elim (p.entries) [ none ↦ false | some m ↦ is_some (lookup id m) ]

is_some-insert :
    (id : Text) (e : PendingApplyEntry) (m : Dict Text PendingApplyEntry)
    → is_some (lookup id (insert id e m)) ≡ true
is_some-insert id e m = rw (lookup-insert, (text_beq_iff id id).1 refl)

record_entry-tracks :
    (now : ℕ) (id : Text) (reason : PendingApplyReason) (missing : Option (List Text))
    (p : PendingApply) (s : Store)
    → tracks (record_entry now id reason missing (p, s)).1 id ≡ true
unfolding record_entry unchanged
record_entry-tracks now id reason missing p s = elim (Option-cases (lookup id (load_entries p s))) [
  | inl gone ↦ rw (gone, record_entry) (is_some-insert id _ (load_entries p s))
  | inr (prev, e) ↦ elim (Bool-cases (unchanged (some prev) reason missing)) [
    | inl same ↦ rw (e, same, record_entry) (ap is_some e)
    | inr other ↦ rw (e, other, record_entry) (is_some-insert id _ (load_entries p s))
  ]
]

record_miss-tracks :
    (env : ApplyEnv) (doc : FileDoc) (missing : Option (List Text)) (p : PendingApply) (s : Store)
    → tracks (record_miss env doc missing (p, s)).0 doc.id ≡ true
unfolding record_miss
record_miss-tracks env doc missing p s =
    ground (arith, record_entry-tracks env.now doc.id missing_chunks missing p s)

settle-drops :
    (env : ApplyEnv) (doc : FileDoc) (p : PendingApply) (s : Store)
    → tracks (settle env doc (p, s)).0 doc.id ≡ false
unfolding settle resolve load_entries erase_all
settle-drops env doc p s = elim (Option-cases (lookup doc.id (load_entries p s))) [
  | inl gone ↦ rw (gone, settle) (ap is_some gone)
  | inr (prev, e) ↦ rw (e, settle, resolve) (rw (lookup-erase, (text_beq_iff doc.id doc.id).1 refl))
]

abbrev is_done : ApplyOutcome → Bool
is_done done = true
is_done quarantine = false
is_done skipped = false

-- The doc has an entry in the store.
abbrev is_stored : Store → Text → Bool
is_stored s id = is_some (lookup (pending_apply_key id) s.meta)

record_entry-stored :
    (now : ℕ) (id : Text) (reason : PendingApplyReason) (missing : Option (List Text))
    (p : PendingApply) (s : Store)
    → is_some (lookup id (load_entries p s)) ≡ is_stored s id
    → is_stored (record_entry now id reason missing (p, s)).2 id ≡ true
unfolding record_entry unchanged pending_apply_key text_beq
record_entry-stored now id reason missing p s same =
    let saved : (e : MetaValue)
        → is_stored (write_metas now (put (pending_apply_key id) e ∷ []) s) id ≡ true =
      λ e.
        ap is_some (
          (write_metas_lem now (put (pending_apply_key id) e ∷ []) s).1 (pending_apply_key id) refl)
        ∙ rw (beq_refl (pending_apply_key id)) refl in
    elim (Option-cases (lookup id (load_entries p s))) [
      | inl gone ↦ rw (gone, record_entry) (saved _)
      | inr (prev, e) ↦ elim (Bool-cases (unchanged (some prev) reason missing)) [
        | inl kept ↦ rw (e, kept, record_entry) (sym same ∙ ap is_some e)
        | inr other ↦ rw (e, other, record_entry) (saved _)
      ]
    ]

record_miss-stored :
    (env : ApplyEnv) (doc : FileDoc) (missing : Option (List Text)) (p : PendingApply) (s : Store)
    → is_some (lookup doc.id (load_entries p s)) ≡ is_stored s doc.id
    → is_stored (record_miss env doc missing (p, s)).1 doc.id ≡ true
unfolding record_miss
record_miss-stored env doc missing p s same =
    ground (arith, record_entry-stored env.now doc.id missing_chunks missing p s same)

settle-unstored :
    (env : ApplyEnv) (doc : FileDoc) (p : PendingApply) (s : Store)
    → is_some (lookup doc.id (load_entries p s)) ≡ is_stored s doc.id
    → is_stored (settle env doc (p, s)).1 doc.id ≡ false
unfolding settle resolve load_entries delete_writes pending_apply_key text_beq
settle-unstored env doc p s same = elim (Option-cases (lookup doc.id (load_entries p s))) [
  | inl gone ↦ rw (gone, settle) (sym same ∙ ap is_some gone)
  | inr (prev, e) ↦
      rw (e, settle, resolve)
        (ap is_some (
            (write_metas_lem env.now (MetaWrite.delete (pending_apply_key doc.id) ∷ []) s).1
              (pending_apply_key doc.id) refl)
          ∙ rw (beq_refl (pending_apply_key doc.id)) refl)
]

abbrev is_nil : List Text → Bool
is_nil [] = true
is_nil (x ∷ xs) = false

abbrev is_thrown : WriteOutcome → Bool
is_thrown threw = true
is_thrown _ = false

-- The chunks are there and the vault took the write, or declined it.
abbrev pub lands : ApplyEnv → FileDoc → Bool
lands env doc = elim (env.ensure_chunks doc) [
  | none ↦ false
  | some res ↦ is_nil res.still_missing && not (is_thrown (env.write doc))
]

-- The remote was asked, and chunks are missing still.
abbrev pub lacks_chunks : ApplyEnv → FileDoc → Bool
lacks_chunks env doc = elim (env.ensure_chunks doc) [
  | none ↦ false
  | some res ↦ res.remote_consulted && not (is_nil res.still_missing)
]

abbrev is_quarantined : ApplyOutcome → Bool
is_quarantined done = false
is_quarantined quarantine = true
is_quarantined skipped = false

WriteOutcome-cases : (w : WriteOutcome) → (w ≡ applied) ⊎ (w ≡ declined) ⊎ (w ≡ threw)
WriteOutcome-cases applied = inl refl
WriteOutcome-cases declined = inr (inl refl)
WriteOutcome-cases threw = inr (inr refl)

no_chunk : (res : EnsureChunksResult) → false ≡ (res.remote_consulted && false)
no_chunk res = ground arith

-- What a retry leaves: its outcome, the entry of the doc in memory, and the one in the store.
abbrev pub Settled : ApplyEnv → FileDoc → Bool → Bool → ApplyOutcome × PendingApply × Store → Type 0
Settled env doc landed lacking (outcome, p, s) =
    (is_done outcome ≡ landed)
    × (is_quarantined outcome ≡ lacking)
    × (tracks p doc.id ≡ not landed)
    × (is_stored s doc.id ≡ not landed)

-- A retry says `applied` exactly when no chunk is missing and the vault write does not throw, and
-- `quarantined` exactly when the remote was asked and chunks are missing still. If the memory has an
-- entry for the doc exactly when the store has one, then afterwards both have one exactly when the
-- retry does not say `applied`, also if there was none before.
pub apply-Settled :
    (env : ApplyEnv) (doc : FileDoc) (p : PendingApply) (s : Store)
    → is_some (lookup doc.id (load_entries p s))
      ≡ is_some (lookup (pending_apply_key doc.id) s.meta)
    → Settled env doc (lands env doc) (lacks_chunks env doc) (apply env doc (p, s))
unfolding apply
apply-Settled env doc p s same = elim (Option-cases (env.ensure_chunks doc)) [
  | inl fails ↦
      rw (fails, apply, Settled, lands, lacks_chunks)
        (refl, refl, record_miss-tracks env doc none p s, record_miss-stored env doc none p s same)
  | inr (res, fetched) ↦ elim (List-cases res.still_missing) [
    | inr (c, cs, missing) ↦ elim (Bool-cases res.remote_consulted) [
      | inl asked ↦
          rw (fetched, missing, asked, apply, Settled, lands, lacks_chunks)
            (
              refl,
              refl,
              record_miss-tracks env doc (some (c ∷ cs)) p s,
              record_miss-stored env doc (some (c ∷ cs)) p s same,
            )
      | inr offline ↦
          rw (fetched, missing, offline, apply, Settled, lands, lacks_chunks)
            (
              refl,
              refl,
              record_miss-tracks env doc none p s,
              record_miss-stored env doc none p s same,
            )
    ]
    | inl complete ↦ elim (WriteOutcome-cases (env.write doc)) [
      | inl written ↦
          rw (fetched, complete, written, apply, Settled, lands, lacks_chunks)
            (refl, no_chunk res, settle-drops env doc p s, settle-unstored env doc p s same)
      | inr (inl refused) ↦
          rw (fetched, complete, refused, apply, Settled, lands, lacks_chunks)
            (refl, no_chunk res, settle-drops env doc p s, settle-unstored env doc p s same)
      | inr (inr failed) ↦
          rw (fetched, complete, failed, apply, Settled, lands, lacks_chunks)
            (
              refl,
              no_chunk res,
              record_miss-tracks env doc none p s,
              record_miss-stored env doc none p s same,
            )
    ]
  ]
]

-- ===== src/Checkpoints/Push.antt =====
-- The commit of a push cycle (src/db/sync/checkpoints.ts, `commitPushCycle`).
use obsidian_couchsync.Prelude.{
  ℕ, ◌≡◌, refl, sym, ap, ◌∙◌, List, [], ◌∷◌, ◌++◌, Option, none, some, false, arith, if◌then◌else◌,
  ◌==◌, contains, Bool-cases, inl, inr,
}
use obsidian_couchsync.Prelude.Text.{Text, text_eq, text_beq}
use obsidian_couchsync.Prelude.Dict.{lookup}
use obsidian_couchsync.Store.{Seq, seq, MetaValue, MetaWrite, put, Store, run_write_tx}
use obsidian_couchsync.Store.Meta.{last_write, last_write-append}
use obsidian_couchsync.Store.Commit.{get_doc, run_write_tx-docs_meta}
use obsidian_couchsync.PendingSets.{
  unpushed_key, pending_apply_key, pending_conflict_key, unpushed_value,
}
use obsidian_couchsync.PendingSets.Keys.{unpushed_key-beq}
use obsidian_couchsync.Checkpoints.{
  meta_remote_seq, meta_push_seq, Checkpoints, UnpushedAdd, seq_beq, unpushed_writes, remove_writes,
  meta_tx, commit_push_cycle,
}
use obsidian_couchsync.Checkpoints.Writes.{
  last_entry, or_value, last_write-entry_writes, last_write-entry_writes_other,
  last_write-remove_writes, last_write-remove_writes_other,
}
use obsidian_couchsync.Checkpoints.Pull.{seq_beq_eq}

-- The unpushed entry of an id after a cycle: an add wins over a remove, and a remove over the past.
abbrev pub unpushed_after :
    ℕ → List (Text × UnpushedAdd) → List Text → Text → Option MetaValue → Option MetaValue
unpushed_after now adds removes id old =
    or_value
      (λ a. unpushed_value (record { added_at = now; reason = a.reason; attempts = a.attempts }))
      (last_entry id adds none) (if contains id removes then none else old)

-- What holds of the store after a push cycle.
abbrev pub PushLanded : ℕ → Seq → List (Text × UnpushedAdd) → List Text → Store → Store → Type 0
PushLanded now next adds removes s t =
    (lookup meta_push_seq t.meta ≡ some (seq next))
    × ((id : Text)
        → lookup (unpushed_key id) t.meta
          ≡ unpushed_after now adds removes id (lookup (unpushed_key id) s.meta))
    × ((id : Text) → get_doc id t ≡ get_doc id s)
    × (lookup meta_remote_seq t.meta ≡ lookup meta_remote_seq s.meta)
    × ((id : Text)
        → (lookup (pending_apply_key id) t.meta ≡ lookup (pending_apply_key id) s.meta)
          × (lookup (pending_conflict_key id) t.meta ≡ lookup (pending_conflict_key id) s.meta))

push_seq_ne_unpushed : (id : Text) → (meta_push_seq == unpushed_key id) ≡ false
unfolding unpushed_key text_beq
push_seq_ne_unpushed id = refl

module _ (now : ℕ) (next : Seq) (adds : List (Text × UnpushedAdd)) (removes : List Text) where
  abbrev cycle_writes : List MetaWrite
  cycle_writes = put meta_push_seq (seq next) ∷ (remove_writes removes ++ unpushed_writes now adds)

  cycle-other :
      (k : Text)
      → ((a : Text) → (unpushed_key a == k) ≡ false)
      → (old : Option MetaValue)
      → last_write k cycle_writes old ≡ (if meta_push_seq == k then some (seq next) else old)
  unfolding unpushed_writes
  cycle-other k apart old =
      last_write-append k (remove_writes removes) (unpushed_writes now adds) _
      ∙ last_write-entry_writes_other unpushed_key _ k apart adds _
      ∙ last_write-remove_writes_other k apart removes _

  cycle-unpushed :
      (id : Text) (old : Option MetaValue)
      → last_write (unpushed_key id) cycle_writes old ≡ unpushed_after now adds removes id old
  unfolding unpushed_writes
  cycle-unpushed id old =
      last_write-append (unpushed_key id) (remove_writes removes) (unpushed_writes now adds) _
      ∙ last_write-entry_writes unpushed_key _ unpushed_key-beq id adds _
      ∙ ap (or_value _ (last_entry id adds none))
          (last_write-remove_writes id removes _ ∙ rw push_seq_ne_unpushed)

  cycle_tx :
      (s : Store)
      → (t : Store) × (run_write_tx now (meta_tx [] cycle_writes) s ≡ some t)
        × PushLanded now next adds removes s t
  unfolding unpushed_key pending_apply_key pending_conflict_key text_beq
  cycle_tx s =
      let (t, ran, docs_are, meta_is) = run_write_tx-docs_meta now [] cycle_writes s refl in
      (
        t,
        ran,
        (
          meta_is meta_push_seq refl
              ∙ cycle-other meta_push_seq (λ a. refl) (lookup meta_push_seq s.meta),
          λ id. meta_is (unpushed_key id) refl ∙ cycle-unpushed id _,
          docs_are,
          meta_is meta_remote_seq refl
              ∙ cycle-other meta_remote_seq (λ a. refl) (lookup meta_remote_seq s.meta),
          λ id. (
            meta_is (pending_apply_key id) refl
                ∙ cycle-other (pending_apply_key id) (λ a. refl)
                    (lookup (pending_apply_key id) s.meta),
            meta_is (pending_conflict_key id) refl
                ∙ cycle-other (pending_conflict_key id) (λ a. refl)
                    (lookup (pending_conflict_key id) s.meta),
          ),
        ),
      )

-- If the push cursor on disk is the one in memory, commitPushCycle succeeds, and afterwards the new
-- cursor is both in memory and on disk, also where the no-op guard skips the write. An id
-- has the last unpushed entry listed for it, else none if it was to be removed, else the one it had.
-- Docs, the remote cursor, and the pending applies and conflicts are as they were.
pub commit_push_cycle-PushLanded :
    (now : ℕ) (next : Seq) (adds : List (Text × UnpushedAdd)) (removes : List Text)
    (cp : Checkpoints) (s : Store)
    → lookup meta_push_seq s.meta ≡ some (seq cp.last_pushed_seq)
    → (t : Store) × (commit_push_cycle now next adds removes (cp, s)
        ≡ some (record cp { last_pushed_seq = next }, t))
      × PushLanded now next adds removes s t
unfolding commit_push_cycle
commit_push_cycle-PushLanded now next [] [] cp s synced =
    let (t, ran, landed) = cycle_tx now next [] [] s in
    elim (Bool-cases (seq_beq next cp.last_pushed_seq)) [
      | inl same ↦
          let e : next ≡ cp.last_pushed_seq = seq_beq_eq next cp.last_pushed_seq same in
          (
            s,
            rw same (ground arith),
            (
              synced ∙ ap (λ n. some (seq n)) (sym e),
              λ id. refl,
              λ id. refl,
              refl,
              λ id. (refl, refl),
            ),
          )
      | inr other ↦ (t, rw (other, ran, commit_push_cycle), landed)
    ]
commit_push_cycle-PushLanded now next [] (r ∷ removes) cp s synced =
    let (t, ran, landed) = cycle_tx now next [] (r ∷ removes) s in
    (t, rw (ran, commit_push_cycle), landed)
commit_push_cycle-PushLanded now next (a ∷ adds) removes cp s synced =
    let (t, ran, landed) = cycle_tx now next (a ∷ adds) removes s in
    (t, rw (ran, commit_push_cycle), landed)

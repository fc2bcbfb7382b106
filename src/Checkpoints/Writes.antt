-- ===== src/Checkpoints/Writes.antt =====
-- The lists of meta writes of the commits (src/db/sync/checkpoints.ts), key by key.
use obsidian_couchsync.Prelude.{
  ◌≡◌, refl, ap, ◌∙◌, List, [], ◌∷◌, Option, none, some, Bool, true, false, not, arith,
  if◌then◌else◌, ◌==◌, contains, all, is_some,
}
use obsidian_couchsync.Prelude.Text.{Text, text_eq, text_beq_iff}
use obsidian_couchsync.Docs.{CouchSyncDoc}
use obsidian_couchsync.Store.{MetaValue}
use obsidian_couchsync.Store.Meta.{last_write}
use obsidian_couchsync.PendingSets.{unpushed_key}
use obsidian_couchsync.PendingSets.Keys.{unpushed_key-beq}
use obsidian_couchsync.Checkpoints.{entry_writes, remove_writes, meta_tx}

-- The last entry listed for an id.
abbrev pub last_entry {ℓ} : {E : Type ℓ} → Text → List (Text × E) → Option E → Option E
last_entry id [] old = old
last_entry id ((j, e) ∷ entries) old = last_entry id entries (if j == id then some e else old)

abbrev pub or_value {ℓ} :
    {E : Type ℓ} → (E → MetaValue) → Option E → Option MetaValue → Option MetaValue
or_value value none old = old
or_value value (some e) old = some (value e)

module _ {ℓ} {E : Type ℓ} (key : Text → Text) (value : E → MetaValue) where
  or_value_if :
      (b : Bool) (e : E) (found : Option E) (old : Option MetaValue)
      → (if b then some (value e) else or_value value found old)
        ≡ or_value value (if b then some e else found) old
  or_value_if true e found old = refl
  or_value_if false e found old = refl

  last_write-entry_writes_from :
      ((a b : Text) → (key a == key b) ≡ (a == b))
      → (id : Text) (entries : List (Text × E)) (found : Option E) (old : Option MetaValue)
      → last_write (key id) (entry_writes key value entries) (or_value value found old)
        ≡ or_value value (last_entry id entries found) old
  unfolding entry_writes
  last_write-entry_writes_from inj id [] found old = refl
  last_write-entry_writes_from inj id ((j, e) ∷ entries) found old =
      ap
        (λ b.
          last_write (key id) (entry_writes key value entries)
            (if b then some (value e) else or_value value found old))
        (inj j id)
      ∙ ap (last_write (key id) (entry_writes key value entries))
          (or_value_if (j == id) e found old)
      ∙ last_write-entry_writes_from inj id entries (if j == id then some e else found) old

  pub last_write-entry_writes :
      ((a b : Text) → (key a == key b) ≡ (a == b))
      → (id : Text) (entries : List (Text × E)) (old : Option MetaValue)
      → last_write (key id) (entry_writes key value entries) old
        ≡ or_value value (last_entry id entries none) old
  last_write-entry_writes inj id entries old = last_write-entry_writes_from inj id entries none old

  pub last_write-entry_writes_other :
      (k : Text)
      → ((a : Text) → (key a == k) ≡ false)
      → (entries : List (Text × E)) (old : Option MetaValue)
      → last_write k (entry_writes key value entries) old ≡ old
  unfolding entry_writes
  last_write-entry_writes_other k apart [] old = refl
  last_write-entry_writes_other k apart ((j, e) ∷ entries) old =
      last_write-entry_writes_other k apart entries _ ∙ rw apart

pub last_write-remove_writes :
    (id : Text) (ids : List Text) (old : Option MetaValue)
    → last_write (unpushed_key id) (remove_writes ids) old ≡ (if contains id ids then none else old)
unfolding remove_writes
last_write-remove_writes id [] old = refl
last_write-remove_writes id (j ∷ ids) old =
    rw (last_write-remove_writes id ids, unpushed_key-beq)
      (ground (arith, text_beq_iff j id, text_beq_iff id j))

pub last_write-remove_writes_other :
    (k : Text)
    → ((a : Text) → (unpushed_key a == k) ≡ false)
    → (ids : List Text) (old : Option MetaValue) → last_write k (remove_writes ids) old ≡ old
unfolding remove_writes
last_write-remove_writes_other k apart [] old = refl
last_write-remove_writes_other k apart (j ∷ ids) old =
    last_write-remove_writes_other k apart ids _ ∙ rw apart

pub unguarded_lem :
    (docs : List CouchSyncDoc)
    → all (λ w. not (is_some w.expected_vclock)) (meta_tx docs []).docs ≡ true
unguarded_lem [] = refl
unguarded_lem (d ∷ docs) = unguarded_lem docs

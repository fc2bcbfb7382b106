-- ===== src/Store/Changes.antt =====
-- The changes feed of the local store (src/db/dexie-store.ts, `changes`).
use obsidian_couchsync.Prelude.{ℕ, List, [], ◌∷◌, Bool, true, false, ◌&&◌, leb, eqb, any, ◌==◌}
use obsidian_couchsync.Prelude.Text.{Text, text_eq}
use obsidian_couchsync.Prelude.Dict.{Dict}
use obsidian_couchsync.Docs.{doc_id}
use obsidian_couchsync.Store.{StoredDoc}

-- Ascending from `n` on.
abbrev pub ascends : ℕ → List StoredDoc → Bool
ascends n [] = true
ascends n (r ∷ rows) = leb n r.local_seq && ascends r.local_seq rows

-- The row, by number and id, is among the rows.
abbrev pub lists : StoredDoc → List StoredDoc → Bool
lists x rows = any (λ r. eqb r.local_seq x.local_seq && doc_id r.doc == doc_id x.doc) rows

-- A row has the number.
abbrev numbered : ℕ → List StoredDoc → Bool
numbered n rows = any (λ r. eqb r.local_seq n) rows

abbrev nonempty : List StoredDoc → Bool
nonempty [] = false
nonempty (r ∷ rows) = true

-- ===== src/Store/Meta.antt =====
-- Lists of meta writes (src/db/dexie-store.ts, `runWriteTx`), key by key.
use obsidian_couchsync.Prelude.{
  ◌≡◌, refl, List, [], ◌∷◌, ◌++◌, Option, none, some, if◌then◌else◌, ◌==◌,
}
use obsidian_couchsync.Prelude.Text.{Text, text_eq}
use obsidian_couchsync.Prelude.Dict.{Dict, lookup, insert, erase, lookup-insert, lookup-erase}
use obsidian_couchsync.Store.{MetaValue, MetaWrite, put, write_meta}

-- The last write to `k` among the writes decides; without one the old value stays.
abbrev pub last_write : Text → List MetaWrite → Option MetaValue → Option MetaValue
last_write k [] old = old
last_write k (put j v ∷ ws) old = last_write k ws (if j == k then some v else old)
last_write k (MetaWrite.delete j ∷ ws) old = last_write k ws (if j == k then none else old)

pub lookup-write_meta :
    (k : Text) (ws : List MetaWrite) (meta : Dict Text MetaValue)
    → lookup k (write_meta ws meta) ≡ last_write k ws (lookup k meta)
unfolding write_meta
lookup-write_meta k [] meta = refl
lookup-write_meta k (put j v ∷ ws) meta =
    rw (lookup-write_meta k ws (insert j v meta), lookup-insert)
lookup-write_meta k (MetaWrite.delete j ∷ ws) meta =
    rw (lookup-write_meta k ws (erase j meta), lookup-erase)

pub last_write-append :
    (k : Text) (vs ws : List MetaWrite) (old : Option MetaValue)
    → last_write k (vs ++ ws) old ≡ last_write k ws (last_write k vs old)
last_write-append k [] ws old = refl
last_write-append k (put j v ∷ vs) ws old = last_write-append k vs ws _
last_write-append k (MetaWrite.delete j ∷ vs) ws old = last_write-append k vs ws _

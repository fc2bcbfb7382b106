-- ===== src/Echo.antt =====
-- Suppression of pull echoes in the push loop (src/db/sync/echo-tracker.ts).
pub mod Laws
use obsidian_couchsync.Prelude.{
  ℕ, ◌+◌, List, [], ◌∷◌, Option, none, some, Bool, true, false, leb, ltb, if◌then◌else◌,
}
use obsidian_couchsync.Prelude.Text.{Text, text_eq}
use obsidian_couchsync.Prelude.Dict.{Dict, lookup, insert, erase}

pub record PullWriteRecord : Type 0 where
  pub seq : ℕ
  pub added_at : ℕ

-- The field `pullWritten`.
abbrev pub EchoTracker : Type 0
EchoTracker = Dict Text PullWriteRecord

abbrev pub default_ttl_ms : ℕ
default_ttl_ms = 60000

unfoldable pub record_pull_writes : ℕ → List Text → ℕ → EchoTracker → EchoTracker
record_pull_writes now [] seq t = t
record_pull_writes now (id ∷ ids) seq t =
    record_pull_writes now ids seq (insert id (record { seq = seq; added_at = now }) t)

unfoldable pub is_pull_echo : Text → ℕ → EchoTracker → Bool
is_pull_echo id change_seq t = elim (lookup id t) [ none ↦ false | some r ↦ leb change_seq r.seq ]

unfoldable pub drop_seen : List Text → EchoTracker → EchoTracker
drop_seen [] t = t
drop_seen (id ∷ ids) t = drop_seen ids (erase id t)

-- `now - rec.addedAt > ttlMs`
unfoldable pub drop_expired : ℕ → ℕ → EchoTracker → EchoTracker
drop_expired ttl now [] = []
drop_expired ttl now ((id, r) ∷ t) =
    let rest = drop_expired ttl now t in if ltb (r.added_at + ttl) now then rest else (id, r) ∷ rest

unfoldable pub sweep_pull_written : ℕ → ℕ → List Text → EchoTracker → EchoTracker
unfolding drop_seen drop_expired
sweep_pull_written ttl now seen t = drop_expired ttl now (drop_seen seen t)

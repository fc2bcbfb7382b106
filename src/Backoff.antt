-- ===== src/Backoff.antt =====
-- The schedule of retry delays (src/db/sync/backoff.ts).
pub mod Bounds
use obsidian_couchsync.Prelude.{
  ℕ, zero, suc, ◌+◌, ◌-◌, min, List, [], ◌∷◌, Option, none, some, length,
}

-- `xs[i]`
unfoldable pub nth : List ℕ → ℕ → Option ℕ
nth [] i = none
nth (x ∷ xs) zero = some x
nth (x ∷ xs) (suc i) = nth xs i

abbrev pub default_delays_ms : List ℕ
default_delays_ms = 1000 ∷ 1000 ∷ 2000 ∷ 3000 ∷ 5000 ∷ 8000 ∷ 13000 ∷ 21000 ∷ []

pub record BackoffSchedule : Type 0 where
  pub step : ℕ
  pub delays : List ℕ

-- `new BackoffSchedule(delays)`: an empty table throws.
unfoldable pub new_schedule : List ℕ → Option BackoffSchedule
new_schedule [] = none
new_schedule (d ∷ ds) = some (record { step = 0; delays = d ∷ ds })

unfoldable pub next_delay : BackoffSchedule → Option ℕ
next_delay b = nth b.delays (min b.step (length b.delays - 1))

unfoldable pub record_failure : BackoffSchedule → BackoffSchedule
record_failure b = record b { step = b.step + 1 }

unfoldable pub record_success : BackoffSchedule → BackoffSchedule
record_success b = record b { step = 0 }

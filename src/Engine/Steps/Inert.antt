-- ===== src/Engine/Steps/Inert.antt =====
-- Sessions after a stop or a restart (src/db/sync-engine.ts).
use obsidian_couchsync.Prelude.{ℕ, Bool, ◌≡◌}
use obsidian_couchsync.Reconnect.{Failure}
use obsidian_couchsync.Engine.{Engine}
use obsidian_couchsync.Engine.Session.{
  OpenFailure, prepare_failed, start_catchup, fail_catchup, finish_catchup,
}
use obsidian_couchsync.Engine.Reconnecting.{reachable}
use obsidian_couchsync.Engine.Health.{after_info, info_failed}
use obsidian_couchsync.Engine.Steps.{Input, stopped, verified}

-- What session `n` still reports changes nothing: the end or the failure of its preparation and of
-- its catch-up, and the answer or the failure of its health probe.
abbrev pub IsInert : ℕ → Engine → Type 0
IsInert n s =
    ((e : OpenFailure) → prepare_failed n e s ≡ s)
    × (start_catchup n s ≡ s)
    × ((e : OpenFailure) → fail_catchup n e s ≡ s)
    × ((now : ℕ) → finish_catchup n now s ≡ s)
    × ((f : Failure) → info_failed n f s ≡ s)
    × ((remote consumed : ℕ) (active : Bool) (now : ℕ)
        → after_info n remote consumed active now s ≡ s)

-- What ends the session that there is: `stop()`, and a probe that finds the server.
pub data Ending : Type 0 where
  by_stop : Ending
  by_restart : ℕ → Ending

abbrev pub ending_input : Ending → Input
ending_input by_stop = stopped
ending_input (by_restart now) = verified reachable now

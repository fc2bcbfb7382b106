-- ===== src/Engine/Health.antt =====
-- The health check (src/db/sync-engine.ts). Sequences are their numeric prefixes.
use obsidian_couchsync.Prelude.{
  ℕ, none, some, Bool, false, not, ◌&&◌, ◌||◌, eqb, if◌then◌else◌, is_some,
}
use obsidian_couchsync.Reconnect.{
  disconnected, reconnecting, error, Failure, classify_error, periodic_tick, stalled,
}
use obsidian_couchsync.Engine.{Engine, is_error, is_terminal, enter_error}
use obsidian_couchsync.Engine.Session.{is_disposed}
use obsidian_couchsync.Engine.Reconnecting.{request_reconnect}

unfoldable pub is_terminal_error_state : Engine → Bool
is_terminal_error_state s =
    is_error s.state && elim s.last_error [ none ↦ false | some detail ↦ is_terminal detail.kind ]

-- Is something under way that moves the engine on?
abbrev pub is_driven : Engine → Bool
is_driven s = is_some s.in_flight || is_some s.retry_timer || is_some s.transient_timer

abbrev watchdog : ℕ → Engine → Engine
watchdog now s =
    if not (is_driven s) && not s.degraded && not (is_terminal_error_state s)
    then request_reconnect periodic_tick now s
    else s

-- `checkHealth` up to its request of the server's info.
unfoldable pub check_health : ℕ → Engine → Engine
check_health now s = if s.auth_gate.blocked then s else elim s.state [
  | reconnecting ↦ watchdog now s
  | error ↦ watchdog now s
  | disconnected ↦ request_reconnect periodic_tick now s
  | _ ↦ s
]

-- The info of the server, of what the session has consumed, and whether the pull moved within the
-- grace window.
unfoldable pub after_info : ℕ → ℕ → ℕ → Bool → ℕ → Engine → Engine
after_info epoch remote consumed active now s =
    if is_disposed epoch s
    then s
    else if active
    then record s { last_healthy = now }
    else if not (eqb remote consumed) && eqb remote s.last_observed
    then request_reconnect stalled now s
    else record s { last_observed = remote; last_healthy = now }

unfoldable pub info_failed : ℕ → Failure → Engine → Engine
info_failed epoch e s = if is_disposed epoch s then s else enter_error (classify_error e) s

-- ===== src/Reconnect.antt =====
-- The reconnect policy, error kinds and their classification
-- (src/db/reconnect-policy.ts, src/db/sync/errors.ts). The texts of messages are left out.
pub mod Policy
pub mod Errors
use obsidian_couchsync.Prelude.{
  ℕ, ◌+◌, Option, none, some, Bool, true, false, ◌&&◌, ◌||◌, not, eqb, leb, if◌then◌else◌, is_some,
}

pub data SyncState : Type 0 where
  disconnected connected syncing reconnecting error : SyncState

pub data SyncErrorKind : Type 0 where
  auth network timeout server not_found aborted schema_mismatch encryption_paused unknown :
      SyncErrorKind

pub record SyncErrorDetail : Type 0 where
  pub kind : SyncErrorKind
  pub code : Option ℕ

pub data ReconnectReason : Type 0 where
  network_online app_foreground app_resume periodic_tick stalled manual config_failure
        retry_backoff :
      ReconnectReason

pub data ReconnectDecision : Type 0 where
  skip restart_now verify_then_restart : ReconnectDecision

pub record ReconnectInput : Type 0 where
  pub state : SyncState
  pub reason : ReconnectReason
  pub auth_error : Bool
  pub cool_down_active : Bool

-- `state === "connected" || state === "syncing"`
abbrev pub is_healthy : SyncState → Bool
is_healthy connected = true
is_healthy syncing = true
is_healthy _ = false

-- The tests that follow the cool-down.
unfoldable pub decide_by_state : ReconnectReason → Bool → ReconnectDecision
decide_by_state app_resume healthy = verify_then_restart
decide_by_state config_failure healthy = if healthy then skip else verify_then_restart
decide_by_state stalled healthy = restart_now
decide_by_state manual healthy = restart_now
decide_by_state periodic_tick healthy = if healthy then skip else verify_then_restart
decide_by_state _ healthy = if healthy then skip else restart_now

unfoldable pub decide_reconnect : ReconnectInput → ReconnectDecision
decide_reconnect input =
    let cooled =
      if input.cool_down_active
      then skip
      else decide_by_state input.reason (is_healthy input.state) in
    if input.auth_error
    then skip
    else elim input.reason [ retry_backoff ↦ verify_then_restart | _ ↦ cooled ]

-- What `classifyError` looks at: the status, the marks of domain errors, and which of its patterns
-- the message matches.
pub record Failure : Type 0 where
  pub status : Option ℕ
  pub non_retriable : Bool
  pub paused : Bool
  pub fatal_encryption : Bool
  pub looks_aborted : Bool
  pub looks_stale : Bool
  pub looks_timed_out : Bool
  pub looks_offline : Bool

abbrev pub has_status : ℕ → Option ℕ → Bool
has_status n none = false
has_status n (some c) = eqb c n

abbrev pub is_server_status : Option ℕ → Bool
is_server_status none = false
is_server_status (some c) = leb 500 c

unfoldable pub classify_error : Failure → SyncErrorDetail
classify_error e =
    if e.non_retriable
    then record { kind = schema_mismatch; code = none }
    else if e.paused
    then record { kind = encryption_paused; code = none }
    else if e.fatal_encryption
    then record { kind = schema_mismatch; code = none }
    else if e.looks_aborted
    then record { kind = aborted; code = e.status }
    else if has_status 401 e.status || has_status 403 e.status
    then record { kind = auth; code = e.status }
    else if has_status 404 e.status
    then record { kind = not_found; code = e.status }
    else if is_server_status e.status
    then record { kind = server; code = e.status }
    else if e.looks_stale
    then record { kind = timeout; code = e.status }
    else if e.looks_timed_out
    then record { kind = timeout; code = e.status }
    else if e.looks_offline
    then record { kind = network; code = e.status }
    else record { kind = unknown; code = e.status }

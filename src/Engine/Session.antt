-- ===== src/Engine/Session.antt =====
-- Opening a session (src/db/sync-engine.ts, `start`, `openSession`): one function for each stretch
-- between two awaits. `epoch` is the session that a continuation belongs to. A session whose open
-- failed is dropped, and not disposed.
use obsidian_couchsync.Prelude.{
  ℕ, ◌+◌, none, some, Bool, false, not, any, ◌||◌, eqb, if◌then◌else◌, is_some,
}
use obsidian_couchsync.AuthGate.{clear}
use obsidian_couchsync.Backoff.{record_success}
use obsidian_couchsync.Reconnect.{connected, syncing, reconnecting, Failure, classify_error}
use obsidian_couchsync.Engine.{
  Engine, catchup_failed, catchup_complete, paused_event, emit, set_state, stop_retry_timer,
  stop_transient_timer, enter_error, handle_degraded,
}

-- Up to the encryption gate. `provisioned` is `connectionState === "syncing"`.
unfoldable pub open_session : Bool → Engine → Engine
open_session provisioned s =
    if is_some s.session || is_some s.opening
    then s
    else if not provisioned
    then s
    else if s.auth_gate.blocked
    then s
    else if s.degraded
    then s
    else record s { opening = some s.generation }

unfoldable pub start : Bool → Engine → Engine
start provisioned s =
    let cleared = record s { auth_gate = clear s.auth_gate; degraded = false } in
    if is_some s.session then s else open_session provisioned cleared

-- How the gate ended, and whether the client could be built after it.
pub data GateResult : Type 0 where
  gate_failed client_failed : Failure → GateResult
  gate_passed : GateResult

abbrev pub register : Engine → Engine
register s =
    set_state reconnecting none
      (record s { session_epoch = s.session_epoch + 1; session = some (s.session_epoch + 1) })

-- From the gate to the registered session.
unfoldable pub after_gate : GateResult → Engine → Engine
after_gate result s = elim s.opening [
  | none ↦ s
  | some captured ↦
      let left = record s { opening = none } in
      let outcome : Engine = elim result [
        | gate_failed e ↦ enter_error (classify_error e) left
        | client_failed e ↦ enter_error (classify_error e) left
        | gate_passed ↦ register left
      ] in
      if eqb s.generation captured then outcome else left
]

abbrev pub is_disposed : ℕ → Engine → Bool
is_disposed epoch s = any (eqb epoch) s.disposed

-- What a preparing step or the catch-up threw.
pub data OpenFailure : Type 0 where
  degraded_handle : OpenFailure
  other_failure : Failure → OpenFailure

unfoldable pub fail_open : OpenFailure → Engine → Engine
fail_open degraded_handle s = handle_degraded s
fail_open (other_failure e) s = enter_error (classify_error e) s

-- `ensureHealthy` or `checkpoints.load` failed.
unfoldable pub prepare_failed : ℕ → OpenFailure → Engine → Engine
prepare_failed epoch e s =
    let failed = fail_open e (record s { session = none }) in
    if is_disposed epoch s then s else failed

-- Everything is prepared: the catch-up starts.
unfoldable pub start_catchup : ℕ → Engine → Engine
start_catchup epoch s = if is_disposed epoch s then s else set_state syncing none s

unfoldable pub fail_catchup : ℕ → OpenFailure → Engine → Engine
fail_catchup epoch e s =
    let failed = fail_open e (emit catchup_failed (record s { session = none })) in
    if is_disposed epoch s then s else failed

unfoldable pub finish_catchup : ℕ → ℕ → Engine → Engine
finish_catchup epoch now s =
    let up = set_state connected none (record s { last_healthy = now }) in
    let quiet =
      stop_retry_timer (stop_transient_timer (record up { backoff = record_success up.backoff })) in
    if is_disposed epoch s then s else emit catchup_complete (emit paused_event quiet)

-- ===== src/Engine.antt =====
-- The supervisor of the vault's synchronisation (src/db/sync-engine.ts): its state, its error paths
-- and its timers. A handler is a function for what runs between two awaits. Logs and the texts of
-- messages are left out.
pub mod Session
pub mod Reconnecting
pub mod Verify
pub mod Health
pub mod Sound
pub mod Disposed
pub mod Steps
use obsidian_couchsync.Prelude.{
  ℕ, ◌+◌, List, ◌∷◌, Option, none, some, Bool, true, false, not, ◌&&◌, if◌then◌else◌, or_default,
}
use obsidian_couchsync.AuthGate.{AuthGate, raise}
use obsidian_couchsync.Backoff.{BackoffSchedule, next_delay, record_failure, record_success}
use obsidian_couchsync.Reconnect.{
  SyncState, disconnected, connected, syncing, reconnecting, error, SyncErrorKind, auth,
  schema_mismatch, encryption_paused, unknown, SyncErrorDetail, ReconnectReason,
}

-- What the engine emits.
pub data EngineEvent : Type 0 where
  state_change : SyncState → EngineEvent
  error_event : SyncErrorDetail → EngineEvent
  degraded_event catchup_failed catchup_complete paused_event : EngineEvent

-- The fields of `SyncEngine`. A session is its epoch, and a timer is what its callback needs: the
-- delay, or the error to escalate. `opening` is `openingSession` with the generation that the open
-- has captured, `disposed` has the sessions whose `dispose` was called, and `in_flight` is `reconnectInFlight` with its reason.
pub record Engine : Type 0 where
  pub state : SyncState
  pub last_error : Option SyncErrorDetail
  pub auth_gate : AuthGate
  pub session : Option ℕ
  pub session_epoch : ℕ
  pub disposed : List ℕ
  pub opening : Option ℕ
  pub generation : ℕ
  pub in_flight : Option ReconnectReason
  pub queued : Option ReconnectReason
  pub backoff : BackoffSchedule
  pub retry_timer : Option ℕ
  pub transient_timer : Option SyncErrorDetail
  pub degraded : Bool
  pub last_restart : ℕ
  pub last_healthy : ℕ
  pub last_observed : ℕ
  pub emitted : List EngineEvent

abbrev pub is_error : SyncState → Bool
is_error error = true
is_error _ = false

abbrev pub is_reconnecting : SyncState → Bool
is_reconnecting reconnecting = true
is_reconnecting _ = false

abbrev pub is_connected : SyncState → Bool
is_connected connected = true
is_connected _ = false

abbrev pub same_state : SyncState → SyncState → Bool
same_state disconnected disconnected = true
same_state connected connected = true
same_state syncing syncing = true
same_state reconnecting reconnecting = true
same_state error error = true
same_state _ _ = false

abbrev pub is_auth : SyncErrorKind → Bool
is_auth auth = true
is_auth _ = false

-- The kinds that only the user can act on.
abbrev pub is_terminal : SyncErrorKind → Bool
is_terminal auth = true
is_terminal schema_mismatch = true
is_terminal encryption_paused = true
is_terminal _ = false

abbrev pub emit : EngineEvent → Engine → Engine
emit event s = record s { emitted = event ∷ s.emitted }

unfoldable pub set_state : SyncState → Option SyncErrorDetail → Engine → Engine
set_state new detail s =
    if same_state s.state new && not (is_error new)
    then s
    else emit (state_change new)
        (record s { state = new; last_error = if is_error new then detail else none })

abbrev pub stop_retry_timer : Engine → Engine
stop_retry_timer s = record s { retry_timer = none }

abbrev pub stop_transient_timer : Engine → Engine
stop_transient_timer s = record s { transient_timer = none }

-- `setTimeout` reads a missing delay as 0.
unfoldable pub schedule_next_attempt : Engine → Engine
schedule_next_attempt s = record s { retry_timer = some (or_default (next_delay s.backoff) 0) }

abbrev pub dispose : Option ℕ → List ℕ → List ℕ
dispose none epochs = epochs
dispose (some epoch) epochs = epoch ∷ epochs

-- `teardown` up to its await. The old session is disposed.
unfoldable pub teardown : Engine → Engine
teardown s = record s {
  generation = s.generation + 1;
  session = none;
  disposed = dispose s.session s.disposed;
  last_observed = 0;
}

-- `this.auth.onChange(...)`, called with the detail of a latch that was just set.
unfoldable pub on_auth_change : ℕ → Engine → Engine
on_auth_change status s =
    if is_error s.state
    then s
    else teardown
        (stop_retry_timer (set_state error (some (record { kind = auth; code = some status })) s))

-- `this.auth.raise(...)`: the listener hears of it when the latch was open.
unfoldable pub raise_auth : ℕ → Engine → Engine
raise_auth status s =
    let raised = record s { auth_gate = raise status none s.auth_gate } in
    if s.auth_gate.blocked then raised else on_auth_change status raised

unfoldable pub enter_error : SyncErrorDetail → Engine → Engine
enter_error detail s =
    let entered =
      emit (error_event detail) (set_state error (some detail) (stop_transient_timer s)) in
    let scheduled = schedule_next_attempt entered in
    if is_auth detail.kind
    then teardown (stop_retry_timer (raise_auth (or_default detail.code 401) entered))
    else if is_terminal detail.kind
    then teardown (stop_retry_timer entered)
    else if s.degraded
    then stop_retry_timer entered
    else record scheduled { backoff = record_failure scheduled.backoff }

unfoldable pub handle_transient_error : SyncErrorDetail → Engine → Engine
handle_transient_error detail s =
    let soft = if is_reconnecting s.state then s else set_state reconnecting none s in
    if is_terminal detail.kind
    then enter_error detail s
    else record soft { transient_timer = some detail }

-- The callback of the transient timer.
unfoldable pub transient_fires : Engine → Engine
transient_fires s = elim s.transient_timer [
  | none ↦ s
  | some detail ↦
      let fired = stop_transient_timer s in
      if is_reconnecting s.state then enter_error detail fired else fired
]

unfoldable pub handle_degraded : Engine → Engine
handle_degraded s =
    let halted = stop_transient_timer (stop_retry_timer (record s { degraded = true })) in
    let failed = set_state error (some (record { kind = unknown; code = none })) halted in
    if s.degraded then s else teardown (emit degraded_event failed)

-- The errors of the local store, as `handleLocalDbError` tells them apart.
pub data LocalFailure : Type 0 where
  degraded_db halt_db other_db not_db : LocalFailure

unfoldable pub handle_local_db_error : LocalFailure → Engine → Engine
handle_local_db_error degraded_db s = handle_degraded s
handle_local_db_error halt_db s = if is_error s.state then s else teardown s
handle_local_db_error other_db s = s
handle_local_db_error not_db s = s

unfoldable pub stop : Engine → Engine
stop s =
    let stopped = stop_transient_timer (stop_retry_timer s) in
    set_state disconnected none (teardown (record stopped { backoff = record_success s.backoff }))

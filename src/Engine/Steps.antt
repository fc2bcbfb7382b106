-- ===== src/Engine/Steps.antt =====
-- The engine as a state machine: whatever calls it, in any order and interleaving. `settled` is the
-- end of the await in `restart`.
pub mod Sessions
pub mod Inert
pub mod Rounds
pub mod Recovery
pub mod Halted
use obsidian_couchsync.Prelude.{ℕ, List, [], ◌∷◌, Bool, Option, none, some, false}
use obsidian_couchsync.AuthGate.{open_gate}
use obsidian_couchsync.Backoff.{BackoffSchedule, default_delays_ms}
use obsidian_couchsync.Reconnect.{disconnected, ReconnectReason, Failure, classify_error}
use obsidian_couchsync.Engine.{
  Engine, LocalFailure, raise_auth, handle_transient_error, transient_fires, handle_local_db_error,
  stop,
}
use obsidian_couchsync.Engine.Session.{
  start, open_session, GateResult, after_gate, OpenFailure, prepare_failed, start_catchup,
  fail_catchup, finish_catchup,
}
use obsidian_couchsync.Engine.Reconnecting.{
  request_reconnect, finish_reconnect, Verdict, after_verify, retry_fires,
}
use obsidian_couchsync.Engine.Health.{check_health, after_info, info_failed}

pub data Input : Type 0 where
  started settled : Bool → Input
  stopped chain_finished transient_timer : Input
  requested : ReconnectReason → ℕ → Input
  verified : Verdict → ℕ → Input
  gate_ended : GateResult → Input
  prepare_fails catchup_fails : ℕ → OpenFailure → Input
  catchup_starts : ℕ → Input
  catchup_ends : ℕ → ℕ → Input
  session_error : Failure → Input
  local_error : LocalFailure → Input
  auth_rejected : ℕ → Input
  retry_timer health_timer : ℕ → Input
  info : ℕ → ℕ → ℕ → Bool → ℕ → Input
  info_fails : ℕ → Failure → Input

abbrev pub new_engine : Engine
new_engine = record {
  state = disconnected;
  last_error = none;
  auth_gate = open_gate;
  session = none;
  session_epoch = 0;
  disposed = [];
  opening = none;
  generation = 0;
  in_flight = none;
  queued = none;
  backoff = record { step = 0; delays = default_delays_ms };
  retry_timer = none;
  transient_timer = none;
  degraded = false;
  last_restart = 0;
  last_healthy = 0;
  last_observed = 0;
  emitted = [];
}

unfoldable pub step : Input → Engine → Engine
step (started provisioned) s = start provisioned s
step (settled provisioned) s = open_session provisioned s
step stopped s = stop s
step chain_finished s = (finish_reconnect s).0
step transient_timer s = transient_fires s
step (requested reason now) s = request_reconnect reason now s
step (verified verdict now) s = after_verify verdict now s
step (gate_ended result) s = after_gate result s
step (prepare_fails epoch e) s = prepare_failed epoch e s
step (catchup_fails epoch e) s = fail_catchup epoch e s
step (catchup_starts epoch) s = start_catchup epoch s
step (catchup_ends epoch now) s = finish_catchup epoch now s
step (session_error e) s = handle_transient_error (classify_error e) s
step (local_error e) s = handle_local_db_error e s
step (auth_rejected status) s = raise_auth status s
step (retry_timer now) s = retry_fires now s
step (health_timer now) s = check_health now s
step (info epoch remote consumed active now) s = after_info epoch remote consumed active now s
step (info_fails epoch e) s = info_failed epoch e s

unfoldable pub run_engine : List Input → Engine → Engine
run_engine [] s = s
run_engine (i ∷ inputs) s = run_engine inputs (step i s)

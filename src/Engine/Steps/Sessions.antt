-- ===== src/Engine/Steps/Sessions.antt =====
-- Sessions over any run of the engine (src/db/sync-engine.ts).
use obsidian_couchsync.Prelude.{List, [], ◌∷◌, true, ◌≡◌}
use obsidian_couchsync.Reconnect.{classify_error}
use obsidian_couchsync.Engine.{Engine}
use obsidian_couchsync.Engine.Reconnecting.{finish_reconnect}
use obsidian_couchsync.Engine.Steps.{
  Input, step, run_engine, started, settled, stopped, chain_finished, transient_timer, requested,
  verified, gate_ended, prepare_fails, catchup_fails, catchup_starts, catchup_ends, session_error,
  local_error, auth_rejected, retry_timer, health_timer, info, info_fails,
}
use obsidian_couchsync.Engine.Sound.{
  is_sound, Sound, raise_auth-Sound, handle_transient_error-Sound, transient_fires-Sound,
  handle_local_db_error-Sound, stop-Sound, open_session-Sound,
}
use obsidian_couchsync.Engine.Sound.Opening.{
  start-Sound, after_gate-Sound, prepare_failed-Sound, fail_catchup-Sound, start_catchup-Sound,
  finish_catchup-Sound,
}
use obsidian_couchsync.Engine.Sound.Chains.{
  request_reconnect-Sound, after_verify-Sound, retry_fires-Sound, check_health-Sound,
  after_info-Sound, info_failed-Sound,
}

step-Sound : (i : Input) (s : Engine) → Sound s → Sound (step i s)
unfolding step is_sound finish_reconnect
step-Sound (started p) s h = start-Sound p s h
step-Sound (settled p) s h = open_session-Sound p s h
step-Sound stopped s h = stop-Sound s h
step-Sound chain_finished s h = h
step-Sound transient_timer s h = transient_fires-Sound s h
step-Sound (requested reason now) s h = request_reconnect-Sound reason now s h
step-Sound (verified verdict now) s h = after_verify-Sound verdict now s h
step-Sound (gate_ended result) s h = after_gate-Sound result s h
step-Sound (prepare_fails epoch e) s h = prepare_failed-Sound epoch e s h
step-Sound (catchup_fails epoch e) s h = fail_catchup-Sound epoch e s h
step-Sound (catchup_starts epoch) s h = start_catchup-Sound epoch s h
step-Sound (catchup_ends epoch now) s h = finish_catchup-Sound epoch now s h
step-Sound (session_error e) s h = handle_transient_error-Sound (classify_error e) s h
step-Sound (local_error e) s h = handle_local_db_error-Sound e s h
step-Sound (auth_rejected status) s h = raise_auth-Sound status s h
step-Sound (retry_timer now) s h = retry_fires-Sound now s h
step-Sound (health_timer now) s h = check_health-Sound now s h
step-Sound (info epoch remote consumed active now) s h =
    after_info-Sound epoch remote consumed active now s h
step-Sound (info_fails epoch e) s h = info_failed-Sound epoch e s h

-- Whatever happens to an engine and in whatever order, the invariant of sessions holds on: a session
-- has the newest epoch, no session is kept beside a degraded store or a pending open, and an open
-- that can still go on has found the store usable.
pub run_engine-is_sound :
    (inputs : List Input) (s : Engine) → is_sound s ≡ true → is_sound (run_engine inputs s) ≡ true
unfolding run_engine
run_engine-is_sound [] s h = h
run_engine-is_sound (i ∷ inputs) s h = run_engine-is_sound inputs (step i s) (step-Sound i s h)

-- ===== src/Engine/Sound/Chains.antt =====
-- Reconnecting and the health check keep the invariant of sessions (src/db/sync-engine.ts).
use obsidian_couchsync.Prelude.{ℕ, none, some, Bool, not, ◌&&◌, eqb, if◌then◌else◌}
use obsidian_couchsync.Reconnect.{
  SyncState, error, connected, syncing, reconnecting, disconnected, Failure, classify_error,
  ReconnectReason, ReconnectDecision, skip, restart_now, verify_then_restart, periodic_tick,
  stalled, retry_backoff,
}
use obsidian_couchsync.Engine.{Engine, stop_retry_timer, set_state, schedule_next_attempt, is_error}
use obsidian_couchsync.Engine.Session.{is_disposed}
use obsidian_couchsync.Engine.Reconnecting.{
  request_reconnect, do_reconnect, decision_of, queue_reason, restart, Verdict, reachable,
  inconclusive, failed, after_verify, retry_fires,
}
use obsidian_couchsync.Engine.Health.{check_health, after_info, info_failed}
use obsidian_couchsync.Engine.Sound.{
  is_sound, Sound, branch-Sound, set_state-Sound, teardown-Sound, enter_error-Sound, option-Sound,
}

pub queue_reason-Sound :
    (current reason : ReconnectReason) (s : Engine)
    → Sound s
    → Sound (queue_reason current reason s)
unfolding queue_reason is_sound
queue_reason-Sound current reason s h = branch-Sound _ _ _ h h

pub restart-Sound : (now : ℕ) (s : Engine) → Sound s → Sound (restart now s)
unfolding restart is_sound
restart-Sound now s h = teardown-Sound (record s { last_restart = now }) h

pub decided :
    (d : ReconnectDecision) (now : ℕ) (s : Engine)
    → Sound s
    → Sound (elim d [
      | skip ↦ s
      | verify_then_restart ↦ set_state reconnecting none s
      | restart_now ↦ restart now (set_state reconnecting none s)
    ])
decided skip now s h = h
decided verify_then_restart now s h = set_state-Sound reconnecting none s h
decided restart_now now s h = restart-Sound now _ (set_state-Sound reconnecting none s h)

pub request_reconnect-Sound :
    (reason : ReconnectReason) (now : ℕ) (s : Engine)
    → Sound s
    → Sound (request_reconnect reason now s)
unfolding request_reconnect do_reconnect is_sound
request_reconnect-Sound reason now s h =
    option-Sound s.in_flight _ (λ current. queue_reason current reason s)
      (decided (decision_of reason now s) now (record s { in_flight = some reason }) h)
      (λ current. queue_reason-Sound current reason s h)

pub schedule_next_attempt-Sound : (s : Engine) → Sound s → Sound (schedule_next_attempt s)
unfolding schedule_next_attempt is_sound
schedule_next_attempt-Sound s h = h

pub after_verify-Sound :
    (verdict : Verdict) (now : ℕ) (s : Engine) → Sound s → Sound (after_verify verdict now s)
unfolding after_verify
after_verify-Sound reachable now s h = restart-Sound now s h
after_verify-Sound inconclusive now s h =
    schedule_next_attempt-Sound _
      (branch-Sound (is_error s.state) s _ h (set_state-Sound reconnecting none s h))
after_verify-Sound (failed detail) now s h =
    branch-Sound (is_error s.state) _ _ h (enter_error-Sound detail s h)

pub retry_fires-Sound : (now : ℕ) (s : Engine) → Sound s → Sound (retry_fires now s)
unfolding retry_fires is_sound
retry_fires-Sound now s h = request_reconnect-Sound retry_backoff now (stop_retry_timer s) h

pub watched :
    (b : Bool) (state : SyncState) (now : ℕ) (s : Engine)
    → Sound s
    → Sound (elim state [
      | reconnecting ↦ if b then request_reconnect periodic_tick now s else s
      | error ↦ if b then request_reconnect periodic_tick now s else s
      | disconnected ↦ request_reconnect periodic_tick now s
      | _ ↦ s
    ])
watched b reconnecting now s h =
    branch-Sound b _ _ (request_reconnect-Sound periodic_tick now s h) h
watched b error now s h = branch-Sound b _ _ (request_reconnect-Sound periodic_tick now s h) h
watched b disconnected now s h = request_reconnect-Sound periodic_tick now s h
watched b connected now s h = h
watched b syncing now s h = h

pub check_health-Sound : (now : ℕ) (s : Engine) → Sound s → Sound (check_health now s)
unfolding check_health
check_health-Sound now s h = branch-Sound s.auth_gate.blocked _ _ h (watched _ s.state now s h)

pub after_info-Sound :
    (epoch remote consumed : ℕ) (active : Bool) (now : ℕ) (s : Engine)
    → Sound s
    → Sound (after_info epoch remote consumed active now s)
unfolding after_info is_sound
after_info-Sound epoch remote consumed active now s h = branch-Sound (is_disposed epoch s) _ _ h (
    branch-Sound active _ _ h (
      branch-Sound (not (eqb remote consumed) && eqb remote s.last_observed) _ _
        (request_reconnect-Sound stalled now s h) h))

pub info_failed-Sound :
    (epoch : ℕ) (e : Failure) (s : Engine) → Sound s → Sound (info_failed epoch e s)
unfolding info_failed
info_failed-Sound epoch e s h =
    branch-Sound (is_disposed epoch s) _ _ h (enter_error-Sound (classify_error e) s h)

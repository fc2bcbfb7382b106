-- ===== src/Reconnect/Policy.antt =====
-- What the reconnect policy decides, as conditions on its input.
use obsidian_couchsync.Prelude.{◌≡◌, Bool, true, false, ◌&&◌, ◌||◌, not, arith}
use obsidian_couchsync.Reconnect.{
  SyncState, ReconnectReason, network_online, app_foreground, app_resume, periodic_tick, stalled,
  manual, config_failure, retry_backoff, ReconnectDecision, skip, restart_now, ReconnectInput,
  is_healthy, decide_reconnect, decide_by_state,
}

abbrev pub is_skip : ReconnectDecision → Bool
is_skip skip = true
is_skip _ = false

abbrev pub is_restart : ReconnectDecision → Bool
is_restart restart_now = true
is_restart _ = false

abbrev pub is_retry : ReconnectReason → Bool
is_retry retry_backoff = true
is_retry _ = false

-- A reason that also counts while the session is healthy.
abbrev pub overrides_health : ReconnectReason → Bool
overrides_health app_resume = true
overrides_health stalled = true
overrides_health manual = true
overrides_health _ = false

-- A reason that brings news of its own, so that the server need not be probed first.
abbrev pub is_signal : ReconnectReason → Bool
is_signal network_online = true
is_signal app_foreground = true
is_signal stalled = true
is_signal manual = true
is_signal _ = false

decided :
    (s : SyncState) (r : ReconnectReason) (a c : Bool)
    → (is_skip (
          decide_reconnect (record { state = s; reason = r; auth_error = a; cool_down_active = c }))
        ≡ (a || (not (is_retry r) && (c || (is_healthy s && not (overrides_health r))))))
      × (is_restart (
            decide_reconnect
              (record { state = s; reason = r; auth_error = a; cool_down_active = c }))
          ≡ (not a && not c && is_signal r && (not (is_healthy s) || overrides_health r)))
unfolding decide_reconnect decide_by_state
decided s network_online a c = ground arith
decided s app_foreground a c = ground arith
decided s app_resume a c = ground arith
decided s periodic_tick a c = ground arith
decided s stalled a c = ground arith
decided s manual a c = ground arith
decided s config_failure a c = ground arith
decided s retry_backoff a c = ground arith

-- A request is skipped exactly if the auth latch is set, or it is not a backoff retry and the
-- cool-down is active or the session is healthy and the reason is none of app-resume, stalled and
-- manual. It restarts at once exactly if the latch and the cool-down are off, the reason is a signal
-- of its own, and the session is not healthy or the reason is one of those three.
pub decide_reconnect_iff :
    (i : ReconnectInput)
    → (is_skip (decide_reconnect i) ≡ (
        i.auth_error
        || (not (is_retry i.reason)
            && (i.cool_down_active || (is_healthy i.state && not (overrides_health i.reason))))))
      × (is_restart (decide_reconnect i) ≡ (
          not i.auth_error
          && not i.cool_down_active
          && is_signal i.reason
          && (not (is_healthy i.state) || overrides_health i.reason)))
decide_reconnect_iff i = decided i.state i.reason i.auth_error i.cool_down_active

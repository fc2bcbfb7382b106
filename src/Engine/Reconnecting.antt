-- ===== src/Engine/Reconnecting.antt =====
-- The gateway of reconnect requests (src/db/sync-engine.ts): one chain at a time, with one
-- follow-up.
use obsidian_couchsync.Prelude.{ℕ, ◌-◌, Option, none, some, Bool, true, ◌&&◌, ltb, if◌then◌else◌}
use obsidian_couchsync.Reconnect.{
  reconnecting, SyncErrorDetail, ReconnectReason, network_online, app_foreground, app_resume,
  periodic_tick, stalled, manual, config_failure, retry_backoff, ReconnectDecision, skip,
  restart_now, verify_then_restart, decide_reconnect,
}
use obsidian_couchsync.Engine.{
  Engine, is_error, set_state, teardown, enter_error, schedule_next_attempt, stop_retry_timer,
}

unfoldable pub reason_priority : ReconnectReason → ℕ
reason_priority manual = 5
reason_priority app_resume = 4
reason_priority app_foreground = 3
reason_priority network_online = 3
reason_priority stalled = 2
reason_priority config_failure = 2
reason_priority retry_backoff = 1
reason_priority periodic_tick = 0

-- Newcomers while `current` is in flight: `newP > currentP && newP > queuedP`.
unfoldable pub queue_reason : ReconnectReason → ReconnectReason → Engine → Engine
queue_reason current reason s =
    let outranks_queued : Bool = elim s.queued [
      | none ↦ true
      | some waiting ↦ ltb (reason_priority waiting) (reason_priority reason)
    ] in
    if ltb (reason_priority current) (reason_priority reason) && outranks_queued
    then record s { queued = some reason }
    else s

-- `restart` up to the await of `teardown`.
unfoldable pub restart : ℕ → Engine → Engine
restart now s = teardown (record s { last_restart = now })

abbrev pub cool_down_ms : ℕ
cool_down_ms = 5000

abbrev pub decision_of : ReconnectReason → ℕ → Engine → ReconnectDecision
decision_of reason now s = decide_reconnect (record {
  state = s.state;
  reason = reason;
  auth_error = s.auth_gate.blocked;
  cool_down_active = ltb (now - s.last_restart) cool_down_ms;
})

-- `doReconnect` up to its first await.
unfoldable pub do_reconnect : ReconnectReason → ℕ → Engine → Engine
do_reconnect reason now s = elim (decision_of reason now s) [
  | skip ↦ s
  | verify_then_restart ↦ set_state reconnecting none s
  | restart_now ↦ restart now (set_state reconnecting none s)
]

unfoldable pub request_reconnect : ReconnectReason → ℕ → Engine → Engine
request_reconnect reason now s = elim s.in_flight [
  | some current ↦ queue_reason current reason s
  | none ↦ do_reconnect reason now (record s { in_flight = some reason })
]

-- The `finally` of a chain: the engine, and the follow-up to request next.
unfoldable pub finish_reconnect : Engine → Engine × Option ReconnectReason
finish_reconnect s = (record s { in_flight = none; queued = none }, s.queued)

-- How `verifyReachable` ends.
pub data Verdict : Type 0 where
  reachable inconclusive : Verdict
  failed : SyncErrorDetail → Verdict

-- From the last probe to the end of `doReconnect`, or to the await in `restart`.
unfoldable pub after_verify : Verdict → ℕ → Engine → Engine
after_verify reachable now s = restart now s
after_verify inconclusive now s =
    schedule_next_attempt (if is_error s.state then s else set_state reconnecting none s)
after_verify (failed detail) now s = if is_error s.state then s else enter_error detail s

-- The callback of the retry timer.
unfoldable pub retry_fires : ℕ → Engine → Engine
retry_fires now s = request_reconnect retry_backoff now (stop_retry_timer s)

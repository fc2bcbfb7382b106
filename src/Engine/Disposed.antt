-- ===== src/Engine/Disposed.antt =====
-- Disposed sessions stay disposed (src/db/sync-engine.ts).
use obsidian_couchsync.Prelude.{
  ℕ, List, Option, none, some, Bool, true, false, not, ◌&&◌, ◌||◌, any, eqb, if◌then◌else◌, is_some,
  ◌≡◌, arith,
}
use obsidian_couchsync.AuthGate.{clear}
use obsidian_couchsync.Reconnect.{
  SyncState, error, connected, syncing, reconnecting, disconnected, SyncErrorDetail, Failure,
  classify_error, ReconnectReason, ReconnectDecision, skip, restart_now, verify_then_restart,
  periodic_tick, stalled, retry_backoff,
}
use obsidian_couchsync.Engine.{
  Engine, LocalFailure, raise_auth, handle_transient_error, transient_fires, handle_local_db_error,
  emit, catchup_failed, stop_retry_timer, stop_transient_timer, stop, set_state, teardown,
  enter_error, handle_degraded, schedule_next_attempt, on_auth_change, degraded_db, halt_db,
  other_db, not_db, is_terminal, is_auth, is_error, is_reconnecting, dispose,
}
use obsidian_couchsync.Engine.Session.{
  start, open_session, GateResult, gate_failed, client_failed, gate_passed, after_gate, OpenFailure,
  degraded_handle, other_failure, fail_open, prepare_failed, start_catchup, fail_catchup,
  finish_catchup, is_disposed, register,
}
use obsidian_couchsync.Engine.Reconnecting.{
  request_reconnect, do_reconnect, decision_of, queue_reason, restart, Verdict, reachable,
  inconclusive, failed, after_verify, retry_fires,
}
use obsidian_couchsync.Engine.Health.{check_health, after_info, info_failed}

-- Session `n` has been disposed.
module _ (n : ℕ) where
  abbrev pub Gone : Engine → Type 0
  Gone s = is_disposed n s ≡ true

  branch-Gone : (b : Bool) (s t : Engine) → Gone s → Gone t → Gone (if b then s else t)
  branch-Gone true s t p q = p
  branch-Gone false s t p q = q

  option-Gone {ℓ} :
      {A : Type ℓ} (o : Option A) (s : Engine) (f : A → Engine)
      → Gone s
      → ((a : A) → Gone (f a))
      → Gone (elim o [ none ↦ s | some a ↦ f a ])
  option-Gone none s f p q = p
  option-Gone (some a) s f p q = q a

  disposed_more :
      (session : Option ℕ) (epochs : List ℕ)
      → any (eqb n) epochs ≡ true
      → any (eqb n) (dispose session epochs) ≡ true
  disposed_more none epochs h = h
  disposed_more (some e) epochs h = ground arith

  pub set_state-Gone :
      (new : SyncState) (detail : Option SyncErrorDetail) (s : Engine)
      → Gone s
      → Gone (set_state new detail s)
  unfolding set_state
  set_state-Gone new detail s h = branch-Gone _ _ _ h h

  teardown-Gone : (s : Engine) → Gone s → Gone (teardown s)
  unfolding teardown
  teardown-Gone s h = disposed_more s.session s.disposed h

  pub raise_auth-Gone : (status : ℕ) (s : Engine) → Gone s → Gone (raise_auth status s)
  unfolding raise_auth on_auth_change
  raise_auth-Gone status s h =
      branch-Gone s.auth_gate.blocked _ _ h
        (branch-Gone (is_error s.state) _ _ h (teardown-Gone _ (set_state-Gone error _ _ h)))

  enter_error-Gone : (d : SyncErrorDetail) (s : Engine) → Gone s → Gone (enter_error d s)
  unfolding enter_error schedule_next_attempt
  enter_error-Gone d s h =
      let entered = set_state-Gone error (some d) (stop_transient_timer s) h in
      branch-Gone (is_auth d.kind) _ _ (teardown-Gone _ (raise_auth-Gone _ _ entered)) (
        branch-Gone (is_terminal d.kind) _ _ (teardown-Gone _ entered)
          (branch-Gone s.degraded _ _ entered entered))

  pub handle_transient_error-Gone :
      (d : SyncErrorDetail) (s : Engine) → Gone s → Gone (handle_transient_error d s)
  unfolding handle_transient_error
  handle_transient_error-Gone d s h =
      branch-Gone (is_terminal d.kind) _ _ (enter_error-Gone d s h) (
        branch-Gone (is_reconnecting s.state) s (set_state reconnecting none s) h
          (set_state-Gone reconnecting none s h))

  pub transient_fires-Gone : (s : Engine) → Gone s → Gone (transient_fires s)
  unfolding transient_fires
  transient_fires-Gone s h = option-Gone s.transient_timer s _ h (λ detail.
      branch-Gone (is_reconnecting s.state) _ _ (enter_error-Gone detail (stop_transient_timer s) h)
        h)

  handle_degraded-Gone : (s : Engine) → Gone s → Gone (handle_degraded s)
  unfolding handle_degraded
  handle_degraded-Gone s h =
      branch-Gone s.degraded s _ h (teardown-Gone _ (set_state-Gone error _ _ h))

  pub handle_local_db_error-Gone :
      (e : LocalFailure) (s : Engine) → Gone s → Gone (handle_local_db_error e s)
  unfolding handle_local_db_error
  handle_local_db_error-Gone degraded_db s h = handle_degraded-Gone s h
  handle_local_db_error-Gone halt_db s h = branch-Gone (is_error s.state) _ _ h (teardown-Gone s h)
  handle_local_db_error-Gone other_db s h = h
  handle_local_db_error-Gone not_db s h = h

  pub stop-Gone : (s : Engine) → Gone s → Gone (stop s)
  unfolding stop
  stop-Gone s h = set_state-Gone disconnected none _ (teardown-Gone _ h)

  pub open_session-Gone :
      (provisioned : Bool) (s : Engine) → Gone s → Gone (open_session provisioned s)
  unfolding open_session
  open_session-Gone provisioned s h = branch-Gone (is_some s.session || is_some s.opening) _ _ h (
      branch-Gone (not provisioned) _ _ h
        (branch-Gone s.auth_gate.blocked _ _ h (branch-Gone s.degraded _ _ h h)))

  pub start-Gone : (provisioned : Bool) (s : Engine) → Gone s → Gone (start provisioned s)
  unfolding start
  start-Gone provisioned s h = branch-Gone (is_some s.session) _ _ h (
      open_session-Gone provisioned (record s { auth_gate = clear s.auth_gate; degraded = false })
        h)

  gate_result-Gone :
      (result : GateResult) (s : Engine)
      → Gone s
      → Gone (elim result [
        | gate_failed e ↦ enter_error (classify_error e) s
        | client_failed e ↦ enter_error (classify_error e) s
        | gate_passed ↦ register s
      ])
  gate_result-Gone (gate_failed e) s h = enter_error-Gone (classify_error e) s h
  gate_result-Gone (client_failed e) s h = enter_error-Gone (classify_error e) s h
  gate_result-Gone gate_passed s h = set_state-Gone reconnecting none _ h

  pub after_gate-Gone : (result : GateResult) (s : Engine) → Gone s → Gone (after_gate result s)
  unfolding after_gate
  after_gate-Gone result s h = option-Gone s.opening s _ h (λ captured.
      branch-Gone (eqb s.generation captured) _ _
        (gate_result-Gone result (record s { opening = none }) h) h)

  fail_open-Gone : (e : OpenFailure) (s : Engine) → Gone s → Gone (fail_open e s)
  unfolding fail_open
  fail_open-Gone degraded_handle s h = handle_degraded-Gone s h
  fail_open-Gone (other_failure e) s h = enter_error-Gone (classify_error e) s h

  pub prepare_failed-Gone :
      (epoch : ℕ) (e : OpenFailure) (s : Engine) → Gone s → Gone (prepare_failed epoch e s)
  unfolding prepare_failed
  prepare_failed-Gone epoch e s h =
      branch-Gone (is_disposed epoch s) _ _ h (fail_open-Gone e (record s { session = none }) h)

  pub fail_catchup-Gone :
      (epoch : ℕ) (e : OpenFailure) (s : Engine) → Gone s → Gone (fail_catchup epoch e s)
  unfolding fail_catchup
  fail_catchup-Gone epoch e s h =
      branch-Gone (is_disposed epoch s) _ _ h
        (fail_open-Gone e (emit catchup_failed (record s { session = none })) h)

  pub start_catchup-Gone : (epoch : ℕ) (s : Engine) → Gone s → Gone (start_catchup epoch s)
  unfolding start_catchup
  start_catchup-Gone epoch s h =
      branch-Gone (is_disposed epoch s) _ _ h (set_state-Gone syncing none s h)

  pub finish_catchup-Gone :
      (epoch now : ℕ) (s : Engine) → Gone s → Gone (finish_catchup epoch now s)
  unfolding finish_catchup
  finish_catchup-Gone epoch now s h =
      branch-Gone (is_disposed epoch s) _ _ h
        (set_state-Gone connected none (record s { last_healthy = now }) h)

  restart-Gone : (now : ℕ) (s : Engine) → Gone s → Gone (restart now s)
  unfolding restart
  restart-Gone now s h = teardown-Gone (record s { last_restart = now }) h

  decided-Gone :
      (d : ReconnectDecision) (now : ℕ) (s : Engine)
      → Gone s
      → Gone (elim d [
        | skip ↦ s
        | verify_then_restart ↦ set_state reconnecting none s
        | restart_now ↦ restart now (set_state reconnecting none s)
      ])
  decided-Gone skip now s h = h
  decided-Gone verify_then_restart now s h = set_state-Gone reconnecting none s h
  decided-Gone restart_now now s h = restart-Gone now _ (set_state-Gone reconnecting none s h)

  pub request_reconnect-Gone :
      (reason : ReconnectReason) (now : ℕ) (s : Engine)
      → Gone s
      → Gone (request_reconnect reason now s)
  unfolding request_reconnect do_reconnect queue_reason
  request_reconnect-Gone reason now s h =
      option-Gone s.in_flight _ (λ current. queue_reason current reason s)
        (decided-Gone (decision_of reason now s) now (record s { in_flight = some reason }) h)
        (λ current. branch-Gone _ _ _ h h)

  pub after_verify-Gone :
      (verdict : Verdict) (now : ℕ) (s : Engine) → Gone s → Gone (after_verify verdict now s)
  unfolding after_verify schedule_next_attempt
  after_verify-Gone reachable now s h = restart-Gone now s h
  after_verify-Gone inconclusive now s h =
      branch-Gone (is_error s.state) s _ h (set_state-Gone reconnecting none s h)
  after_verify-Gone (failed detail) now s h =
      branch-Gone (is_error s.state) _ _ h (enter_error-Gone detail s h)

  pub retry_fires-Gone : (now : ℕ) (s : Engine) → Gone s → Gone (retry_fires now s)
  unfolding retry_fires
  retry_fires-Gone now s h = request_reconnect-Gone retry_backoff now (stop_retry_timer s) h

  watched-Gone :
      (b : Bool) (state : SyncState) (now : ℕ) (s : Engine)
      → Gone s
      → Gone (elim state [
        | reconnecting ↦ if b then request_reconnect periodic_tick now s else s
        | error ↦ if b then request_reconnect periodic_tick now s else s
        | disconnected ↦ request_reconnect periodic_tick now s
        | _ ↦ s
      ])
  watched-Gone b reconnecting now s h =
      branch-Gone b _ _ (request_reconnect-Gone periodic_tick now s h) h
  watched-Gone b error now s h = branch-Gone b _ _ (request_reconnect-Gone periodic_tick now s h) h
  watched-Gone b disconnected now s h = request_reconnect-Gone periodic_tick now s h
  watched-Gone b connected now s h = h
  watched-Gone b syncing now s h = h

  pub check_health-Gone : (now : ℕ) (s : Engine) → Gone s → Gone (check_health now s)
  unfolding check_health
  check_health-Gone now s h = branch-Gone s.auth_gate.blocked _ _ h (watched-Gone _ s.state now s h)

  pub after_info-Gone :
      (epoch remote consumed : ℕ) (active : Bool) (now : ℕ) (s : Engine)
      → Gone s
      → Gone (after_info epoch remote consumed active now s)
  unfolding after_info
  after_info-Gone epoch remote consumed active now s h = branch-Gone (is_disposed epoch s) _ _ h (
      branch-Gone active _ _ h (
        branch-Gone (not (eqb remote consumed) && eqb remote s.last_observed) _ _
          (request_reconnect-Gone stalled now s h) h))

  pub info_failed-Gone :
      (epoch : ℕ) (e : Failure) (s : Engine) → Gone s → Gone (info_failed epoch e s)
  unfolding info_failed
  info_failed-Gone epoch e s h =
      branch-Gone (is_disposed epoch s) _ _ h (enter_error-Gone (classify_error e) s h)

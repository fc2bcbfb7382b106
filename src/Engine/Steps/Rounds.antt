-- ===== src/Engine/Steps/Rounds.antt =====
-- The stretches of a retry round of the engine (src/db/sync-engine.ts).
use obsidian_couchsync.Prelude.{
  all, any, leb, ℕ, ◌+◌, ◌≤◌, List, [], ◌∷◌, none, some, Bool, true, false, eqb, ◌&&◌, ◌≡◌, refl,
  arith, or_default,
}
use obsidian_couchsync.Backoff.{default_delays_ms, next_delay, record_failure, record_success}
use obsidian_couchsync.Backoff.Bounds.{next_delay-default}
use obsidian_couchsync.Reconnect.{
  error, connected, reconnecting, SyncErrorKind, auth, network, timeout, server, not_found, aborted,
  schema_mismatch, encryption_paused, unknown, SyncErrorDetail, syncing, retry_backoff,
  decide_reconnect,
}
use obsidian_couchsync.Engine.{
  dispose, Engine, set_state, teardown, enter_error, schedule_next_attempt, is_terminal, is_auth,
  state_change, error_event, catchup_complete, paused_event, same_state,
}
use obsidian_couchsync.Engine.Session.{
  is_disposed, open_session, after_gate, gate_passed, start_catchup, finish_catchup,
}
use obsidian_couchsync.Engine.Reconnecting.{
  request_reconnect, do_reconnect, finish_reconnect, reachable, failed, after_verify, retry_fires,
  restart,
}

-- In a hard error with the retry timer set and nothing else under way. No session, live or disposed,
-- has a number that has not been given out yet.
pub record IsWaiting (s : Engine) : Type 0 where
  pub failed_state : s.state ≡ error
  pub armed : (d : ℕ) × (s.retry_timer ≡ some d) × (d ≤ 21000)
  pub table : s.backoff.delays ≡ default_delays_ms
  pub idle : s.in_flight ≡ none
  pub shut : s.opening ≡ none
  pub unlatched : s.auth_gate.blocked ≡ false
  pub usable : s.degraded ≡ false
  pub numbered : all (λ e. leb e s.session_epoch) (dispose s.session s.disposed) ≡ true

-- The retry timer fires, the probes fail with `detail`, and the chain ends.
unfoldable pub failed_round : SyncErrorDetail → ℕ → Engine → Engine
failed_round detail now s =
    (finish_reconnect (after_verify (failed detail) now (retry_fires now s))).0

unfoldable pub failed_rounds : List (SyncErrorDetail × ℕ) → Engine → Engine
failed_rounds [] s = s
failed_rounds ((detail, now) ∷ rounds) s = failed_rounds rounds (failed_round detail now s)

-- The retry timer fires, the server answers, and everything up to the end of the catch-up succeeds.
unfoldable pub good_round : ℕ → Engine → Engine
good_round now s =
    let epoch = s.session_epoch + 1 in
    let probed = after_verify reachable now (retry_fires now s) in
    let registered = after_gate gate_passed (open_session true probed) in
    (finish_reconnect (finish_catchup epoch now (start_catchup epoch registered))).0

retry_fires-IsWaiting :
    (now : ℕ) (s : Engine)
    → IsWaiting s
    → retry_fires now s ≡ record s {
      in_flight = some retry_backoff;
      retry_timer = none;
      state = reconnecting;
      last_error = none;
      emitted = state_change reconnecting ∷ s.emitted;
    }
unfolding retry_fires request_reconnect do_reconnect set_state decide_reconnect
retry_fires-IsWaiting now s w = rw (w.idle, w.unlatched, w.failed_state) refl

not_auth : (kind : SyncErrorKind) → is_terminal kind ≡ false → is_auth kind ≡ false
not_auth auth h = h
not_auth network h = refl
not_auth timeout h = refl
not_auth server h = refl
not_auth not_found h = refl
not_auth aborted h = refl
not_auth schema_mismatch h = refl
not_auth encryption_paused h = refl
not_auth unknown h = refl

abbrev pub retried : SyncErrorDetail → Engine → Engine
retried detail s = record s {
  state = error;
  last_error = some detail;
  transient_timer = none;
  retry_timer = some (or_default (next_delay s.backoff) 0);
  backoff = record_failure s.backoff;
  emitted = error_event detail ∷ state_change error ∷ s.emitted;
}

and_false : (b : Bool) → (b && false) ≡ false
and_false true = refl
and_false false = refl

pub eqb_self : (n : ℕ) → eqb n n ≡ true
eqb_self n = ground arith

enter_error-retried :
    (detail : SyncErrorDetail) (s : Engine)
    → is_terminal detail.kind ≡ false
    → s.degraded ≡ false
    → enter_error detail s ≡ retried detail s
unfolding enter_error schedule_next_attempt set_state
enter_error-retried detail s more usable =
    rw (not_auth detail.kind more, more, usable, and_false (same_state s.state error)) refl

abbrev probing : Engine → Engine
probing s = record s {
  in_flight = some retry_backoff;
  retry_timer = none;
  state = reconnecting;
  last_error = none;
  emitted = state_change reconnecting ∷ s.emitted;
}

failed_round-lem :
    (detail : SyncErrorDetail) (now : ℕ) (s : Engine)
    → is_terminal detail.kind ≡ false
    → IsWaiting s
    → failed_round detail now s
      ≡ record (retried detail (probing s)) { in_flight = none; queued = none }
unfolding failed_round after_verify finish_reconnect
failed_round-lem detail now s more w =
    rw (retry_fires-IsWaiting now s w)
      (rw (enter_error-retried detail (probing s) more w.usable) refl)

pub failed_round-IsWaiting :
    (detail : SyncErrorDetail) (now : ℕ) (s : Engine)
    → is_terminal detail.kind ≡ false
    → IsWaiting s
    → IsWaiting (failed_round detail now s)
      × ((failed_round detail now s).backoff.step ≡ s.backoff.step + 1)
unfolding record_failure
failed_round-IsWaiting detail now s more w =
    let (d, found, low, high) = next_delay-default s.backoff w.table in
    rw (failed_round-lem detail now s more w) (
      record {
        failed_state = refl;
        armed = (d, rw found refl, high);
        table = w.table;
        idle = refl;
        shut = w.shut;
        unlatched = w.unlatched;
        usable = w.usable;
        numbered = w.numbered;
      },
      refl,
    )

pub open_session-lem :
    (s : Engine)
    → s.session ≡ none
    → s.opening ≡ none
    → s.auth_gate.blocked ≡ false
    → s.degraded ≡ false
    → open_session true s ≡ record s { opening = some s.generation }
unfolding open_session
open_session-lem s free shut unlatched usable = rw (free, shut, unlatched, usable) refl

after_gate-lem :
    (s : Engine)
    → s.opening ≡ some s.generation
    → s.state ≡ reconnecting
    → after_gate gate_passed s ≡ record s {
      opening = none;
      session_epoch = s.session_epoch + 1;
      session = some (s.session_epoch + 1);
    }
unfolding after_gate set_state
after_gate-lem s pending state = rw (pending, eqb_self s.generation, state) refl

start_catchup-lem :
    (epoch : ℕ) (s : Engine)
    → is_disposed epoch s ≡ false
    → s.state ≡ reconnecting
    → start_catchup epoch s
      ≡ record s { state = syncing; last_error = none; emitted = state_change syncing ∷ s.emitted }
unfolding start_catchup set_state
start_catchup-lem epoch s live state = rw (live, state) refl

-- The engine after a catch-up that ended well.
abbrev caught_up : ℕ → Engine → Engine
caught_up now s = record s {
  state = connected;
  last_error = none;
  last_healthy = now;
  backoff = record_success s.backoff;
  retry_timer = none;
  transient_timer = none;
  emitted = catchup_complete ∷ paused_event ∷ state_change connected ∷ s.emitted;
}

finish_catchup-lem :
    (epoch now : ℕ) (s : Engine)
    → is_disposed epoch s ≡ false
    → s.state ≡ syncing
    → finish_catchup epoch now s ≡ caught_up now s
unfolding finish_catchup set_state
finish_catchup-lem epoch now s live state = rw (live, state) refl

abbrev restarted : ℕ → Engine → Engine
restarted now s = record (probing s) {
  last_restart = now;
  generation = s.generation + 1;
  session = none;
  disposed = dispose s.session s.disposed;
  last_observed = 0;
}

unused_number :
    (n : ℕ) (epochs : List ℕ) → all (λ e. leb e n) epochs ≡ true → any (eqb (n + 1)) epochs ≡ false
unused_number n [] h = refl
unused_number n (e ∷ epochs) h = ground (arith, unused_number n epochs)

abbrev pub registered : ℕ → Engine → Engine
registered now s = record (restarted now s) {
  opening = none;
  session_epoch = s.session_epoch + 1;
  session = some (s.session_epoch + 1);
}

abbrev live_session : ℕ → Engine → Engine
live_session now s = record (restarted now s) {
  opening = none;
  session_epoch = s.session_epoch + 1;
  session = some (s.session_epoch + 1);
  state = syncing;
  last_error = none;
  emitted = state_change syncing ∷ state_change reconnecting ∷ s.emitted;
}

restart-lem : (now : ℕ) (s : Engine) → after_verify reachable now (probing s) ≡ restarted now s
unfolding after_verify restart teardown
restart-lem now s = refl

pub good_round-lem :
    (now : ℕ) (s : Engine)
    → IsWaiting s
    → good_round now s
      ≡ record (caught_up now (live_session now s)) { in_flight = none; queued = none }
unfolding good_round finish_reconnect
good_round-lem now s w =
    let unused = unused_number s.session_epoch (dispose s.session s.disposed) w.numbered in
    rw
      (
        retry_fires-IsWaiting now s w,
        restart-lem now s,
        open_session-lem (restarted now s) refl w.shut w.unlatched w.usable,
        after_gate-lem (record (restarted now s) { opening = some (s.generation + 1) }) refl refl,
        start_catchup-lem (s.session_epoch + 1) (registered now s) unused refl,
        finish_catchup-lem (s.session_epoch + 1) now (live_session now s) unused refl,
      )
      refl

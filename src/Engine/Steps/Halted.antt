-- ===== src/Engine/Steps/Halted.antt =====
-- Ends of the engine that its recovery does not cover (src/db/sync-engine.ts).
use obsidian_couchsync.Prelude.{
  ℕ, ◌+◌, ◌-◌, List, [], ◌∷◌, Option, none, some, Bool, true, false, not, ◌&&◌, all, ltb,
  if◌then◌else◌, ◌≡◌, ap, ◌∙◌, refl, arith, Bool-cases, inl, inr,
}
use obsidian_couchsync.Reconnect.{
  SyncState, connected, disconnected, reconnecting, SyncErrorDetail, ReconnectReason,
  network_online, app_foreground, app_resume, periodic_tick, stalled, manual, config_failure,
  retry_backoff, skip, decide_reconnect, decide_by_state,
}
use obsidian_couchsync.Reconnect.Policy.{is_retry, overrides_health}
use obsidian_couchsync.Engine.{
  dispose, Engine, halt_db, teardown, handle_local_db_error, stop, set_state, same_state, is_error,
}
use obsidian_couchsync.Backoff.{record_success}
use obsidian_couchsync.Engine.Steps.Rounds.{open_session-lem, eqb_self}
use obsidian_couchsync.Engine.Session.{after_gate, gate_passed}
use obsidian_couchsync.Engine.Reconnecting.{
  request_reconnect, do_reconnect, finish_reconnect, restart, after_verify, reachable, cool_down_ms,
}
use obsidian_couchsync.Engine.Health.{check_health}
use obsidian_couchsync.Engine.Steps.{
  Input, local_error, health_timer, requested, chain_finished, stopped, verified, settled,
  gate_ended, step, run_engine,
}

-- What may still happen by itself: a health check, or a request that runs to its end.
pub data Hint : Type 0 where
  tick : ℕ → Hint
  asked : ReconnectReason → ℕ → Hint

unfoldable pub hint_inputs : List Hint → List Input
hint_inputs [] = []
hint_inputs (tick now ∷ hints) = health_timer now ∷ hint_inputs hints
hint_inputs (asked reason now ∷ hints) = requested reason now ∷ chain_finished ∷ hint_inputs hints

abbrev pub is_weak : Hint → Bool
is_weak (tick now) = true
is_weak (asked reason now) = not (is_retry reason) && not (overrides_health reason)

weak_skip :
    (reason : ReconnectReason) (a c : Bool)
    → (not (is_retry reason) && not (overrides_health reason)) ≡ true
    → decide_reconnect
        (record { state = connected; reason = reason; auth_error = a; cool_down_active = c })
      ≡ skip
unfolding decide_reconnect decide_by_state
weak_skip network_online a c h = ground arith
weak_skip app_foreground a c h = ground arith
weak_skip app_resume a c h = absurd (ground arith)
weak_skip periodic_tick a c h = ground arith
weak_skip stalled a c h = absurd (ground arith)
weak_skip manual a c h = absurd (ground arith)
weak_skip config_failure a c h = ground arith
weak_skip retry_backoff a c h = absurd (ground arith)

-- Connected, but without a session, a chain or a retry.
pub record IsStranded (s : Engine) : Type 0 where
  pub claims : s.state ≡ connected
  pub gone : s.session ≡ none
  pub idle : s.in_flight ≡ none
  pub unarmed : s.retry_timer ≡ none

branch-IsStranded :
    (b : Bool) (s t : Engine) → IsStranded s → IsStranded t → IsStranded (if b then s else t)
branch-IsStranded true s t p q = p
branch-IsStranded false s t p q = q

tick-IsStranded : (now : ℕ) (s : Engine) → IsStranded s → IsStranded (check_health now s)
unfolding check_health
tick-IsStranded now s x = rw x.claims (
    branch-IsStranded s.auth_gate.blocked (record s { state = connected }) s
      (record { claims = refl; gone = x.gone; idle = x.idle; unarmed = x.unarmed }) x)

do_reconnect-weak :
    (reason : ReconnectReason) (now : ℕ) (s : Engine)
    → (not (is_retry reason) && not (overrides_health reason)) ≡ true
    → s.state ≡ connected
    → do_reconnect reason now s ≡ s
unfolding do_reconnect
do_reconnect-weak reason now s weak up =
    let quiet =
      weak_skip reason s.auth_gate.blocked (ltb (now - s.last_restart) cool_down_ms) weak in
    rw (do_reconnect, up, quiet) (ap (λ x. record s { state = x }) up)

asked-IsStranded :
    (reason : ReconnectReason) (now : ℕ) (s : Engine)
    → (not (is_retry reason) && not (overrides_health reason)) ≡ true
    → IsStranded s
    → IsStranded (finish_reconnect (request_reconnect reason now s)).0
unfolding finish_reconnect request_reconnect
asked-IsStranded reason now s weak x =
    rw (x.idle, do_reconnect-weak reason now (record s { in_flight = some reason }) weak x.claims)
      (record { claims = x.claims; gone = x.gone; idle = refl; unarmed = x.unarmed })

hints-IsStranded :
    (hints : List Hint) (s : Engine)
    → all is_weak hints ≡ true
    → IsStranded s
    → IsStranded (run_engine (hint_inputs hints) s)
unfolding hint_inputs run_engine step
hints-IsStranded [] s weak x = x
hints-IsStranded (tick now ∷ hints) s weak x =
    hints-IsStranded hints (check_health now s) weak (tick-IsStranded now s x)
hints-IsStranded (asked reason now ∷ hints) s weak x =
    hints-IsStranded hints _ (ground arith) (asked-IsStranded reason now s (ground arith) x)

-- When the local store reports a failure that calls for a halt, such as a full quota, to a connected
-- engine with no chain and no retry under way, its session is torn down but its state stays
-- connected. No health check brings it back, and no request for a reason other than app-resume,
-- stalled, manual and retry-backoff does: after any number of them the engine is connected and has
-- no session.
pub halt-IsStranded :
    (hints : List Hint) (s : Engine)
    → s.state ≡ connected
    → s.in_flight ≡ none
    → s.retry_timer ≡ none
    → all is_weak hints ≡ true
    → IsStranded (run_engine (local_error halt_db ∷ hint_inputs hints) s)
unfolding run_engine step handle_local_db_error teardown
halt-IsStranded hints s up idle unarmed weak = rw up (
    hints-IsStranded hints _ weak
      (record { claims = refl; gone = refl; idle = idle; unarmed = unarmed }))

set_state-keeps :
    (new : SyncState) (detail : Option SyncErrorDetail) (s : Engine)
    → ((set_state new detail s).opening ≡ s.opening)
      × ((set_state new detail s).auth_gate ≡ s.auth_gate)
      × ((set_state new detail s).degraded ≡ s.degraded)
      × ((set_state new detail s).session ≡ s.session)
      × ((set_state new detail s).session_epoch ≡ s.session_epoch)
unfolding set_state
set_state-keeps new detail s = elim (Bool-cases (same_state s.state new && not (is_error new))) [
  | inl e ↦ rw e (refl, refl, refl, refl, refl)
  | inr e ↦ rw e (refl, refl, refl, refl, refl)
]

after_gate-session :
    (s : Engine)
    → s.opening ≡ some s.generation
    → (after_gate gate_passed s).session ≡ some (s.session_epoch + 1)
unfolding after_gate
after_gate-session s pending =
    let fresh = record s {
      opening = none;
      session_epoch = s.session_epoch + 1;
      session = some (s.session_epoch + 1);
    } in
    let (_, _, _, kept, _) = set_state-keeps reconnecting none fresh in
    rw (pending, eqb_self s.generation) kept

-- When `stop` is called while a reconnect chain waits for its probe, and the server then answers,
-- the chain goes on: on a provisioned vault with the latch open, a usable store and no open pending,
-- it ends with a new session on the engine that was stopped.
pub stop-verified :
    (s : Engine) (now : ℕ)
    → s.opening ≡ none
    → s.auth_gate.blocked ≡ false
    → s.degraded ≡ false
    → (run_engine
        (stopped ∷ verified reachable now ∷ settled true ∷ gate_ended gate_passed ∷ [])
        s).session
      ≡ some (s.session_epoch + 1)
unfolding run_engine step stop after_verify restart teardown
stop-verified s now shut unlatched usable =
    let quiet = record s {
      retry_timer = none;
      transient_timer = none;
      backoff = record_success s.backoff;
      generation = s.generation + 1;
      session = none;
      disposed = dispose s.session s.disposed;
      last_observed = 0;
    } in
    let (pending, gate, store, _, epoch) = set_state-keeps disconnected none quiet in
    let t = after_verify reachable now (stop s) in
    rw
      (open_session-lem t refl (pending ∙ shut) (ap (λ g. g.blocked) gate ∙ unlatched)
        (store ∙ usable))
      (after_gate-session (record t { opening = some t.generation }) refl
        ∙ ap (λ n. some (n + 1)) epoch)

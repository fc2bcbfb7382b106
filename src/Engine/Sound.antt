-- ===== src/Engine/Sound.antt =====
-- The invariant of sessions, and that the supervisor of src/db/sync-engine.ts keeps it.
pub mod Opening
pub mod Chains
use obsidian_couchsync.Prelude.{
  ℕ, ◌+◌, List, [], ◌∷◌, Option, none, some, Bool, true, false, not, ◌&&◌, ◌||◌, eqb, leb,
  if◌then◌else◌, is_some, ◌≡◌, ◌≢◌, refl, arith, Bool-cases, Option-cases, inl, inr, or_default,
  ◌∙◌,
}
use obsidian_couchsync.AuthGate.{raise, clear}
use obsidian_couchsync.Reconnect.{
  SyncState, error, connected, syncing, reconnecting, disconnected, auth, unknown, SyncErrorDetail,
  Failure, classify_error, ReconnectReason, ReconnectDecision, skip, restart_now,
  verify_then_restart, periodic_tick, stalled, retry_backoff,
}
use obsidian_couchsync.Engine.{
  Engine, LocalFailure, raise_auth, handle_transient_error, transient_fires, handle_local_db_error,
  error_event, emit, degraded_event, catchup_failed, catchup_complete, paused_event,
  stop_retry_timer, stop_transient_timer, stop, set_state, teardown, enter_error, handle_degraded,
  schedule_next_attempt, on_auth_change, degraded_db, halt_db, other_db, not_db, is_terminal,
  is_auth, is_error, is_reconnecting, same_state,
}
use obsidian_couchsync.Engine.Session.{
  start, open_session, GateResult, gate_failed, client_failed, gate_passed, after_gate, OpenFailure,
  degraded_handle, other_failure, fail_open, prepare_failed, start_catchup, fail_catchup,
  finish_catchup, is_disposed, register,
}
use obsidian_couchsync.Engine.Reconnecting.{
  request_reconnect, do_reconnect, decision_of, queue_reason, restart, finish_reconnect, Verdict,
  reachable, inconclusive, failed, after_verify, retry_fires,
}
use obsidian_couchsync.Engine.Health.{check_health, after_info, info_failed}

-- On the session, its epoch, the pending open, the generation and the degraded mark: a session has
-- the newest epoch, and excludes a degraded store and a pending open. A pending open that has not
-- been superseded excludes a degraded store.
unfoldable pub sound_fields : Option ℕ → ℕ → Option ℕ → ℕ → Bool → Bool
sound_fields none epoch none generation degraded = true
sound_fields none epoch (some captured) generation degraded =
    leb captured generation && not (eqb captured generation && degraded)
sound_fields (some e) epoch none generation degraded = eqb e epoch && not degraded
sound_fields (some e) epoch (some captured) generation degraded = false

unfoldable pub is_sound : Engine → Bool
is_sound s = sound_fields s.session s.session_epoch s.opening s.generation s.degraded

abbrev pub Sound : Engine → Type 0
Sound s = is_sound s ≡ true

pub branch-Sound : (b : Bool) (s t : Engine) → Sound s → Sound t → Sound (if b then s else t)
branch-Sound true s t p q = p
branch-Sound false s t p q = q

pub test-Sound :
    (b : Bool) (s t : Engine)
    → (b ≡ true → Sound s)
    → (b ≡ false → Sound t)
    → Sound (if b then s else t)
test-Sound true s t p q = p refl
test-Sound false s t p q = q refl

pub torn :
    (session : Option ℕ) (epoch : ℕ) (opening : Option ℕ) (generation : ℕ) (degraded : Bool)
    → sound_fields session epoch opening generation degraded ≡ true
    → (d : Bool) → sound_fields none epoch opening (generation + 1) d ≡ true
unfolding sound_fields
torn session epoch none generation degraded h d = refl
torn none epoch (some captured) generation degraded h d = ground arith
torn (some e) epoch (some captured) generation degraded h d = absurd (ground arith)

pub closed :
    (session : Option ℕ) (epoch : ℕ) (opening : Option ℕ) (generation : ℕ) (degraded : Bool)
    → sound_fields session epoch opening generation degraded ≡ true
    → sound_fields none epoch opening generation degraded ≡ true
unfolding sound_fields
closed none epoch opening generation degraded h = h
closed (some e) epoch none generation degraded h = refl
closed (some e) epoch (some captured) generation degraded h = absurd (ground arith)

pub set_state-Sound :
    (new : SyncState) (detail : Option SyncErrorDetail) (s : Engine)
    → Sound s
    → Sound (set_state new detail s)
unfolding set_state is_sound
set_state-Sound new detail s h = branch-Sound _ _ _ h h

pub teardown-Sound : (s : Engine) → Sound s → Sound (teardown s)
unfolding teardown is_sound
teardown-Sound s h = torn s.session s.session_epoch s.opening s.generation s.degraded h s.degraded

pub raise_auth-Sound : (status : ℕ) (s : Engine) → Sound s → Sound (raise_auth status s)
unfolding raise_auth on_auth_change is_sound
raise_auth-Sound status s h =
    branch-Sound s.auth_gate.blocked _ _ h
      (branch-Sound (is_error s.state) _ _ h (teardown-Sound _ (set_state-Sound error _ _ h)))

pub enter_error-Sound : (d : SyncErrorDetail) (s : Engine) → Sound s → Sound (enter_error d s)
unfolding enter_error schedule_next_attempt is_sound
enter_error-Sound d s h =
    let entered = set_state-Sound error (some d) (stop_transient_timer s) h in
    branch-Sound (is_auth d.kind) _ _ (teardown-Sound _ (raise_auth-Sound _ _ entered)) (
      branch-Sound (is_terminal d.kind) _ _ (teardown-Sound _ entered)
        (branch-Sound s.degraded _ _ entered entered))

pub handle_transient_error-Sound :
    (d : SyncErrorDetail) (s : Engine) → Sound s → Sound (handle_transient_error d s)
unfolding handle_transient_error is_sound
handle_transient_error-Sound d s h =
    branch-Sound (is_terminal d.kind) _ _ (enter_error-Sound d s h) (
      branch-Sound (is_reconnecting s.state) s (set_state reconnecting none s) h
        (set_state-Sound reconnecting none s h))

pub option-Sound {ℓ} :
    {A : Type ℓ} (o : Option A) (s : Engine) (f : A → Engine)
    → Sound s
    → ((a : A) → Sound (f a))
    → Sound (elim o [ none ↦ s | some a ↦ f a ])
option-Sound none s f p q = p
option-Sound (some a) s f p q = q a

pub transient_fires-Sound : (s : Engine) → Sound s → Sound (transient_fires s)
unfolding transient_fires is_sound
transient_fires-Sound s h = option-Sound s.transient_timer s _ h (λ detail.
    branch-Sound (is_reconnecting s.state) _ _ (enter_error-Sound detail (stop_transient_timer s) h)
      h)

-- What is left to check of an engine that is torn down next.
abbrev pub Torn : Engine → Type 0
Torn s = sound_fields none s.session_epoch s.opening (s.generation + 1) s.degraded ≡ true

pub branch-Torn : (b : Bool) (s t : Engine) → Torn s → Torn t → Torn (if b then s else t)
branch-Torn true s t p q = p
branch-Torn false s t p q = q

pub handle_degraded-Sound : (s : Engine) → Sound s → Sound (handle_degraded s)
unfolding handle_degraded set_state teardown is_sound
handle_degraded-Sound s h =
    let fields = torn s.session s.session_epoch s.opening s.generation s.degraded h true in
    branch-Sound s.degraded s _ h
      (branch-Torn (same_state s.state error && not (is_error error)) _ _ fields fields)

pub handle_local_db_error-Sound :
    (e : LocalFailure) (s : Engine) → Sound s → Sound (handle_local_db_error e s)
unfolding handle_local_db_error
handle_local_db_error-Sound degraded_db s h = handle_degraded-Sound s h
handle_local_db_error-Sound halt_db s h = branch-Sound (is_error s.state) _ _ h (teardown-Sound s h)
handle_local_db_error-Sound other_db s h = h
handle_local_db_error-Sound not_db s h = h

pub stop-Sound : (s : Engine) → Sound s → Sound (stop s)
unfolding stop is_sound
stop-Sound s h = set_state-Sound disconnected none _ (teardown-Sound _ h)

pub opened :
    (session : Option ℕ) (epoch : ℕ) (opening : Option ℕ) (generation : ℕ) (degraded : Bool)
    → (is_some session || is_some opening) ≡ false
    → degraded ≡ false
    → sound_fields session epoch (some generation) generation degraded ≡ true
unfolding sound_fields
opened none epoch none generation degraded free fine = ground arith
opened none epoch (some g) generation degraded free fine = absurd (ground arith)
opened (some e) epoch opening generation degraded free fine = absurd (ground arith)

pub open_session-Sound :
    (provisioned : Bool) (s : Engine) → Sound s → Sound (open_session provisioned s)
unfolding open_session is_sound
open_session-Sound provisioned s h =
    test-Sound (is_some s.session || is_some s.opening) _ _ (λ _. h)
      (λ free. branch-Sound (not provisioned) _ _ h (
        branch-Sound s.auth_gate.blocked _ _ h (
          test-Sound s.degraded _ _ (λ _. h)
            (λ fine.
              opened s.session s.session_epoch s.opening s.generation s.degraded free fine))))

pub revived :
    (session : Option ℕ) (epoch : ℕ) (opening : Option ℕ) (generation : ℕ) (degraded : Bool)
    → sound_fields session epoch opening generation degraded ≡ true
    → sound_fields session epoch opening generation false ≡ true
unfolding sound_fields
revived none epoch none generation degraded h = refl
revived none epoch (some g) generation degraded h = ground arith
revived (some e) epoch none generation degraded h = ground arith
revived (some e) epoch (some g) generation degraded h = h

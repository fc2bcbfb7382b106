-- ===== src/Engine/Sound/Opening.antt =====
-- Opening a session keeps the invariant of sessions (src/db/sync-engine.ts).
use obsidian_couchsync.Prelude.{
  ℕ, ◌+◌, Option, none, some, Bool, true, false, eqb, is_some, ◌≡◌, refl, arith,
}
use obsidian_couchsync.AuthGate.{clear}
use obsidian_couchsync.Reconnect.{connected, syncing, classify_error}
use obsidian_couchsync.Engine.{Engine, emit, catchup_failed, set_state, enter_error}
use obsidian_couchsync.Engine.Session.{
  start, GateResult, gate_failed, client_failed, gate_passed, after_gate, OpenFailure,
  degraded_handle, other_failure, fail_open, prepare_failed, start_catchup, fail_catchup,
  finish_catchup, is_disposed, register,
}
use obsidian_couchsync.Engine.Sound.{
  sound_fields, is_sound, Sound, branch-Sound, test-Sound, closed, set_state-Sound,
  enter_error-Sound, handle_degraded-Sound, open_session-Sound, revived,
}

pub start-Sound : (provisioned : Bool) (s : Engine) → Sound s → Sound (start provisioned s)
unfolding start is_sound
start-Sound provisioned s h = branch-Sound (is_some s.session) _ _ h (
    open_session-Sound provisioned (record s { auth_gate = clear s.auth_gate; degraded = false })
      (revived s.session s.session_epoch s.opening s.generation s.degraded h))

pub registered :
    (session : Option ℕ) (epoch captured generation : ℕ) (degraded : Bool)
    → sound_fields session epoch (some captured) generation degraded ≡ true
    → eqb generation captured ≡ true
    → sound_fields (some (epoch + 1)) (epoch + 1) none generation degraded ≡ true
unfolding sound_fields
registered none epoch captured generation degraded h same = ground arith
registered (some e) epoch captured generation degraded h same = absurd (ground arith)

pub left :
    (session : Option ℕ) (epoch captured generation : ℕ) (degraded : Bool)
    → sound_fields session epoch (some captured) generation degraded ≡ true
    → sound_fields session epoch none generation degraded ≡ true
unfolding sound_fields
left none epoch captured generation degraded h = refl
left (some e) epoch captured generation degraded h = absurd (ground arith)

pub case-Sound {ℓ} :
    {A : Type ℓ} (o : Option A) (s : Engine) (f : A → Engine)
    → Sound s
    → ((a : A) → o ≡ some a → Sound (f a))
    → Sound (elim o [ none ↦ s | some a ↦ f a ])
case-Sound none s f p q = p
case-Sound (some a) s f p q = q a refl

pub gate_result :
    (result : GateResult) (s : Engine)
    → Sound s
    → sound_fields
        (some (s.session_epoch + 1))
        (s.session_epoch + 1)
        s.opening
        s.generation
        s.degraded
      ≡ true
    → Sound (elim result [
      | gate_failed e ↦ enter_error (classify_error e) s
      | client_failed e ↦ enter_error (classify_error e) s
      | gate_passed ↦ register s
    ])
unfolding is_sound set_state
gate_result (gate_failed f) s h fresh = enter_error-Sound (classify_error f) s h
gate_result (client_failed f) s h fresh = enter_error-Sound (classify_error f) s h
gate_result gate_passed s h fresh = branch-Sound _ _ _ fresh fresh

pub after_gate-Sound : (result : GateResult) (s : Engine) → Sound s → Sound (after_gate result s)
unfolding after_gate is_sound
after_gate-Sound result s h = case-Sound s.opening s _ h (λ captured pending.
    let fields : sound_fields s.session s.session_epoch (some captured) s.generation s.degraded
        ≡ true =
      rw (← pending) h in
    let closed_gate = left s.session s.session_epoch captured s.generation s.degraded fields in
    test-Sound (eqb s.generation captured) _ _
      (λ same.
        gate_result result (record s { opening = none }) closed_gate
          (registered s.session s.session_epoch captured s.generation s.degraded fields same))
      (λ _. closed_gate))

pub fail_open-Sound : (e : OpenFailure) (s : Engine) → Sound s → Sound (fail_open e s)
unfolding fail_open
fail_open-Sound degraded_handle s h = handle_degraded-Sound s h
fail_open-Sound (other_failure e) s h = enter_error-Sound (classify_error e) s h

pub prepare_failed-Sound :
    (epoch : ℕ) (e : OpenFailure) (s : Engine) → Sound s → Sound (prepare_failed epoch e s)
unfolding prepare_failed is_sound
prepare_failed-Sound epoch e s h = branch-Sound (is_disposed epoch s) _ _ h (
    fail_open-Sound e (record s { session = none })
      (closed s.session s.session_epoch s.opening s.generation s.degraded h))

pub fail_catchup-Sound :
    (epoch : ℕ) (e : OpenFailure) (s : Engine) → Sound s → Sound (fail_catchup epoch e s)
unfolding fail_catchup is_sound
fail_catchup-Sound epoch e s h = branch-Sound (is_disposed epoch s) _ _ h (
    fail_open-Sound e (emit catchup_failed (record s { session = none }))
      (closed s.session s.session_epoch s.opening s.generation s.degraded h))

pub start_catchup-Sound : (epoch : ℕ) (s : Engine) → Sound s → Sound (start_catchup epoch s)
unfolding start_catchup
start_catchup-Sound epoch s h =
    branch-Sound (is_disposed epoch s) _ _ h (set_state-Sound syncing none s h)

pub finish_catchup-Sound :
    (epoch now : ℕ) (s : Engine) → Sound s → Sound (finish_catchup epoch now s)
unfolding finish_catchup is_sound
finish_catchup-Sound epoch now s h =
    branch-Sound (is_disposed epoch s) _ _ h
      (set_state-Sound connected none (record s { last_healthy = now }) h)

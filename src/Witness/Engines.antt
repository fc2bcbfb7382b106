-- ===== src/Witness/Engines.antt =====
-- The theorems about the engine, its probes and its delays at concrete data.
use obsidian_couchsync.Prelude.{
  ℕ, ◌+◌, ◌≤◌, ◌≡◌, refl, List, [], ◌∷◌, none, some, true, false, ◌++◌, arith, min, ◌-◌, length,
}
use obsidian_couchsync.Prelude.Text.{Text, lit, starts_with, split, split_go, text_beq}
use obsidian_couchsync.Backoff.{new_schedule, next_delay, default_delays_ms, nth}
use obsidian_couchsync.Backoff.Bounds.{failed, succeeded, run_backoff, streak, next_delay-bounds}
use obsidian_couchsync.Reconnect.{
  error, connected, network, server, SyncErrorDetail, ReconnectInput, manual, app_resume,
  network_online, decide_reconnect, Failure,
}
use obsidian_couchsync.Reconnect.Policy.{is_skip, is_restart, decide_reconnect_iff}
use obsidian_couchsync.Engine.{Engine, halt_db}
use obsidian_couchsync.Engine.Session.{gate_passed}
use obsidian_couchsync.Engine.Reconnecting.{Verdict, reachable}
use obsidian_couchsync.Engine.Verify.{Probe, verify_reachable}
use obsidian_couchsync.Engine.Verify.Budget.{verify_reachable-ends}
use obsidian_couchsync.Engine.Sound.{is_sound, sound_fields}
use obsidian_couchsync.Engine.Steps.{
  step, Input, new_engine, started, stopped, settled, verified, gate_ended, catchup_starts,
  catchup_ends, local_error, run_engine,
}
use obsidian_couchsync.Engine.Steps.Sessions.{run_engine-is_sound}
use obsidian_couchsync.Engine.Steps.Rounds.{IsWaiting, failed_rounds, good_round}
use obsidian_couchsync.Engine.Steps.Recovery.{failed_rounds-recover}
use obsidian_couchsync.Engine.Steps.Halted.{
  IsStranded, tick, asked, hint_inputs, halt-IsStranded, stop-verified,
}
use obsidian_couchsync.VaultPath.{unsafe_vault_path_reason, has_unit, has_drive}
use obsidian_couchsync.VaultPath.Sandbox.{target, unsafe_vault_path_reason-inside}

abbrev offline : Failure
offline = record {
  status = none;
  non_retriable = false;
  paused = false;
  fatal_encryption = false;
  looks_aborted = false;
  looks_stale = false;
  looks_timed_out = false;
  looks_offline = true;
}

abbrev probe_offline : ℕ → Probe
probe_offline attempt = record { elapsed = 40; thrown = some offline }

verify_reachable-ends_example :
    (v : Verdict) × (verify_reachable probe_offline app_resume 100000 ≡ some v)
verify_reachable-ends_example = verify_reachable-ends probe_offline app_resume 100000

next_delay-bounds_example :
    (d : ℕ) × (next_delay (
        run_backoff
          (failed ∷ succeeded ∷ failed ∷ failed ∷ failed ∷ [])
          (record { step = 0; delays = default_delays_ms }))
      ≡ some d)
    × (nth default_delays_ms (
          min
            (streak (failed ∷ succeeded ∷ failed ∷ failed ∷ failed ∷ []) 0)
            (length default_delays_ms - 1))
        ≡ some d)
    × (1000 ≤ d)
    × (d ≤ 21000)
unfolding new_schedule
next_delay-bounds_example =
    next_delay-bounds 1000 21000 default_delays_ms (record { step = 0; delays = default_delays_ms })
      (failed ∷ succeeded ∷ failed ∷ failed ∷ failed ∷ []) refl refl

abbrev asks_manually : ReconnectInput
asks_manually = record {
  state = connected;
  reason = manual;
  auth_error = false;
  cool_down_active = false;
}

decide_reconnect_iff_example :
    (is_skip (decide_reconnect asks_manually) ≡ false)
    × (is_restart (decide_reconnect asks_manually) ≡ true)
decide_reconnect_iff_example = decide_reconnect_iff asks_manually

-- A run from the start to a live session.
abbrev first_session : List Input
first_session = started true ∷ gate_ended gate_passed ∷ catchup_starts 1 ∷ catchup_ends 1 5000 ∷ []

new_engine-is_sound : is_sound new_engine ≡ true
unfolding is_sound sound_fields
new_engine-is_sound = refl

run_engine-is_sound_example : is_sound (run_engine first_session new_engine) ≡ true
run_engine-is_sound_example = run_engine-is_sound first_session new_engine new_engine-is_sound

abbrev waiting_engine : Engine
waiting_engine = record new_engine { state = error; retry_timer = some 1000 }

abbrev rounds : List (SyncErrorDetail × ℕ)
rounds =
    (record { kind = network; code = none }, 7000)
    ∷ (record { kind = server; code = some 503 }, 9000)
    ∷ []

failed_rounds-recover_example :
    IsWaiting (failed_rounds rounds waiting_engine)
    × ((failed_rounds rounds waiting_engine).backoff.step ≡ 2)
    × ((good_round 12000 (failed_rounds rounds waiting_engine)).state ≡ connected)
    × ((good_round 12000 (failed_rounds rounds waiting_engine)).session
        ≡ some ((failed_rounds rounds waiting_engine).session_epoch + 1))
    × ((good_round 12000 (failed_rounds rounds waiting_engine)).backoff.step ≡ 0)
    × ((good_round 12000 (failed_rounds rounds waiting_engine)).retry_timer ≡ none)
    × ((good_round 12000 (failed_rounds rounds waiting_engine)).in_flight ≡ none)
failed_rounds-recover_example = failed_rounds-recover rounds 12000 waiting_engine refl (record {
  failed_state = refl;
  armed = (1000, refl, omega arith);
  table = refl;
  idle = refl;
  shut = refl;
  unlatched = refl;
  usable = refl;
  numbered = refl;
})

abbrev connected_engine : Engine
connected_engine = record new_engine { state = connected; session = some 3; session_epoch = 3 }

halt-IsStranded_example : IsStranded (
    run_engine
      (local_error halt_db
        ∷ hint_inputs (tick 30000 ∷ asked network_online 40000 ∷ tick 60000 ∷ []))
      connected_engine)
halt-IsStranded_example =
    halt-IsStranded (tick 30000 ∷ asked network_online 40000 ∷ tick 60000 ∷ []) connected_engine
      refl refl refl refl

stop-verified_example :
    (run_engine
      (stopped ∷ verified reachable 12000 ∷ settled true ∷ gate_ended gate_passed ∷ [])
      waiting_engine).session
    ≡ some 1
stop-verified_example = stop-verified waiting_engine 12000 refl refl refl

abbrev vault_folders : List Text
vault_folders = lit "vault" ∷ lit "home" ∷ []

today-safe : unsafe_vault_path_reason (lit "notes/./today.md") ≡ none
unfolding unsafe_vault_path_reason has_unit starts_with has_drive split split_go text_beq
today-safe = refl

unsafe_vault_path_reason-inside_example :
    (rest : List Text) × (target vault_folders (lit "notes/./today.md") ≡ rest ++ vault_folders)
unsafe_vault_path_reason-inside_example =
    unsafe_vault_path_reason-inside (lit "notes/./today.md") vault_folders today-safe

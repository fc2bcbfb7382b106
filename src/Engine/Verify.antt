-- ===== src/Engine/Verify.antt =====
-- The loop of reachability probes (src/db/sync-engine.ts, `verifyReachable`).
pub mod Budget
use obsidian_couchsync.Prelude.{
  ℕ, zero, suc, ◌+◌, ◌-◌, ◌*◌, min, Option, none, some, Bool, true, false, not, ◌&&◌, ltb,
  if◌then◌else◌,
}
use obsidian_couchsync.Reconnect.{
  SyncErrorKind, auth, network, timeout, server, not_found, aborted, schema_mismatch,
  encryption_paused, unknown, SyncErrorDetail, ReconnectReason, app_resume, network_online, Failure,
  classify_error,
}
use obsidian_couchsync.Engine.Reconnecting.{Verdict, reachable, inconclusive, failed}

unfoldable pub verify_timeout_ms : ReconnectReason → ℕ
verify_timeout_ms app_resume = 15000
verify_timeout_ms network_online = 15000
verify_timeout_ms _ = 5000

abbrev pub verify_attempt_timeout_ms : ℕ
verify_attempt_timeout_ms = 3000

abbrev pub verify_attempt_min_spacing_ms : ℕ
verify_attempt_min_spacing_ms = 1000

-- One call of `client.info()`: how long it took, and what it threw.
pub record Probe : Type 0 where
  pub elapsed : ℕ
  pub thrown : Option Failure

-- The kinds that another probe cannot change.
abbrev pub is_definitive : SyncErrorKind → Bool
is_definitive auth = true
is_definitive schema_mismatch = true
is_definitive encryption_paused = true
is_definitive not_found = true
is_definitive server = true
is_definitive _ = false

abbrev pub is_aborted : SyncErrorKind → Bool
is_aborted aborted = true
is_aborted _ = false

-- The loop keeps the message, the name and the status of an error only.
abbrev pub as_thrown : Failure → Failure
as_thrown e = record e { non_retriable = false; paused = false; fatal_encryption = false }

-- The clock after the pause that follows a failed attempt.
unfoldable pub after_spacing : ℕ → ℕ → ℕ → ℕ
after_spacing now elapsed deadline =
    now + elapsed + min (verify_attempt_min_spacing_ms - elapsed) (deadline - (now + elapsed))

-- The budget is spent: an error that says nothing is reported as `network`.
unfoldable pub unreachable_detail : Option SyncErrorDetail → SyncErrorDetail
unreachable_detail none = record { kind = timeout; code = none }
unreachable_detail (some detail) = elim detail.kind [
  | unknown ↦ record detail { kind = network }
  | aborted ↦ record detail { kind = network }
  | _ ↦ detail
]

-- The loop from the clock `now`, where `probe i` is the answer to the attempt `i` and `last` what
-- the last attempt threw. `none`: the fuel was too little.
unfoldable pub verify_loop : (ℕ → Probe) → ℕ → ℕ → Option SyncErrorDetail → ℕ → ℕ → Option Verdict
verify_loop probe deadline attempt last now zero =
    if ltb now deadline then none else some (failed (unreachable_detail last))
verify_loop probe deadline attempt last now (suc fuel) =
    let p = probe attempt in
    let step : Option Verdict = elim p.thrown [
      | none ↦ some reachable
      | some e ↦
          let detail = classify_error (as_thrown e) in
          let again =
            verify_loop probe deadline (attempt + 1) (some detail)
              (after_spacing now p.elapsed deadline) fuel in
          if is_aborted detail.kind && ltb (verify_attempt_timeout_ms * 2) p.elapsed
          then some inconclusive
          else if is_definitive detail.kind
          then some (failed detail)
          else again
    ] in
    if ltb now deadline then step else some (failed (unreachable_detail last))

-- Attempts are spaced by 1000 ms, so this fuel is enough (Engine/Verify/Budget).
abbrev pub verify_fuel : ReconnectReason → ℕ
verify_fuel app_resume = 15
verify_fuel network_online = 15
verify_fuel _ = 5

unfoldable pub verify_reachable : (ℕ → Probe) → ReconnectReason → ℕ → Option Verdict
verify_reachable probe reason start =
    verify_loop probe (start + verify_timeout_ms reason) 0 none start (verify_fuel reason)

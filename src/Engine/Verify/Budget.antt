-- ===== src/Engine/Verify/Budget.antt =====
-- The probes fit in the budget.
use obsidian_couchsync.Prelude.{
  ℕ, zero, suc, ◌+◌, ◌*◌, ◌≤◌, Option, none, some, ◌&&◌, ltb, ◌≡◌, refl, arith, Option-cases,
  Bool-cases, inl, inr,
}
use obsidian_couchsync.Reconnect.{
  SyncErrorDetail, ReconnectReason, app_resume, network_online, classify_error, app_foreground,
  periodic_tick, stalled, manual, config_failure, retry_backoff,
}
use obsidian_couchsync.Engine.Reconnecting.{Verdict, reachable, inconclusive, failed}
use obsidian_couchsync.Engine.Verify.{
  Probe, verify_loop, verify_reachable, after_spacing, verify_timeout_ms, verify_fuel, as_thrown,
  is_aborted, is_definitive, verify_attempt_timeout_ms, unreachable_detail,
}

after_spacing_lower :
    (now elapsed deadline budget : ℕ)
    → deadline ≤ now + 1000 + budget
    → deadline ≤ after_spacing now elapsed deadline + budget
unfolding after_spacing
after_spacing_lower now elapsed deadline budget h = ground arith

verify_loop-ends :
    (probe : ℕ → Probe) (deadline attempt : ℕ) (last : Option SyncErrorDetail) (now fuel : ℕ)
    → deadline ≤ now + 1000 * fuel
    → (v : Verdict) × (verify_loop probe deadline attempt last now fuel ≡ some v)
unfolding verify_loop
verify_loop-ends probe deadline attempt last now zero h =
    (failed (unreachable_detail last), ground arith)
verify_loop-ends probe deadline attempt last now (suc fuel) h =
    let p = probe attempt in
    elim (Bool-cases (ltb now deadline)) [
      | inr late ↦ (failed (unreachable_detail last), rw (late) refl)
      | inl early ↦ elim (Option-cases p.thrown) [
        | inl ok ↦ (reachable, rw (early, ok) refl)
        | inr (e, threw) ↦
            let detail = classify_error (as_thrown e) in
            let (v, ends) =
              verify_loop-ends probe deadline (attempt + 1) (some detail)
                (after_spacing now p.elapsed deadline) fuel
                (after_spacing_lower now p.elapsed deadline (1000 * fuel) (omega (arith, h))) in
            elim (Bool-cases
              (is_aborted detail.kind && ltb (verify_attempt_timeout_ms * 2) p.elapsed)) [
                | inl frozen ↦ (inconclusive, rw (early, threw, frozen) refl)
                | inr awake ↦ elim (Bool-cases (is_definitive detail.kind)) [
                  | inl final ↦ (failed detail, rw (early, threw, awake, final) refl)
                  | inr more ↦ (v, rw (early, threw, awake, more) ends)
                ]
              ]
      ]
    ]

budget :
    (reason : ReconnectReason) (start : ℕ)
    → start + verify_timeout_ms reason ≤ start + 1000 * verify_fuel reason
unfolding verify_timeout_ms
budget network_online start = omega arith
budget app_foreground start = omega arith
budget app_resume start = omega arith
budget periodic_tick start = omega arith
budget stalled start = omega arith
budget manual start = omega arith
budget config_failure start = omega arith
budget retry_backoff start = omega arith

-- Whatever the probes answer and however long they take, the loop of probes ends within its fuel
-- with a verdict.
pub verify_reachable-ends :
    (probe : ℕ → Probe) (reason : ReconnectReason) (start : ℕ)
    → (v : Verdict) × (verify_reachable probe reason start ≡ some v)
unfolding verify_reachable
verify_reachable-ends probe reason start =
    verify_loop-ends probe (start + verify_timeout_ms reason) 0 none start (verify_fuel reason)
      (budget reason start)

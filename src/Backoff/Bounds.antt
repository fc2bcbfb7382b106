-- ===== src/Backoff/Bounds.antt =====
-- The delays that a schedule hands out.
use obsidian_couchsync.Prelude.{
  ℕ, zero, suc, ◌+◌, ◌-◌, ◌≤◌, ◌<◌, min, List, [], ◌∷◌, some, true, length, ◌≡◌, refl, arith, sym,
  ap, ◌∙◌, all, some_inj, ◌&&◌, leb,
}
use obsidian_couchsync.Backoff.{
  nth, default_delays_ms, BackoffSchedule, new_schedule, next_delay, record_failure, record_success,
}

pub data BackoffEvent : Type 0 where
  failed succeeded : BackoffEvent

unfoldable pub run_backoff : List BackoffEvent → BackoffSchedule → BackoffSchedule
run_backoff [] b = b
run_backoff (failed ∷ events) b = run_backoff events (record_failure b)
run_backoff (succeeded ∷ events) b = run_backoff events (record_success b)

-- The failures since the last success.
unfoldable pub streak : List BackoffEvent → ℕ → ℕ
streak [] n = n
streak (failed ∷ events) n = streak events (n + 1)
streak (succeeded ∷ events) n = streak events 0

run_backoff-streak :
    (events : List BackoffEvent) (b : BackoffSchedule)
    → (run_backoff events b).step ≡ streak events b.step
unfolding run_backoff streak record_failure record_success
run_backoff-streak [] b = refl
run_backoff-streak (failed ∷ events) b = run_backoff-streak events (record_failure b)
run_backoff-streak (succeeded ∷ events) b = run_backoff-streak events (record_success b)

run_backoff-delays :
    (events : List BackoffEvent) (b : BackoffSchedule) → (run_backoff events b).delays ≡ b.delays
unfolding run_backoff record_failure record_success
run_backoff-delays [] b = refl
run_backoff-delays (failed ∷ events) b = run_backoff-delays events (record_failure b)
run_backoff-delays (succeeded ∷ events) b = run_backoff-delays events (record_success b)

nth-is_some : (xs : List ℕ) (i : ℕ) → i < length xs → (d : ℕ) × (nth xs i ≡ some d)
unfolding nth
nth-is_some [] i h = absurd (omega arith)
nth-is_some (x ∷ xs) zero h = (x, refl)
nth-is_some (x ∷ xs) (suc i) h = nth-is_some xs i (omega arith)

nth-bound :
    (lo hi : ℕ) (xs : List ℕ) (i d : ℕ)
    → all (λ x. leb lo x && leb x hi) xs ≡ true
    → nth xs i ≡ some d
    → (lo ≤ d) × (d ≤ hi)
unfolding nth
nth-bound lo hi [] i d w h = absurd (cc)
nth-bound lo hi (x ∷ xs) zero d w h = let same = some_inj h in (ground arith, ground arith)
nth-bound lo hi (x ∷ xs) (suc i) d w h = nth-bound lo hi xs i d (ground arith) h

-- After any events, a schedule made from a table that lies within two bounds hands out the table's
-- entry at the number of failures since the last success, or its last entry where that number is
-- too large. So there is always a delay, and it lies within the bounds.
pub next_delay-bounds :
    (lo hi : ℕ) (table : List ℕ) (b : BackoffSchedule) (events : List BackoffEvent)
    → new_schedule table ≡ some b
    → all (λ d. leb lo d && leb d hi) table ≡ true
    → (d : ℕ) × (next_delay (run_backoff events b) ≡ some d)
      × (nth table (min (streak events 0) (length table - 1)) ≡ some d)
      × (lo ≤ d)
      × (d ≤ hi)
unfolding new_schedule next_delay
next_delay-bounds lo hi [] b events made within = absurd (cc)
next_delay-bounds lo hi (x ∷ xs) b events made within =
    let same = some_inj made in
    let steps = run_backoff-streak events b ∙ ap (λ c. streak events c.step) (sym same) in
    let table = run_backoff-delays events b ∙ ap (λ c. c.delays) (sym same) in
    let at = min (streak events 0) (length (x ∷ xs) - 1) in
    let (d, found) = nth-is_some (x ∷ xs) at (ground arith) in
    let (low, high) = nth-bound lo hi (x ∷ xs) at d within found in
    (d, rw (steps, table, found), found, low, high)

-- The default table.
pub next_delay-default :
    (b : BackoffSchedule)
    → b.delays ≡ default_delays_ms
    → (d : ℕ) × (next_delay b ≡ some d) × (1000 ≤ d) × (d ≤ 21000)
unfolding next_delay
next_delay-default b table =
    let at = min b.step (length default_delays_ms - 1) in
    let (d, found) = nth-is_some default_delays_ms at (ground arith) in
    let (low, high) = nth-bound 1000 21000 default_delays_ms at d refl found in
    (d, rw (table, found) refl, low, high)

-- ===== src/Engine/Steps/Recovery.antt =====
-- The engine recovers from hard errors (src/db/sync-engine.ts).
use obsidian_couchsync.Prelude.{
  ℕ, ◌+◌, List, [], ◌∷◌, none, some, true, not, all, ◌≡◌, refl, arith, length,
}
use obsidian_couchsync.Backoff.{record_success}
use obsidian_couchsync.Reconnect.{connected, SyncErrorDetail}
use obsidian_couchsync.Engine.{Engine, is_terminal}
use obsidian_couchsync.Engine.Steps.Rounds.{
  IsWaiting, failed_round, failed_rounds, good_round, failed_round-IsWaiting, good_round-lem,
}

failed_rounds-IsWaiting :
    (rounds : List (SyncErrorDetail × ℕ)) (s : Engine)
    → all (λ r. not (is_terminal r.0.kind)) rounds ≡ true
    → IsWaiting s
    → IsWaiting (failed_rounds rounds s)
      × ((failed_rounds rounds s).backoff.step ≡ s.backoff.step + length rounds)
unfolding failed_rounds
failed_rounds-IsWaiting [] s ok w = (w, omega arith)
failed_rounds-IsWaiting ((detail, now) ∷ rounds) s ok w =
    let (next, counted) = failed_round-IsWaiting detail now s (ground arith) w in
    let (waiting, total) =
      failed_rounds-IsWaiting rounds (failed_round detail now s) (ground arith) next in
    (waiting, omega (arith, counted, total))

-- An engine that waits in a hard error for its retry, with the default table of delays, nothing else
-- under way and no session beyond the newest epoch, goes on to wait after any number of rounds whose probes fail with errors that only
-- time can mend: a retry is set, at most 21 s later, and each round counts one failure. The first
-- round in which the server answers and the session opens connects it with a new session, and
-- resets the schedule and the timers.
pub failed_rounds-recover :
    (rounds : List (SyncErrorDetail × ℕ)) (now : ℕ) (s : Engine)
    → all (λ r. not (is_terminal r.0.kind)) rounds ≡ true
    → IsWaiting s
    → IsWaiting (failed_rounds rounds s)
      × ((failed_rounds rounds s).backoff.step ≡ s.backoff.step + length rounds)
      × ((good_round now (failed_rounds rounds s)).state ≡ connected)
      × ((good_round now (failed_rounds rounds s)).session
          ≡ some ((failed_rounds rounds s).session_epoch + 1))
      × ((good_round now (failed_rounds rounds s)).backoff.step ≡ 0)
      × ((good_round now (failed_rounds rounds s)).retry_timer ≡ none)
      × ((good_round now (failed_rounds rounds s)).in_flight ≡ none)
unfolding record_success
failed_rounds-recover rounds now s ok w =
    let (waiting, counted) = failed_rounds-IsWaiting rounds s ok w in
    let up = good_round-lem now (failed_rounds rounds s) waiting in
    (waiting, counted, rw up refl, rw up refl, rw up refl, rw up refl, rw up refl)

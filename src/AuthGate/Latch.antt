-- ===== src/AuthGate/Latch.antt =====
-- The latch over sequences of calls (src/db/sync/auth-gate.ts).
use obsidian_couchsync.Prelude.{
  ℕ, ◌≡◌, inl, inr, List, [], ◌∷◌, Option, Bool, true, not, ◌&&◌, arith, is_some, bool_eq,
  Bool-cases,
}
use obsidian_couchsync.Prelude.Text.{Text}
use obsidian_couchsync.AuthGate.{
  AuthErrorDetail, AuthGate, raise, clear, AuthStep, raised, cleared, run_auth,
}

-- The notifications, the latest first, are rejections and clearings by turns, and the latest tells
-- the state `b`.
abbrev pub alternates : Bool → List (Option AuthErrorDetail) → Bool
alternates b [] = not b
alternates b (detail ∷ fired) = bool_eq (is_some detail) b && alternates (not b) fired

-- The latch and its error agree, and so do the latch and the notifications.
abbrev pub is_consistent : AuthGate → Bool
is_consistent g = bool_eq g.blocked (is_some g.last_error) && alternates g.blocked g.fired

raise-consistent :
    (status : ℕ) (reason : Option Text) (g : AuthGate)
    → is_consistent g ≡ true
    → is_consistent (raise status reason g) ≡ true
unfolding raise
raise-consistent status reason g h = elim (Bool-cases g.blocked) [
  | inl shut ↦ rw (shut, raise) (ground arith)
  | inr free ↦ rw (free, raise) (ground arith)
]

clear-consistent : (g : AuthGate) → is_consistent g ≡ true → is_consistent (clear g) ≡ true
unfolding clear
clear-consistent g h = elim (Bool-cases g.blocked) [
  | inl shut ↦ rw (shut, clear) (ground arith)
  | inr free ↦ rw (free, clear) (ground arith)
]

-- Whatever calls are made on a consistent gate, such as a new one, the gate stays consistent: it is
-- blocked exactly while it holds the detail of a rejection, and its listeners are told of rejections
-- and clearings by turns, never twice of the same transition.
pub run_auth-consistent :
    (steps : List AuthStep) (g : AuthGate)
    → is_consistent g ≡ true
    → is_consistent (run_auth steps g) ≡ true
unfolding run_auth
run_auth-consistent [] g h = h
run_auth-consistent (raised status reason ∷ steps) g h =
    run_auth-consistent steps (raise status reason g) (raise-consistent status reason g h)
run_auth-consistent (cleared ∷ steps) g h =
    run_auth-consistent steps (clear g) (clear-consistent g h)

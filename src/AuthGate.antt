-- ===== src/AuthGate.antt =====
-- The latch of rejected credentials (src/db/sync/auth-gate.ts).
pub mod Latch
use obsidian_couchsync.Prelude.{
  ℕ, List, [], ◌∷◌, Option, none, some, Bool, true, false, if◌then◌else◌, or_default,
}
use obsidian_couchsync.Prelude.Text.{Text}

pub record AuthErrorDetail : Type 0 where
  pub status : ℕ
  pub reason : Text

-- The fields `blocked` and `lastError`, and what the listeners were told, the latest first.
pub record AuthGate : Type 0 where
  pub blocked : Bool
  pub last_error : Option AuthErrorDetail
  pub fired : List (Option AuthErrorDetail)

abbrev pub open_gate : AuthGate
open_gate = record { blocked = false; last_error = none; fired = [] }

abbrev fire : Option AuthErrorDetail → AuthGate → AuthGate
fire detail g = record g { fired = detail ∷ g.fired }

unfoldable pub raise : ℕ → Option Text → AuthGate → AuthGate
raise status reason g =
    let detail : AuthErrorDetail = record { status = status; reason = or_default reason [] } in
    if g.blocked
    then record g { last_error = some detail }
    else fire (some detail) (record g { last_error = some detail; blocked = true })

unfoldable pub clear : AuthGate → AuthGate
clear g = if g.blocked then fire none (record g { blocked = false; last_error = none }) else g

pub data AuthStep : Type 0 where
  raised : ℕ → Option Text → AuthStep
  cleared : AuthStep

unfoldable pub run_auth : List AuthStep → AuthGate → AuthGate
run_auth [] g = g
run_auth (raised status reason ∷ steps) g = run_auth steps (raise status reason g)
run_auth (cleared ∷ steps) g = run_auth steps (clear g)

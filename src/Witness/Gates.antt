-- ===== src/Witness/Gates.antt =====
-- The theorem about the composition gate at concrete data.
use obsidian_couchsync.Prelude.{◌≡◌, List, [], ◌∷◌, ◌++◌, true, false}
use obsidian_couchsync.Prelude.Text.{lit}
use obsidian_couchsync.CompositionGate.{
  CompositionGate, GateEvent, deferred_op, composition_ended, ended, run_gate,
}
use obsidian_couchsync.CompositionGate.Fifo.{line_of, deferred_for, run_gate-fifo}

abbrev idle_gate : CompositionGate
idle_gate = record { deferred = []; timers = []; drains = []; runs = []; cancelled = [] }

-- Two writes wait for the end of a composition, and the run of the first ends.
abbrev composed : List GateEvent
composed =
    deferred_op (lit "a.md") 1 true
    ∷ deferred_op (lit "b.md") 2 false
    ∷ deferred_op (lit "a.md") 3 true
    ∷ composition_ended (lit "a.md") false
    ∷ ended (lit "a.md") false
    ∷ []

run_gate-fifo_example :
    line_of (lit "a.md") (run_gate composed idle_gate)
    ≡ line_of (lit "a.md") idle_gate ++ deferred_for (lit "a.md") composed
run_gate-fifo_example = run_gate-fifo (lit "a.md") composed idle_gate

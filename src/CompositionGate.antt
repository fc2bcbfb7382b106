-- ===== src/CompositionGate.antt =====
-- The gate that holds vault writes back during IME composition (src/sync/composition-gate.ts). An
-- entry is a number. `drains` has the paths of `draining` with the `force` of their drain, and `runs`
-- the entries whose run was started, in order.
pub mod Fifo
use obsidian_couchsync.Prelude.{
  ℕ, List, [], ◌∷◌, ◌++◌, Option, none, some, Bool, true, false, not, ◌&&◌, if◌then◌else◌, is_some,
  or_default, contains, filter, ◌==◌,
}
use obsidian_couchsync.Prelude.Dict.{Dict, lookup, insert, erase}
use obsidian_couchsync.Prelude.Text.{Text, text_eq}

pub record CompositionGate : Type 0 where
  pub deferred : Dict Text (List ℕ)
  pub timers : List Text
  pub drains : Dict Text Bool
  pub runs : List (Text × ℕ)
  pub cancelled : List ℕ

-- `this.deferred.get(path) ?? []`
abbrev pub queue_of : Text → CompositionGate → List ℕ
queue_of path g = or_default (lookup path g.deferred) []

abbrev without : Text → List Text → List Text
without path paths = filter (λ p. not (p == path)) paths

-- One turn of the loop of `runQueue`, up to the await of a run or to the end.
unfoldable pub drain_turn : Text → Bool → Bool → CompositionGate → CompositionGate
drain_turn path force composing g = elim (queue_of path g) [
  | [] ↦ record g {
    deferred = erase path g.deferred;
    timers = without path g.timers;
    drains = erase path g.drains;
  }
  | entry ∷ rest ↦
      if not force && composing then record g { drains = erase path g.drains } else record g {
        deferred = insert path rest g.deferred;
        runs = g.runs ++ ((path, entry) ∷ []);
      }
]

unfoldable pub run_queue : Text → Bool → Bool → CompositionGate → CompositionGate
run_queue path force composing g =
    if is_some (lookup path g.drains)
    then g
    else drain_turn path force composing (record g { drains = insert path force g.drains })

unfoldable pub arm_timer : Text → CompositionGate → CompositionGate
arm_timer path g = if contains path g.timers then g else record g { timers = path ∷ g.timers }

unfoldable pub defer : Text → ℕ → Bool → CompositionGate → CompositionGate
defer path entry composing g = run_queue path false composing (
    arm_timer path
      (record g { deferred = insert path (queue_of path g ++ (entry ∷ [])) g.deferred }))

-- The run that a drain awaits has ended, well or not.
unfoldable pub run_ended : Text → Bool → CompositionGate → CompositionGate
run_ended path composing g = elim (lookup path g.drains) [
  | none ↦ g
  | some force ↦ drain_turn path force composing g
]

unfoldable pub timer_fires : Text → Bool → CompositionGate → CompositionGate
timer_fires path composing g =
    run_queue path true composing (record g { timers = without path g.timers })

-- The entries of all queues.
unfoldable pub all_entries : Dict Text (List ℕ) → List ℕ
all_entries [] = []
all_entries ((path, queue) ∷ deferred) = queue ++ all_entries deferred

unfoldable pub flush_all : CompositionGate → CompositionGate
flush_all g = record g {
  deferred = [];
  timers = [];
  cancelled = g.cancelled ++ all_entries g.deferred;
}

-- What happens at the gate, with whether the path is composing then.
pub data GateEvent : Type 0 where
  deferred_op : Text → ℕ → Bool → GateEvent
  composition_ended ended timed_out forced : Text → Bool → GateEvent

unfoldable pub gate_step : GateEvent → CompositionGate → CompositionGate
gate_step (deferred_op path entry composing) g = defer path entry composing g
gate_step (composition_ended path composing) g = run_queue path false composing g
gate_step (ended path composing) g = run_ended path composing g
gate_step (timed_out path composing) g = timer_fires path composing g
gate_step (forced path composing) g = run_queue path true composing g

unfoldable pub run_gate : List GateEvent → CompositionGate → CompositionGate
run_gate [] g = g
run_gate (e ∷ events) g = run_gate events (gate_step e g)

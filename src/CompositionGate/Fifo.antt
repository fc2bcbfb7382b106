-- ===== src/CompositionGate/Fifo.antt =====
-- The order of the runs of a path (src/sync/composition-gate.ts).
use obsidian_couchsync.Prelude.{
  ℕ, List, [], ◌∷◌, ◌++◌, Bool, true, false, not, ◌&&◌, if◌then◌else◌, is_some, or_default,
  contains, ◌==◌, ◌≡◌, refl, Bool-cases, Option-cases, List-cases, inl, inr, ap, ◌∙◌, sym,
}
use mathlib.Core.List.{append-nil, append_assoc}
use obsidian_couchsync.Prelude.Dict.{Dict, lookup, insert, erase, lookup-insert, lookup-erase}
use obsidian_couchsync.Prelude.Text.{Text, text_eq, text_beq_iff}
use obsidian_couchsync.CompositionGate.{
  CompositionGate, queue_of, drain_turn, run_queue, arm_timer, defer, run_ended, timer_fires,
  GateEvent, deferred_op, composition_ended, ended, timed_out, forced, gate_step, run_gate,
}

-- The entries that are run for a path, in order.
unfoldable pub runs_of : Text → List (Text × ℕ) → List ℕ
runs_of path [] = []
runs_of path ((p, entry) ∷ runs) =
    let rest = runs_of path runs in if p == path then entry ∷ rest else rest

-- The entries that are deferred for a path, in order.
unfoldable pub deferred_for : Text → List GateEvent → List ℕ
deferred_for path [] = []
deferred_for path (deferred_op p entry composing ∷ events) =
    let rest = deferred_for path events in if p == path then entry ∷ rest else rest
deferred_for path (_ ∷ events) = deferred_for path events

-- What a path has run and has still to run.
abbrev pub line_of : Text → CompositionGate → List ℕ
line_of path g = runs_of path g.runs ++ queue_of path g

runs_of-append :
    (path : Text) (xs ys : List (Text × ℕ))
    → runs_of path (xs ++ ys) ≡ runs_of path xs ++ runs_of path ys
unfolding runs_of
runs_of-append path [] ys = refl
runs_of-append path ((p, entry) ∷ xs) ys = elim (Bool-cases (p == path)) [
  | inl e ↦ rw (e, runs_of-append path xs ys) refl
  | inr e ↦ rw (e, runs_of-append path xs ys) refl
]

runs_of-one :
    (path p : Text) (entry : ℕ)
    → runs_of path ((p, entry) ∷ []) ≡ (if p == path then entry ∷ [] else [])
unfolding runs_of
runs_of-one path p entry = refl

line_of-branch :
    (path : Text) (b : Bool) (g h : CompositionGate) (line : List ℕ)
    → line_of path g ≡ line
    → line_of path h ≡ line
    → line_of path (if b then g else h) ≡ line
line_of-branch path true g h line p q = p
line_of-branch path false g h line p q = q

erased :
    (path p : Text) (m : Dict Text (List ℕ))
    → or_default (lookup p m) [] ≡ []
    → or_default (lookup path (erase p m)) [] ≡ or_default (lookup path m) []
erased path p m e =
    ap (λ o. or_default o []) (lookup-erase path p m) ∙ elim (Bool-cases (p == path)) [
      | inl same ↦
          let here : p ≡ path = (text_beq_iff p path).0 same in
          rw same (sym (ap (λ i. or_default (lookup i m) []) (sym here) ∙ e))
      | inr other ↦ rw other refl
    ]

moved :
    (path p : Text) (entry : ℕ) (rest : List ℕ) (runs : List (Text × ℕ)) (m : Dict Text (List ℕ))
    → or_default (lookup p m) [] ≡ entry ∷ rest
    → runs_of path (runs ++ ((p, entry) ∷ [])) ++ or_default (lookup path (insert p rest m)) []
      ≡ runs_of path runs ++ or_default (lookup path m) []
moved path p entry rest runs m e =
    rw
      (
        runs_of-append path runs ((p, entry) ∷ []),
        runs_of-one path p entry,
        lookup-insert path p rest m,
      )
      (elim (Bool-cases (p == path)) [
        | inl same ↦
            let here : p ≡ path = (text_beq_iff p path).0 same in
            rw same (
              append_assoc (runs_of path runs) (entry ∷ []) rest
              ∙ ap (λ q. runs_of path runs ++ q)
                  (sym (ap (λ i. or_default (lookup i m) []) (sym here) ∙ e)))
        | inr other ↦
            rw other (ap (λ q. q ++ or_default (lookup path m) []) (append-nil (runs_of path runs)))
      ])

line_of-drain_turn :
    (path p : Text) (force composing : Bool) (g : CompositionGate)
    → line_of path (drain_turn p force composing g) ≡ line_of path g
unfolding drain_turn
line_of-drain_turn path p force composing g = elim (List-cases (queue_of p g)) [
  | inl e ↦ rw (drain_turn, e) (ap (λ q. runs_of path g.runs ++ q) (erased path p g.deferred e))
  | inr (entry, rest, e) ↦
      rw (drain_turn, e)
        (line_of-branch path (not force && composing) _ _ _ refl
          (moved path p entry rest g.runs g.deferred e))
]

line_of-run_queue :
    (path p : Text) (force composing : Bool) (g : CompositionGate)
    → line_of path (run_queue p force composing g) ≡ line_of path g
unfolding run_queue
line_of-run_queue path p force composing g =
    line_of-branch path (is_some (lookup p g.drains)) _ _ _ refl
      (line_of-drain_turn path p force composing (record g { drains = insert p force g.drains }))

line_of-run_ended :
    (path p : Text) (composing : Bool) (g : CompositionGate)
    → line_of path (run_ended p composing g) ≡ line_of path g
unfolding run_ended
line_of-run_ended path p composing g = elim (Option-cases (lookup p g.drains)) [
  | inl e ↦ rw (run_ended, e) refl
  | inr (force, e) ↦ rw (run_ended, e) (line_of-drain_turn path p force composing g)
]

line_of-arm_timer :
    (path p : Text) (g : CompositionGate) → line_of path (arm_timer p g) ≡ line_of path g
unfolding arm_timer
line_of-arm_timer path p g = line_of-branch path (contains p g.timers) _ _ _ refl refl

queued :
    (path p : Text) (entry : ℕ) (m : Dict Text (List ℕ))
    → or_default (lookup path (insert p (or_default (lookup p m) [] ++ (entry ∷ [])) m)) []
      ≡ or_default (lookup path m) [] ++ (if p == path then entry ∷ [] else [])
queued path p entry m =
    rw (lookup-insert path p (or_default (lookup p m) [] ++ (entry ∷ [])) m)
      (elim (Bool-cases (p == path)) [
        | inl same ↦
            let here : p ≡ path = (text_beq_iff p path).0 same in
            rw same (ap (λ i. or_default (lookup i m) [] ++ (entry ∷ [])) here)
        | inr other ↦ rw other (sym (append-nil (or_default (lookup path m) [])))
      ])

line_of-defer :
    (path p : Text) (entry : ℕ) (composing : Bool) (g : CompositionGate)
    → line_of path (defer p entry composing g)
      ≡ line_of path g ++ (if p == path then entry ∷ [] else [])
unfolding defer
line_of-defer path p entry composing g =
    let h = record g { deferred = insert p (queue_of p g ++ (entry ∷ [])) g.deferred } in
    line_of-run_queue path p false composing (arm_timer p h)
    ∙ line_of-arm_timer path p h
    ∙ ap (λ q. runs_of path g.runs ++ q) (queued path p entry g.deferred)
    ∙ sym (
        append_assoc (runs_of path g.runs) (queue_of path g) (if p == path then entry ∷ [] else []))

one_more :
    (b : Bool) (entry : ℕ) (rest : List ℕ)
    → (if b then entry ∷ [] else []) ++ rest ≡ (if b then entry ∷ rest else rest)
one_more true entry rest = refl
one_more false entry rest = refl

-- As long as the gate is not flushed, the entries that it has run for a path, followed by those that
-- it still holds for it, are those that it held before and then those deferred since, each once and
-- in that order, whatever compositions, timeouts, forced drains and other paths come between.
pub run_gate-fifo :
    (path : Text) (events : List GateEvent) (g : CompositionGate)
    → line_of path (run_gate events g) ≡ line_of path g ++ deferred_for path events
unfolding run_gate gate_step deferred_for timer_fires
run_gate-fifo path [] g = sym (append-nil (line_of path g))
run_gate-fifo path (deferred_op p entry composing ∷ events) g =
    run_gate-fifo path events (defer p entry composing g)
    ∙ ap (λ q. q ++ deferred_for path events) (line_of-defer path p entry composing g)
    ∙ append_assoc (line_of path g) (if p == path then entry ∷ [] else [])
        (deferred_for path events)
    ∙ ap (λ q. line_of path g ++ q) (one_more (p == path) entry (deferred_for path events))
run_gate-fifo path (composition_ended p composing ∷ events) g =
    run_gate-fifo path events (run_queue p false composing g)
    ∙ ap (λ q. q ++ deferred_for path events) (line_of-run_queue path p false composing g)
run_gate-fifo path (ended p composing ∷ events) g =
    run_gate-fifo path events (run_ended p composing g)
    ∙ ap (λ q. q ++ deferred_for path events) (line_of-run_ended path p composing g)
run_gate-fifo path (timed_out p composing ∷ events) g =
    run_gate-fifo path events (timer_fires p composing g)
    ∙ ap (λ q. q ++ deferred_for path events) (line_of-run_queue path p true composing _)
run_gate-fifo path (forced p composing ∷ events) g =
    run_gate-fifo path events (run_queue p true composing g)
    ∙ ap (λ q. q ++ deferred_for path events) (line_of-run_queue path p true composing g)

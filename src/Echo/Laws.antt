-- ===== src/Echo/Laws.antt =====
-- The echo test against what was recorded (src/db/sync/echo-tracker.ts).
use obsidian_couchsync.Prelude.{
  ℕ, ◌≡◌, refl, sym, ◌∙◌, List, [], ◌∷◌, none, some, Bool, true, false, not, ◌&&◌, ◌+◌, leb, ltb,
  arith, if◌then◌else◌, contains, Option, ◌==◌, Bool-cases, inl, inr,
}
use obsidian_couchsync.Prelude.Text.{Text, text_eq, text_beq_iff}
use obsidian_couchsync.Prelude.Dict.{keys, lookup, erase, lookup-insert, lookup-erase}
use obsidian_couchsync.Echo.{
  EchoTracker, record_pull_writes, PullWriteRecord, is_pull_echo, drop_seen, drop_expired,
  sweep_pull_written,
}

lookup-record_pull_writes :
    (now : ℕ) (ids : List Text) (n : ℕ) (t : EchoTracker) (id : Text)
    → lookup id (record_pull_writes now ids n t)
      ≡ (if contains id ids then some (record { seq = n; added_at = now }) else lookup id t)
unfolding record_pull_writes
lookup-record_pull_writes now [] n t id = refl
lookup-record_pull_writes now (j ∷ ids) n t id =
    lookup-record_pull_writes now ids n _ id
    ∙ rw lookup-insert (ground (arith, text_beq_iff j id, text_beq_iff id j))

lookup-drop_seen :
    (ids : List Text) (t : EchoTracker) (id : Text)
    → lookup id (drop_seen ids t) ≡ (if contains id ids then none else lookup id t)
unfolding drop_seen
lookup-drop_seen [] t id = refl
lookup-drop_seen (j ∷ ids) t id =
    lookup-drop_seen ids _ id
    ∙ rw lookup-erase (ground (arith, text_beq_iff j id, text_beq_iff id j))

-- No key has two records, as in a `Map`.
unfoldable pub distinct : EchoTracker → Bool
distinct [] = true
distinct ((id, r) ∷ t) = not (contains id (keys t)) && distinct t

-- The record is there, and at most `ttl` old.
abbrev pub is_fresh : ℕ → ℕ → Option PullWriteRecord → Bool
is_fresh ttl now none = false
is_fresh ttl now (some r) = leb now (r.added_at + ttl)

contains-erase :
    (j id : Text) (t : EchoTracker)
    → contains id (keys (erase j t)) ≡ (contains id (keys t) && not (j == id))
unfolding keys erase
contains-erase j id [] = refl
contains-erase j id ((k, r) ∷ t) =
    ground (arith, contains-erase j id t, text_beq_iff k j, text_beq_iff id k, text_beq_iff j id)

erase-distinct : (j : Text) (t : EchoTracker) → distinct t ≡ true → distinct (erase j t) ≡ true
unfolding distinct erase
erase-distinct j [] h = refl
erase-distinct j ((k, r) ∷ t) h = ground (arith, erase-distinct j t, contains-erase j k t)

drop_seen-distinct :
    (ids : List Text) (t : EchoTracker) → distinct t ≡ true → distinct (drop_seen ids t) ≡ true
unfolding drop_seen
drop_seen-distinct [] t h = h
drop_seen-distinct (j ∷ ids) t h = drop_seen-distinct ids (erase j t) (erase-distinct j t h)

absent_expired :
    (ttl now : ℕ) (id : Text) (t : EchoTracker)
    → contains id (keys t) ≡ false
    → (lookup id t ≡ none) × (lookup id (drop_expired ttl now t) ≡ none)
unfolding lookup drop_expired keys
absent_expired ttl now id [] h = (refl, refl)
absent_expired ttl now id ((k, r) ∷ t) h =
    let (p, q) = absent_expired ttl now id t (ground arith) in
    let other : (k == id) ≡ false = ground (arith, text_beq_iff k id, text_beq_iff id k) in
    elim (Bool-cases (ltb (r.added_at + ttl) now)) [
      | inl old ↦ (rw other p, rw old q)
      | inr new ↦ (rw other p, rw new (rw other q))
    ]

lookup-drop_expired :
    (ttl now : ℕ) (id : Text) (t : EchoTracker)
    → distinct t ≡ true
    → lookup id (drop_expired ttl now t)
      ≡ (if is_fresh ttl now (lookup id t) then lookup id t else none)
unfolding lookup drop_expired distinct
lookup-drop_expired ttl now id [] h = refl
lookup-drop_expired ttl now id ((k, r) ∷ t) h = elim (Bool-cases (k == id)) [
  | inl here ↦
      let same : k ≡ id = (text_beq_iff k id).0 here in
      let (p, q) = absent_expired ttl now id t (rw (sym same) (ground arith)) in
      elim (Bool-cases (ltb (r.added_at + ttl) now)) [
        | inl old ↦ rw (old, here) (rw q (ground arith))
        | inr new ↦ rw (new, here) (ground arith)
      ]
  | inr other ↦ elim (Bool-cases (ltb (r.added_at + ttl) now)) [
    | inl old ↦ rw (old, other) (lookup-drop_expired ttl now id t (ground arith))
    | inr new ↦ rw (new, other) (lookup-drop_expired ttl now id t (ground arith))
  ]
]

swept_echo :
    (found : Option PullWriteRecord) (ttl now change : ℕ) (seen : Bool)
    → elim (if is_fresh ttl now (if seen then none else found)
          then (if seen then none else found)
          else none)
        as (λ _. Bool) [ none ↦ false | some r ↦ leb change r.seq ]
      ≡ (elim found as (λ _. Bool) [ none ↦ false | some r ↦ leb change r.seq ]
          && not seen
          && is_fresh ttl now found)
swept_echo none ttl now change true = refl
swept_echo none ttl now change false = refl
swept_echo (some r) ttl now change true = ground arith
swept_echo (some r) ttl now change false = ground arith

-- After the pull has recorded its writes at a sequence number, a change of a recorded doc is an echo
-- exactly when its number is not above it, so every later edit of the doc is pushed. The changes of
-- other docs are judged as before. After the sweep that ends a turn of the push loop, a change is an
-- echo exactly when it was one before, the turn has not seen its doc, and the record of the doc is not
-- older than the time to live. The tracker has one record for each doc.
pub is_pull_echo_recorded :
    (now : ℕ) (ids : List Text) (n : ℕ) (t : EchoTracker) (ttl : ℕ) (id : Text) (change : ℕ)
    → distinct t ≡ true
    → (is_pull_echo id change (record_pull_writes now ids n t)
        ≡ (if contains id ids then leb change n else is_pull_echo id change t))
      × (is_pull_echo id change (sweep_pull_written ttl now ids t)
          ≡ (is_pull_echo id change t && not (contains id ids) && is_fresh ttl now (lookup id t)))
unfolding is_pull_echo sweep_pull_written
is_pull_echo_recorded now ids n t ttl id change one = (
  ground (arith, lookup-record_pull_writes now ids n t id),
  rw
      (
        is_pull_echo,
        sweep_pull_written,
        lookup-drop_expired ttl now id (drop_seen ids t) (drop_seen-distinct ids t one),
      )
      (rw (lookup-drop_seen, is_pull_echo)
        (swept_echo (lookup id t) ttl now change (contains id ids))),
)

-- ===== src/VectorClock/Latest.antt =====
-- `latestDevice` (src/sync/vector-clock.ts) and the order of the keys.
use obsidian_couchsync.Prelude.{
  ℕ, ◌<◌, ◌≡◌, refl, sym, ◌∙◌, ap, ◌⊎◌, inl, inr, [], ◌∷◌, none, some, Bool, true, false, ◌||◌,
  ◌&&◌, arith, ltb, eqb, if◌then◌else◌, Bool-cases,
}
use mathlib.Core.Path.{subst}
use obsidian_couchsync.Prelude.Text.{
  Text, text_eq, text_beq_iff, text_lt, text_lt_irrefl, text_lt_asymm, text_lt_trans, text_lt_total,
}
use obsidian_couchsync.Prelude.Dict.{lookup}
use obsidian_couchsync.VectorClock.{
  VectorClock, latest_step, latest_loop, best_device, latest_device,
}

-- The test of the loop: a higher count, or the same count and a smaller device id.
abbrev beats : Text × ℕ → Text × ℕ → Bool
beats (d, n) (e, m) = ltb m n || eqb n m && text_lt d e

-- No device occurs twice, as in every JavaScript object.
abbrev pub NodupKeys : VectorClock → Type 0
NodupKeys [] = Unit
NodupKeys ((d, _) ∷ vc) = (lookup d vc ≡ none) × NodupKeys vc

beats_trans : (p q r : Text × ℕ) → beats p q ≡ false → beats q r ≡ false → beats p r ≡ false
beats_trans (d, n) (e, m) (f, l) h k = ground (
  arith,
  text_lt_total d e,
  text_lt_total e f,
  text_lt_trans d f e,
  text_lt_trans e d f,
  text_lt_asymm e f,
  text_lt_asymm d f,
  text_lt_asymm d e,
)

beats_asymm : (p q : Text × ℕ) → beats p q ≡ true → beats q p ≡ false
beats_asymm (d, n) (e, m) h = ground (arith, text_lt_asymm d e)

beats_irrefl : (p : Text × ℕ) → beats p p ≡ false
beats_irrefl (d, n) = ground (arith, text_lt_irrefl d)

beats_total : (p q : Text × ℕ) → beats p q ≡ false → beats q p ≡ false → p ≡ q
beats_total (d, n) (e, m) h k = ground (arith, text_lt_total d e)

latest_step-beats :
    (p e : Text × ℕ) → latest_step (some p) e ≡ (if beats e p then some e else some p)
unfolding latest_step
latest_step-beats (d, n) (e, m) = ground arith

abbrev Has : Text × ℕ → VectorClock → Type 0
Has q [] = ⊥
Has q (e ∷ es) = (q ≡ e) ⊎ Has q es

-- No entry that the loop has seen beats the one it ends with.
latest_loop-unbeaten :
    (p q : Text × ℕ) (es : VectorClock)
    → latest_loop (some p) es ≡ some q
    → (beats p q ≡ false) × ((e : Text × ℕ) → Has e es → beats e q ≡ false)
unfolding latest_loop
latest_loop-unbeaten p q [] h = (ground (arith, beats_irrefl p), λ e m. absurd m)
latest_loop-unbeaten p q (e ∷ es) h = elim (Bool-cases (beats e p)) [
  | inl wins ↦
      let (first, others) = latest_loop-unbeaten e q es (rw (latest_step-beats, wins) at h) in
      (
        beats_trans p e q (beats_asymm e p wins) first,
        λ f m. elim m [ inl here ↦ rw here first | inr there ↦ others f there ],
      )
  | inr loses ↦
      let (first, others) = latest_loop-unbeaten p q es (rw (latest_step-beats, loses) at h) in
      (
        first,
        λ f m. elim m [
          | inl here ↦ rw here (beats_trans e p q loses first)
          | inr there ↦ others f there
        ],
      )
]

latest_loop-Has :
    (p q : Text × ℕ) (es : VectorClock) → latest_loop (some p) es ≡ some q → (q ≡ p) ⊎ Has q es
unfolding latest_loop
latest_loop-Has p q [] h = inl (ground arith)
latest_loop-Has p q (e ∷ es) h = elim (Bool-cases (beats e p)) [
  | inl wins ↦ elim (latest_loop-Has e q es (rw (latest_step-beats, wins) at h)) [
    | inl same ↦ inr (inl same)
    | inr later ↦ inr (inr later)
  ]
  | inr loses ↦ elim (latest_loop-Has p q es (rw (latest_step-beats, loses) at h)) [
    | inl same ↦ inl same
    | inr later ↦ inr (inr later)
  ]
]

latest_loop-some :
    (p : Text × ℕ) (es : VectorClock) → (q : Text × ℕ) × (latest_loop (some p) es ≡ some q)
unfolding latest_loop
latest_loop-some p [] = (p, refl)
latest_loop-some p (e ∷ es) = elim (Bool-cases (beats e p)) [
  | inl wins ↦ rw (latest_step-beats, wins) (latest_loop-some e es)
  | inr loses ↦ rw (latest_step-beats, loses) (latest_loop-some p es)
]

listed_of_lookup : (d : Text) (n : ℕ) (vc : VectorClock) → lookup d vc ≡ some n → Has (d, n) vc
unfolding lookup
listed_of_lookup d n [] h = ground arith
listed_of_lookup d n ((e, m) ∷ vc) h = ground (arith, text_beq_iff e d, listed_of_lookup d n vc)

lookup_of_listed :
    (d : Text) (n : ℕ) (vc : VectorClock) → NodupKeys vc → Has (d, n) vc → lookup d vc ≡ some n
unfolding lookup
lookup_of_listed d n [] u h = absurd h
lookup_of_listed d n ((e, m) ∷ vc) (fresh, u) (inl here) = ground (arith, text_beq_iff e d)
lookup_of_listed d n ((e, m) ∷ vc) (fresh, u) (inr there) =
    ground (arith, text_beq_iff e d, lookup_of_listed d n vc u there)

-- The winner of a clock: one of its entries, beaten by none.
IsLatest : Text × ℕ → VectorClock → Type 0
IsLatest (d, n) vc =
    (lookup d vc ≡ some n)
    × ((k : Text) (m : ℕ) → lookup k vc ≡ some m → beats (k, m) (d, n) ≡ false)

unbeaten_at :
    (e q x : Text × ℕ) (vc : VectorClock)
    → beats e q ≡ false
    → ((y : Text × ℕ) → Has y vc → beats y q ≡ false)
    → Has x (e ∷ vc)
    → beats x q ≡ false
unbeaten_at e q x vc first others (inl here) = subst (λ y. beats y q ≡ false) (sym here) first
unbeaten_at e q x vc first others (inr there) = others x there

latest_loop-IsLatest :
    (vc : VectorClock)
    → NodupKeys vc
    → (vc ≡ []) ⊎ ((q : Text × ℕ) × (latest_loop none vc ≡ some q) × IsLatest q vc)
unfolding latest_loop latest_step IsLatest
latest_loop-IsLatest [] u = inl refl
latest_loop-IsLatest (e ∷ vc) u =
    let (q, found) = latest_loop-some e vc in
    let (first, others) = latest_loop-unbeaten e q vc found in
    let has : Has q (e ∷ vc) = latest_loop-Has e q vc found in
    inr (
      q,
      found,
      (
        lookup_of_listed q.0 q.1 (e ∷ vc) u has,
        λ k m h. unbeaten_at e q (k, m) vc first others (listed_of_lookup k m (e ∷ vc) h),
      ),
    )

-- On a clock that lists no device twice, latestDevice names a device of the clock, and every other
-- device of the clock has a smaller counter or the same counter and an id that is not smaller.
-- It returns null only for the empty clock.
pub latest_device-IsLatest :
    (vc : VectorClock)
    → NodupKeys vc
    → (latest_device vc ≡ none) × (vc ≡ [])
      ⊎ ((d : Text) × (n : ℕ) × (latest_device vc ≡ some d)
          × (lookup d vc ≡ some n)
          × ((k : Text) (m : ℕ)
              → lookup k vc ≡ some m
              → (m < n) ⊎ ((m ≡ n) × (text_lt k d ≡ false))))
unfolding latest_device best_device IsLatest latest_loop
latest_device-IsLatest vc u = elim (latest_loop-IsLatest vc u) [
  | inl empty ↦ inl (rw empty, empty)
  | inr (q, found, latest) ↦
      inr (q.0, q.1, rw found, latest.0, λ k m h. ground (arith, latest.1 k m h))
]

none_left :
    (a b : VectorClock) (q : Text × ℕ)
    → ((k : Text) → lookup k a ≡ lookup k b)
    → a ≡ []
    → IsLatest q b
    → ⊥
unfolding IsLatest lookup
none_left a b (d, n) same empty latest =
    let absent : lookup d a ≡ none = rw empty in cc (same d, latest.0)

latest_unique :
    (a b : VectorClock) (p q : Text × ℕ)
    → ((k : Text) → lookup k a ≡ lookup k b)
    → IsLatest p a
    → IsLatest q b
    → p ≡ q
unfolding IsLatest
latest_unique a b (d, n) (e, m) same x y =
    beats_total (d, n) (e, m) (y.1 d n (sym (same d) ∙ x.0)) (x.1 e m (same e ∙ y.0))

-- latestDevice is a function of what the clock holds: two clocks with the same counters, in any
-- order of keys and none of them twice, name the same device.
pub latest_device_of_content :
    (a b : VectorClock)
    → NodupKeys a
    → NodupKeys b
    → ((k : Text) → lookup k a ≡ lookup k b)
    → latest_device a ≡ latest_device b
unfolding latest_device
latest_device_of_content a b u v same = elim (latest_loop-IsLatest a u) [
  | inl a_empty ↦ elim (latest_loop-IsLatest b v) [
    | inl b_empty ↦ rw (a_empty, b_empty)
    | inr (q, found, latest) ↦ absurd (none_left a b q same a_empty latest)
  ]
  | inr (p, found_p, latest_p) ↦ elim (latest_loop-IsLatest b v) [
    | inl b_empty ↦ absurd (none_left b a p (λ k. sym (same k)) b_empty latest_p)
    | inr (q, found_q, latest_q) ↦
        rw (found_p, found_q)
          (ap (λ r. best_device (some r)) (latest_unique a b p q same latest_p latest_q))
  ]
]

-- ===== src/VectorClock/Order.antt =====
-- `compareVC` (src/sync/vector-clock.ts) and the pointwise order of counters.
use obsidian_couchsync.Prelude.{
  ◌≤◌, ◌≡◌, refl, ◌∙◌, ◌↔◌, inl, inr, List, [], ◌∷◌, ◌++◌, Bool, true, false, ◌||◌, arith, ltb,
  contains, contains-append, contains-to_set, any, any-contains, any-true, Bool-cases,
}
use obsidian_couchsync.Prelude.Text.{Text, text_eq}
use obsidian_couchsync.Prelude.Dict.{keys, contains-keys}
use obsidian_couchsync.VectorClock.{
  VectorClock, VcRelation, equal, dominates, dominated, concurrent, counter, union_keys,
  compare_loop, relation_of_flags, compare_vc,
}

-- Every event that `a` has seen, `b` has seen.
abbrev pub LeVc : VectorClock → VectorClock → Type 0
LeVc a b = (k : Text) → counter k a ≤ counter k b

-- What each answer of `compareVC` says of the two clocks.
abbrev pub Relates : VcRelation → VectorClock → VectorClock → Type 0
Relates equal a b = LeVc a b × LeVc b a
Relates dominates a b = LeVc b a × ¬ LeVc a b
Relates dominated a b = LeVc a b × ¬ LeVc b a
Relates concurrent a b = (¬ LeVc a b) × ¬ LeVc b a

abbrev exceeds_at : VectorClock → VectorClock → Text → Bool
exceeds_at a b k = ltb (counter k b) (counter k a)

pub counter_absent : (k : Text) (a : VectorClock) → contains k (keys a) ≡ false → counter k a ≡ 0
unfolding counter
counter_absent k a h = ground (arith, contains-keys k a)

-- A key outside both clocks has the counter 0 in both.
any-LeVc :
    (a b c d : VectorClock)
    → ((k : Text) → contains k (union_keys c d) ≡ (contains k (keys a) || contains k (keys b)))
    → any (exceeds_at a b) (union_keys c d) ≡ false
    → LeVc a b
any-LeVc a b c d e h k = elim (Bool-cases (contains k (union_keys c d))) [
  | inl m ↦ ground (arith, any-contains (exceeds_at a b) k (union_keys c d) h m)
  | inr n ↦ ground (arith, counter_absent k a, e k)
]

pub contains-union_keys :
    (k : Text) (a b : VectorClock)
    → contains k (union_keys a b) ≡ (contains k (keys a) || contains k (keys b))
unfolding union_keys
contains-union_keys k a b =
    contains-to_set k (keys a ++ keys b) ∙ contains-append k (keys a) (keys b)

contains-union_keys_swapped :
    (k : Text) (a b : VectorClock)
    → contains k (union_keys a b) ≡ (contains k (keys b) || contains k (keys a))
contains-union_keys_swapped k a b = ground (arith, contains-union_keys k a b)

not-LeVc_of_any : (a b : VectorClock) (ks : List Text) → any (exceeds_at a b) ks ≡ true → ¬ LeVc a b
not-LeVc_of_any a b ks h le = let (k, _, p) = any-true (exceeds_at a b) ks h in ground (arith, le k)

compare_loop-any :
    (a b : VectorClock) (ks : List Text) (greater less : Bool)
    → compare_loop a b ks greater less
      ≡ (greater || any (exceeds_at a b) ks, less || any (exceeds_at b a) ks)
unfolding compare_loop
compare_loop-any a b [] greater less = ground arith
compare_loop-any a b (k ∷ ks) greater less = ground (
  arith,
  compare_loop-any a b ks true less,
  compare_loop-any a b ks greater true,
  compare_loop-any a b ks greater less,
)

flags_relate :
    (a b : VectorClock) (g l : Bool)
    → (g ≡ true → ¬ LeVc a b)
    → (g ≡ false → LeVc a b)
    → (l ≡ true → ¬ LeVc b a)
    → (l ≡ false → LeVc b a)
    → Relates (relation_of_flags (g, l)) a b
unfolding relation_of_flags
flags_relate a b true true p q r s = (p refl, r refl)
flags_relate a b true false p q r s = (s refl, p refl)
flags_relate a b false true p q r s = (q refl, r refl)
flags_relate a b false false p q r s = (q refl, s refl)

pub compare_vc-Relates : (a b : VectorClock) → Relates (compare_vc a b) a b
unfolding compare_vc
compare_vc-Relates a b =
    let ks = union_keys a b in
    rw compare_loop-any (
      flags_relate a b (any (exceeds_at a b) ks) (any (exceeds_at b a) ks) (not-LeVc_of_any a b ks)
        (any-LeVc a b a b (λ k. contains-union_keys k a b)) (not-LeVc_of_any b a ks)
        (any-LeVc b a a b (λ k. contains-union_keys_swapped k a b)))

-- The four cases exclude one another.
relation_unique : (r s : VcRelation) (a b : VectorClock) → Relates r a b → Relates s a b → r ≡ s
relation_unique equal equal a b x y = refl
relation_unique equal dominates a b x y = absurd (y.1 x.0)
relation_unique equal dominated a b x y = absurd (y.1 x.1)
relation_unique equal concurrent a b x y = absurd (y.0 x.0)
relation_unique dominates equal a b x y = absurd (x.1 y.0)
relation_unique dominates dominates a b x y = refl
relation_unique dominates dominated a b x y = absurd (x.1 y.0)
relation_unique dominates concurrent a b x y = absurd (y.1 x.0)
relation_unique dominated equal a b x y = absurd (x.1 y.1)
relation_unique dominated dominates a b x y = absurd (y.1 x.0)
relation_unique dominated dominated a b x y = refl
relation_unique dominated concurrent a b x y = absurd (y.0 x.0)
relation_unique concurrent equal a b x y = absurd (x.0 y.0)
relation_unique concurrent dominates a b x y = absurd (x.1 y.0)
relation_unique concurrent dominated a b x y = absurd (x.0 y.0)
relation_unique concurrent concurrent a b x y = refl

-- `compareVC` answers r exactly when the relation that r names holds between the clocks: equal when
-- every counter agrees, dominates or dominated when one clock is pointwise below the other and not
-- conversely, concurrent when neither is below the other. A missing counter counts as 0.
pub compare_vc_iff : (r : VcRelation) (a b : VectorClock) → (compare_vc a b ≡ r) ↔ Relates r a b
compare_vc_iff r a b = (
  λ e. rw (← e) (compare_vc-Relates a b),
  λ h. relation_unique (compare_vc a b) r a b (compare_vc-Relates a b) h,
)

abbrev pub flip : VcRelation → VcRelation
flip equal = equal
flip dominates = dominated
flip dominated = dominates
flip concurrent = concurrent

Relates-flip : (r : VcRelation) (a b : VectorClock) → Relates r a b → Relates (flip r) b a
Relates-flip equal a b h = (h.1, h.0)
Relates-flip dominates a b h = h
Relates-flip dominated a b h = h
Relates-flip concurrent a b h = (h.1, h.0)

-- Comparing from the other side gives the mirrored answer.
pub compare_vc-flip : (a b : VectorClock) → compare_vc b a ≡ flip (compare_vc a b)
compare_vc-flip a b =
    (compare_vc_iff (flip (compare_vc a b)) b a).1
      (Relates-flip (compare_vc a b) a b (compare_vc-Relates a b))

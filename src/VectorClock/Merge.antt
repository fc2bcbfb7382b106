-- ===== src/VectorClock/Merge.antt =====
-- `mergeVC` and `incrementVC` (src/sync/vector-clock.ts) in the order of clocks.
use obsidian_couchsync.Prelude.{
  ◌+◌, max, ◌≡◌, ◌↔◌, refl, List, [], ◌∷◌, some, arith, if◌then◌else◌, contains, ◌==◌,
}
use obsidian_couchsync.Prelude.Text.{Text, text_eq, text_beq_iff}
use obsidian_couchsync.Prelude.Dict.{lookup, insert, lookup-insert}
use obsidian_couchsync.VectorClock.{
  VectorClock, dominates, counter, merge_loop, merge_vc, increment_vc, compare_vc,
}
use obsidian_couchsync.VectorClock.Order.{LeVc, compare_vc_iff, contains-union_keys, counter_absent}

lookup-merge_loop :
    (k : Text) (a b : VectorClock) (ks : List Text) (out : VectorClock)
    → lookup k (merge_loop a b ks out)
      ≡ (if contains k ks then some (max (counter k a) (counter k b)) else lookup k out)
unfolding merge_loop
lookup-merge_loop k a b [] out = refl
lookup-merge_loop k a b (j ∷ ks) out = ground (
  arith,
  text_beq_iff j k,
  text_beq_iff k j,
  lookup-insert k j (max (counter j a) (counter j b)) out,
  lookup-merge_loop k a b ks (insert j (max (counter j a) (counter j b)) out),
)

-- The merged clock counts, for every device, the larger of the two counters.
pub counter-merge_vc :
    (k : Text) (a b : VectorClock) → counter k (merge_vc a b) ≡ max (counter k a) (counter k b)
unfolding merge_vc counter lookup
counter-merge_vc k a b =
    rw lookup-merge_loop
      (ground (arith, contains-union_keys k a b, counter_absent k a, counter_absent k b))

pub merge_vc-above : (a b : VectorClock) → LeVc a (merge_vc a b) × LeVc b (merge_vc a b)
merge_vc-above a b =
    (λ k. omega (arith, counter-merge_vc k a b), λ k. omega (arith, counter-merge_vc k a b))

-- The merge of two clocks is their least upper bound: it lies below a clock exactly when both do.
pub merge_vc-least : (a b c : VectorClock) → LeVc (merge_vc a b) c ↔ (LeVc a c × LeVc b c)
merge_vc-least a b c = (
  λ h. (
    λ k. omega (arith, counter-merge_vc k a b, h k),
    λ k. omega (arith, counter-merge_vc k a b, h k),
  ),
  λ h k. omega (arith, counter-merge_vc k a b, h.0 k, h.1 k),
)

pub counter-increment_vc :
    (k d : Text) (a : VectorClock)
    → counter k (increment_vc (some a) d) ≡ (if d == k then counter k a + 1 else counter k a)
unfolding increment_vc counter
counter-increment_vc k d a = rw lookup-insert (ground (arith, text_beq_iff d k))

-- A device that stamps a write gets a clock that `compareVC` ranks above the one it started from.
pub compare_vc-increment_vc :
    (a : VectorClock) (d : Text) → compare_vc (increment_vc (some a) d) a ≡ dominates
compare_vc-increment_vc a d = (compare_vc_iff dominates (increment_vc (some a) d) a).1 (
  λ k. ground (arith, counter-increment_vc k d a),
  λ le. ground (arith, counter-increment_vc d d a, text_beq_iff d d, le d),
)

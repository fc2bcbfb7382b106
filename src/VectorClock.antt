-- ===== src/VectorClock.antt =====
-- Vector clocks (src/sync/vector-clock.ts): a clock is an object of counters by device id.
pub mod Order
pub mod Merge
pub mod Latest
use obsidian_couchsync.Prelude.{
  ℕ, ◌+◌, max, List, [], ◌∷◌, ◌++◌, Option, none, some, Bool, true, false, ◌||◌, ◌&&◌, ltb, eqb,
  if◌then◌else◌, or_default, to_set,
}
use obsidian_couchsync.Prelude.Text.{Text, text_eq, text_lt}
use obsidian_couchsync.Prelude.Dict.{Dict, keys, lookup, insert}

abbrev pub VectorClock : Type 0
VectorClock = Dict Text ℕ

pub data VcRelation : Type 0 where
  equal dominates dominated concurrent : VcRelation

-- `vc[k] ?? 0`
unfoldable pub counter : Text → VectorClock → ℕ
counter k vc = or_default (lookup k vc) 0

-- `new Set([...Object.keys(a), ...Object.keys(b)])`
unfoldable pub union_keys : VectorClock → VectorClock → List Text
union_keys a b = to_set (keys a ++ keys b)

-- The loop of `compareVC`, with the flags `anyGreater` and `anyLess`.
unfoldable pub compare_loop : VectorClock → VectorClock → List Text → Bool → Bool → Bool × Bool
compare_loop a b [] greater less = (greater, less)
compare_loop a b (k ∷ ks) greater less =
    let av = counter k a in
    let bv = counter k b in
    compare_loop a b ks (if ltb bv av then true else greater)
      (if ltb bv av then less else if ltb av bv then true else less)

unfoldable pub relation_of_flags : Bool × Bool → VcRelation
relation_of_flags (greater, less) =
    if greater && less
    then concurrent
    else if greater
    then dominates
    else if less
    then dominated
    else equal

unfoldable pub compare_vc : VectorClock → VectorClock → VcRelation
compare_vc a b = relation_of_flags (compare_loop a b (union_keys a b) false false)

unfoldable pub merge_loop : VectorClock → VectorClock → List Text → VectorClock → VectorClock
merge_loop a b [] out = out
merge_loop a b (k ∷ ks) out = merge_loop a b ks (insert k (max (counter k a) (counter k b)) out)

unfoldable pub merge_vc : VectorClock → VectorClock → VectorClock
merge_vc a b = merge_loop a b (union_keys a b) []

unfoldable pub increment_vc : Option VectorClock → Text → VectorClock
increment_vc base device =
    let out = or_default base [] in insert device (counter device out + 1) out

-- One step of the loop of `latestDevice`. No best device stands for `best === null`, where
-- `bestCount` is -1 and any count is greater.
unfoldable pub latest_step : Option (Text × ℕ) → Text × ℕ → Option (Text × ℕ)
latest_step none entry = some entry
latest_step (some (best, best_count)) (device, count) =
    if ltb best_count count || eqb count best_count && text_lt device best
    then some (device, count)
    else some (best, best_count)

unfoldable pub latest_loop : Option (Text × ℕ) → VectorClock → Option (Text × ℕ)
latest_loop best [] = best
latest_loop best (entry ∷ vc) = latest_loop (latest_step best entry) vc

unfoldable pub best_device : Option (Text × ℕ) → Option Text
best_device none = none
best_device (some (device, _)) = some device

unfoldable pub latest_device : VectorClock → Option Text
latest_device vc = best_device (latest_loop none vc)

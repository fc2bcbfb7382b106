-- ===== src/ConfigMerge/Merge/Sets.antt =====
-- The merge of sets (src/sync/config-merge.ts, `mergeSet`).
use obsidian_couchsync.Prelude.{
  List, [], ◌∷◌, ◌++◌, not, ◌&&◌, ◌||◌, some, none, ◌==◌, contains, filter, ◌≡◌, arith,
  contains-append, contains-filter, Bool-cases, inl, inr,
}
use obsidian_couchsync.Prelude.Text.{Text, text_eq, text_beq_iff}
use obsidian_couchsync.ConfigMerge.Merge.{order_set, drop_removed, add_new, merge_set}

contains-drop_removed :
    (e : Text) (base local result : List Text)
    → contains e (drop_removed base local result)
      ≡ (contains e result && not (contains e base && not (contains e local)))
unfolding drop_removed
contains-drop_removed e [] local result = ground arith
contains-drop_removed e (b ∷ base) local result = elim (Bool-cases (contains b local)) [
  | inl kept ↦ rw kept (ground (arith, text_beq_iff e b, contains-drop_removed e base local result))
  | inr gone ↦ rw gone (
      ground (
        arith,
        text_beq_iff e b,
        contains-drop_removed e base local (filter (λ x. not (x == b)) result),
        contains-filter (λ x. not (x == b)) e result,
      ))
]

contains-add_new :
    (e : Text) (local base result : List Text)
    → contains e (add_new local base result)
      ≡ (contains e result || (contains e local && not (contains e base)))
unfolding add_new
contains-add_new e [] base result = ground arith
contains-add_new e (x ∷ local) base result =
    elim (Bool-cases (contains x base || contains x result)) [
      | inl old ↦ rw old (ground (arith, text_beq_iff e x, contains-add_new e local base result))
      | inr new ↦ rw new (
          ground (
            arith,
            text_beq_iff e x,
            contains-add_new e local base (result ++ (x ∷ [])),
            contains-append e result (x ∷ []),
          ))
    ]

contains-order_set :
    (e : Text) (members local remote : List Text)
    → contains e (order_set members local remote)
      ≡ (contains e members && (contains e local || contains e remote))
unfolding order_set
contains-order_set e members local remote = ground (
  arith,
  contains-append e (filter (λ x. contains x members) local)
      (filter (λ x. contains x members && not (contains x local)) remote),
  contains-filter (λ x. contains x members) e local,
  contains-filter (λ x. contains x members && not (contains x local)) e remote,
)

-- With a base, the merged set has exactly the elements that both sides have, and those that one side
-- has and the base has not: each side's additions and removals are applied. Without a base it has
-- the elements of either side.
pub merge_set_members :
    (e : Text) (base local remote : List Text)
    → (contains e (merge_set (some base) local remote) ≡ (
        (contains e local && contains e remote)
        || ((contains e local || contains e remote) && not (contains e base))))
      × (contains e (merge_set none local remote) ≡ (contains e local || contains e remote))
unfolding merge_set
merge_set_members e base local remote = (
  ground (
    arith,
    contains-order_set e (add_new local base (drop_removed base local remote)) local remote,
    contains-add_new e local base (drop_removed base local remote),
    contains-drop_removed e base local remote,
  ),
  ground (
    arith,
    contains-order_set e (add_new local [] remote) local remote,
    contains-add_new e local [] remote,
  ),
)

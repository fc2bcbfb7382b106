-- ===== src/ConfigMerge/Order.antt =====
-- The order of keys and the whole merge (src/sync/config-merge.ts, `orderLike`, `mergeJson`).
pub mod Content
use obsidian_couchsync.Prelude.{
  List, [], ◌∷◌, Option, none, some, Bool, true, false, not, ◌&&◌, ◌||◌, if◌then◌else◌, is_some,
}
use obsidian_couchsync.Prelude.Text.{Text}
use obsidian_couchsync.ConfigMerge.{
  JsonValue, null, array, object, Members, no_members, member, Slot, find, string_set, array_of,
}
use obsidian_couchsync.ConfigMerge.Merge.{
  append_members, put_slot, merge_set, merge3, NoBaseRule, merge2,
}

-- The keys of `ref` that `value` has, in the order of `ref`.
unfoldable pub pick : Members → Members → Members
pick no_members value = no_members
pick (member k r ref) value = put_slot k (find k value) (pick ref value)

-- The keys of `value` that are not `in` `ref`. The test `in` also finds the keys that every object
-- inherits.
unfoldable pub leftover : (Text → Bool) → Members → Members → Members
leftover inherited ref no_members = no_members
leftover inherited ref (member k v ms) =
    let rest = leftover inherited ref ms in
    if is_some (find k ref) || inherited k then rest else member k v rest

-- `orderLike(value, reference)`. A key of `ref` that `value` only inherits leads to a function, which
-- no serialisation keeps: it is left out.
unfoldable mutual
  pub order_like : (Text → Bool) → JsonValue → Slot → JsonValue
  order_like inherited (object ms) (some (object ref)) =
      let ordered = order_members inherited ms ref in
      object (append_members (pick ref ordered) (leftover inherited ref ordered))
  order_like inherited (object ms) _ = object (order_members inherited ms no_members)
  order_like inherited v _ = v

  -- The members of an object, each ordered like the member of `ref` with its key.
  pub order_members : (Text → Bool) → Members → Members → Members
  order_members inherited no_members ref = no_members
  order_members inherited (member k v ms) ref =
      member k (order_like inherited v (find k ref)) (order_members inherited ms ref)

-- The root always has a value.
abbrev pub root_value : Slot → JsonValue
root_value none = null
root_value (some v) = v

abbrev pub merge_roots :
    (Text → Bool) → NoBaseRule → Option JsonValue → JsonValue → JsonValue → JsonValue × List Text
merge_roots inherited rule none local remote =
    let (v, conflicts) = merge2 rule local (some remote) [] in
    (order_like inherited v (some local), conflicts)
merge_roots inherited rule (some base) local remote =
    let (v, conflicts) = merge3 local (some base) (some remote) [] in
    (order_like inherited (root_value v) (some local), conflicts)

-- `mergeJson(base, local, remote, { set, noBase })`
unfoldable pub merge_json :
    (Text → Bool)
    → Option JsonValue
    → JsonValue
    → JsonValue
    → Bool
    → NoBaseRule
    → JsonValue × List Text
merge_json inherited base local remote set rule =
    let plain = merge_roots inherited rule base local remote in
    if set
    then elim (string_set local) [
      | none ↦ plain
      | some l ↦ elim (string_set remote) [
        | none ↦ plain
        | some r ↦ elim base [
          | none ↦ (array (array_of (merge_set none l r)), [])
          | some b ↦ elim (string_set b) [
            | none ↦ plain
            | some s ↦ (array (array_of (merge_set (some s) l r)), [])
          ]
        ]
      ]
    ]
    else plain

-- ===== src/ConfigMerge/Merge.antt =====
-- The merges of config-merge.ts. A loop over `orderedKeys(local, remote)` is a pass over the keys of
-- `local` and one over the keys that only `remote` has. A result comes with the conflicts.
pub mod Sets
pub mod Find
pub mod Keys
use obsidian_couchsync.Prelude.{
  List, [], ◌∷◌, ◌++◌, Option, none, some, not, ◌&&◌, ◌||◌, if◌then◌else◌, ◌==◌, is_some, contains,
  filter,
}
use obsidian_couchsync.Prelude.Text.{Text, text_eq}
use obsidian_couchsync.ConfigMerge.{
  JsonValue, object, Members, no_members, member, Slot, find, slot_of, json_equal, slot_equal,
}
use obsidian_couchsync.ConfigMerge.Pointers.{child_pointer}

-- `orderSet(members, local, remote)`
unfoldable pub order_set : List Text → List Text → List Text → List Text
order_set members local remote =
    filter (λ e. contains e members) local
    ++ filter (λ e. contains e members && not (contains e local)) remote

-- The loops that delete from and add to the set `result`.
unfoldable pub drop_removed : List Text → List Text → List Text → List Text
drop_removed [] local result = result
drop_removed (e ∷ base) local result =
    drop_removed base local (if contains e local then result else filter (λ x. not (x == e)) result)

unfoldable pub add_new : List Text → List Text → List Text → List Text
add_new [] base result = result
add_new (e ∷ local) base result =
    add_new local base (if contains e base || contains e result then result else result ++ (e ∷ []))

unfoldable pub merge_set : Option (List Text) → List Text → List Text → List Text
merge_set (some base) local remote =
    order_set (add_new local base (drop_removed base local remote)) local remote
merge_set none local remote = order_set (add_new local [] remote) local remote

unfoldable pub append_members : Members → Members → Members
append_members no_members ns = ns
append_members (member k v ms) ns = member k v (append_members ms ns)

abbrev pub put_slot : Text → Slot → Members → Members
put_slot k none ms = ms
put_slot k (some v) ms = member k v ms

-- `merge3` where local has no value.
unfoldable pub merge3_missing : Slot → Slot → Text → Slot × List Text
merge3_missing base none ptr = (none, [])
merge3_missing none (some r) ptr = (some r, [])
merge3_missing (some b) (some r) ptr = if json_equal b r then (none, []) else (none, ptr ∷ [])

-- The keys that only `remote` has.
unfoldable pub merge3_rest : Members → Slot → Members → Text → Members × List Text
merge3_rest local base no_members ptr = (no_members, [])
merge3_rest local base (member k r remote) ptr =
    let (ms, later) = merge3_rest local base remote ptr in
    let (v, here) = merge3_missing (slot_of base k) (some r) (child_pointer ptr k) in
    if is_some (find k local) then (ms, later) else (put_slot k v ms, here ++ later)

unfoldable mutual
  pub merge3 : JsonValue → Slot → Slot → Text → Slot × List Text
  merge3 (object local) base (some (object remote)) ptr =
      let (ms, here) = merge3_members local base remote ptr in
      let (rest, later) = merge3_rest local base remote ptr in
      if json_equal (object local) (object remote)
      then (some (object local), [])
      else if slot_equal base (some (object local))
      then (some (object remote), [])
      else if slot_equal base (some (object remote))
      then (some (object local), [])
      else (some (object (append_members ms rest)), here ++ later)
  merge3 local base remote ptr =
      if slot_equal (some local) remote
      then (some local, [])
      else if slot_equal base (some local)
      then (remote, [])
      else if slot_equal base remote
      then (some local, [])
      else (some local, ptr ∷ [])

  -- The keys of `local`.
  pub merge3_members : Members → Slot → Members → Text → Members × List Text
  merge3_members no_members base remote ptr = (no_members, [])
  merge3_members (member k l local) base remote ptr =
      let (v, here) = merge3 l (slot_of base k) (find k remote) (child_pointer ptr k) in
      let (ms, later) = merge3_members local base remote ptr in (put_slot k v ms, here ++ later)

-- `merge3(base, local, remote, ptr, conflicts)`
unfoldable pub merge3_slot : Slot → Slot → Slot → Text → Slot × List Text
merge3_slot base none remote ptr = merge3_missing base remote ptr
merge3_slot base (some local) remote ptr = merge3 local base remote ptr

pub data NoBaseRule : Type 0 where
  remote_first local_first : NoBaseRule

abbrev pub settle_by : NoBaseRule → JsonValue → JsonValue → Text → JsonValue × List Text
settle_by local_first local remote ptr = (local, ptr ∷ [])
settle_by remote_first local remote ptr = (remote, [])

-- The members that only `remote` has.
unfoldable pub merge2_rest : Members → Members → Members
merge2_rest local no_members = no_members
merge2_rest local (member k r remote) =
    let rest = merge2_rest local remote in if is_some (find k local) then rest else member k r rest

-- Both values are there: `merge2` with one missing gives the other.
unfoldable mutual
  pub merge2 : NoBaseRule → JsonValue → Slot → Text → JsonValue × List Text
  merge2 rule local none ptr = (local, [])
  merge2 rule (object local) (some (object remote)) ptr =
      let (ms, conflicts) = merge2_members rule local remote ptr in
      if json_equal (object local) (object remote)
      then (object local, [])
      else (object (append_members ms (merge2_rest local remote)), conflicts)
  merge2 rule local (some remote) ptr =
      if json_equal local remote then (local, []) else settle_by rule local remote ptr

  pub merge2_members : NoBaseRule → Members → Members → Text → Members × List Text
  merge2_members rule no_members remote ptr = (no_members, [])
  merge2_members rule (member k l local) remote ptr =
      let (v, here) = merge2 rule l (find k remote) (child_pointer ptr k) in
      let (ms, later) = merge2_members rule local remote ptr in (member k v ms, here ++ later)

-- ===== src/ConfigMerge/Patch.antt =====
-- Changes of a config file (src/sync/config-merge.ts, `diffJson`, `applyJsonChanges`).
use obsidian_couchsync.Prelude.{
  List, [], ◌∷◌, ◌++◌, none, some, Bool, false, not, ◌||◌, if◌then◌else◌, ◌==◌, is_some, contains,
}
use obsidian_couchsync.Prelude.Text.{Text, text_eq}
use obsidian_couchsync.ConfigMerge.{
  JsonValue, string, array, object, Items, no_items, item, Members, no_members, member, Slot, find,
  json_equal, slot_equal, string_set,
}
use obsidian_couchsync.ConfigMerge.Pointers.{child_pointer, pointer_tokens}

pub data JsonChange : Type 0 where
  set : Text → JsonValue → Bool → JsonChange
  remove : Text → JsonChange
  set_add set_remove : Text → JsonChange

-- The keys that only `base` has.
unfoldable pub diff_removed : Members → Members → Text → List JsonChange
diff_removed no_members local ptr = []
diff_removed (member k b base) local ptr =
    let rest = diff_removed base local ptr in
    if is_some (find k local) then rest else remove (child_pointer ptr k) ∷ rest

unfoldable mutual
  pub diff_into : Slot → JsonValue → Text → List JsonChange
  diff_into (some (object base)) (object local) ptr =
      let inner = diff_members base local ptr ++ diff_removed base local ptr in
      if json_equal (object base) (object local) then [] else inner
  diff_into base local ptr =
      if slot_equal base (some local) then [] else set ptr local (not (is_some base)) ∷ []

  -- The keys of `local`.
  pub diff_members : Members → Members → Text → List JsonChange
  diff_members base no_members ptr = []
  diff_members base (member k l local) ptr =
      diff_into (find k base) l (child_pointer ptr k) ++ diff_members base local ptr

unfoldable pub additions : List Text → List Text → List JsonChange
additions base [] = []
additions base (e ∷ local) =
    let rest = additions base local in if contains e base then rest else set_add e ∷ rest

unfoldable pub removals : List Text → List Text → List JsonChange
removals local [] = []
removals local (e ∷ base) =
    let rest = removals local base in if contains e local then rest else set_remove e ∷ rest

unfoldable pub diff_json : JsonValue → JsonValue → Bool → List JsonChange
diff_json base local is_set =
    let plain = diff_into (some base) local [] in
    if is_set
    then elim (string_set base) [
      | none ↦ plain
      | some b ↦ elim (string_set local) [ none ↦ plain | some l ↦ additions b l ++ removals l b ]
    ]
    else plain

-- `obj[key] = v`: a key that is there keeps its place.
unfoldable pub put_member : Text → JsonValue → Members → Members
put_member key v no_members = member key v no_members
put_member key v (member k w ms) =
    let rest = put_member key v ms in if k == key then member k v ms else member k w rest

-- `delete obj[key]`
unfoldable pub delete_member : Text → Members → Members
delete_member key no_members = no_members
delete_member key (member k w ms) =
    let rest = delete_member key ms in if k == key then rest else member k w rest

-- The object at a position, or a new one in place of what is no object.
abbrev pub as_members : Slot → Members
as_members (some (object ms)) = ms
as_members _ = no_members

-- The change at the last of the tokens `t ∷ ts`, with the missing parents created.
unfoldable pub change_at : (Text → Members → Members) → Text → List Text → Members → Members
change_at change t [] ms = change t ms
change_at change t (u ∷ us) ms =
    put_member t (object (change_at change u us (as_members (find t ms)))) ms

abbrev pub items_of : JsonValue → Items
items_of (array xs) = xs
items_of _ = no_items

unfoldable pub includes : Text → Items → Bool
includes e no_items = false
includes e (item x xs) = json_equal x (string e) || includes e xs

unfoldable pub push : Text → Items → Items
push e no_items = item (string e) no_items
push e (item x xs) = item x (push e xs)

-- `arr.splice(arr.indexOf(e), 1)`
unfoldable pub remove_first : Text → Items → Items
remove_first e no_items = no_items
remove_first e (item x xs) =
    let rest = remove_first e xs in if json_equal x (string e) then xs else item x rest

unfoldable pub apply_change : JsonChange → JsonValue → JsonValue
apply_change (set_add e) root =
    let arr = items_of root in array (if includes e arr then arr else push e arr)
apply_change (set_remove e) root = array (remove_first e (items_of root))
apply_change (set pointer v added) root = elim (pointer_tokens pointer) [
  | [] ↦ v
  | t ∷ ts ↦ object (change_at (λ k ms. put_member k v ms) t ts (as_members (some root)))
]
apply_change (remove pointer) root = elim (pointer_tokens pointer) [
  | [] ↦ root
  | t ∷ ts ↦ object (change_at delete_member t ts (as_members (some root)))
]

unfoldable pub apply_json_changes : JsonValue → List JsonChange → JsonValue
apply_json_changes root [] = root
apply_json_changes root (c ∷ changes) = apply_json_changes (apply_change c root) changes

unfoldable pub change_pointer : JsonChange → Text
change_pointer (set_add e) = child_pointer [] e
change_pointer (set_remove e) = child_pointer [] e
change_pointer (set pointer v added) = pointer
change_pointer (remove pointer) = pointer

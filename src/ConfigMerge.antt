-- ===== src/ConfigMerge.antt =====
-- JSON values and their comparison by content (src/sync/config-merge.ts). A number is the index of
-- its double, and the key `__proto__` is not modelled.
pub mod Pointers
pub mod Merge
pub mod Order
pub mod Patch
pub mod Pin
use obsidian_couchsync.Prelude.{
  ℕ, ◌+◌, List, [], ◌∷◌, ◌++◌, Option, none, some, Bool, true, false, not, ◌&&◌, eqb, bool_eq,
  if◌then◌else◌, ◌==◌, is_some, contains,
}
use obsidian_couchsync.Prelude.Text.{Text, text_eq}

mutual
  pub data JsonValue : Type 0 where
    null : JsonValue
    boolean : Bool → JsonValue
    number : ℕ → JsonValue
    string : Text → JsonValue
    array : Items → JsonValue
    object : Members → JsonValue

  pub data Items : Type 0 where
    no_items : Items
    item : JsonValue → Items → Items

  -- The own properties, in the order of `Object.keys`.
  pub data Members : Type 0 where
    no_members : Members
    member : Text → JsonValue → Members → Members

-- `Slot`: `none` is MISSING.
abbrev pub Slot : Type 0
Slot = Option JsonValue

unfoldable pub member_keys : Members → List Text
member_keys no_members = []
member_keys (member k v ms) = k ∷ member_keys ms

unfoldable pub count_members : Members → ℕ
count_members no_members = 0
count_members (member k v ms) = count_members ms + 1

-- `hasOwnProperty.call(obj, key) ? obj[key] : MISSING`
unfoldable pub find : Text → Members → Slot
find key no_members = none
find key (member k v ms) = let rest = find key ms in if k == key then some v else rest

-- `slotOf`
unfoldable pub slot_of : Slot → Text → Slot
slot_of (some (object ms)) key = find key ms
slot_of _ key = none

unfoldable mutual
  pub json_equal : JsonValue → JsonValue → Bool
  json_equal null null = true
  json_equal (boolean a) (boolean b) = bool_eq a b
  json_equal (number a) (number b) = eqb a b
  json_equal (string a) (string b) = a == b
  json_equal (array xs) (array ys) = items_equal xs ys
  json_equal (object ms) (object ns) = eqb (count_members ms) (count_members ns) && members_in ms ns
  json_equal _ _ = false

  pub items_equal : Items → Items → Bool
  items_equal no_items no_items = true
  items_equal (item x xs) (item y ys) = json_equal x y && items_equal xs ys
  items_equal _ _ = false

  pub members_in : Members → Members → Bool
  members_in no_members ns = true
  members_in (member k v ms) ns =
      elim (find k ns) [ none ↦ false | some w ↦ json_equal v w ] && members_in ms ns

-- `jsonEqual` on slots.
unfoldable pub slot_equal : Slot → Slot → Bool
slot_equal none none = true
slot_equal none (some b) = false
slot_equal (some a) none = false
slot_equal (some a) (some b) = json_equal a b

abbrev pub is_object : Slot → Bool
is_object (some (object ms)) = true
is_object _ = false

-- `Array.isArray(v)` and the test for unique strings: the strings of the array.
unfoldable pub strings_of : Items → Option (List Text)
strings_of no_items = some []
strings_of (item (string s) xs) = elim (strings_of xs) [
  | none ↦ none
  | some ss ↦ if contains s ss then none else some (s ∷ ss)
]
strings_of (item _ xs) = none

unfoldable pub string_set : JsonValue → Option (List Text)
string_set (array xs) = strings_of xs
string_set _ = none

unfoldable pub array_of : List Text → Items
array_of [] = no_items
array_of (s ∷ ss) = item (string s) (array_of ss)

-- ===== src/Witness/Configs.antt =====
-- The theorems about config files at concrete data.
use obsidian_couchsync.Prelude.{
  ◌≡◌, refl, List, [], ◌∷◌, ◌++◌, none, some, Bool, true, false, contains, ◌==◌,
}
use obsidian_couchsync.Prelude.Text.{Text, text_eq, text_beq, lit}
use obsidian_couchsync.ConfigMerge.{
  null, number, object, Members, no_members, member, Slot, find, slot_of, slot_equal, json_equal,
  members_in, count_members,
}
use obsidian_couchsync.ConfigMerge.Pointers.{child_pointer, value_at}
use obsidian_couchsync.ConfigMerge.Pointers.Tokens.{value_at-child_pointer}
use obsidian_couchsync.ConfigMerge.Merge.{merge3, merge3_slot, merge_set, remote_first}
use obsidian_couchsync.ConfigMerge.Merge.Find.{distinct_keys}
use obsidian_couchsync.ConfigMerge.Merge.Keys.{three_way, merge3_keys}
use obsidian_couchsync.ConfigMerge.Merge.Sets.{merge_set_members}
use obsidian_couchsync.ConfigMerge.Order.{merge_json}
use obsidian_couchsync.ConfigMerge.Order.Content.{merge_json-inherited}
use obsidian_couchsync.ConfigMerge.Pin.{pin_pointers}
use obsidian_couchsync.ConfigMerge.Pin.Kept.{pin_pointers-value_at}

abbrev base_file : Members
base_file = member (lit "tab") (number 2) (member (lit "font") (number 14) no_members)

abbrev local_file : Members
local_file = member (lit "tab") (number 4) (member (lit "font") (number 14) no_members)

abbrev remote_file : Members
remote_file =
    member (lit "tab") (number 2)
      (member (lit "font") (number 16) (member (lit "vim") null no_members))

local_file-keys : distinct_keys local_file ≡ true
unfolding distinct_keys find text_beq
local_file-keys = refl

remote_file-keys : distinct_keys remote_file ≡ true
unfolding distinct_keys find text_beq
remote_file-keys = refl

sides_differ : slot_equal (some (object local_file)) (some (object remote_file)) ≡ false
unfolding slot_equal json_equal members_in count_members find text_beq
sides_differ = refl

local_changed : slot_equal (some (object base_file)) (some (object local_file)) ≡ false
unfolding slot_equal json_equal members_in count_members find text_beq
local_changed = refl

remote_changed : slot_equal (some (object base_file)) (some (object remote_file)) ≡ false
unfolding slot_equal json_equal members_in count_members find text_beq
remote_changed = refl

merge3_keys_example :
    (deep : Slot) × (slot_of
        (merge3 (object local_file) (some (object base_file)) (some (object remote_file)) []).0
        (lit "font")
      ≡ three_way
          (slot_of (some (object base_file)) (lit "font"))
          (find (lit "font") local_file)
          (find (lit "font") remote_file)
          deep)
    × ((merge3_slot
          (slot_of (some (object base_file)) (lit "font"))
          (find (lit "font") local_file)
          (find (lit "font") remote_file)
          (child_pointer [] (lit "font"))).0
        ≡ three_way
            (slot_of (some (object base_file)) (lit "font"))
            (find (lit "font") local_file)
            (find (lit "font") remote_file)
            deep)
merge3_keys_example =
    merge3_keys (lit "font") local_file remote_file (some (object base_file)) [] local_file-keys
      remote_file-keys sides_differ local_changed remote_changed

abbrev base_plugins : List Text
base_plugins = lit "dataview" ∷ lit "calendar" ∷ []

abbrev local_plugins : List Text
local_plugins = lit "dataview" ∷ []

abbrev remote_plugins : List Text
remote_plugins = lit "dataview" ∷ lit "calendar" ∷ lit "kanban" ∷ []

merge_set_members_example :
    (contains (lit "calendar") (merge_set (some base_plugins) local_plugins remote_plugins) ≡ false)
    × (contains (lit "calendar") (merge_set none local_plugins remote_plugins) ≡ true)
unfolding text_beq
merge_set_members_example =
    merge_set_members (lit "calendar") base_plugins local_plugins remote_plugins

value_at-child_pointer_example :
    value_at (object remote_file) (child_pointer [] (lit "a/b~c"))
    ≡ slot_of (value_at (object remote_file) []) (lit "a/b~c")
value_at-child_pointer_example = value_at-child_pointer (object remote_file) [] (lit "a/b~c")

pin_pointers-value_at_example :
    value_at
      (pin_pointers
        (object remote_file)
        (object local_file)
        ((lit "/vim" ∷ []) ++ (lit "/tab" ∷ []))
        false)
      (lit "/tab")
    ≡ value_at (object local_file) (lit "/tab")
pin_pointers-value_at_example =
    pin_pointers-value_at (object remote_file) (object local_file) (lit "/vim" ∷ []) (lit "/tab")

-- A key of `Object.prototype`.
abbrev is_constructor : Text → Bool
is_constructor k = k == lit "constructor"

no_constructor : find (lit "constructor") local_file ≡ none
unfolding find text_beq
no_constructor = refl

constructor_inherited : is_constructor (lit "constructor") ≡ true
unfolding text_beq
constructor_inherited = refl

merge_json-inherited_example :
    slot_of
      (some
        (merge_json is_constructor
          (some (object base_file))
          (object local_file)
          (object (member (lit "constructor") (number 1) base_file))
          false
          remote_first).0)
      (lit "constructor")
    ≡ none
merge_json-inherited_example =
    merge_json-inherited is_constructor (lit "constructor") (some (object base_file)) local_file
      (object (member (lit "constructor") (number 1) base_file)) remote_first no_constructor
      constructor_inherited

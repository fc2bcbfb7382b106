-- ===== src/ConfigMerge/Pin.antt =====
-- Positions that a device keeps as its own (src/sync/config-merge.ts, `sameAtPointer`,
-- `pinPointers`).
pub mod Kept
use obsidian_couchsync.Prelude.{
  List, [], ◌∷◌, ◌++◌, Option, none, some, Bool, true, false, not, ◌&&◌, if◌then◌else◌, ◌==◌,
  contains, bool_eq,
}
use obsidian_couchsync.Prelude.Text.{Text, text_eq}
use obsidian_couchsync.ConfigMerge.{
  JsonValue, array, object, Members, Slot, find, slot_equal, string_set, array_of,
}
use obsidian_couchsync.ConfigMerge.Pointers.{pointer_tokens, slot_at}
use obsidian_couchsync.ConfigMerge.Patch.{put_member, delete_member, as_members, change_at}

unfoldable pub same_at_pointer : JsonValue → JsonValue → Text → Bool → Bool
same_at_pointer a b pointer is_set =
    let tokens = pointer_tokens pointer in
    let plain = slot_equal (slot_at (some a) tokens) (slot_at (some b) tokens) in
    if is_set
    then elim (string_set a) [
      | none ↦ plain
      | some xs ↦ elim (string_set b) [
        | none ↦ plain
        | some ys ↦ elim tokens [ t ∷ [] ↦ bool_eq (contains t xs) (contains t ys) | _ ↦ plain ]
      ]
    ]
    else plain

-- `out.splice(out.indexOf(e), 1)`
unfoldable pub drop_first : Text → List Text → List Text
drop_first e [] = []
drop_first e (x ∷ xs) = let rest = drop_first e xs in if x == e then xs else x ∷ rest

unfoldable pub pin_member : List Text → Text → List Text → List Text
pin_member source e out =
    if contains e source && not (contains e out)
    then out ++ (e ∷ [])
    else if not (contains e source) && contains e out
    then drop_first e out
    else out

unfoldable pub pin_members : List Text → List Text → List Text → List Text
pin_members source [] out = out
pin_members source (p ∷ pointers) out =
    pin_members source pointers
      (elim (pointer_tokens p) [ e ∷ [] ↦ pin_member source e out | _ ↦ out ])

-- `delete parent[last]` where the parent at the tokens before is an object.
unfoldable pub delete_at : Text → List Text → JsonValue → JsonValue
delete_at t [] (object ms) = object (delete_member t ms)
delete_at t (u ∷ us) (object ms) = elim (find t ms) [
  | none ↦ object ms
  | some v ↦ object (put_member t (delete_at u us v) ms)
]
delete_at t ts v = v

-- One pointer.
unfoldable pub pin_pointer : JsonValue → Text → JsonValue → JsonValue
pin_pointer source pointer root = elim (pointer_tokens pointer) [
  | [] ↦ source
  | t ∷ ts ↦ elim (slot_at (some source) (t ∷ ts)) [
    | none ↦ delete_at t ts root
    | some v ↦ object (change_at (λ k ms. put_member k v ms) t ts (as_members (some root)))
  ]
]

unfoldable pub pin_all : JsonValue → List Text → JsonValue → JsonValue
pin_all source [] root = root
pin_all source (p ∷ pointers) root = pin_all source pointers (pin_pointer source p root)

unfoldable pub pin_pointers : JsonValue → JsonValue → List Text → Bool → JsonValue
pin_pointers value source [] is_set = value
pin_pointers value source (p ∷ pointers) is_set =
    let plain = pin_all source (p ∷ pointers) value in
    if is_set
    then elim (string_set value) [
      | none ↦ plain
      | some out ↦ elim (string_set source) [
        | none ↦ plain
        | some src ↦ array (array_of (pin_members src (p ∷ pointers) out))
      ]
    ]
    else plain

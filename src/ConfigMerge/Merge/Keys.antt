-- ===== src/ConfigMerge/Merge/Keys.antt =====
-- The three-way merge of objects (src/sync/config-merge.ts, `merge3`), key by key.
use obsidian_couchsync.Prelude.{
  List, [], ◌∷◌, ◌++◌, Bool, true, false, some, none, if◌then◌else◌, ◌≡◌, refl, Bool-cases, inl,
  inr, ◌∙◌,
}
use obsidian_couchsync.Prelude.Text.{Text, text_eq}
use obsidian_couchsync.ConfigMerge.{
  JsonValue, null, boolean, number, string, array, object, Members, Slot, find, slot_of, json_equal,
  slot_equal,
}
use obsidian_couchsync.ConfigMerge.Pointers.{child_pointer}
use obsidian_couchsync.ConfigMerge.Merge.{
  append_members, merge3, merge3_members, merge3_missing, merge3_rest, merge3_slot,
}
use obsidian_couchsync.ConfigMerge.Merge.Find.{distinct_keys, find-merge3_keys}

-- What `merge3` does with three versions, `deep` where all three differ.
abbrev pub three_way : Slot → Slot → Slot → Slot → Slot
three_way base local remote deep =
    if slot_equal local remote
    then local
    else if slot_equal base local
    then remote
    else if slot_equal base remote
    then local
    else deep

abbrev value_of : Slot × List Text → Slot
value_of result = result.0

first_if :
    (b c d : Bool) (x y z w : Slot) (p q r t : List Text)
    → value_of (if b then (x, p) else if c then (y, q) else if d then (z, r) else (w, t))
      ≡ (if b then x else if c then y else if d then z else w)
first_if true c d x y z w p q r t = refl
first_if false true d x y z w p q r t = refl
first_if false false true x y z w p q r t = refl
first_if false false false x y z w p q r t = refl

abbrev settle : Slot → Slot → Slot → Slot × List Text → Slot × List Text
settle base local remote deep =
    if slot_equal local remote
    then (local, [])
    else if slot_equal base local
    then (remote, [])
    else if slot_equal base remote
    then (local, [])
    else deep

settle-three_way :
    (base local remote : Slot) (deep : Slot × List Text)
    → value_of (settle base local remote deep) ≡ three_way base local remote deep.0
settle-three_way base local remote (v, conflicts) =
    first_if (slot_equal local remote) (slot_equal base local) (slot_equal base remote) local remote
      local v [] [] [] conflicts

merge3-three_way :
    (local : JsonValue) (base remote : Slot) (ptr : Text)
    → (deep : Slot) × ((merge3 local base remote ptr).0 ≡ three_way base (some local) remote deep)
unfolding merge3 slot_equal
merge3-three_way null base remote ptr =
    (some null, settle-three_way base (some null) remote (some null, ptr ∷ []))
merge3-three_way (boolean b) base remote ptr =
    (some (boolean b), settle-three_way base (some (boolean b)) remote (some (boolean b), ptr ∷ []))
merge3-three_way (number n) base remote ptr =
    (some (number n), settle-three_way base (some (number n)) remote (some (number n), ptr ∷ []))
merge3-three_way (string t) base remote ptr =
    (some (string t), settle-three_way base (some (string t)) remote (some (string t), ptr ∷ []))
merge3-three_way (array xs) base remote ptr =
    (some (array xs), settle-three_way base (some (array xs)) remote (some (array xs), ptr ∷ []))
merge3-three_way (object ms) base none ptr =
    (some (object ms), settle-three_way base (some (object ms)) none (some (object ms), ptr ∷ []))
merge3-three_way (object ms) base (some null) ptr = (
  some (object ms),
  settle-three_way base (some (object ms)) (some null) (some (object ms), ptr ∷ []),
)
merge3-three_way (object ms) base (some (boolean b)) ptr = (
  some (object ms),
  settle-three_way base (some (object ms)) (some (boolean b)) (some (object ms), ptr ∷ []),
)
merge3-three_way (object ms) base (some (number n)) ptr = (
  some (object ms),
  settle-three_way base (some (object ms)) (some (number n)) (some (object ms), ptr ∷ []),
)
merge3-three_way (object ms) base (some (string t)) ptr = (
  some (object ms),
  settle-three_way base (some (object ms)) (some (string t)) (some (object ms), ptr ∷ []),
)
merge3-three_way (object ms) base (some (array xs)) ptr = (
  some (object ms),
  settle-three_way base (some (object ms)) (some (array xs)) (some (object ms), ptr ∷ []),
)
merge3-three_way (object ms) base (some (object ns)) ptr =
    let (here, one) = merge3_members ms base ns ptr in
    let (rest, two) = merge3_rest ms base ns ptr in
    let deep = some (object (append_members here rest)) in
    (deep, settle-three_way base (some (object ms)) (some (object ns)) (deep, one ++ two))

merge3_slot-three_way :
    (base local remote : Slot) (ptr : Text)
    → (deep : Slot) × ((merge3_slot base local remote ptr).0 ≡ three_way base local remote deep)
unfolding merge3_slot merge3_missing slot_equal
merge3_slot-three_way none none none ptr = (none, refl)
merge3_slot-three_way (some b) none none ptr = (none, refl)
merge3_slot-three_way none none (some r) ptr = (none, refl)
merge3_slot-three_way (some b) none (some r) ptr = elim (Bool-cases (json_equal b r)) [
  | inl e ↦ (none, rw e refl)
  | inr e ↦ (none, rw e refl)
]
merge3_slot-three_way base (some l) remote ptr = merge3-three_way l base remote ptr

-- Where local and remote are objects and no two of the three versions agree, the merge is an object
-- that holds under each key what the three versions have there settle by themselves: the local value
-- where both sides agree, the remote one where only remote changed it, the local one where only
-- local changed it, a missing value being a version like any other, and else what merging deeper
-- gives. The order of the keys and the other keys have no part in it. Objects have no key twice.
pub merge3_keys :
    (k : Text) (local remote : Members) (base : Slot) (ptr : Text)
    → distinct_keys local ≡ true
    → distinct_keys remote ≡ true
    → slot_equal (some (object local)) (some (object remote)) ≡ false
    → slot_equal base (some (object local)) ≡ false
    → slot_equal base (some (object remote)) ≡ false
    → (deep : Slot) × (slot_of (merge3 (object local) base (some (object remote)) ptr).0 k
        ≡ three_way (slot_of base k) (find k local) (find k remote) deep)
      × ((merge3_slot (slot_of base k) (find k local) (find k remote) (child_pointer ptr k)).0
          ≡ three_way (slot_of base k) (find k local) (find k remote) deep)
unfolding merge3 slot_of slot_equal
merge3_keys k local remote base ptr h g apart left right =
    let (deep, settled) =
      merge3_slot-three_way (slot_of base k) (find k local) (find k remote) (child_pointer ptr k) in
    (
      deep,
      rw (apart, left, right) (find-merge3_keys k local base remote ptr h g ∙ settled),
      settled,
    )

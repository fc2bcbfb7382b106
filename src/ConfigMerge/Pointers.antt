-- ===== src/ConfigMerge/Pointers.antt =====
-- JSON Pointers (src/sync/config-merge.ts).
pub mod Tokens
use obsidian_couchsync.Prelude.{
  ℕ, List, [], ◌∷◌, ◌++◌, map, Option, none, some, Bool, true, false, ◌||◌, eqb, if◌then◌else◌,
  ◌==◌, drop,
}
use obsidian_couchsync.Prelude.Text.{Text, text_eq, starts_with, split}
use obsidian_couchsync.ConfigMerge.{JsonValue, Slot, slot_of}

-- The code units of `~`, `/`, `0` and `1`.
abbrev pub tilde : ℕ
tilde = 126

abbrev pub slash : ℕ
slash = 47

abbrev pub digit_0 : ℕ
digit_0 = 48

abbrev pub digit_1 : ℕ
digit_1 = 49

-- `s.replace(/a/g, r)` for one code unit.
unfoldable pub replace_unit : ℕ → Text → Text → Text
replace_unit a r [] = []
replace_unit a r (x ∷ xs) =
    let rest = replace_unit a r xs in if eqb x a then r ++ rest else x ∷ rest

-- `s.replace(/ab/g, r)` for two code units and one.
unfoldable pub replace_pair : ℕ → ℕ → ℕ → Text → Text
replace_pair a b r [] = []
replace_pair a b r (x ∷ []) = x ∷ []
replace_pair a b r (x ∷ y ∷ xs) =
    let skipped = replace_pair a b r xs in
    let kept = replace_pair a b r (y ∷ xs) in
    if eqb x a then (if eqb y b then r ∷ skipped else x ∷ kept) else x ∷ kept

unfoldable pub escape_token : Text → Text
escape_token key =
    replace_unit slash (tilde ∷ digit_1 ∷ []) (replace_unit tilde (tilde ∷ digit_0 ∷ []) key)

unfoldable pub unescape_token : Text → Text
unescape_token token = replace_pair tilde digit_0 tilde (replace_pair tilde digit_1 slash token)

unfoldable pub child_pointer : Text → Text → Text
child_pointer parent key = parent ++ (slash ∷ escape_token key)

unfoldable pub pointer_tokens : Text → List Text
pointer_tokens [] = []
pointer_tokens (x ∷ xs) = map unescape_token (split slash xs)

unfoldable pub pointer_covers : Text → Text → Bool
pointer_covers declared pointer =
    pointer == declared || starts_with pointer (declared ++ (slash ∷ []))

unfoldable pub slot_at : Slot → List Text → Slot
slot_at v [] = v
slot_at v (t ∷ ts) = slot_at (slot_of v t) ts

unfoldable pub value_at : JsonValue → Text → Slot
value_at v pointer = slot_at (some v) (pointer_tokens pointer)

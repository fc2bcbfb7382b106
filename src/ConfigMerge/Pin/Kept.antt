-- ===== src/ConfigMerge/Pin/Kept.antt =====
-- The positions that `pinPointers` keeps (src/sync/config-merge.ts).
use obsidian_couchsync.Prelude.{
  List, [], ◌∷◌, ◌++◌, none, some, true, false, ◌==◌, ◌≡◌, refl, Bool-cases, Option-cases,
  List-cases, inl, inr, beq_refl, ◌∙◌,
}
use obsidian_couchsync.Prelude.Text.{Text, text_eq}
use obsidian_couchsync.ConfigMerge.{
  JsonValue, null, boolean, number, string, array, object, Members, no_members, member, find,
  slot_of,
}
use obsidian_couchsync.ConfigMerge.Pointers.{pointer_tokens, slot_at, value_at}
use obsidian_couchsync.ConfigMerge.Patch.{put_member, delete_member, as_members, change_at}
use obsidian_couchsync.ConfigMerge.Pin.{delete_at, pin_pointer, pin_all, pin_pointers}

find_head :
    (k j : Text) (v : JsonValue) (ms : Members) → (j == k) ≡ true → find k (member j v ms) ≡ some v
unfolding find
find_head k j v ms e = rw e refl

find_tail :
    (k j : Text) (v : JsonValue) (ms : Members)
    → (j == k) ≡ false
    → find k (member j v ms) ≡ find k ms
unfolding find
find_tail k j v ms e = rw e refl

find-put_member : (k : Text) (v : JsonValue) (ms : Members) → find k (put_member k v ms) ≡ some v
unfolding put_member
find-put_member k v no_members = find_head k k v no_members (beq_refl k)
find-put_member k v (member j w ms) = elim (Bool-cases (j == k)) [
  | inl e ↦ rw e (find_head k j v ms e)
  | inr e ↦ rw e (find_tail k j w (put_member k v ms) e ∙ find-put_member k v ms)
]

find-delete_member : (k : Text) (ms : Members) → find k (delete_member k ms) ≡ none
unfolding find delete_member
find-delete_member k no_members = refl
find-delete_member k (member j w ms) = elim (Bool-cases (j == k)) [
  | inl e ↦ rw e (find-delete_member k ms)
  | inr e ↦ rw e (find_tail k j w (delete_member k ms) e ∙ find-delete_member k ms)
]

slot_at-none : (ts : List Text) → slot_at none ts ≡ none
unfolding slot_at slot_of
slot_at-none [] = refl
slot_at-none (t ∷ ts) = slot_at-none ts

slot_at-change_at :
    (v : JsonValue) (t : Text) (ts : List Text) (ms : Members)
    → slot_at (some (object (change_at (λ k. put_member k v) t ts ms))) (t ∷ ts) ≡ some v
unfolding slot_at slot_of change_at
slot_at-change_at v t [] ms = find-put_member t v ms
slot_at-change_at v t (u ∷ us) ms =
    let inner = change_at (λ k. put_member k v) u us (as_members (find t ms)) in
    rw (find-put_member t (object inner) ms) (slot_at-change_at v u us (as_members (find t ms)))

no_member :
    (t : Text) (ts : List Text) (v : JsonValue)
    → slot_of (some v) t ≡ none
    → slot_at (some v) (t ∷ ts) ≡ none
unfolding slot_at
no_member t ts v h = rw h (slot_at-none ts)

slot_at-delete_at :
    (t : Text) (ts : List Text) (root : JsonValue)
    → slot_at (some (delete_at t ts root)) (t ∷ ts) ≡ none
unfolding delete_at slot_of slot_at
slot_at-delete_at t [] (object ms) = find-delete_member t ms
slot_at-delete_at t (u ∷ us) (object ms) = elim (Option-cases (find t ms)) [
  | inl e ↦ rw (delete_at, e) (no_member t (u ∷ us) (object ms) e)
  | inr (v, e) ↦
      rw (delete_at, e, find-put_member t (delete_at u us v) ms) (slot_at-delete_at u us v)
]
slot_at-delete_at t [] null = no_member t [] null refl
slot_at-delete_at t (u ∷ us) null = no_member t (u ∷ us) null refl
slot_at-delete_at t [] (boolean b) = no_member t [] (boolean b) refl
slot_at-delete_at t (u ∷ us) (boolean b) = no_member t (u ∷ us) (boolean b) refl
slot_at-delete_at t [] (number n) = no_member t [] (number n) refl
slot_at-delete_at t (u ∷ us) (number n) = no_member t (u ∷ us) (number n) refl
slot_at-delete_at t [] (string s) = no_member t [] (string s) refl
slot_at-delete_at t (u ∷ us) (string s) = no_member t (u ∷ us) (string s) refl
slot_at-delete_at t [] (array xs) = no_member t [] (array xs) refl
slot_at-delete_at t (u ∷ us) (array xs) = no_member t (u ∷ us) (array xs) refl

pin_pointer-value_at :
    (source root : JsonValue) (p : Text)
    → value_at (pin_pointer source p root) p ≡ value_at source p
unfolding pin_pointer value_at
pin_pointer-value_at source root p = elim (List-cases (pointer_tokens p)) [
  | inl e ↦ rw (pin_pointer, e) refl
  | inr (t, ts, e) ↦ elim (Option-cases (slot_at (some source) (t ∷ ts))) [
    | inl gone ↦ rw (pin_pointer, e, gone) (slot_at-delete_at t ts root)
    | inr (v, there) ↦
        rw (pin_pointer, e, there) (slot_at-change_at v t ts (as_members (some root)))
  ]
]

pin_all-append :
    (source root : JsonValue) (ps : List Text) (p : Text)
    → pin_all source (ps ++ (p ∷ [])) root ≡ pin_pointer source p (pin_all source ps root)
unfolding pin_all
pin_all-append source root [] p = refl
pin_all-append source root (q ∷ ps) p = pin_all-append source (pin_pointer source q root) ps p

-- Outside the set mode, and whatever was pinned before it, the last position of a list that is pinned
-- is afterwards as in the source: it has the source's value, or none where the source has none.
pub pin_pointers-value_at :
    (value source : JsonValue) (before : List Text) (p : Text)
    → value_at (pin_pointers value source (before ++ (p ∷ [])) false) p ≡ value_at source p
unfolding pin_pointers pin_all
pin_pointers-value_at value source [] p = pin_pointer-value_at source value p
pin_pointers-value_at value source (q ∷ before) p =
    rw (pin_all-append source value (q ∷ before) p)
      (pin_pointer-value_at source (pin_all source (q ∷ before) value) p)

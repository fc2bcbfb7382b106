-- ===== src/ConfigMerge/Order/Content.antt =====
-- What the ordering of keys keeps (src/sync/config-merge.ts, `orderLike`).
use obsidian_couchsync.Prelude.{
  Option, none, some, Bool, true, false, not, ◌&&◌, ◌||◌, if◌then◌else◌, ◌==◌, is_some, ◌≡◌, refl,
  arith, Bool-cases, inl, inr, ap, ◌∙◌, sym,
}
use obsidian_couchsync.Prelude.Text.{Text, text_eq, text_beq_iff}
use obsidian_couchsync.ConfigMerge.{
  JsonValue, null, boolean, number, string, array, object, Members, no_members, member, Slot, find,
  slot_of,
}
use obsidian_couchsync.ConfigMerge.Merge.{NoBaseRule}
use obsidian_couchsync.ConfigMerge.Merge.Find.{
  or_else, find-append_members, find-put_slot, or_else-none,
}
use obsidian_couchsync.ConfigMerge.Order.{pick, leftover, order_like, order_members, merge_json}

twice : (b : Bool) (v : Slot) → or_else v (if b then v else none) ≡ v
twice true none = refl
twice true (some v) = refl
twice false v = or_else-none v

find_empty : (k : Text) → find k no_members ≡ none
unfolding find
find_empty k = refl

find_head :
    (k j : Text) (v : JsonValue) (ms : Members) → (j == k) ≡ true → find k (member j v ms) ≡ some v
unfolding find
find_head k j v ms e = rw e refl

find_tail :
    (k j : Text) (v : JsonValue) (ms : Members)
    → (j == k) ≡ false
    → find k (member j v ms) ≡ find k ms
unfolding find
find_tail k j v ms e = rw e refl

find-pick :
    (k : Text) (ref ms : Members)
    → find k (pick ref ms) ≡ (if is_some (find k ref) then find k ms else none)
unfolding find pick
find-pick k no_members ms = refl
find-pick k (member j r ref) ms =
    find-put_slot k j (find j ms) (pick ref ms) ∙ elim (Bool-cases (j == k)) [
      | inl e ↦
          let here : j ≡ k = (text_beq_iff j k).0 e in
          rw e (
            ap (λ i. or_else (find i ms) (find k (pick ref ms))) here
            ∙ rw (find-pick k ref ms) (twice (is_some (find k ref)) (find k ms)))
      | inr e ↦ rw e (find-pick k ref ms)
    ]

find-leftover :
    (inherited : Text → Bool) (k : Text) (ref ms : Members)
    → find k (leftover inherited ref ms)
      ≡ (if is_some (find k ref) || inherited k then none else find k ms)
unfolding find leftover
find-leftover inherited k ref no_members = ground arith
find-leftover inherited k ref (member j v ms) = elim (Bool-cases (j == k)) [
  | inl e ↦
      let here : j ≡ k = (text_beq_iff j k).0 e in
      let same : (is_some (find j ref) || inherited j) ≡ (is_some (find k ref) || inherited k) =
        ap (λ i. is_some (find i ref) || inherited i) here in
      elim (Bool-cases (is_some (find k ref) || inherited k)) [
        | inl out ↦ rw (same, out) (find-leftover inherited k ref ms ∙ rw out refl)
        | inr stay ↦
            rw (same, stay)
              (find_head k j v (leftover inherited ref ms) e ∙ sym (find_head k j v ms e))
      ]
  | inr e ↦ elim (Bool-cases (is_some (find j ref) || inherited j)) [
    | inl out ↦ rw (out, e) (find-leftover inherited k ref ms)
    | inr stay ↦ rw (stay, e) (find-leftover inherited k ref ms)
  ]
]

-- What becomes of a member.
abbrev ordered : (Text → Bool) → Slot → Slot → Slot
ordered inherited none r = none
ordered inherited (some v) r = some (order_like inherited v r)

find-order_members :
    (inherited : Text → Bool) (k : Text) (ms ref : Members)
    → find k (order_members inherited ms ref) ≡ ordered inherited (find k ms) (find k ref)
unfolding order_members
find-order_members inherited k no_members ref =
    find_empty k ∙ ap (λ o. ordered inherited o (find k ref)) (sym (find_empty k))
find-order_members inherited k (member j v ms) ref = elim (Bool-cases (j == k)) [
  | inl e ↦
      let here : j ≡ k = (text_beq_iff j k).0 e in
      find_head k j _ _ e
      ∙ ap (λ i. some (order_like inherited v (find i ref))) here
      ∙ ap (λ o. ordered inherited o (find k ref)) (sym (find_head k j v ms e))
  | inr e ↦
      find_tail k j _ _ e
      ∙ find-order_members inherited k ms ref
      ∙ ap (λ o. ordered inherited o (find k ref)) (sym (find_tail k j v ms e))
]

settle :
    (b c : Bool) (v : Slot)
    → or_else (if b then v else none) (if b || c then none else v)
      ≡ (if not b && c then none else v)
settle true c v = or_else-none v
settle false true v = refl
settle false false v = refl

-- Ordering an object like another keeps under each key its value, itself ordered like the value of
-- the other there, but drops the keys that the other lacks and every object inherits.
pub find-order_like :
    (inherited : Text → Bool) (k : Text) (ms ref : Members)
    → slot_of (some (order_like inherited (object ms) (some (object ref)))) k ≡ (
        if not (is_some (find k ref)) && inherited k
        then none
        else ordered inherited (find k ms) (find k ref))
unfolding order_like slot_of
find-order_like inherited k ms ref =
    let om = order_members inherited ms ref in
    find-append_members k (pick ref om) (leftover inherited ref om)
    ∙ rw
        (
          find-pick k ref om,
          find-leftover inherited k ref om,
          find-order_members inherited k ms ref,
        )
        (settle (is_some (find k ref)) (inherited k) (ordered inherited (find k ms) (find k ref)))

dropped :
    (inherited : Text → Bool) (k : Text) (v : JsonValue) (ref : Members)
    → find k ref ≡ none
    → inherited k ≡ true
    → slot_of (some (order_like inherited v (some (object ref)))) k ≡ none
unfolding slot_of order_like
dropped inherited k (object ms) ref lacks found =
    find-order_like inherited k ms ref ∙ rw (lacks, found) refl
dropped inherited k null ref lacks found = refl
dropped inherited k (boolean b) ref lacks found = refl
dropped inherited k (number n) ref lacks found = refl
dropped inherited k (string s) ref lacks found = refl
dropped inherited k (array xs) ref lacks found = refl

-- A merge never takes over a key that every object inherits, such as `constructor`, from the remote
-- version: where local is an object without the key, the merged file has no such key either, with a
-- base or without, whatever the remote version has there.
pub merge_json-inherited :
    (inherited : Text → Bool) (k : Text) (base : Option JsonValue) (local : Members)
    (remote : JsonValue) (rule : NoBaseRule)
    → find k local ≡ none
    → inherited k ≡ true
    → slot_of (some (merge_json inherited base (object local) remote false rule).0) k ≡ none
unfolding merge_json
merge_json-inherited inherited k none local remote rule lacks found =
    dropped inherited k _ local lacks found
merge_json-inherited inherited k (some base) local remote rule lacks found =
    dropped inherited k _ local lacks found

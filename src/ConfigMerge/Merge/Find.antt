-- ===== src/ConfigMerge/Merge/Find.antt =====
-- What the loops of the three-way merge leave under a key (src/sync/config-merge.ts, `merge3`).
use obsidian_couchsync.Prelude.{
  Bool, true, false, not, ◌&&◌, some, none, is_some, if◌then◌else◌, ◌==◌, ◌≡◌, refl, arith,
  Bool-cases, Option-cases, inl, inr, sym, ap, ◌∙◌,
}
use obsidian_couchsync.Prelude.Text.{Text, text_eq, text_beq_iff}
use obsidian_couchsync.ConfigMerge.{Members, no_members, member, Slot, find, slot_of}
use obsidian_couchsync.ConfigMerge.Pointers.{child_pointer}
use obsidian_couchsync.ConfigMerge.Merge.{
  append_members, put_slot, merge3, merge3_members, merge3_missing, merge3_rest, merge3_slot,
}

-- An object has no key twice.
unfoldable pub distinct_keys : Members → Bool
distinct_keys no_members = true
distinct_keys (member k v ms) = not (is_some (find k ms)) && distinct_keys ms

abbrev pub or_else : Slot → Slot → Slot
or_else none other = other
or_else (some v) other = some v

pub find-append_members :
    (k : Text) (ms ns : Members) → find k (append_members ms ns) ≡ or_else (find k ms) (find k ns)
unfolding find append_members
find-append_members k no_members ns = refl
find-append_members k (member j v ms) ns = elim (Bool-cases (j == k)) [
  | inl e ↦ rw e refl
  | inr e ↦ rw e (find-append_members k ms ns)
]

pub find-put_slot :
    (k j : Text) (v : Slot) (ms : Members)
    → find k (put_slot j v ms) ≡ (if j == k then or_else v (find k ms) else find k ms)
unfolding find
find-put_slot k j none ms = ground arith
find-put_slot k j (some v) ms = refl

pub or_else-none : (v : Slot) → or_else v none ≡ v
or_else-none none = refl
or_else-none (some v) = refl

not_some : (v : Slot) → is_some v ≡ false → v ≡ none
not_some none h = refl
not_some (some v) h = absurd (ground arith)

abbrev pub merged : Slot → Slot → Slot → Text → Slot
merged base none remote ptr = none
merged base (some l) remote ptr = (merge3 l base remote ptr).0

find-merge3_members :
    (k : Text) (local : Members) (base : Slot) (remote : Members) (ptr : Text)
    → distinct_keys local ≡ true
    → find k (merge3_members local base remote ptr).0
      ≡ merged (slot_of base k) (find k local) (find k remote) (child_pointer ptr k)
unfolding find merge3_members distinct_keys
find-merge3_members k no_members base remote ptr h = refl
find-merge3_members k (member j l local) base remote ptr h =
    let v = (merge3 l (slot_of base j) (find j remote) (child_pointer ptr j)).0 in
    let ms = (merge3_members local base remote ptr).0 in
    let ih = find-merge3_members k local base remote ptr (ground arith) in
    find-put_slot k j v ms ∙ elim (Bool-cases (j == k)) [
      | inl e ↦
          let here : j ≡ k = (text_beq_iff j k).0 e in
          let once : find k local ≡ none =
            ap (λ i. find i local) (sym here) ∙ not_some (find j local) (ground arith) in
          let gone : find k ms ≡ none =
            ih ∙ ap (λ o. merged (slot_of base k) o (find k remote) (child_pointer ptr k)) once in
          rw (e, gone)
            (or_else-none v
              ∙ ap (λ i. (merge3 l (slot_of base i) (find i remote) (child_pointer ptr i)).0) here)
      | inr e ↦ rw e ih
    ]

missing_none : (base : Slot) (ptr : Text) → (merge3_missing base none ptr).0 ≡ none
unfolding merge3_missing
missing_none none ptr = refl
missing_none (some b) ptr = refl

find-merge3_rest :
    (k : Text) (local : Members) (base : Slot) (remote : Members) (ptr : Text)
    → distinct_keys remote ≡ true
    → find k (merge3_rest local base remote ptr).0 ≡ (
        if is_some (find k local)
        then none
        else (merge3_missing (slot_of base k) (find k remote) (child_pointer ptr k)).0)
unfolding find merge3_rest distinct_keys
find-merge3_rest k local base no_members ptr h = elim (Bool-cases (is_some (find k local))) [
  | inl e ↦ rw e refl
  | inr e ↦ rw e (sym (missing_none (slot_of base k) (child_pointer ptr k)))
]
find-merge3_rest k local base (member j r remote) ptr h =
    let v = (merge3_missing (slot_of base j) (some r) (child_pointer ptr j)).0 in
    let ms = (merge3_rest local base remote ptr).0 in
    let ih = find-merge3_rest k local base remote ptr (ground arith) in
    elim (Bool-cases (j == k)) [
      | inr e ↦ elim (Bool-cases (is_some (find j local))) [
        | inl there ↦ rw (there, e) ih
        | inr new ↦ rw (new, e) (find-put_slot k j v ms ∙ rw e ih)
      ]
      | inl e ↦
          let here : j ≡ k = (text_beq_iff j k).0 e in
          let once : find k remote ≡ none =
            ap (λ i. find i remote) (sym here) ∙ not_some (find j remote) (ground arith) in
          elim (Bool-cases (is_some (find j local))) [
            | inl there ↦
                let there_k : is_some (find k local) ≡ true =
                  ap (λ i. is_some (find i local)) (sym here) ∙ there in
                rw (there, there_k) (ih ∙ rw there_k refl)
            | inr new ↦
                let new_k : is_some (find k local) ≡ false =
                  ap (λ i. is_some (find i local)) (sym here) ∙ new in
                let gone : find k ms ≡ none =
                  ih ∙ rw (new_k, once) (missing_none (slot_of base k) (child_pointer ptr k)) in
                rw (new, new_k, e)
                  (find-put_slot k j v ms
                    ∙ rw (e, gone)
                        (or_else-none v
                          ∙ ap
                              (λ i.
                                (merge3_missing (slot_of base i) (some r) (child_pointer ptr i)).0)
                              here))
          ]
    ]

pub find-merge3_keys :
    (k : Text) (local : Members) (base : Slot) (remote : Members) (ptr : Text)
    → distinct_keys local ≡ true
    → distinct_keys remote ≡ true
    → find k (
        append_members
          (merge3_members local base remote ptr).0
          (merge3_rest local base remote ptr).0)
      ≡ (merge3_slot (slot_of base k) (find k local) (find k remote) (child_pointer ptr k)).0
unfolding merge3_slot
find-merge3_keys k local base remote ptr h g =
    let ms = (merge3_members local base remote ptr).0 in
    let rest = (merge3_rest local base remote ptr).0 in
    let first = find-merge3_members k local base remote ptr h in
    let later = find-merge3_rest k local base remote ptr g in
    find-append_members k ms rest ∙ elim (Option-cases (find k local)) [
      | inl e ↦ rw (first, later, e) refl
      | inr (l, e) ↦
          rw (first, later, e)
            (or_else-none (merge3 l (slot_of base k) (find k remote) (child_pointer ptr k)).0)
    ]

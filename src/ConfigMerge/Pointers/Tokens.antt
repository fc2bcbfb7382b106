-- ===== src/ConfigMerge/Pointers/Tokens.antt =====
-- JSON Pointers and the keys they are built from (src/sync/config-merge.ts).
use mathlib.Core.List.{append-nil, append_assoc, map-append}
use obsidian_couchsync.Prelude.{
  ℕ, List, [], ◌∷◌, ◌++◌, map, false, eqb, if◌then◌else◌, ◌≡◌, refl, arith, sym, ap, ◌∙◌,
  Bool-cases, inl, inr, some, eqb_iff, any,
}
use obsidian_couchsync.Prelude.Text.{Text, split, split_go}
use obsidian_couchsync.ConfigMerge.{JsonValue, Slot, slot_of}
use obsidian_couchsync.ConfigMerge.Pointers.{
  tilde, slash, digit_0, digit_1, replace_unit, replace_pair, escape_token, unescape_token,
  child_pointer, pointer_tokens, slot_at, value_at,
}

-- One unit that does not start a pair passes `replace_pair`.
replace_pair-pass :
    (a b r x : ℕ) (s : Text)
    → eqb x a ≡ false
    → replace_pair a b r (x ∷ s) ≡ x ∷ replace_pair a b r s
unfolding replace_pair
replace_pair-pass a b r x [] h = refl
replace_pair-pass a b r x (y ∷ s) h = rw h refl

escape_cons :
    (x : ℕ) (key : Text)
    → escape_token (x ∷ key) ≡ (
        if eqb x tilde
        then tilde ∷ digit_0 ∷ escape_token key
        else if eqb x slash
        then tilde ∷ digit_1 ∷ escape_token key
        else x ∷ escape_token key)
unfolding escape_token replace_unit
escape_cons x key = elim (Bool-cases (eqb x tilde)) [ inl e ↦ rw e refl | inr e ↦ rw e refl ]

-- The escape of `/` taken back.
abbrev half : Text → Text
half key = replace_unit tilde (tilde ∷ digit_0 ∷ []) key

half_cons :
    (x : ℕ) (key : Text)
    → half (x ∷ key) ≡ (if eqb x tilde then tilde ∷ digit_0 ∷ half key else x ∷ half key)
unfolding replace_unit
half_cons x key = refl

zero_pass :
    (s : Text)
    → replace_pair tilde digit_1 slash (tilde ∷ digit_0 ∷ s)
      ≡ tilde ∷ digit_0 ∷ replace_pair tilde digit_1 slash s
unfolding replace_pair
zero_pass s = ap (λ t. tilde ∷ t) (replace_pair-pass tilde digit_1 slash digit_0 s refl)

one_pass :
    (s : Text)
    → replace_pair tilde digit_1 slash (tilde ∷ digit_1 ∷ s)
      ≡ slash ∷ replace_pair tilde digit_1 slash s
unfolding replace_pair
one_pass s = refl

first_pass : (key : Text) → replace_pair tilde digit_1 slash (escape_token key) ≡ half key
unfolding replace_unit replace_pair escape_token
first_pass [] = refl
first_pass (x ∷ key) = elim (Bool-cases (eqb x tilde)) [
  | inl e ↦ rw (escape_cons x key, e, zero_pass (escape_token key), first_pass key) refl
  | inr e ↦ elim (Bool-cases (eqb x slash)) [
    | inl d ↦
        let here = (eqb_iff x slash).0 d in
        rw (escape_cons x key, e, d, one_pass (escape_token key), first_pass key)
          (ap (λ y. y ∷ half key) (sym here))
    | inr d ↦
        rw
          (
            escape_cons x key,
            e,
            d,
            replace_pair-pass tilde digit_1 slash x (escape_token key) e,
            first_pass key,
          )
          refl
  ]
]

second_pass : (key : Text) → replace_pair tilde digit_0 tilde (half key) ≡ key
unfolding replace_unit replace_pair
second_pass [] = refl
second_pass (x ∷ key) = elim (Bool-cases (eqb x tilde)) [
  | inl e ↦
      let here = (eqb_iff x tilde).0 e in rw (e, second_pass key) (ap (λ y. y ∷ key) (sym here))
  | inr e ↦ rw (e, replace_pair-pass tilde digit_0 tilde x (half key) e, second_pass key) refl
]

-- An escaped key is read back.
pub unescape_token-escape_token : (key : Text) → unescape_token (escape_token key) ≡ key
unfolding unescape_token
unescape_token-escape_token key = rw (first_pass key) (second_pass key)

no_slash : (key : Text) → any (λ y. eqb y slash) (escape_token key) ≡ false
unfolding escape_token replace_unit
no_slash [] = refl
no_slash (x ∷ key) = elim (Bool-cases (eqb x tilde)) [
  | inl e ↦ rw (escape_cons x key, e) (no_slash key)
  | inr e ↦ elim (Bool-cases (eqb x slash)) [
    | inl d ↦ rw (escape_cons x key, e, d) (no_slash key)
    | inr d ↦ rw (escape_cons x key, e, d) (rw (any, d) (no_slash key))
  ]
]

uncut : (acc s : Text) → any (λ y. eqb y slash) s ≡ false → split_go slash acc s ≡ (acc ++ s) ∷ []
unfolding split_go
uncut acc [] h = ap (λ t. t ∷ []) (sym (append-nil acc))
uncut acc (x ∷ s) h =
    let same : eqb x slash ≡ false = ground arith in
    rw same
      (uncut (acc ++ (x ∷ [])) s (ground arith) ∙ ap (λ t. t ∷ []) (append_assoc acc (x ∷ []) s))

cut :
    (acc s t : Text)
    → split_go slash acc (s ++ (slash ∷ t)) ≡ split_go slash acc s ++ split_go slash [] t
unfolding split_go
cut acc [] t = refl
cut acc (x ∷ s) t = elim (Bool-cases (eqb x slash)) [
  | inl e ↦ rw (e, cut [] s t) refl
  | inr e ↦ rw (e, cut (acc ++ (x ∷ [])) s t) refl
]

last_token : (key : Text) → map unescape_token (split slash (escape_token key)) ≡ key ∷ []
unfolding split
last_token key =
    rw (uncut [] (escape_token key) (no_slash key), unescape_token-escape_token key) refl

more_tokens :
    (s key : Text)
    → map unescape_token (split slash (s ++ (slash ∷ escape_token key)))
      ≡ map unescape_token (split slash s) ++ (key ∷ [])
unfolding split
more_tokens s key =
    rw
      (
        cut [] s (escape_token key),
        map-append unescape_token (split_go slash [] s) (split_go slash [] (escape_token key)),
      )
      (ap (λ t. map unescape_token (split_go slash [] s) ++ t) (last_token key))

-- The tokens of the pointer to a key of the object at a pointer are those of that pointer and then
-- the key itself, whatever units the key has.
pub pointer_tokens-child_pointer :
    (pointer key : Text)
    → pointer_tokens (child_pointer pointer key) ≡ pointer_tokens pointer ++ (key ∷ [])
unfolding pointer_tokens child_pointer
pointer_tokens-child_pointer [] key = last_token key
pointer_tokens-child_pointer (x ∷ s) key = more_tokens s key

slot_at-append :
    (v : Slot) (ts : List Text) (key : Text)
    → slot_at v (ts ++ (key ∷ [])) ≡ slot_of (slot_at v ts) key
unfolding slot_at
slot_at-append v [] key = refl
slot_at-append v (t ∷ ts) key = slot_at-append (slot_of v t) ts key

-- The value that a document has at the pointer to a key of the object at a pointer is the member
-- that this object owns under the key, and is missing where there is no object or no such member.
pub value_at-child_pointer :
    (document : JsonValue) (pointer key : Text)
    → value_at document (child_pointer pointer key) ≡ slot_of (value_at document pointer) key
unfolding value_at
value_at-child_pointer document pointer key =
    rw (pointer_tokens-child_pointer pointer key)
      (slot_at-append (some document) (pointer_tokens pointer) key)

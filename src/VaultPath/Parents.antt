-- ===== src/VaultPath/Parents.antt =====
-- The parent folder of a path.
use obsidian_couchsync.Prelude.{
  ℕ, suc, [], ◌∷◌, ◌++◌, none, some, eqb, take, ◌≡◌, ◌⊎◌, inl, inr, refl, Option-cases, Bool-cases,
  some_inj, eqb_iff, ap, sym, ◌∙◌,
}
use obsidian_couchsync.Prelude.Text.{Text}
use obsidian_couchsync.VaultPath.{slash, last_slash, parent_dir}

last_slash-cuts :
    (p : Text) (i : ℕ)
    → last_slash p ≡ some i
    → (name : Text) × (take i p ++ (slash ∷ name) ≡ p) × (last_slash name ≡ none)
unfolding last_slash
last_slash-cuts [] i h = absurd (cc)
last_slash-cuts (x ∷ p) i h = elim (Option-cases (last_slash p)) [
  | inl e ↦ elim (Bool-cases (eqb x slash)) [
    | inl here ↦
        let first : i ≡ 0 = some_inj (sym h ∙ rw (e, here) refl) in
        (p, rw first (ap (λ y. y ∷ p) (sym ((eqb_iff x slash).0 here))), e)
    | inr there ↦ let bad : none ≡ some i = sym (rw (last_slash, e, there) refl) ∙ h in absurd (cc)
  ]
  | inr (j, e) ↦
      let next : i ≡ suc j = some_inj (sym h ∙ rw e refl) in
      let (name, cut, final) = last_slash-cuts p j e in (name, rw next (ap (λ q. x ∷ q) cut), final)
]

-- A path with a slash is its parent folder, a slash and a name without a slash. Any other path lies
-- in the root, whose path is empty.
pub parent_dir-cuts :
    (p : Text)
    → ((last_slash p ≡ none) × (parent_dir p ≡ []))
      ⊎ ((name : Text) × (parent_dir p ++ (slash ∷ name) ≡ p) × (last_slash name ≡ none))
unfolding parent_dir
parent_dir-cuts p = elim (Option-cases (last_slash p)) [
  | inl e ↦ inl (e, rw (parent_dir, e) refl)
  | inr (i, e) ↦
      let (name, cut, final) = last_slash-cuts p i e in inr (name, rw (parent_dir, e) cut, final)
]

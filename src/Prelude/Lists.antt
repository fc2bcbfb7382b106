-- ===== src/Prelude/Lists.antt =====
-- Lists measured by native numbers, membership as a Boolean, and predicates over all elements.
use Prim.Native.Nat.{ℕ, zero, suc, ◌+◌}
use mathlib.Core.Path.{◌≡◌, refl}
use mathlib.Core.Bool.{Bool, true, false, ◌||◌, ◌&&◌, false≢true}
use mathlib.Core.Logic.{◌⊎◌, inl, inr}
use mathlib.Core.List.{List, [], ◌∷◌, ◌++◌}
use native.Mathlib.Omega.{arith}
use obsidian_couchsync.Prelude.Tests.{Eq, ◌==◌, if◌then◌else◌, Bool-cases}

module _ {ℓ} {A : Type ℓ} where
  abbrev pub length : List A → ℕ
  length [] = 0
  length (x ∷ xs) = suc (length xs)

  pub length-append : (xs ys : List A) → length (xs ++ ys) ≡ length xs + length ys
  length-append [] ys = omega arith
  length-append (x ∷ xs) ys = omega (arith, length-append xs ys)

  abbrev pub take : ℕ → List A → List A
  take zero xs = []
  take (suc n) [] = []
  take (suc n) (x ∷ xs) = x ∷ take n xs

  abbrev pub drop : ℕ → List A → List A
  drop zero xs = xs
  drop (suc n) [] = []
  drop (suc n) (x ∷ xs) = drop n xs

  -- `xs.some(p)`
  abbrev pub any : (A → Bool) → List A → Bool
  any p [] = false
  any p (x ∷ xs) = p x || any p xs

  -- `xs.every(p)`
  abbrev pub all : (A → Bool) → List A → Bool
  all p [] = true
  all p (x ∷ xs) = p x && all p xs

  -- `xs.filter(p)`
  abbrev pub filter : (A → Bool) → List A → List A
  filter p [] = []
  filter p (x ∷ xs) = let rest = filter p xs in if p x then x ∷ rest else rest

module _ {ℓ κ} {A : Type ℓ} where
  abbrev pub All : (A → Type κ) → List A → Type κ
  All P [] = Unit
  All P (x ∷ xs) = P x × All P xs

module _ {ℓ} {A : Type ℓ} ⦃e : Eq A⦄ where
  -- `xs.includes(a)`, and `s.has(a)` of a set kept as the list of its members.
  abbrev pub contains : A → List A → Bool
  contains a [] = false
  contains a (x ∷ xs) = a == x || contains a xs

  pub contains-append :
      (a : A) (xs ys : List A) → contains a (xs ++ ys) ≡ (contains a xs || contains a ys)
  contains-append a [] ys = refl
  contains-append a (x ∷ xs) ys = ground (arith, contains-append a xs ys)

  pub contains-filter :
      (p : A → Bool) (a : A) (xs : List A) → contains a (filter p xs) ≡ (contains a xs && p a)
  contains-filter p a [] = refl
  contains-filter p a (x ∷ xs) = ground (arith, contains-filter p a xs, e.beq_iff a x)

module _ {ℓ} {A : Type ℓ} ⦃e : Eq A⦄ where
  pub any-contains :
      (p : A → Bool) (a : A) (xs : List A) → any p xs ≡ false → contains a xs ≡ true → p a ≡ false
  any-contains p a [] h m = ground arith
  any-contains p a (x ∷ xs) h m = ground (arith, e.beq_iff a x, any-contains p a xs)

  pub any-true :
      (p : A → Bool) (xs : List A)
      → any p xs ≡ true
      → (a : A) × (contains a xs ≡ true) × (p a ≡ true)
  any-true p [] h = absurd (false≢true h)
  any-true p (x ∷ xs) h = elim (Bool-cases (p x)) [
    | inl here ↦ (x, ground (arith, e.beq_iff x x), here)
    | inr there ↦ let (a, m, q) = any-true p xs (ground arith) in (a, ground arith, q)
  ]

  -- `new Set(xs)`: each member once, in the order of first insertion.
  unfoldable pub to_set_go : List A → List A → List A
  to_set_go seen [] = seen
  to_set_go seen (x ∷ xs) = to_set_go (if contains x seen then seen else seen ++ (x ∷ [])) xs

  unfoldable pub to_set : List A → List A
  unfolding to_set_go
  to_set xs = to_set_go [] xs

  contains-to_set_go :
      (a : A) (seen xs : List A)
      → contains a (to_set_go seen xs) ≡ (contains a seen || contains a xs)
  unfolding to_set_go
  contains-to_set_go a seen [] = ground arith
  contains-to_set_go a seen (x ∷ xs) = elim (Bool-cases (contains x seen)) [
    | inl old ↦ rw old (ground (arith, e.beq_iff a x, contains-to_set_go a seen xs))
    | inr new ↦ rw new (
        ground (arith, contains-append a seen (x ∷ []), contains-to_set_go a (seen ++ (x ∷ [])) xs))
  ]

  pub contains-to_set : (a : A) (xs : List A) → contains a (to_set xs) ≡ contains a xs
  unfolding to_set
  contains-to_set a xs = contains-to_set_go a [] xs

pub List-cases {ℓ} :
    {A : Type ℓ} (xs : List A) → (xs ≡ []) ⊎ ((y : A) × (ys : List A) × (xs ≡ y ∷ ys))
List-cases [] = inl refl
List-cases (x ∷ xs) = inr (x, xs, refl)

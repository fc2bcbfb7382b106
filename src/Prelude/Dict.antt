-- ===== src/Prelude/Dict.antt =====
-- Maps in insertion order, as JavaScript's `Map` and objects with string keys keep them.
use mathlib.Core.Path.{◌≡◌, refl}
use mathlib.Core.Option.{Option, none, some}
use mathlib.Core.List.{List, [], ◌∷◌}
use native.Mathlib.Omega.{arith}
use obsidian_couchsync.Prelude.Tests.{Eq, ◌==◌, if◌then◌else◌, is_some}
use obsidian_couchsync.Prelude.Lists.{contains}

abbrev pub Dict {ℓ κ} : Type ℓ → Type κ → Type (ℓ ⊔ κ)
Dict K V = List (K × V)

-- `Object.keys(m)`
unfoldable pub keys {ℓ κ} : {K : Type ℓ} {V : Type κ} → Dict K V → List K
keys [] = []
keys ((k, _) ∷ m) = k ∷ keys m

module _ {ℓ κ} {K : Type ℓ} {V : Type κ} ⦃e : Eq K⦄ where
  -- `m.get(k)`
  unfoldable pub lookup : K → Dict K V → Option V
  lookup key [] = none
  lookup key ((first, value) ∷ entries) =
      let rest = lookup key entries in if first == key then some value else rest

  -- `m.set(k, v)`: a key that is there keeps its place.
  unfoldable pub insert : K → V → Dict K V → Dict K V
  insert key new [] = (key, new) ∷ []
  insert key new ((first, old) ∷ entries) =
      let rest = insert key new entries in
      if first == key then (first, new) ∷ entries else (first, old) ∷ rest

  -- `m.delete(k)`
  unfoldable pub erase : K → Dict K V → Dict K V
  erase k [] = []
  erase k ((j, w) ∷ m) = let rest = erase k m in if j == k then rest else (j, w) ∷ rest

  pub lookup-insert :
      (asked set : K) (new : V) (entries : Dict K V)
      → lookup asked (insert set new entries)
        ≡ (if set == asked then some new else lookup asked entries)
  unfolding lookup insert
  lookup-insert asked set new [] = refl
  lookup-insert asked set new ((first, old) ∷ entries) = ground (
    arith,
    e.beq_iff set asked,
    e.beq_iff first set,
    e.beq_iff first asked,
    lookup-insert asked set new entries,
  )

  pub lookup-erase :
      (j k : K) (m : Dict K V) → lookup j (erase k m) ≡ (if k == j then none else lookup j m)
  unfolding lookup erase
  lookup-erase j k [] = ground arith
  lookup-erase j k ((i, w) ∷ m) =
      ground (arith, e.beq_iff k j, e.beq_iff i k, e.beq_iff i j, lookup-erase j k m)

  pub contains-keys : (k : K) (m : Dict K V) → contains k (keys m) ≡ is_some (lookup k m)
  unfolding lookup keys
  contains-keys k [] = refl
  contains-keys k ((j, v) ∷ m) = ground (arith, e.beq_iff k j, e.beq_iff j k, contains-keys k m)

-- ===== src/Reconcile/Collision/Canonical.antt =====
-- The doc that a collision settles on (src/sync/reconciler.ts, src/sync/vector-clock.ts, `findDominator`).
use mathlib.Core.Bool.{false≢true}
use mathlib.Core.Path.{subst}
use obsidian_couchsync.VectorClock.{
  VectorClock, VcRelation, equal, dominates, dominated, concurrent, compare_vc,
}
use obsidian_couchsync.VectorClock.Order.{LeVc, Relates, compare_vc-Relates}
use obsidian_couchsync.Docs.{FileDoc}
use obsidian_couchsync.Prelude.{
  Option, none, some, All, sym, ◌∙◌, ◌⊎◌, List, [], ◌∷◌, Bool, true, false, ◌&&◌, if◌then◌else◌,
  ◌≡◌, refl, arith, Bool-cases, inl, inr,
}
use obsidian_couchsync.Prelude.Text.{text_eq, text_lt}
use obsidian_couchsync.Reconcile.{PathDoc}
use obsidian_couchsync.Reconcile.Collision.{
  not_behind, dominates_all, find_dominator_in, find_dominator, smallest_path, canonical_doc,
}

abbrev pub Among : PathDoc → List PathDoc → Type 0
Among x [] = ⊥
Among x (d ∷ docs) = (x ≡ d) ⊎ Among x docs

-- The clock of `x` is at or above all of them.
abbrev HasSeenAll : (FileDoc → VectorClock) → PathDoc → List PathDoc → Type 0
HasSeenAll clock x docs = All (λ e. LeVc (clock e.doc) (clock x.doc)) docs

-- A doc of the collision that has seen all the others, if one of them has.
abbrev pub IsCanonical : (FileDoc → VectorClock) → List PathDoc → PathDoc → Type 0
IsCanonical clock docs k =
    Among k docs
    × ((x : PathDoc) → Among x docs → HasSeenAll clock x docs → HasSeenAll clock k docs)

and_true : {a b : Bool} → a ≡ true → b ≡ true → (a && b) ≡ true
and_true p q = ground arith

skip_second :
    (x best d : PathDoc) (docs : List PathDoc) → Among x (best ∷ docs) → Among x (best ∷ d ∷ docs)
skip_second x best d docs (inl same) = inl same
skip_second x best d docs (inr later) = inr (inr later)

not_behind-LeVc :
    (r : VcRelation) (a b : VectorClock)
    → Relates r a b
    → ((not_behind r ≡ true) → LeVc b a) × (LeVc b a → not_behind r ≡ true)
not_behind-LeVc equal a b h = (λ _. h.1, λ _. refl)
not_behind-LeVc dominates a b h = (λ _. h.0, λ _. refl)
not_behind-LeVc dominated a b h = (λ e. absurd (false≢true e), λ le. absurd (h.1 le))
not_behind-LeVc concurrent a b h = (λ e. absurd (false≢true e), λ le. absurd (h.1 le))

module _ (clock : FileDoc → VectorClock) where
  dominates_all-HasSeenAll :
      (d : PathDoc) (docs : List PathDoc)
      → dominates_all clock d docs ≡ true
      → HasSeenAll clock d docs
  unfolding dominates_all
  dominates_all-HasSeenAll d [] h = tt
  dominates_all-HasSeenAll d (e ∷ docs) h = (
    (not_behind-LeVc (compare_vc (clock d.doc) (clock e.doc)) (clock d.doc) (clock e.doc)
          (compare_vc-Relates (clock d.doc) (clock e.doc))).0
        (ground arith),
    dominates_all-HasSeenAll d docs (ground arith),
  )

  HasSeenAll-dominates_all :
      (d : PathDoc) (docs : List PathDoc)
      → HasSeenAll clock d docs
      → dominates_all clock d docs ≡ true
  unfolding dominates_all
  HasSeenAll-dominates_all d [] h = refl
  HasSeenAll-dominates_all d (e ∷ docs) (le, h) =
      and_true
        ((not_behind-LeVc (compare_vc (clock d.doc) (clock e.doc)) (clock d.doc) (clock e.doc)
            (compare_vc-Relates (clock d.doc) (clock e.doc))).1
          le)
        (HasSeenAll-dominates_all d docs h)

  -- What the search finds dominates all, and where it finds nothing, no candidate does.
  Found : List PathDoc → List PathDoc → Option PathDoc → Type 0
  Found everyone candidates none =
      (x : PathDoc) → Among x candidates → dominates_all clock x everyone ≡ false
  Found everyone candidates (some k) = Among k candidates × (dominates_all clock k everyone ≡ true)

  later-Found :
      (everyone : List PathDoc) (d : PathDoc) (candidates : List PathDoc) (found : Option PathDoc)
      → dominates_all clock d everyone ≡ false
      → Found everyone candidates found
      → Found everyone (d ∷ candidates) found
  unfolding Found
  later-Found everyone d candidates none h f =
      λ x among. elim among [ inl same ↦ rw same h | inr later ↦ f x later ]
  later-Found everyone d candidates (some k) h f = (inr f.0, f.1)

  find_dominator_in-Found :
      (everyone candidates : List PathDoc)
      → Found everyone candidates (find_dominator_in clock everyone candidates)
  unfolding find_dominator_in Found
  find_dominator_in-Found everyone [] = λ x among. absurd among
  find_dominator_in-Found everyone (d ∷ candidates) =
      elim (Bool-cases (dominates_all clock d everyone)) [
        | inl best ↦ rw (best, Found) (inl refl, best)
        | inr worse ↦ rw worse (
            later-Found everyone d candidates (find_dominator_in clock everyone candidates) worse
              (find_dominator_in-Found everyone candidates))
      ]

  smallest_path-Among :
      (best : PathDoc) (docs : List PathDoc) → Among (smallest_path best docs) (best ∷ docs)
  unfolding smallest_path
  smallest_path-Among best [] = inl refl
  smallest_path-Among best (d ∷ docs) =
      elim (text_lt d.path best.path)
        as (λ b. Among (smallest_path (if b then d else best) docs) (best ∷ d ∷ docs)) [
          | true ↦ inr (smallest_path-Among d docs)
          | false ↦
              skip_second (smallest_path best docs) best d docs (smallest_path-Among best docs)
        ]

  picked-IsCanonical :
      (docs : List PathDoc) (found : Option PathDoc) (least : PathDoc)
      → Found docs docs found
      → Among least docs
      → IsCanonical clock docs (elim found [ none ↦ least | some dominator ↦ dominator ])
  unfolding Found
  picked-IsCanonical docs none least f among = (
    among,
    λ x there seen. absurd (false≢true (sym (f x there) ∙ HasSeenAll-dominates_all x docs seen)),
  )
  picked-IsCanonical docs (some k) least f among =
      (f.0, λ x there seen. dominates_all-HasSeenAll k docs f.1)

  pub canonical_doc-IsCanonical :
      (d : PathDoc) (docs : List PathDoc)
      → IsCanonical clock (d ∷ docs) (canonical_doc clock d docs)
  unfolding canonical_doc find_dominator
  canonical_doc-IsCanonical d [] = (
    inl refl,
    λ x there seen. elim there [
      | inl same ↦ subst (λ y. HasSeenAll clock y (d ∷ [])) same seen
      | inr nowhere ↦ absurd nowhere
    ],
  )
  canonical_doc-IsCanonical d (e ∷ docs) =
      picked-IsCanonical (d ∷ e ∷ docs) (find_dominator_in clock (d ∷ e ∷ docs) (d ∷ e ∷ docs))
        (smallest_path d (e ∷ docs)) (find_dominator_in-Found (d ∷ e ∷ docs) (d ∷ e ∷ docs))
        (smallest_path-Among d (e ∷ docs))

-- ===== src/PushPipeline/Clocks.antt =====
-- `classifyFiles` (src/db/sync/push-pipeline.ts) against the clocks of the remote.
use mathlib.Core.Path.{subst}
use obsidian_couchsync.Prelude.{
  ap, ◌∙◌, false, if◌then◌else◌, ℕ, ◌≡◌, refl, ◌⊎◌, inl, inr, List, [], ◌∷◌, Option, none, some,
  Bool, true, ◌&&◌, arith, or_default, All, Bool-cases, contains, any, ◌==◌,
}
use obsidian_couchsync.Prelude.Text.{Text, text_eq, text_beq_iff}
use obsidian_couchsync.Prelude.Dict.{Dict, lookup, insert, lookup-insert}
use obsidian_couchsync.VectorClock.{
  VectorClock, VcRelation, equal, dominates, dominated, concurrent, compare_vc,
}
use obsidian_couchsync.VectorClock.Order.{LeVc, compare_vc_iff}
use obsidian_couchsync.Docs.{FileDoc, clock_of}
use obsidian_couchsync.PushPipeline.{
  FileRow, ClassifiedFile, FileClassifyResult, FileVerdict, ship, skip, diverge, classify_file,
  add_verdict, same_state, doc_vclock, remote_vclocks, remote_docs, remote_revs, classify_loop,
}

abbrev newest : Option VectorClock → Option VectorClock → Option VectorClock
newest none old = old
newest (some vc) old = some vc

-- The clock of the remote's doc of an id: of the last row of the id that has a doc with a clock.
abbrev pub remote_clock : Text → List FileRow → Option VectorClock → Option VectorClock
remote_clock id [] old = old
remote_clock id (row ∷ rows) old =
    remote_clock id rows (if row.id == id then newest (doc_vclock row.doc) old else old)

-- The doc has seen all that the remote doc of its id, if it has a clock, has seen.
abbrev pub HasSeen : Option VectorClock → FileDoc → Type 0
HasSeen none d = Unit
HasSeen (some vc) d = LeVc vc (clock_of d)

abbrev Sound : FileDoc → Option VectorClock → Option FileDoc → FileVerdict → Type 0
Sound d vc r (ship rev) = HasSeen vc d
Sound d vc r skip = same_state d r ≡ true
Sound d vc r (diverge x rel) = Unit

same_branches : (b : Bool) (v : Option VectorClock) → v ≡ (if b then v else v)
same_branches true v = refl
same_branches false v = refl

lookup-remote_vclocks :
    (id : Text) (rows : List FileRow) (m : Dict Text VectorClock)
    → lookup id (remote_vclocks rows m) ≡ remote_clock id rows (lookup id m)
unfolding remote_vclocks
lookup-remote_vclocks id [] m = refl
lookup-remote_vclocks id (row ∷ rows) m =
    elim (doc_vclock row.doc)
      as (λ v.
        lookup id (elim v [
          | none ↦ remote_vclocks rows m
          | some vc ↦ remote_vclocks rows (insert row.id vc m)
        ])
        ≡ remote_clock id rows (if row.id == id then newest v (lookup id m) else lookup id m)) [
          | none ↦
              lookup-remote_vclocks id rows m
              ∙ ap (remote_clock id rows) (same_branches (row.id == id) _)
          | some vc ↦ lookup-remote_vclocks id rows _ ∙ rw lookup-insert refl
        ]

All-map :
    {P Q : ClassifiedFile → Type 0}
    → ((p : ClassifiedFile) → P p → Q p)
    → (ps : List ClassifiedFile) → All P ps
    → All Q ps
All-map f [] h = tt
All-map f (p ∷ ps) (x, h) = (f p x, All-map f ps h)

VcRelation-cases :
    (r : VcRelation) → (r ≡ equal) ⊎ (r ≡ dominates) ⊎ (r ≡ dominated) ⊎ (r ≡ concurrent)
VcRelation-cases equal = inl refl
VcRelation-cases dominates = inr (inl refl)
VcRelation-cases dominated = inr (inr (inl refl))
VcRelation-cases concurrent = inr (inr (inr refl))

classify_file-Sound :
    (d : FileDoc) (vc : Option VectorClock) (r : Option FileDoc) (rev : Option Text)
    → Sound d vc r (classify_file d vc r rev)
unfolding classify_file
classify_file-Sound d none r rev = tt
classify_file-Sound d (some vc) r rev = elim (VcRelation-cases (compare_vc (clock_of d) vc)) [
  | inl e ↦ elim (Bool-cases (same_state d r)) [
    | inl same ↦ rw (e, same, classify_file, Sound) same
    | inr other ↦ rw (e, other, classify_file, Sound) tt
  ]
  | inr (inl e) ↦ elim (Bool-cases (same_state d r)) [
    | inl same ↦ rw (e, same, classify_file, Sound) same
    | inr other ↦
        rw (e, other, classify_file, Sound) ((compare_vc_iff dominates (clock_of d) vc).0 e).0
  ]
  | inr (inr (inl e)) ↦ rw (e, classify_file, Sound) tt
  | inr (inr (inr e)) ↦ rw (e, classify_file, Sound) tt
]

module _ (rows : List FileRow) (prev : Dict Text ℕ) where
  abbrev SeenBy : FileDoc → Type 0
  SeenBy d = HasSeen (lookup d.id (remote_vclocks rows [])) d

  abbrev remote_of : FileDoc → Option FileDoc
  remote_of d = lookup d.id (remote_docs rows [])

  abbrev verdict_on : FileDoc → FileVerdict
  verdict_on d =
      classify_file d (lookup d.id (remote_vclocks rows [])) (remote_of d)
        (lookup d.id (remote_revs rows []))

  add_verdict-seen :
      (d : FileDoc) (n : ℕ) (v : FileVerdict) (c : FileClassifyResult)
      → Sound d (lookup d.id (remote_vclocks rows [])) (remote_of d) v
      → All (λ p. SeenBy p.doc) c.proceed
      → All (λ p. SeenBy p.doc) (add_verdict d n v c).proceed
  unfolding add_verdict
  add_verdict-seen d n (ship rev) c s h = (s, h)
  add_verdict-seen d n skip c s h = h
  add_verdict-seen d n (diverge x rel) c s h = h

  proceed-seen :
      (docs : List FileDoc) → All (λ p. SeenBy p.doc) (classify_loop rows prev docs).proceed
  unfolding classify_loop
  proceed-seen [] = tt
  proceed-seen (d ∷ docs) =
      add_verdict-seen d (or_default (lookup d.id prev) 0) (verdict_on d)
        (classify_loop rows prev docs)
        (classify_file-Sound d (lookup d.id (remote_vclocks rows [])) (remote_of d)
          (lookup d.id (remote_revs rows [])))
        (proceed-seen docs)

  -- A file is pushed only when it loses nothing: each doc that goes on to the push has seen all that
  -- the remote's doc of its id has seen, or the remote has no doc with a clock under its id.
  pub classify_loop-HasSeen :
      (docs : List FileDoc)
      → All
          (λ p. HasSeen (remote_clock p.doc.id rows none) p.doc)
          (classify_loop rows prev docs).proceed
  unfolding lookup
  classify_loop-HasSeen docs =
      All-map (λ p. subst (λ vc. HasSeen vc p.doc) (lookup-remote_vclocks p.doc.id rows []))
        (classify_loop rows prev docs).proceed (proceed-seen docs)

  abbrev converged_as : Text → FileDoc → Bool
  converged_as id d = d.id == id && same_state d (remote_of d)

  add_verdict-skipped :
      (id : Text) (d : FileDoc) (n : ℕ) (v : FileVerdict) (c : FileClassifyResult)
      → Sound d (lookup d.id (remote_vclocks rows [])) (remote_of d) v
      → contains id (add_verdict d n v c).skipped_equal ≡ true
      → (converged_as id d ≡ true) ⊎ (contains id c.skipped_equal ≡ true)
  unfolding add_verdict
  add_verdict-skipped id d n (ship rev) c s h = inr h
  add_verdict-skipped id d n skip c s h = elim (Bool-cases (id == d.id)) [
    | inl here ↦ inl (ground (arith, text_beq_iff id d.id, text_beq_iff d.id id))
    | inr there ↦ inr (ground arith)
  ]
  add_verdict-skipped id d n (diverge x rel) c s h = inr h

  -- A file is skipped only when the remote holds its state: a skipped id is that of one of the docs,
  -- and the remote's doc of that id has the same chunks and the same deleted flag. A deletion is
  -- never skipped while the remote's doc is alive.
  classify_loop-skipped :
      (docs : List FileDoc) (id : Text)
      → contains id (classify_loop rows prev docs).skipped_equal ≡ true
      → any (λ d. d.id == id && same_state d (lookup d.id (remote_docs rows []))) docs ≡ true
  unfolding classify_loop
  classify_loop-skipped [] id h = absurd (cc)
  classify_loop-skipped (d ∷ docs) id h =
      elim (add_verdict-skipped id d (or_default (lookup d.id prev) 0) (verdict_on d)
        (classify_loop rows prev docs)
        (classify_file-Sound d (lookup d.id (remote_vclocks rows [])) (remote_of d)
          (lookup d.id (remote_revs rows [])))
        h) [
          | inl here ↦ ground arith
          | inr there ↦ ground (arith, classify_loop-skipped docs id there)
        ]

-- ===== src/Resolver/Verdicts.antt =====
-- Verdicts and the two docs (src/conflict/conflict-resolver.ts).
use obsidian_couchsync.Prelude.{◌≡◌, refl, ◌⊎◌, inr, none, some, true, false, arith}
use obsidian_couchsync.Classify.{
  vclock_only_drift, remote_edit, true_divergent, classify_sync_relation,
}
use obsidian_couchsync.Classify.Content.{classify-SameContent}
use obsidian_couchsync.Classify.Safety.{classify_pull}
use obsidian_couchsync.VectorClock.Order.{LeVc}
use obsidian_couchsync.Resolver.{
  ResolvableDoc, chunks_of, deleted_of, vclock_of, take_remote, concurrent, silent_merge,
  pull_input, verdict_of, resolve_on_pull,
}

-- The two docs are both deleted, or both alive with the same chunks.
abbrev pub SameDoc : ResolvableDoc → ResolvableDoc → Type 0
SameDoc a b =
    (deleted_of a ≡ true) × (deleted_of b ≡ true)
    ⊎ (deleted_of a ≡ false) × (deleted_of b ≡ false) × (chunks_of a ≡ chunks_of b)

module _ (a b : ResolvableDoc) where
  relation_of_take_remote :
      resolve_on_pull (some a) b none ≡ take_remote
      → classify_sync_relation (pull_input a b none) ≡ remote_edit
  unfolding resolve_on_pull verdict_of
  relation_of_take_remote h = ground arith

  relation_of_concurrent :
      resolve_on_pull (some a) b none ≡ concurrent
      → classify_sync_relation (pull_input a b none) ≡ true_divergent
  unfolding resolve_on_pull verdict_of
  relation_of_concurrent h = ground arith

  relation_of_silent_merge :
      resolve_on_pull (some a) b none ≡ silent_merge
      → classify_sync_relation (pull_input a b none) ≡ vclock_only_drift
  unfolding resolve_on_pull verdict_of
  relation_of_silent_merge h = ground arith

  -- Over a local doc, the remote doc is taken only if the contents differ and the remote clock is
  -- strictly above the local one: nothing that the remote writer had not seen is overwritten.
  pub take_remote-dominates :
      resolve_on_pull (some a) b none ≡ take_remote
      → (¬ SameDoc a b) × LeVc (vclock_of a) (vclock_of b) × ¬ LeVc (vclock_of b) (vclock_of a)
  unfolding pull_input
  take_remote-dominates h =
      (classify_pull (pull_input a b none) refl refl).0.0 (relation_of_take_remote h)

  -- A silent merge never changes content.
  pub silent_merge-SameDoc : resolve_on_pull (some a) b none ≡ silent_merge → SameDoc a b
  unfolding pull_input
  silent_merge-SameDoc h =
      (classify-SameContent (pull_input a b none)).0.0 (inr (relation_of_silent_merge h))

  pub concurrent-not-SameDoc : resolve_on_pull (some a) b none ≡ concurrent → ¬ SameDoc a b
  unfolding pull_input
  concurrent-not-SameDoc h =
      ((classify_pull (pull_input a b none) refl refl).2.0 (relation_of_concurrent h)).0

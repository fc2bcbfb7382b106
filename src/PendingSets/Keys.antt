-- ===== src/PendingSets/Keys.antt =====
-- The keys and the values of the persistent id sets.
use obsidian_couchsync.Prelude.{◌≡◌, refl, [], ◌∷◌, ◌++◌, some, false, arith, ◌==◌}
use obsidian_couchsync.Prelude.Text.{Text, text_eq, text_beq, lit}
use obsidian_couchsync.PendingSets.{
  unpushed_key, pending_apply_key, pending_conflict_key, UnpushedEntry, race_stale, divergent,
  PendingApplyEntry, missing_chunks, pending_deletion, PendingConflictEntry, pull_delete_vs_edit,
  local_delete_vs_remote_edit, edit_vs_edit, unpushed_value, apply_value, conflict_value,
  parse_unpushed, parse_apply, parse_conflict, UnpushedReason, PendingApplyReason,
  PendingConflictKind,
}

text_beq-prefixed : (p s t : Text) → text_beq (p ++ s) (p ++ t) ≡ text_beq s t
unfolding text_beq
text_beq-prefixed [] s t = refl
text_beq-prefixed (x ∷ p) s t = ground (arith, text_beq-prefixed p s t)

-- Within a set two keys are equal when the ids are.
pub unpushed_key-beq : (a b : Text) → (unpushed_key a == unpushed_key b) ≡ (a == b)
unfolding unpushed_key
unpushed_key-beq a b = text_beq-prefixed (lit "_sync/unpushed/") a b

pub pending_apply_key-beq : (a b : Text) → (pending_apply_key a == pending_apply_key b) ≡ (a == b)
unfolding pending_apply_key
pending_apply_key-beq a b = text_beq-prefixed (lit "_sync/pending-apply/") a b

pub pending_conflict_key-beq :
    (a b : Text) → (pending_conflict_key a == pending_conflict_key b) ≡ (a == b)
unfolding pending_conflict_key
pending_conflict_key-beq a b = text_beq-prefixed (lit "_sync/pending-conflict/") a b

-- A key of one set is no key of another.
pub apply_ne_conflict : (a b : Text) → (pending_apply_key a == pending_conflict_key b) ≡ false
unfolding pending_apply_key pending_conflict_key text_beq
apply_ne_conflict a b = refl

pub conflict_ne_apply : (a b : Text) → (pending_conflict_key a == pending_apply_key b) ≡ false
unfolding pending_apply_key pending_conflict_key text_beq
conflict_ne_apply a b = refl

read_apply :
    (e : PendingApplyEntry) (r : PendingApplyReason)
    → e.reason ≡ r
    → parse_apply (apply_value e) ≡ some e
unfolding parse_apply apply_value text_beq
read_apply e missing_chunks h = ground arith
read_apply e pending_deletion h = ground arith

read_unpushed :
    (e : UnpushedEntry) (r : UnpushedReason)
    → e.reason ≡ r
    → parse_unpushed (unpushed_value e) ≡ some e
unfolding parse_unpushed unpushed_value text_beq
read_unpushed e race_stale h = ground arith
read_unpushed e divergent h = ground arith

read_conflict :
    (e : PendingConflictEntry) (k : PendingConflictKind)
    → e.kind ≡ k
    → parse_conflict (conflict_value e) ≡ some e
unfolding parse_conflict conflict_value text_beq
read_conflict e pull_delete_vs_edit h = ground arith
read_conflict e local_delete_vs_remote_edit h = ground arith
read_conflict e edit_vs_edit h = ground arith

-- Every entry that one of the three sets writes is read back unchanged by its defensive parser.
pub parse-value :
    ((e : UnpushedEntry) → parse_unpushed (unpushed_value e) ≡ some e)
    × ((e : PendingApplyEntry) → parse_apply (apply_value e) ≡ some e)
    × ((e : PendingConflictEntry) → parse_conflict (conflict_value e) ≡ some e)
parse-value = (
  λ e. read_unpushed e e.reason refl,
  λ e. read_apply e e.reason refl,
  λ e. read_conflict e e.kind refl,
)

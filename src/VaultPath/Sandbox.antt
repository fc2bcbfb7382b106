-- ===== src/VaultPath/Sandbox.antt =====
-- A path that passes the check stays inside the vault.
use obsidian_couchsync.Prelude.{
  ℕ, List, [], ◌∷◌, ◌++◌, none, false, ◌||◌, eqb, if◌then◌else◌, ◌==◌, contains, ◌≡◌, refl, arith,
  Bool-cases, inl, inr,
}
use obsidian_couchsync.Prelude.Text.{Text, text_eq, text_beq_iff, lit, split, split_go, starts_with}
use obsidian_couchsync.VaultPath.{slash, backslash, has_unit, unsafe_vault_path_reason, has_drive}

-- How a file system reads a path: either separator ends a segment.
unfoldable pub segments_go : Text → Text → List Text
segments_go acc [] = acc ∷ []
segments_go acc (x ∷ xs) =
    let cut = acc ∷ segments_go [] xs in
    let keep = segments_go (acc ++ (x ∷ [])) xs in
    if eqb x slash || eqb x backslash then cut else keep

-- The folders that lead to the target, innermost first: an empty segment and `.` stay, and `..`
-- leaves a folder.
unfoldable pub walk : List Text → List Text → List Text
walk folders [] = folders
walk folders (segment ∷ segments) =
    let up : List Text = elim folders [ [] ↦ walk [] segments | _ ∷ outer ↦ walk outer segments ] in
    let stay = walk folders segments in
    let enter = walk (segment ∷ folders) segments in
    if segment == []
    then stay
    else if segment == lit "."
    then stay
    else if segment == lit ".."
    then up
    else enter

-- The target of a path below the folders of the vault. An absolute path starts over.
unfoldable pub target : List Text → Text → List Text
target vault p =
    if starts_with p (slash ∷ [])
    then walk [] (segments_go [] p)
    else if starts_with p (backslash ∷ [])
    then walk [] (segments_go [] p)
    else if has_drive p
    then walk [] (segments_go [] p)
    else walk vault (segments_go [] p)

segments_split :
    (acc p : Text) → has_unit backslash p ≡ false → segments_go acc p ≡ split_go slash acc p
unfolding segments_go split_go has_unit
segments_split acc [] h = refl
segments_split acc (x ∷ p) h =
    ground
      (arith, segments_split [] p (ground arith), segments_split (acc ++ (x ∷ [])) p (ground arith))

walk-below :
    (below vault : List Text) (segments : List Text)
    → contains (lit "..") segments ≡ false
    → (rest : List Text) × (walk (below ++ vault) segments ≡ rest ++ vault)
unfolding walk
walk-below below vault [] h = (below, refl)
walk-below below vault (segment ∷ segments) h =
    let onward : (rest : List Text) × (walk (below ++ vault) segments ≡ rest ++ vault) =
      walk-below below vault segments (ground arith) in
    let (deep, entered) = walk-below (segment ∷ below) vault segments (ground arith) in
    elim (Bool-cases (segment == [])) [
      | inl e ↦ (onward.0, rw e onward.1)
      | inr e ↦ elim (Bool-cases (segment == lit ".")) [
        | inl d ↦ (onward.0, rw (e, d) onward.1)
        | inr d ↦
            let not_up : (segment == lit "..") ≡ false =
              ground (arith, text_beq_iff segment (lit ".."), text_beq_iff (lit "..") segment) in
            (deep, rw (e, d, not_up) entered)
      ]
    ]

walk-vault :
    (vault : List Text) (p : Text)
    → has_unit backslash p ≡ false
    → contains (lit "..") (split slash p) ≡ false
    → (rest : List Text) × (walk vault (segments_go [] p) ≡ rest ++ vault)
unfolding split
walk-vault vault p plain below =
    let (rest, same) = walk-below [] vault (split slash p) below in
    (rest, rw (segments_split [] p plain) same)

no_share :
    (x : ℕ) (p : Text)
    → has_unit backslash (x ∷ p) ≡ false
    → starts_with (x ∷ p) (backslash ∷ []) ≡ false
unfolding has_unit starts_with
no_share x [] plain = ground arith
no_share x (y ∷ p) plain = ground arith

-- A path that `unsafeVaultPathReason` does not refuse leads into the vault: read with `/` and `\` as
-- separators, with `..`, absolute paths and drives, its target lies at or below the vault's folder,
-- wherever that is.
pub unsafe_vault_path_reason-inside :
    (p : Text) (vault : List Text)
    → unsafe_vault_path_reason p ≡ none
    → (rest : List Text) × (target vault p ≡ rest ++ vault)
unfolding unsafe_vault_path_reason target
unsafe_vault_path_reason-inside [] vault safe = absurd (cc)
unsafe_vault_path_reason-inside (x ∷ p) vault safe =
    let plain : has_unit backslash (x ∷ p) ≡ false = ground arith in
    let relative : starts_with (x ∷ p) (slash ∷ []) ≡ false = ground arith in
    let no_drive : has_drive (x ∷ p) ≡ false = ground arith in
    let below : contains (lit "..") (split slash (x ∷ p)) ≡ false = ground arith in
    let (rest, inside) = walk-vault vault (x ∷ p) plain below in
    (rest, rw (relative, no_share x p plain, no_drive) inside)

-- ===== src/VaultPath.antt =====
-- Paths in the vault (src/utils/path.ts). `toPathKey` is Unicode normalisation by the platform, and
-- is left out.
pub mod Sandbox
pub mod Parents
use obsidian_couchsync.Prelude.{
  ℕ, suc, List, [], ◌∷◌, Option, none, some, Bool, true, false, ◌&&◌, ◌||◌, eqb, leb, if◌then◌else◌,
  ◌==◌, contains, take, is_some,
}
use obsidian_couchsync.Prelude.Text.{Text, text_eq, lit, split, starts_with}

abbrev pub slash : ℕ
slash = 47

abbrev pub backslash : ℕ
backslash = 92

-- `p.includes(c)` for one code unit.
unfoldable pub has_unit : ℕ → Text → Bool
has_unit c [] = false
has_unit c (x ∷ xs) = eqb x c || has_unit c xs

-- `p.lastIndexOf("/")`
unfoldable pub last_slash : Text → Option ℕ
last_slash [] = none
last_slash (x ∷ xs) = elim (last_slash xs) [
  | none ↦ if eqb x slash then some 0 else none
  | some i ↦ some (suc i)
]

unfoldable pub parent_dir : Text → Text
parent_dir p = elim (last_slash p) [ none ↦ [] | some i ↦ take i p ]

pub data UnsafeReason : Type 0 where
  empty_path backslash_separator absolute_path drive_letter parent_traversal : UnsafeReason

-- `/[a-zA-Z]/`
abbrev pub is_letter : ℕ → Bool
is_letter c = (leb 65 c && leb c 90) || (leb 97 c && leb c 122)

-- `/^[a-zA-Z]:/.test(p)`
unfoldable pub has_drive : Text → Bool
has_drive (x ∷ y ∷ p) = is_letter x && eqb y 58
has_drive _ = false

unfoldable pub unsafe_vault_path_reason : Text → Option UnsafeReason
unsafe_vault_path_reason [] = some empty_path
unsafe_vault_path_reason (x ∷ p) =
    if has_unit backslash (x ∷ p)
    then some backslash_separator
    else if starts_with (x ∷ p) (slash ∷ [])
    then some absolute_path
    else if has_drive (x ∷ p)
    then some drive_letter
    else if contains (lit "..") (split slash (x ∷ p))
    then some parent_traversal
    else none

-- ===== src/Backup/EntryName.antt =====
-- entryname.go: which names of tree entries the backup writes to disk. A name is its code points.
pub mod DotGit
use leafwiki.Base.{
  ℕ, zero, suc, ◌-◌, ◌+◌, String, Bool, true, false, ◌&&◌, ◌||◌, not, List, [], ◌∷◌, ◌++◌, Option,
  none, some, ltb, leb, ◌==◌, if◌then◌else◌, some_of, keep, map,
}
use leafwiki.Base.Text.{Text, codes, text_eq, to_lower, equal_fold}

pub data NameProblem : Type 0 where
  empty relative separator control refers_to_git : NameProblem
  not_allowed trailing device : NameProblem

abbrev pub git_dir : Text
git_dir = codes ".git"

abbrev pub git_short : Text
git_short = codes "git~1"

-- The tail of a name that NTFS drops: dots and spaces, then nothing or a stream.
unfoldable pub dropped_tail : Text → Bool
dropped_tail [] = true
dropped_tail (c ∷ s) =
    let rest = dropped_tail s in
    if c == b':' then true else if c == b'.' || c == b' ' then rest else false

-- What is left of a name behind a prefix, up to case
unfoldable pub after_prefix : Text → Text → Option Text
after_prefix [] name = some name
after_prefix (p ∷ ps) [] = none
after_prefix (p ∷ ps) (c ∷ s) =
    let rest = after_prefix ps s in if equal_fold (c ∷ []) (p ∷ []) then rest else none

-- `isNTFSDotGit`
unfoldable pub is_ntfs_dot_git : Text → Bool
unfolding after_prefix dropped_tail
is_ntfs_dot_git name = elim (after_prefix git_dir name) [
  | some rest ↦ dropped_tail rest
  | none ↦ elim (after_prefix git_short name) [ some rest ↦ dropped_tail rest | none ↦ false ]
]

-- `hfsIgnoredCodepoints`
unfoldable pub hfs_ignored : ℕ → Bool
hfs_ignored c =
    (leb 8204 c && leb c 8207)
    || (leb 8234 c && leb c 8238)
    || (leb 8298 c && leb c 8303)
    || c == 65279

-- `isHFSDotGit`: a code point that is not ASCII and not dropped makes it false
unfoldable pub is_hfs_dot_git : Text → Bool
unfolding to_lower keep some_of
is_hfs_dot_git name =
    let kept = keep (λ c. not (hfs_ignored c)) name in
    not (some_of (λ c. ltb 127 c) kept) && text_eq (to_lower kept) git_dir

-- `gitTreeNameProblem`
unfoldable pub git_tree_name_problem : Text → Option NameProblem
unfolding some_of
git_tree_name_problem name =
    if text_eq name []
    then some empty
    else if text_eq name (codes ".") || text_eq name (codes "..")
    then some relative
    else if some_of (λ c. c == 47 || c == 92) name
    then some separator
    else if some_of (λ c. ltb c 32 || c == 127) name
    then some control
    else if is_ntfs_dot_git name || is_hfs_dot_git name
    then some refers_to_git
    else none

unfoldable pub ends_with : ℕ → Text → Bool
ends_with d [] = false
ends_with d (c ∷ []) = c == d
ends_with d (c ∷ e ∷ s) = ends_with d (e ∷ s)

-- the part of a name before its first dot, without trailing spaces
unfoldable pub base_name : Text → Text
base_name [] = []
base_name (c ∷ s) =
    let rest : Text = elim (base_name s) [
      | [] ↦ if c == b' ' then [] else c ∷ []
      | d ∷ t ↦ c ∷ d ∷ t
    ] in
    if c == b'.' then [] else rest

-- `unicode.ToUpper` where it gives an ASCII letter: besides a to z, these are ı and ſ
unfoldable pub upper : ℕ → ℕ
upper c =
    if leb b'a' c && leb c b'z'
    then c - 32
    else if c == 305
    then b'I'
    else if c == 383
    then b'S'
    else c

abbrev digits : List ℕ
digits = codes "0123456789" ++ 185 ∷ 178 ∷ 179 ∷ []

-- `windowsReservedNames`
unfoldable pub windows_reserved_names : List Text
windows_reserved_names =
    (codes "CON" ∷ codes "PRN" ∷ codes "AUX" ∷ codes "NUL" ∷ codes "CONIN$" ∷ codes "CONOUT$" ∷ [])
    ++ map (λ d. codes "COM" ++ d ∷ []) digits
    ++ map (λ d. codes "LPT" ++ d ∷ []) digits

-- `isWindowsReservedName`
unfoldable pub is_windows_reserved_name : Text → Bool
unfolding some_of
is_windows_reserved_name name =
    some_of (text_eq (map upper (base_name name))) windows_reserved_names

-- `windowsNameProblem`
unfoldable pub windows_name_problem : Text → Option NameProblem
unfolding some_of
windows_name_problem name =
    if some_of (λ c. some_of (λ d. c == d) (58 ∷ 60 ∷ 62 ∷ 34 ∷ 124 ∷ 63 ∷ 42 ∷ [])) name
    then some not_allowed
    else if ends_with b'.' name || ends_with b' ' name
    then some trailing
    else if is_windows_reserved_name name
    then some device
    else none

-- `validateTreeEntryName`; the flag says whether the server runs on Windows
unfoldable pub validate_tree_entry_name : Bool → Text → Option NameProblem
validate_tree_entry_name windows name = elim (git_tree_name_problem name) [
  | some p ↦ some p
  | none ↦ if windows then windows_name_problem name else none
]

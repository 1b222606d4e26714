-- ===== src/Backup/EntryName/DotGit.antt =====
-- The names that a file system resolves to ".git", and those that the backup accepts.
use leafwiki.Base.{
  ℕ, ◌≡◌, ◌≢◌, refl, sym, ◌∙◌, subst, inl, inr, ◌⊎◌, Bool-cases, Bool, true, false, ◌||◌, not, [],
  ◌∷◌, none, some, arith, ◌==◌, some_of, keep, ltb, if◌then◌else◌,
}
use leafwiki.Base.Text.{Text, codes, text_eq, text_eq_sound, to_lower, equal_fold}
use leafwiki.Backup.EntryName.{
  git_dir, git_short, dropped_tail, after_prefix, is_ntfs_dot_git, is_hfs_dot_git, hfs_ignored,
  git_tree_name_problem, validate_tree_entry_name,
}

List-cases : (s : Text) → (s ≡ []) ⊎ ((d : ℕ) × (t : Text) × (s ≡ d ∷ t))
List-cases [] = inl refl
List-cases (d ∷ t) = inr (d, t, refl)

-- What NTFS makes of a name: a stream and then trailing dots and spaces go.
abbrev pub ntfs_name : Text → Text
ntfs_name [] = []
ntfs_name (c ∷ s) = if c == b':' then [] else elim (ntfs_name s) [
  | [] ↦ if c == b'.' || c == b' ' then [] else c ∷ []
  | d ∷ t ↦ c ∷ d ∷ t
]

dropped_tail_ntfs : (s : Text) → ntfs_name s ≡ [] → dropped_tail s ≡ true
unfolding dropped_tail
dropped_tail_ntfs [] e = refl
dropped_tail_ntfs (c ∷ s) e = elim (List-cases (ntfs_name s)) [
  | inl q ↦ ground (arith, q, dropped_tail_ntfs s q)
  | inr (d, t, q) ↦ ground (arith, q)
]

ntfs_name_cons : (c : ℕ) (s : Text) → ntfs_name (c ∷ s) ≢ [] → ntfs_name (c ∷ s) ≡ c ∷ ntfs_name s
ntfs_name_cons c s e = elim (List-cases (ntfs_name s)) [
  | inl q ↦ ground (arith, q, e)
  | inr (d, t, q) ↦ ground (arith, q, e)
]

equal_fold_nil : (s : Text) → equal_fold s [] ≡ true → s ≡ []
unfolding equal_fold to_lower text_eq
equal_fold_nil [] e = refl
equal_fold_nil (c ∷ s) e = absurd (ground arith)

equal_fold_cons :
    (c q : ℕ) (s p : Text)
    → equal_fold (c ∷ s) (q ∷ p) ≡ true
    → (equal_fold (c ∷ []) (q ∷ []) ≡ true) × (equal_fold s p ≡ true)
unfolding equal_fold to_lower text_eq
equal_fold_cons c q s p e = ground arith

not_nil : (s : Text) (q : ℕ) (p : Text) → equal_fold s (q ∷ p) ≡ true → s ≢ []
unfolding equal_fold to_lower text_eq
not_nil [] q p e = absurd (ground arith)
not_nil (c ∷ s) q p e = λ f. cc

after_prefix_ntfs :
    (p name : Text)
    → equal_fold (ntfs_name name) p ≡ true
    → (rest : Text) × (after_prefix p name ≡ some rest) × (dropped_tail rest ≡ true)
unfolding after_prefix
after_prefix_ntfs [] name e = (name, refl, dropped_tail_ntfs name (equal_fold_nil _ e))
after_prefix_ntfs (q ∷ p) [] e = absurd (not_nil [] q p e refl)
after_prefix_ntfs (q ∷ p) (c ∷ s) e =
    let cons = ntfs_name_cons c s (not_nil (ntfs_name (c ∷ s)) q p e) in
    let (head, tail) =
      equal_fold_cons c q (ntfs_name s) p (subst (λ n. equal_fold n (q ∷ p) ≡ true) cons e) in
    let (rest, found, dropped) = after_prefix_ntfs p s tail in
    (rest, ground (arith, head, found), dropped)

-- The names that stand for ".git" on some file system: on NTFS its long and its short name, and on
-- HFS+ the name without the code points that it ignores.
abbrev pub means_dot_git : Text → Bool
means_dot_git name =
    equal_fold (ntfs_name name) git_dir
    || equal_fold (ntfs_name name) git_short
    || text_eq (to_lower (keep (λ c. not (hfs_ignored c)) name)) git_dir

one_prefix :
    (name rest : Text) → after_prefix git_short name ≡ some rest → after_prefix git_dir name ≡ none
unfolding after_prefix equal_fold to_lower text_eq
one_prefix [] rest e = absurd (ground arith)
one_prefix (c ∷ s) rest e = ground arith

is_ntfs_dot_git_lem :
    (name : Text)
    → (equal_fold (ntfs_name name) git_dir || equal_fold (ntfs_name name) git_short) ≡ true
    → is_ntfs_dot_git name ≡ true
unfolding is_ntfs_dot_git
is_ntfs_dot_git_lem name e = elim (Bool-cases (equal_fold (ntfs_name name) git_dir)) [
  | inl q ↦ let (rest, f, d) = after_prefix_ntfs git_dir name q in ground (arith, f, d)
  | inr q ↦
      let (rest, f, d) = after_prefix_ntfs git_short name (ground (arith, e, q)) in
      ground (arith, f, d, one_prefix name rest f)
]

to_lower-ascii : (s : Text) → some_of (λ c. ltb 127 c) (to_lower s) ≡ some_of (λ c. ltb 127 c) s
unfolding some_of to_lower
to_lower-ascii [] = refl
to_lower-ascii (c ∷ s) = ground (arith, to_lower-ascii s)

is_hfs_dot_git_lem :
    (name : Text)
    → text_eq (to_lower (keep (λ c. not (hfs_ignored c)) name)) git_dir ≡ true
    → is_hfs_dot_git name ≡ true
unfolding is_hfs_dot_git
is_hfs_dot_git_lem name e =
    let kept = keep (λ c. not (hfs_ignored c)) name in
    let plain : some_of (λ c. ltb 127 c) git_dir ≡ false = unfold some_of in refl in
    let folded =
      subst (λ s. some_of (λ c. ltb 127 c) s ≡ false) (sym (text_eq_sound _ _ e)) plain in
    let ascii : some_of (λ c. ltb 127 c) kept ≡ false = sym (to_lower-ascii kept) ∙ folded in
    ground (arith, ascii, e)

-- A name that `validateTreeEntryName` accepts, on any system, is not empty and not "..", has no
-- character that separates paths, and neither NTFS nor HFS+ takes it for ".git".
pub accepted_lem :
    (windows : Bool) (name : Text)
    → validate_tree_entry_name windows name ≡ none
    → (means_dot_git name ≡ false)
      × (some_of (λ c. c == 47 || c == 92) name ≡ false)
      × (text_eq name [] ≡ false)
      × (text_eq name (codes "..") ≡ false)
unfolding validate_tree_entry_name git_tree_name_problem
accepted_lem windows name e = ground (arith, is_ntfs_dot_git_lem name, is_hfs_dot_git_lem name)

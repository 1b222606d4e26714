-- ===== src/Examples/Entries.antt =====
-- Names of tree entries.
use leafwiki.Base.{◌≡◌, refl, false, true, ◌∷◌, ◌++◌, [], none, some, some_of, ◌||◌, ◌==◌}
use leafwiki.Base.Text.{codes, text_eq, equal_fold}
use leafwiki.Backup.EntryName.{
  validate_tree_entry_name, git_tree_name_problem, windows_name_problem, refers_to_git, device,
  is_ntfs_dot_git, is_hfs_dot_git, is_windows_reserved_name, windows_reserved_names, base_name,
  ends_with, upper, hfs_ignored,
}
use leafwiki.Backup.EntryName.DotGit.{means_dot_git, accepted_lem}

home : validate_tree_entry_name true (codes "home.md") ≡ none
unfolding validate_tree_entry_name git_tree_name_problem windows_name_problem is_ntfs_dot_git
    is_hfs_dot_git is_windows_reserved_name windows_reserved_names base_name ends_with upper
    hfs_ignored equal_fold text_eq
home = refl

entries_tests :
    (validate_tree_entry_name false (codes ".Git. :x") ≡ some refers_to_git)
    × (validate_tree_entry_name false (codes ".g" ++ 8204 ∷ codes "it") ≡ some refers_to_git)
    × (validate_tree_entry_name true (codes "com1 .md") ≡ some device)
    × (validate_tree_entry_name false (codes "com1 .md") ≡ none)
unfolding validate_tree_entry_name git_tree_name_problem windows_name_problem is_ntfs_dot_git
    is_hfs_dot_git is_windows_reserved_name windows_reserved_names base_name ends_with upper
    hfs_ignored equal_fold text_eq
entries_tests = (refl, refl, refl, refl)

accepted_example :
    (means_dot_git (codes "home.md") ≡ false)
    × (some_of (λ c. c == 47 || c == 92) (codes "home.md") ≡ false)
    × (text_eq (codes "home.md") [] ≡ false)
    × (text_eq (codes "home.md") (codes "..") ≡ false)
accepted_example = accepted_lem true (codes "home.md") home

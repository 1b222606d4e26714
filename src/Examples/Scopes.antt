-- ===== src/Examples/Scopes.antt =====
-- The scope of the page `guides` in the wiki of four nodes.
use leafwiki.Base.{◌≡◌, refl, ◌||◌, true, false, String, none, some, if◌then◌else◌, str_eq}
use leafwiki.Base.Text.{text_eq, trim_space, is_space}
use leafwiki.Tree.State.{Check, pass, fail, page_not_found}
use leafwiki.Tree.Index.{get_node_by_id, is_child_of, climbs_to}
use leafwiki.Tree.Subtree.{is_in_subtree}
use leafwiki.Tree.Subtree.Walks.{is_in_subtree_lem}
use leafwiki.ScopedRead.{
  ReadScope, Page, not_found, invalid_scope, refused, check, validate, read_page,
}
use leafwiki.ScopedRead.Shown.{tree_source, within, check_lem, hidden_lem}
use leafwiki.Examples.Wiki.{wiki, wiki-IsSoundTree}

abbrev guides_scope : ReadScope
guides_scope = record { root_id = "g"; include_descendants = true }

abbrev no_pages : String → Check Page
no_pages id = fail page_not_found

scope_tests :
    (check (tree_source (wiki false) no_pages) guides_scope "i" ≡ none)
    × (check (tree_source (wiki false) no_pages) guides_scope "h" ≡ some not_found)
    × (validate (record { root_id = " g"; include_descendants = true }) ≡ some invalid_scope)
    × (validate guides_scope ≡ none)
unfolding check validate is_in_subtree get_node_by_id climbs_to trim_space text_eq is_space
scope_tests = (refl, refl, refl, refl)

is_in_subtree_example :
    is_in_subtree (wiki false) "i" "g"
    ≡ pass (str_eq "i" "g" || is_child_of 4 (wiki false).nodes 2 "i" true)
is_in_subtree_example =
    is_in_subtree_lem (wiki false) "i" "g" 0 3 2 (wiki-IsSoundTree false) refl
      (unfold get_node_by_id in refl) (unfold get_node_by_id in refl)

check_example :
    check (tree_source (wiki false) no_pages) guides_scope "i"
    ≡ (if within (wiki false) guides_scope 2 "i" then none else some not_found)
check_example =
    check_lem (wiki false) no_pages guides_scope "i" 0 3 2 (wiki-IsSoundTree false) refl
      (unfold get_node_by_id in refl) (unfold get_node_by_id in refl)

hidden_example :
    read_page none (tree_source (wiki false) no_pages) guides_scope "h" ≡ refused not_found
hidden_example =
    hidden_lem (wiki false) no_pages guides_scope "h" 0 2 (wiki-IsSoundTree false) refl
      scope_tests.3 (unfold get_node_by_id in refl) (unfold get_node_by_id is_child_of in refl)

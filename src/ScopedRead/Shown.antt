-- ===== src/ScopedRead/Shown.antt =====
-- What a scope lets through of a sound tree.
use leafwiki.Base.{
  String, Bool, true, false, ◌≡◌, ◌||◌, ◌&&◌, none, some, arith, str_eq, eq_iff, if◌then◌else◌,
  Option-cases, inl, inr,
}
use leafwiki.Tree.Node.{Ref}
use leafwiki.Tree.State.{TreeService, Check}
use leafwiki.Tree.Index.{get_node_by_id, is_child_of}
use leafwiki.Tree.Subtree.{is_in_subtree}
use leafwiki.Tree.Subtree.Walks.{is_in_subtree_lem}
use leafwiki.Tree.Invariant.{IsSoundTree}
use leafwiki.ScopedRead.{
  ReadScope, not_found, Page, PageSource, refused, check, validate, read_page,
}

-- The tree as a source of pages.
abbrev pub tree_source : {D : Type 0} → TreeService D → (String → Check Page) → PageSource
tree_source t get_page = record { is_in_subtree = is_in_subtree t; get_page = get_page }

abbrev pub within : {D : Type 0} → TreeService D → ReadScope → Ref → String → Bool
within t scope a id =
    str_eq id scope.root_id || (scope.include_descendants && is_child_of t.next t.nodes a id true)

-- For a page of a sound tree, a scope on one of its nodes answers by the tree below that node: the
-- node itself is let through, and with descendants the nodes below it; all else is not found.
pub check_lem :
    {D : Type 0} (t : TreeService D) (get_page : String → Check Page) (scope : ReadScope)
    (id : String) (r n a : Ref)
    → IsSoundTree t
    → t.tree ≡ some r
    → get_node_by_id t id ≡ some n
    → get_node_by_id t scope.root_id ≡ some a
    → check (tree_source t get_page) scope id
      ≡ (if within t scope a id then none else some not_found)
unfolding check get_node_by_id
check_lem t get_page scope id r n a sound loaded gn ga =
    ground (arith, is_in_subtree_lem t id scope.root_id r n a sound loaded gn ga)

abbrev pub visible : {D : Type 0} → TreeService D → ReadScope → Ref → String → Bool
visible t scope a id = elim (get_node_by_id t id) [ none ↦ false | some n ↦ within t scope a id ]

-- Under a valid scope on a node of a sound tree, an id that the tree does not have and a page
-- outside of the scope get one and the same answer: not found.
pub hidden_lem :
    {D : Type 0} (t : TreeService D) (get_page : String → Check Page) (scope : ReadScope)
    (id : String) (r a : Ref)
    → IsSoundTree t
    → t.tree ≡ some r
    → validate scope ≡ none
    → get_node_by_id t scope.root_id ≡ some a
    → visible t scope a id ≡ false
    → read_page none (tree_source t get_page) scope id ≡ refused not_found
unfolding read_page
hidden_lem t get_page scope id r a sound loaded valid ga out =
    elim (Option-cases (get_node_by_id t id)) [
      | inr (n, gn) ↦
          ground (arith, valid, out, check_lem t get_page scope id r n a sound loaded gn ga)
      | inl gn ↦ ground (arith, valid, unknown gn)
    ]
  where
    unknown : get_node_by_id t id ≡ none → check (tree_source t get_page) scope id ≡ some not_found
    unknown gn =
        unfold check is_in_subtree in ground (arith, gn, ga, loaded, eq_iff id scope.root_id)

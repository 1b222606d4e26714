-- ===== src/Tree/Subtree.antt =====
-- tree_index.go: `IsInSubtree`, which walks up from a node.
pub mod Walks
use leafwiki.Base.{String, Bool, none, some}
use leafwiki.Tree.State.{TreeService, Check, pass, fail, page_not_found, tree_not_loaded}
use leafwiki.Tree.Index.{get_node_by_id, climbs_to}

-- `IsInSubtree`; the walk takes as much fuel as there are addresses in use.
unfoldable pub is_in_subtree : {D : Type 0} → TreeService D → String → String → Check Bool
is_in_subtree t id root_id = elim t.tree [
  | none ↦ fail tree_not_loaded
  | some r ↦ elim (get_node_by_id t id) [
    | none ↦ fail page_not_found
    | some n ↦ elim (get_node_by_id t root_id) [
      | none ↦ fail page_not_found
      | some a ↦ pass (climbs_to t.next t.nodes n root_id)
    ]
  ]
]

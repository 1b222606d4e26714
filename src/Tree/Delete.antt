-- ===== src/Tree/Delete.antt =====
-- tree_mutations.go: `DeleteNode`.
pub mod Swept
pub mod Pruned
pub mod Unlinked
pub mod Sound
use leafwiki.Base.{ℕ, String, Bool, true, false, not, ◌&&◌, Option, none, some, if◌then◌else◌}
use leafwiki.Tree.Node.{Ref, NodeKind, page, section, other_kind, PageNode, has_children}
use leafwiki.Tree.State.{
  Heap, TreeService, NodeStore, TreeError, Check, pass, fail, ◌>>=◌, ◌>>◌, or_fail, refuse_if,
  refuse_some, check_node_version, tree_not_loaded, page_not_found, page_has_children,
  parent_not_found, delete_failed, convert_failed, unknown_node_kind, child_order_failed,
}
use leafwiki.Tree.Index.{get_node_by_id, remove_node_index}
use leafwiki.Tree.Positions.{set_children, reindex_positions}
use leafwiki.Tree.Move.{remove_child, set_kind}

-- The node that is to go, and its parent.
pub record Doomed : Type 0 where
  pub node : Ref
  pub parent : Ref

module _ {D : Type 0} (format_time : ℕ → String) where
  -- the checks, in the order of the code
  unfoldable pub check_delete : TreeService D → String → Bool → String → Check Doomed
  unfolding has_children
  check_delete t id recursive expected = do
    root ← or_fail tree_not_loaded t.tree
    node ← or_fail page_not_found (get_node_by_id t id)
    refuse_some (check_node_version format_time (t.nodes node) expected)
    refuse_if (has_children (t.nodes node) && not recursive) page_has_children
    parent ← or_fail parent_not_found (t.nodes node).parent
    pass (record { node = node; parent = parent })

abbrev failed_as : (String → TreeError) → Option String → Option TreeError
failed_as f none = none
failed_as f (some e) = some (f e)

module _ {D : Type 0} where
  -- the changes in memory, after the files are gone
  unfoldable pub unlink : String → Doomed → TreeService D → TreeService D
  unlink id r t =
      let left = remove_child t.nodes id (t.nodes r.parent).children in
      let t' = remove_node_index r.node (record t { nodes = set_children r.parent left t.nodes }) in
      record t' { nodes = reindex_positions r.parent t'.nodes }

module _ {D : Type 0} (store : NodeStore D) where
  unfoldable pub delete_section_files : Ref → TreeService D → TreeService D × Option TreeError
  delete_section_files node t =
      let (d, e) = store.delete_section t.nodes node t.disk in
      (record t { disk = d }, failed_as delete_failed e)

  -- the case of a page that has children: it becomes a section first
  unfoldable pub delete_page_tree : Ref → TreeService D → TreeService D × Option TreeError
  unfolding delete_section_files
  delete_page_tree node t =
      let (d, wrote, err) = store.convert_node t.nodes node section t.disk in
      elim err [
        | some e ↦ (
          record t { disk = d; nodes = if wrote then set_kind node section t.nodes else t.nodes },
          some (convert_failed e),
        )
        | none ↦
            delete_section_files node (record t { disk = d; nodes = set_kind node section t.nodes })
      ]

  -- the switch on the kind
  unfoldable pub delete_files : Ref → TreeService D → TreeService D × Option TreeError
  unfolding delete_section_files delete_page_tree has_children
  delete_files node t = elim (t.nodes node).kind [
    | section ↦ delete_section_files node t
    | page ↦
        if has_children (t.nodes node)
        then delete_page_tree node t
        else (let (d, e) = store.delete_page t.nodes node t.disk in
            (record t { disk = d }, failed_as delete_failed e))
    | other_kind k ↦ (t, some unknown_node_kind)
  ]

  -- what follows the checks
  unfoldable pub remove_node : String → Doomed → TreeService D → TreeService D × Option TreeError
  remove_node id r t =
      let (t1, err) = delete_files r.node t in
      elim err [
        | some e ↦ (t1, some e)
        | none ↦
            let t2 = unlink id r t1 in
            let (d, failed) = store.save_child_order t2.nodes r.parent t2.disk in
            (record t2 { disk = d }, failed_as child_order_failed failed)
      ]

module _ {D : Type 0} (format_time : ℕ → String) (store : NodeStore D) where
  -- `DeleteNode`
  unfoldable pub delete_node :
      String → Bool → String → TreeService D → TreeService D × Option TreeError
  delete_node id recursive expected t = elim (check_delete format_time t id recursive expected) [
    | fail e ↦ (t, some e)
    | pass r ↦ remove_node store id r t
  ]

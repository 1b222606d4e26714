-- ===== src/Tree/Move/Restore.antt =====
-- The rollback puts every node back.
use leafwiki.Base.{◌≡◌, true, ◌||◌, List, some, arith, ◌==◌, if◌then◌else◌}
use leafwiki.Base.Members.{mem, mem-append}
use leafwiki.Tree.Node.{Ref}
use leafwiki.Tree.State.{Heap, write, TreeService}
use leafwiki.Tree.Index.{rebuild_child_slug_index}
use leafwiki.Tree.Positions.{set_children, restore_child_snapshot, snapshot_child_positions}
use leafwiki.Tree.Positions.Members.{
  DistinctIds, restore_children_lem, snapshot_child_positions_lem,
}
use leafwiki.Tree.Move.{Route, relink_back}
use leafwiki.Tree.Move.Frame.{IsNear, numbered_nodes}

-- The route of a move in a sound tree: the node's parent is `from`, the children of both parents
-- point back to them, and siblings have different ids.
pub record IsSound (h : Heap) (r : Route) : Type 0 where
  pub node_parent : (h r.node).parent ≡ some r.from
  pub from_owns : (c : Ref) → mem c (h r.from).children ≡ true → (h c).parent ≡ some r.from
  pub to_owns : (c : Ref) → mem c (h r.to).children ≡ true → (h c).parent ≡ some r.to
  pub from_ids : DistinctIds h (h r.from).children
  pub to_ids : DistinctIds h (h r.to).children

module _ (r : Route) (before h : Heap) (sound : IsSound before r)
    (near : IsNear r (numbered_nodes r before) before h) where
  abbrev old : List Ref
  old = (before r.from).children

  abbrev new : List Ref
  new = (before r.to).children

  -- after the snapshot of the old parent is restored
  abbrev h1 : Heap
  h1 = restore_child_snapshot r.from old (snapshot_child_positions before old) h

  mem-numbered :
      (x : Ref) → mem x (numbered_nodes r before) ≡ (x == r.node || (mem x old || mem x new))
  unfolding mem
  mem-numbered x = ground (arith, mem-append x old new)

  restored :
      (x : Ref)
      → write r.node
          (record ((if r.to == r.from
              then h1
              else restore_child_snapshot r.to new (snapshot_child_positions before new) h1)
            r.node) {
              parent = some r.from;
              position = (before r.node).position;
              metadata = (before r.node).metadata;
            })
          (if r.to == r.from
            then h1
            else restore_child_snapshot r.to new (snapshot_child_positions before new) h1)
          x
        ≡ before x
  unfolding restore_child_snapshot
  restored x = ground (
    arith,
    near x,
    mem-numbered x,
    restore_children_lem x r.from (snapshot_child_positions before old) old
        (set_children r.from old h),
    restore_children_lem x r.to (snapshot_child_positions before new) new
        (set_children r.to new h1),
    snapshot_child_positions_lem before old x sound.from_ids,
    snapshot_child_positions_lem before new x sound.to_ids,
    sound.node_parent,
    sound.from_owns x,
    sound.to_owns x,
  )

pub nodes-relink_back :
    {D : Type 0} (before : Heap) (r : Route) (t : TreeService D) (x : Ref)
    → IsSound before r
    → IsNear r (numbered_nodes r before) before t.nodes
    → (relink_back before r t).nodes x ≡ before x
unfolding relink_back rebuild_child_slug_index
nodes-relink_back before r t x sound near = ground (arith, restored r before t.nodes sound near x)

-- ===== src/Examples/Trees.antt =====
-- Moves in a wiki.
use leafwiki.Base.{
  ◌≡◌, refl, Bool, true, false, not, ◌&&◌, ◌||◌, [], ◌∷◌, Option, none, some, ◌==◌, if◌then◌else◌,
}
use leafwiki.Base.Members.{mem}
use leafwiki.Base.Text.{equal_fold}
use leafwiki.Base.Int.{pos}
use leafwiki.Tree.Node.{Ref}
use leafwiki.Tree.State.{
  TreeService, TreeError, rollback_failed, source_order_failed, check_node_version, version,
}
use leafwiki.Tree.Index.{get_node_by_id, find_child_by_slug, is_child_of, rebuild_child_slug_index}
use leafwiki.Tree.Positions.{reindex_positions, restore_child_snapshot, snapshot_child_positions}
use leafwiki.Tree.Move.{
  move_node_to_position, check_move, carry_out, make_section, relink, persist, roll_back,
  relink_back, unmake_section, restore_orders, remove_child, insert_nth, insert_at, Route,
}
use leafwiki.Tree.Move.Atomic.{SameNode, move_atomic}
use leafwiki.Tree.Move.Sound.{move_effect}
use leafwiki.Tree.Move.Checks.{IsCleared}
use leafwiki.Examples.Wiki.{four_nodes, wiki, files, format_time, wiki-IsLinked, wiki-IsSoundTree}

abbrev move_home : Bool → TreeService Bool × Option TreeError
move_home b = move_node_to_position format_time files "bob" "h" "g" "7" (pos 0) 9 (wiki b)

abbrev order_lost : TreeError
order_lost = rollback_failed (source_order_failed "disk full") ("disk full" ∷ "disk full" ∷ [])

-- `home` moves to the front of `guides`; below, the save of an order fails.
move_home_tests :
    ((move_home false).1 ≡ none)
    × (((move_home false).0.nodes 2).children ≡ 1 ∷ 3 ∷ [])
    × (((move_home false).0.nodes 0).children ≡ 2 ∷ [])
    × ((move_home true).1 ≡ some order_lost)
unfolding move_node_to_position check_move get_node_by_id check_node_version version
    find_child_by_slug is_child_of carry_out make_section relink persist roll_back relink_back
    unmake_section restore_orders remove_child insert_nth insert_at reindex_positions
    rebuild_child_slug_index restore_child_snapshot snapshot_child_positions equal_fold
move_home_tests = (refl, refl, refl, refl)

-- The failed move changed no node.
move_atomic_example : SameNode (four_nodes 2) ((move_home true).0.nodes 2)
move_atomic_example =
    move_atomic format_time files "bob" "h" "g" "7" (pos 0) 9 (wiki true) order_lost
      (wiki-IsLinked true) move_home_tests.3 2

abbrev MovedHome : Type 0
MovedHome =
    (r : Route) × IsCleared format_time (wiki false) "h" "g" "7" r
    × ((x : Ref)
        → ((move_home false).0.nodes x).parent
          ≡ (if x == r.node then some r.to else (four_nodes x).parent))
    × ((p x : Ref)
        → mem x ((move_home false).0.nodes p).children ≡ (
            if p == r.to
            then x == r.node || mem x (four_nodes p).children
            else mem x (four_nodes p).children && not (x == r.node)))

move_effect_example : MovedHome
move_effect_example =
    move_effect format_time files "bob" "h" "g" "7" (pos 0) 9 (wiki false) (wiki-IsSoundTree false)
      move_home_tests.0

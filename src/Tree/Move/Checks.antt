-- ===== src/Tree/Move/Checks.antt =====
-- What holds once the checks in front of a move are passed.
use leafwiki.Base.{
  ℕ, ◌≡◌, refl, String, true, false, ◌||◌, none, some, arith, if◌then◌else◌, str_eq,
}
use leafwiki.Base.Members.{mem}
use leafwiki.Tree.Node.{Ref}
use leafwiki.Tree.State.{TreeService, pass, root_id, check_node_version}
use leafwiki.Tree.Index.{get_node_by_id, find_child_by_slug, is_child_of}
use leafwiki.Tree.Invariant.{IsLinked}
use leafwiki.Tree.Move.{Route, check_move, conflicts}
use leafwiki.Tree.Move.Restore.{IsSound}

pub record IsCleared {D : Type 0} (format_time : ℕ → String) (t : TreeService D)
    (id parent_id expected : String) (r : Route) : Type 0 where
  pub found : get_node_by_id t id ≡ some r.node
  pub current : check_node_version format_time (t.nodes r.node) expected ≡ none
  pub under : (t.nodes r.node).parent ≡ some r.from
  pub target :
      (if str_eq parent_id "" || str_eq parent_id root_id
        then t.tree
        else get_node_by_id t parent_id)
      ≡ some r.to
  pub free :
      conflicts t.nodes (t.nodes r.node).id (find_child_by_slug t r.to (t.nodes r.node).slug)
      ≡ false
  pub other : str_eq (t.nodes r.node).id (t.nodes r.to).id ≡ false
  pub not_below : is_child_of t.next t.nodes r.node (t.nodes r.to).id true ≡ false

module _ {D : Type 0} (format_time : ℕ → String) (t : TreeService D)
    (id parent_id expected : String) (r : Route)
    (passed : check_move format_time t id parent_id expected ≡ pass r) where
  pub check_move-IsCleared : IsCleared format_time t id parent_id expected r
  unfolding check_move
  check_move-IsCleared = ground arith

  get_root : get_node_by_id t root_id ≡ t.tree
  unfolding get_node_by_id
  get_root = refl

  pub node-IsRegistered : IsLinked t → get_node_by_id t (t.nodes r.node).id ≡ some r.node
  node-IsRegistered l = ground (arith, check_move-IsCleared.found, l.named id r.node)

  pub from-IsRegistered : IsLinked t → get_node_by_id t (t.nodes r.from).id ≡ some r.from
  from-IsRegistered l = l.rooted r.node r.from (node-IsRegistered l) check_move-IsCleared.under

  pub to-IsRegistered : IsLinked t → get_node_by_id t (t.nodes r.to).id ≡ some r.to
  to-IsRegistered l =
      ground
        (arith, check_move-IsCleared.target, get_root, l.named root_id r.to, l.named parent_id r.to)

  distinct_siblings :
      IsLinked t
      → (p c d : Ref) → get_node_by_id t (t.nodes p).id ≡ some p
      → mem c (t.nodes p).children ≡ true
      → mem d (t.nodes p).children ≡ true
      → (t.nodes c).id ≡ (t.nodes d).id
      → c ≡ d
  distinct_siblings l p c d i mc md e = cc (l.registered p c i mc, l.registered p d i md)

  pub check_move-IsSound : IsLinked t → IsSound t.nodes r
  check_move-IsSound l = record {
    node_parent = check_move-IsCleared.under;
    from_owns = l.owns r.from;
    to_owns = l.owns r.to;
    from_ids = λ c d. distinct_siblings l r.from c d (from-IsRegistered l);
    to_ids = λ c d. distinct_siblings l r.to c d (to-IsRegistered l);
  }

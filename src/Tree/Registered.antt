-- ===== src/Tree/Registered.antt =====
-- The nodes that the index gives are those that it gives for their ids.
use leafwiki.Base.{◌≡◌, refl, ◌∙◌, String, ◌||◌, some, arith, str_eq, if◌then◌else◌}
use leafwiki.Tree.Node.{Ref}
use leafwiki.Tree.State.{TreeService, root_id}
use leafwiki.Tree.Index.{get_node_by_id}
use leafwiki.Tree.Invariant.{IsLinked}

module _ {D : Type 0} (t : TreeService D) (l : IsLinked t) where
  pub get-root : get_node_by_id t root_id ≡ t.tree
  unfolding get_node_by_id
  get-root = refl

  pub found-IsRegistered :
      (id : String) (n : Ref)
      → get_node_by_id t id ≡ some n
      → get_node_by_id t (t.nodes n).id ≡ some n
  found-IsRegistered id n e = ground (arith, e, l.named id n)

  -- A parent that an operation looks up, where "" and "root" stand for the root.
  pub target-IsRegistered :
      (parent_id : String) (p : Ref)
      → (if str_eq parent_id "" || str_eq parent_id root_id
          then t.tree
          else get_node_by_id t parent_id)
        ≡ some p
      → get_node_by_id t (t.nodes p).id ≡ some p
  target-IsRegistered parent_id p e =
      ground (arith, e, get-root, l.named root_id p, l.named parent_id p)

  pub root-IsRegistered : (r : Ref) → t.tree ≡ some r → get_node_by_id t (t.nodes r).id ≡ some r
  root-IsRegistered r e = found-IsRegistered root_id r (get-root ∙ e)

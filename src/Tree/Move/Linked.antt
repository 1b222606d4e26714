-- ===== src/Tree/Move/Linked.antt =====
-- A move keeps the tree linked and without cycles, whatever it returns.
use leafwiki.Base.{
  ℕ, zero, suc, ◌≡◌, ◌≢◌, inl, inr, refl, sym, String, not, ◌||◌, ◌&&◌, some, arith, ◌==◌,
  if◌then◌else◌, eq_iff, Bool-cases,
}
use leafwiki.Base.Members.{mem}
use leafwiki.Base.Int.{ℤ}
use leafwiki.Tree.Node.{Ref}
use leafwiki.Tree.State.{Heap, TreeService, root_id}
use leafwiki.Tree.Index.{get_node_by_id}
use leafwiki.Tree.Invariant.{IsLinked, IsGrounded, DepthIs}
use leafwiki.Tree.Depth.{IsRegistered, Above, not-Above}
use leafwiki.Tree.Alike.{Alike, SameIndex, get_node_by_id-same}
use leafwiki.Tree.Move.{Route}
use leafwiki.Tree.Move.Checks.{IsCleared}
use leafwiki.Tree.Move.Frame.{relinked-Near}
use leafwiki.Tree.Move.Relinked.{
  IsOrderly, relinked, parent-relinked, mem-relinked, relinked-NoRepeat,
}
use leafwiki.Tree.Move.Atomic.{SameNode}

module _ {D : Type 0} {t u : TreeService D} (s : SameIndex t u) where
  -- Kinds are no part of what is linked.
  pub Alike-SameNode : ((x : Ref) → SameNode (t.nodes x) (u.nodes x)) → Alike t u
  Alike-SameNode k = record {
    same_get = get_node_by_id-same s;
    same_tree = s.same_tree;
    same_next = s.same_next;
    same_id = λ x. ground (arith, k x);
    same_parent = λ x. ground (arith, k x);
    same_children = λ p x. ground (arith, k p);
    still_once = λ p n. ground (arith, k p);
  }

module _ {D : Type 0} (format_time : ℕ → String) (t : TreeService D)
    (id parent_id expected : String) (r : Route) (l : IsLinked t)
    (c : IsCleared format_time t id parent_id expected r) where
  node-IsRegistered : IsRegistered t l r.node
  node-IsRegistered = ground (arith, c.found, l.named id r.node)

  from-IsRegistered : IsRegistered t l r.from
  from-IsRegistered = l.rooted r.node r.from node-IsRegistered c.under

  to-IsRegistered : IsRegistered t l r.to
  to-IsRegistered = ground (arith, c.target, get_root, l.named root_id r.to, l.named parent_id r.to)
    where
      get_root : get_node_by_id t root_id ≡ t.tree
      get_root = unfold get_node_by_id in refl

  to_other : r.to ≢ r.node
  to_other e = ground (arith, e, c.other, eq_iff (t.nodes r.node).id (t.nodes r.to).id)

  module _ (h : Heap) (k : (x : Ref) → SameNode (t.nodes x) (h x)) where
    orderly : IsOrderly h r
    orderly = record {
      owns = λ p x m. ground (arith, k p, k x, l.owns p x);
      once = λ p. ground (arith, k p, l.once p);
      only = λ x m e. ground (
        arith,
        k x,
        k r.from,
        k r.node,
        l.registered r.from x from-IsRegistered,
        node-IsRegistered,
      );
      under = ground (arith, k r.node, c.under);
    }

    module _ (u : TreeService D) (s : SameIndex t u) (user_id : String) (now : ℕ) (position : ℤ)
        (moved : u.nodes ≡ relinked user_id now position r h) where
      same_id : (x : Ref) → (u.nodes x).id ≡ (t.nodes x).id
      same_id x = ground (arith, moved, k x, relinked-Near user_id now position r h x)

      pub new_parent :
          (x : Ref) → (u.nodes x).parent ≡ (if x == r.node then some r.to else (t.nodes x).parent)
      new_parent x = ground (arith, moved, k x, parent-relinked user_id now position r h x)

      pub new_children :
          (p x : Ref)
          → mem x (u.nodes p).children ≡ (
              if p == r.to
              then x == r.node || mem x (t.nodes p).children
              else mem x (t.nodes p).children && not (x == r.node))
      new_children p x =
          ground (arith, moved, k p, mem-relinked user_id now position r h orderly p x)

      pub IsLinked-moved : IsLinked u
      IsLinked-moved = record {
        owns = λ p x m. ground (arith, new_children p x, new_parent x, l.owns p x);
        once = λ p. ground (arith, moved, relinked-NoRepeat user_id now position r h orderly p);
        registered = λ p x i m. ground (
          arith,
          new_children p x,
          same_id p,
          same_id x,
          l.registered p x,
          node-IsRegistered,
          get_node_by_id-same s (t.nodes p).id,
          get_node_by_id-same s (t.nodes x).id,
        );
        named = λ i n e. ground (arith, same_id n, l.named i n, get_node_by_id-same s i);
        listed = λ n p i e. ground (
          arith,
          same_id n,
          new_parent n,
          new_children p n,
          l.listed n p,
          get_node_by_id-same s (t.nodes n).id,
        );
        rooted = λ n p i e. ground (
          arith,
          same_id n,
          same_id p,
          new_parent n,
          l.rooted n p,
          to-IsRegistered,
          get_node_by_id-same s (t.nodes n).id,
          get_node_by_id-same s (t.nodes p).id,
        );
        allocated = λ n i.
            ground (arith, s, same_id n, l.allocated n, get_node_by_id-same s (t.nodes n).id);
        below = λ p x m.
            ground (arith, s, new_children p x, l.below p x, l.allocated r.node node-IsRegistered);
        free = λ p x m.
            ground (arith, s, new_children p x, l.free p x, l.allocated r.to to-IsRegistered);
        top = λ x e. ground (arith, s, new_parent x, l.top x, c.under);
      }

      -- The way up from `to` does not change.
      depth_of_to :
          (d : ℕ) (x : Ref) → ¬ Above t.nodes d r.node x → DepthIs t.nodes d x → DepthIs u.nodes d x
      depth_of_to zero x a e = ground (arith, new_parent x, a)
      depth_of_to (suc d) x a (p, e, w) =
          (p, ground (arith, new_parent x, not_self), depth_of_to d p (λ v. a (inr (p, e, v))) w)
        where
          not_self : r.node ≢ x
          not_self q = a (inl q)

      depth_of_any :
          (dt : ℕ)
          → DepthIs u.nodes dt r.to
          → (d : ℕ) (x : Ref) → DepthIs t.nodes d x
          → (e : ℕ) × DepthIs u.nodes e x
      depth_of_any dt to zero x e = (0, ground (arith, new_parent x, c.under))
      depth_of_any dt to (suc d) x (p, e, w) = elim (Bool-cases (x == r.node)) [
        | inl q ↦ (suc dt, (r.to, ground (arith, new_parent x), to))
        | inr q ↦
            let (f, v) = depth_of_any dt to d p w in (suc f, (p, ground (arith, new_parent x), v))
      ]

      pub IsGrounded-moved : IsGrounded t → IsGrounded u
      IsGrounded-moved g = record {
        depth = λ n i.
            let (dt, wt) = g.depth r.to to-IsRegistered in
            let (d, w) =
              g.depth n (ground (arith, same_id n, get_node_by_id-same s (t.nodes n).id)) in
            depth_of_any dt
              (depth_of_to dt r.to
                (not-Above t l dt r.node r.to wt to-IsRegistered (λ e. to_other (sym e))
                  c.not_below)
                wt)
              d n w;
      }

-- ===== src/Tree/Delete/Pruned.antt =====
-- A tree from which a node is taken with all that is below it stays sound.
use leafwiki.Base.{
  ℕ, zero, suc, ◌≡◌, ◌≢◌, sym, ◌∙◌, inl, inr, String, Bool, true, false, not, ◌&&◌, none, some,
  arith, Bool-cases, if◌then◌else◌, ◌==◌, ==_iff,
}
use leafwiki.Base.Members.{mem, NoRepeat}
use leafwiki.Tree.Node.{Ref}
use leafwiki.Tree.State.{TreeService}
use leafwiki.Tree.Index.{get_node_by_id}
use leafwiki.Tree.Invariant.{IsLinked, DepthIs, IsSoundTree}
use leafwiki.Tree.Delete.{Doomed}

-- The tree `u` is `t` without the nodes whose ids are out: the node, its children, theirs, and no
-- others.
pub record IsPruned {D : Type 0} (t u : TreeService D) (r : Doomed) (out : String → Bool)
    : Type 0 where
  pub same_tree : u.tree ≡ t.tree
  pub same_next : u.next ≡ t.next
  pub same_id : (x : Ref) → (u.nodes x).id ≡ (t.nodes x).id
  pub same_parent : (x : Ref) → (u.nodes x).parent ≡ (t.nodes x).parent
  pub kids :
      (p x : Ref)
      → mem x (u.nodes p).children
        ≡ (mem x (t.nodes p).children && not (p == r.parent && x == r.node))
  pub once : (p : Ref) → NoRepeat (u.nodes p).children
  pub got : (i : String) → get_node_by_id u i ≡ (if out i then none else get_node_by_id t i)
  pub under : (t.nodes r.node).parent ≡ some r.parent
  pub node_out : out (t.nodes r.node).id ≡ true
  pub child_out :
      (p c : Ref)
      → get_node_by_id t (t.nodes p).id ≡ some p
      → mem c (t.nodes p).children ≡ true
      → c ≢ r.node
      → out (t.nodes p).id ≡ true
      → out (t.nodes c).id ≡ true
  pub parent_out :
      (p c : Ref)
      → get_node_by_id t (t.nodes c).id ≡ some c
      → (t.nodes c).parent ≡ some p
      → c ≢ r.node
      → out (t.nodes c).id ≡ true
      → out (t.nodes p).id ≡ true

module _ {D : Type 0} (t u : TreeService D) (r : Doomed) (out : String → Bool)
    (sound : IsSoundTree t) (k : IsPruned t u r out) where
  abbrev l : IsLinked t
  l = sound.linked

  abbrev IsIn : Ref → Type 0
  IsIn x = get_node_by_id t (t.nodes x).id ≡ some x

  stays :
      (x : Ref) → get_node_by_id u (u.nodes x).id ≡ some x → IsIn x × (out (t.nodes x).id ≡ false)
  stays x e = ground (arith, e, k.same_id x, k.got (t.nodes x).id)

  IsIn-pruned :
      (x : Ref) → IsIn x → out (t.nodes x).id ≡ false → get_node_by_id u (u.nodes x).id ≡ some x
  IsIn-pruned x i s = ground (arith, i, s, k.same_id x, k.got (t.nodes x).id)

  not_node : (x : Ref) → out (t.nodes x).id ≡ false → x ≢ r.node
  not_node x s e = ground (arith, s, e, k.node_out)

  kept_child :
      (p c : Ref)
      → get_node_by_id u (u.nodes p).id ≡ some p
      → mem c (u.nodes p).children ≡ true
      → get_node_by_id u (u.nodes c).id ≡ some c
  kept_child p c i m =
      let (j, s) = stays p i in
      let was : mem c (t.nodes p).children ≡ true = ground (arith, k.kids p c, m) in
      let other : c ≢ r.node = λ e.
        ground
          (arith, e, k.kids p c, m, l.owns p c was, k.under, ==_iff c r.node, ==_iff p r.parent) in
      let in_tree = l.registered p c j was in
      IsIn-pruned c in_tree (elim (Bool-cases (out (t.nodes c).id)) [
        | inr q ↦ q
        | inl q ↦ absurd (cc (k.parent_out p c in_tree (l.owns p c was) other q, s))
      ])

  kept_parent :
      (n p : Ref)
      → get_node_by_id u (u.nodes n).id ≡ some n
      → (u.nodes n).parent ≡ some p
      → get_node_by_id u (u.nodes p).id ≡ some p
  kept_parent n p i e =
      let (j, s) = stays n i in
      let up : (t.nodes n).parent ≡ some p = sym (k.same_parent n) ∙ e in
      let in_tree = l.rooted n p j up in
      IsIn-pruned p in_tree (elim (Bool-cases (out (t.nodes p).id)) [
        | inr q ↦ q
        | inl q ↦ absurd (cc (k.child_out p n in_tree (l.listed n p j up) (not_node n s) q, s))
      ])

  pruned-IsLinked : IsLinked u
  pruned-IsLinked = record {
    owns = λ p c m. ground (arith, k.kids p c, k.same_parent c, l.owns p c);
    once = k.once;
    registered = kept_child;
    named = λ j n e. ground (arith, k.same_id n, l.named j n, k.got j);
    listed = λ n p i e.
        let (j, s) = stays n i in
        ground
          (arith, k.kids p n, l.listed n p j, k.same_parent n, e, not_node n s, ==_iff n r.node);
    rooted = kept_parent;
    allocated = λ n i. ground (arith, l.allocated n, stays n i, k.same_next);
    below = λ p c m. ground (arith, k.kids p c, l.below p c, k.same_next);
    free = λ p c m. ground (arith, k.kids p c, l.free p c, k.same_next);
    top = λ x e. ground (arith, k.same_parent x, l.top x, k.same_tree);
  }

  pub pruned-IsSoundTree : IsSoundTree u
  pruned-IsSoundTree = record {
    linked = pruned-IsLinked;
    grounded = record {
      depth = λ n i. let (d, w) = sound.grounded.depth n (stays n i).0 in (d, same_depth d n w);
    };
  }
    where
      same_depth : (d : ℕ) (n : Ref) → DepthIs t.nodes d n → DepthIs u.nodes d n
      same_depth zero n e = k.same_parent n ∙ e
      same_depth (suc d) n (p, e, w) = (p, k.same_parent n ∙ e, same_depth d p w)

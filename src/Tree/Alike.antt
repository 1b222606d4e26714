-- ===== src/Tree/Alike.antt =====
-- Two states of the tree with the same index and the same links.
use leafwiki.Base.{ℕ, zero, suc, ◌≡◌, ap, ◌∙◌, String, arith}
use leafwiki.Base.Members.{mem, NoRepeat}
use leafwiki.Tree.Node.{Ref}
use leafwiki.Tree.State.{TreeService}
use leafwiki.Tree.Index.{get_node_by_id}
use leafwiki.Tree.Invariant.{IsLinked, IsGrounded, DepthIs, IsSoundTree}

module _ {D : Type 0} where
  -- the index of the ids, the root and the free addresses
  pub record SameIndex (t u : TreeService D) : Type 0 where
    pub same_ids : u.nodes_by_id ≡ t.nodes_by_id
    pub same_tree : u.tree ≡ t.tree
    pub same_next : u.next ≡ t.next

  pub get_node_by_id-same :
      {t u : TreeService D}
      → SameIndex t u
      → (id : String) → get_node_by_id u id ≡ get_node_by_id t id
  unfolding get_node_by_id
  get_node_by_id-same s id = ground (arith, s)

-- Other fields may differ, and so may the order of children.
pub record Alike {D : Type 0} (t u : TreeService D) : Type 0 where
  pub same_get : (id : String) → get_node_by_id u id ≡ get_node_by_id t id
  pub same_tree : u.tree ≡ t.tree
  pub same_next : u.next ≡ t.next
  pub same_id : (x : Ref) → (u.nodes x).id ≡ (t.nodes x).id
  pub same_parent : (x : Ref) → (u.nodes x).parent ≡ (t.nodes x).parent
  pub same_children : (p x : Ref) → mem x (u.nodes p).children ≡ mem x (t.nodes p).children
  pub still_once : (p : Ref) → NoRepeat (t.nodes p).children → NoRepeat (u.nodes p).children

-- A state with the same index, whose nodes have the same ids, parents and children.
pub Alike-fields :
    {D : Type 0} {t u : TreeService D}
    → SameIndex t u
    → ((x : Ref) → (u.nodes x).id ≡ (t.nodes x).id)
    → ((x : Ref) → (u.nodes x).parent ≡ (t.nodes x).parent)
    → ((x : Ref) → (u.nodes x).children ≡ (t.nodes x).children)
    → Alike t u
Alike-fields s ids parents children = record {
  same_get = get_node_by_id-same s;
  same_tree = s.same_tree;
  same_next = s.same_next;
  same_id = ids;
  same_parent = parents;
  same_children = λ p x. ground (arith, children p);
  still_once = λ p n. ground (arith, children p);
}

pub Alike-same :
    {D : Type 0} {t u : TreeService D}
    → SameIndex t u
    → ((x : Ref) → u.nodes x ≡ t.nodes x)
    → Alike t u
Alike-same s e =
    Alike-fields s (λ x. ap (λ n. n.id) (e x)) (λ x. ap (λ n. n.parent) (e x))
      (λ x. ap (λ n. n.children) (e x))

pub Alike-trans : {D : Type 0} {t u v : TreeService D} → Alike t u → Alike u v → Alike t v
Alike-trans a b = record {
  same_get = λ id. b.same_get id ∙ a.same_get id;
  same_tree = b.same_tree ∙ a.same_tree;
  same_next = b.same_next ∙ a.same_next;
  same_id = λ x. b.same_id x ∙ a.same_id x;
  same_parent = λ x. b.same_parent x ∙ a.same_parent x;
  same_children = λ p x. b.same_children p x ∙ a.same_children p x;
  still_once = λ p n. b.still_once p (a.still_once p n);
}

module _ {D : Type 0} {t u : TreeService D} (k : Alike t u) where
  pub IsLinked-Alike : IsLinked t → IsLinked u
  IsLinked-Alike l = record {
    owns = λ p c m. ground (arith, k.same_children p c, k.same_parent c, l.owns p c);
    once = λ p. k.still_once p (l.once p);
    registered = λ p c i m. ground (
      arith,
      k.same_children p c,
      k.same_id p,
      k.same_id c,
      l.registered p c,
      k.same_get (t.nodes p).id,
      k.same_get (t.nodes c).id,
    );
    named = λ id n e. ground (arith, k.same_id n, l.named id n, k.same_get id);
    listed = λ n p i e. ground (
      arith,
      k.same_id n,
      k.same_parent n,
      k.same_children p n,
      l.listed n p,
      k.same_get (t.nodes n).id,
    );
    rooted = λ n p i e. ground (
      arith,
      k.same_id n,
      k.same_id p,
      k.same_parent n,
      l.rooted n p,
      k.same_get (t.nodes n).id,
      k.same_get (t.nodes p).id,
    );
    allocated =
        λ n i. ground (arith, k.same_next, k.same_id n, l.allocated n, k.same_get (t.nodes n).id);
    below = λ p c m. ground (arith, k.same_next, k.same_children p c, l.below p c);
    free = λ p c m. ground (arith, k.same_next, k.same_children p c, l.free p c);
    top = λ r e. ground (arith, k.same_tree, k.same_parent r, l.top r);
  }

  DepthIs-Alike : (d : ℕ) (n : Ref) → DepthIs t.nodes d n → DepthIs u.nodes d n
  DepthIs-Alike zero n e = ground (arith, k.same_parent n)
  DepthIs-Alike (suc d) n (p, e, w) = (p, ground (arith, k.same_parent n), DepthIs-Alike d p w)

  pub IsGrounded-Alike : IsGrounded t → IsGrounded u
  IsGrounded-Alike g = record {
    depth = λ n i.
        let (d, w) = g.depth n (ground (arith, k.same_id n, k.same_get (t.nodes n).id)) in
        (d, DepthIs-Alike d n w);
  }

  pub IsSoundTree-Alike : IsSoundTree t → IsSoundTree u
  IsSoundTree-Alike s = record {
    linked = IsLinked-Alike s.linked;
    grounded = IsGrounded-Alike s.grounded;
  }

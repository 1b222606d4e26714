-- ===== src/Tree/Delete/Swept.antt =====
-- What `removeNodeIndexLocked` takes out of the index: a node and all that is below it.
use leafwiki.Base.{
  ℕ, zero, suc, ◌≡◌, refl, String, Bool, true, ◌||◌, List, [], ◌∷◌, none, arith, some_of, str_eq,
  if◌then◌else◌,
}
use leafwiki.Tree.Node.{Ref}
use leafwiki.Tree.State.{Heap, TreeService}
use leafwiki.Tree.Index.{
  is_child_of, forget, forget_subtree, for_each, remove_node_index, remove_title_index,
  rebuild_child_slug_index,
}

abbrev pub swept : ℕ → Heap → Ref → String → Bool
swept f h r id = str_eq (h r).id id || is_child_of f h r id true

module _ {D : Type 0} where
  -- What the walk leaves alone.
  pub record OnlyIds (t u : TreeService D) : Type 0 where
    pub same_nodes : u.nodes ≡ t.nodes
    pub same_tree : u.tree ≡ t.tree
    pub same_next : u.next ≡ t.next
    pub same_disk : u.disk ≡ t.disk

  OnlyIds-trans : {t u v : TreeService D} → OnlyIds t u → OnlyIds u v → OnlyIds t v
  OnlyIds-trans a b = ground (arith, a, b)

  forget-OnlyIds : (r : Ref) (t : TreeService D) → OnlyIds t (forget r t)
  unfolding forget remove_title_index
  forget-OnlyIds r t = ground arith

  for_each-OnlyIds :
      (f : Ref → TreeService D → TreeService D) (rs : List Ref) (t : TreeService D)
      → ((r : Ref) (t : TreeService D) → OnlyIds t (f r t))
      → OnlyIds t (for_each f rs t)
  for_each-OnlyIds f [] t k = record {
    same_nodes = refl;
    same_tree = refl;
    same_next = refl;
    same_disk = refl;
  }
  for_each-OnlyIds f (r ∷ rs) t k = OnlyIds-trans (k r t) (for_each-OnlyIds f rs (f r t) k)

  forget_subtree-OnlyIds : (f : ℕ) (r : Ref) (t : TreeService D) → OnlyIds t (forget_subtree f r t)
  unfolding forget_subtree
  forget_subtree-OnlyIds zero r t = record {
    same_nodes = refl;
    same_tree = refl;
    same_next = refl;
    same_disk = refl;
  }
  forget_subtree-OnlyIds (suc f) r t = OnlyIds-trans (forget-OnlyIds r t) (
      for_each-OnlyIds (forget_subtree f) (t.nodes r).children (forget r t)
        (forget_subtree-OnlyIds f))

  pub remove_node_index-OnlyIds : (r : Ref) (t : TreeService D) → OnlyIds t (remove_node_index r t)
  unfolding remove_node_index rebuild_child_slug_index
  remove_node_index-OnlyIds r t = ground (arith, forget_subtree-OnlyIds t.next r t)

  ids-forget :
      (r : Ref) (t : TreeService D) (id : String)
      → (forget r t).nodes_by_id id ≡ (if str_eq (t.nodes r).id id then none else t.nodes_by_id id)
  unfolding forget remove_title_index
  ids-forget r t id = ground arith

  -- The ids that one round takes out, over any nodes.
  abbrev Takes : (Heap → Ref → String → Bool) → (Ref → TreeService D → TreeService D) → Type 0
  Takes out f =
      (r : Ref) (t : TreeService D) (id : String)
      → (f r t).nodes_by_id id ≡ (if out t.nodes r id then none else t.nodes_by_id id)

  ids-for_each :
      (f : Ref → TreeService D → TreeService D) (out : Heap → Ref → String → Bool)
      → ((r : Ref) (t : TreeService D) → OnlyIds t (f r t))
      → Takes out f
      → (rs : List Ref) (t : TreeService D) (id : String)
      → (for_each f rs t).nodes_by_id id
        ≡ (if some_of (λ r. out t.nodes r id) rs then none else t.nodes_by_id id)
  unfolding some_of
  ids-for_each f out k takes [] t id = refl
  ids-for_each f out k takes (r ∷ rs) t id =
      ground (arith, takes r t id, (k r t).same_nodes, ids-for_each f out k takes rs (f r t) id)

  forget_subtree_step :
      (f : ℕ) (r : Ref) (t : TreeService D)
      → forget_subtree (suc f) r t ≡ for_each (forget_subtree f) (t.nodes r).children (forget r t)
  unfolding forget_subtree
  forget_subtree_step f r t = refl

  for_each_nothing : (rs : List Ref) (t : TreeService D) → for_each (forget_subtree 0) rs t ≡ t
  unfolding forget_subtree
  for_each_nothing [] t = refl
  for_each_nothing (r ∷ rs) t = for_each_nothing rs t

  pub ids-forget_subtree : (f : ℕ) → Takes (swept f) (forget_subtree (suc f))
  unfolding is_child_of
  ids-forget_subtree zero r t id = ground (
    arith,
    forget_subtree_step 0 r t,
    for_each_nothing (t.nodes r).children (forget r t),
    ids-forget r t id,
  )
  ids-forget_subtree (suc f) r t id = ground (
    arith,
    forget_subtree_step (suc f) r t,
    ids-forget r t id,
    (forget-OnlyIds r t).same_nodes,
    ids-for_each (forget_subtree (suc f)) (swept f) (forget_subtree-OnlyIds (suc f))
        (ids-forget_subtree f) (t.nodes r).children (forget r t) id,
  )

  -- After the walk from a node the index lacks its id and those of the nodes below it.
  pub ids-remove_node_index :
      (f : ℕ) (r : Ref) (t : TreeService D) (id : String)
      → t.next ≡ suc f
      → (remove_node_index r t).nodes_by_id id
        ≡ (if swept f t.nodes r id then none else t.nodes_by_id id)
  unfolding remove_node_index rebuild_child_slug_index
  ids-remove_node_index f r t id e = ground (arith, e, ids-forget_subtree f r t id)

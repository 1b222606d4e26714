-- ===== src/Tree/Create/Attached.antt =====
-- `createNodeLocked`: the tree with the new object, with the new node, and after it is taken out again.
use leafwiki.Base.{
  ℕ, zero, suc, ◌≡◌, ◌≢◌, refl, sym, ap, ◌∙◌, inl, inr, String, false, ◌||◌, ◌&&◌, List, [], ◌∷◌,
  ◌++◌, none, some, arith, str_eq, eq_iff, Bool-cases, if◌then◌else◌, ◌==◌, ==_iff,
}
use leafwiki.Base.Members.{mem, NoRepeat, mem-append, NoRepeat-snoc}
use leafwiki.Tree.Node.{Ref}
use leafwiki.Tree.State.{Heap, TreeService, root_id}
use leafwiki.Tree.Index.{
  get_node_by_id, is_child_of, index_node, add_title_index, rebuild_child_slug_index,
}
use leafwiki.Tree.Invariant.{IsLinked, IsSoundTree}
use leafwiki.Tree.Registered.{get-root}
use leafwiki.Tree.Positions.{set_children}
use leafwiki.Tree.Delete.Swept.{swept, OnlyIds, remove_node_index-OnlyIds, ids-remove_node_index}
use leafwiki.Tree.Create.{NewNode, allocate, attach, detach, remove_ref}
use leafwiki.Tree.Create.Longer.{IsLonger}
use leafwiki.Tree.Create.Grown.{IsGrown, dec_eq}

remove_ref-append : (r : Ref) (cs : List Ref) → mem r cs ≡ false → remove_ref r (cs ++ r ∷ []) ≡ cs
unfolding remove_ref mem
remove_ref-append r [] m = ground arith
remove_ref-append r (c ∷ cs) m = ground (arith, remove_ref-append r cs)

-- Below a node without children there is nothing.
leaf_swept :
    (f : ℕ) (h : Heap) (r : Ref) (i : String)
    → (h r).children ≡ []
    → swept f h r i ≡ str_eq (h r).id i
unfolding is_child_of
leaf_swept zero h r i e = ground arith
leaf_swept (suc f) h r i e = ground (arith, e)

module _ {D : Type 0} where
  index_node-OnlyIds : (r : Ref) (t : TreeService D) → OnlyIds t (index_node r t)
  unfolding index_node add_title_index rebuild_child_slug_index
  index_node-OnlyIds r t = ground arith

  ids-index_node :
      (r : Ref) (t : TreeService D) (id : String)
      → (t.nodes r).id ≢ ""
      → (t.nodes r).id ≢ root_id
      → (index_node r t).nodes_by_id id
        ≡ (if str_eq (t.nodes r).id id then some r else t.nodes_by_id id)
  unfolding index_node add_title_index rebuild_child_slug_index
  ids-index_node r t id a b =
      ground (arith, a, b, eq_iff (t.nodes r).id "", eq_iff (t.nodes r).id root_id)

module _ {D : Type 0} (t : TreeService D) (sound : IsSoundTree t) (parent : Ref) (id : String)
    (n : NewNode) (root : Ref) (loaded : t.tree ≡ some root)
    (parent_in : get_node_by_id t (t.nodes parent).id ≡ some parent)
    (unknown : get_node_by_id t id ≡ none) (given : id ≢ "") where
  abbrev l : IsLinked t
  l = sound.linked

  not_root : id ≢ root_id
  not_root e = cc (get-root t l, unknown, loaded, e)

  pub parent_old : parent ≢ t.next
  parent_old e = ground (arith, e, l.allocated parent parent_in)

  abbrev new_ref : Ref
  new_ref = t.next

  -- The index of the ids does not have the new id.
  get-none : (i : String) → id ≡ i → t.nodes_by_id i ≡ none
  get-none i e =
      unfold get_node_by_id in
      ground (arith, e, unknown, not_root, given, eq_iff i root_id, eq_iff i "")

  module _ (d : D) where
    -- the new object, with the files as a store has left them
    abbrev pub longer : TreeService D
    longer = record (allocate parent id n t) { disk = d }

    pub allocate-IsLonger : IsLonger t longer
    unfolding allocate
    allocate-IsLonger = record {
      same_get = λ i. unfold get_node_by_id in refl;
      same_tree = refl;
      next_after = refl;
      unknown = ground (arith, unknown);
      no_children = λ x. unfold mem in ground arith;
      same_id = λ x e. ground (arith, e, ==_iff t.next x);
      same_parent = λ x e. ground (arith, e, ==_iff t.next x);
      kids = λ p x e. ground (arith, e, ==_iff t.next p);
      once = λ p. ground (arith, l.once p);
    }

    abbrev pub grown : TreeService D
    grown = attach parent new_ref longer

    abbrev pub linked_nodes : Heap
    linked_nodes = set_children parent ((longer.nodes parent).children ++ new_ref ∷ []) longer.nodes

    pub nodes-grown : grown.nodes ≡ linked_nodes
    unfolding attach
    nodes-grown =
        ground (arith, index_node-OnlyIds new_ref (record longer { nodes = linked_nodes }))

    entry_not_child : mem new_ref (t.nodes parent).children ≡ false
    entry_not_child = elim (Bool-cases (mem new_ref (t.nodes parent).children)) [
      | inl m ↦ absurd (omega (arith, l.below parent new_ref m))
      | inr m ↦ m
    ]

    entry_id : (linked_nodes new_ref).id ≡ id
    unfolding allocate
    entry_id = ground arith

    grown-ids :
        (i : String) → grown.nodes_by_id i ≡ (if str_eq id i then some new_ref else t.nodes_by_id i)
    unfolding attach allocate
    grown-ids i = ground (
      arith,
      ids-index_node new_ref (record longer { nodes = linked_nodes }) i
          (λ e. given (sym entry_id ∙ e)) (λ e. not_root (sym entry_id ∙ e)),
      entry_id,
    )

    same_tree_grown : grown.tree ≡ t.tree
    unfolding attach allocate
    same_tree_grown =
        ground (arith, index_node-OnlyIds new_ref (record longer { nodes = linked_nodes }))

    same_next_grown : grown.next ≡ suc t.next
    unfolding attach allocate
    same_next_grown =
        ground (arith, index_node-OnlyIds new_ref (record longer { nodes = linked_nodes }))

    pub grown-get :
        (i : String)
        → get_node_by_id grown i ≡ (if str_eq id i then some new_ref else get_node_by_id t i)
    unfolding get_node_by_id
    grown-get i = ground (
      arith,
      grown-ids i,
      same_tree_grown,
      not_root,
      given,
      eq_iff id i,
      eq_iff i root_id,
      eq_iff i "",
    )

    grown_kids :
        (p x : Ref)
        → p ≢ t.next
        → mem x (grown.nodes p).children
          ≡ (mem x (t.nodes p).children || (p == parent && x == t.next))
    unfolding allocate mem
    grown_kids p x e =
        ground
          (arith, e, nodes-grown, parent_old, mem-append x (t.nodes parent).children (new_ref ∷ []))

    grown_once : (p : Ref) → NoRepeat (grown.nodes p).children
    unfolding allocate
    grown_once p = ground (
      arith,
      nodes-grown,
      parent_old,
      l.once p,
      NoRepeat-snoc new_ref (t.nodes parent).children entry_not_child (l.once parent),
    )

    pub attach-IsGrown : IsGrown t grown parent
    unfolding allocate
    attach-IsGrown = record {
      parent_in = parent_in;
      grown_get = λ i. ground (arith, grown-get i, nodes-grown, entry_id);
      same_tree = same_tree_grown;
      next_after = same_next_grown;
      unknown = ground (arith, unknown, nodes-grown, entry_id);
      new_parent = ground (arith, nodes-grown, parent_old);
      no_children = λ x. unfold mem in ground (arith, nodes-grown, parent_old);
      same_id = λ x e. ground (arith, e, nodes-grown, ==_iff t.next x);
      same_parent = λ x e. ground (arith, e, nodes-grown, ==_iff t.next x);
      kids = grown_kids;
      once = grown_once;
    }

    module _ (e : D) where
      -- the tree when the order of the children could not be written
      abbrev pub behind : TreeService D
      behind = record grown { disk = e }

      abbrev pub back : TreeService D
      back = detach parent new_ref behind

      abbrev back_nodes : Heap
      back_nodes =
          set_children parent (remove_ref new_ref (grown.nodes parent).children) grown.nodes

      nodes-back : back.nodes ≡ back_nodes
      unfolding detach
      nodes-back =
          ground (arith, remove_node_index-OnlyIds new_ref (record behind { nodes = back_nodes }))

      kids_left : remove_ref new_ref (grown.nodes parent).children ≡ (t.nodes parent).children
      unfolding allocate
      kids_left = ground (
        arith,
        nodes-grown,
        parent_old,
        entry_not_child,
        remove_ref-append new_ref (t.nodes parent).children,
      )

      back_kids : (p : Ref) → p ≢ t.next → (back.nodes p).children ≡ (t.nodes p).children
      unfolding allocate
      back_kids p o = ground (arith, o, nodes-back, nodes-grown, kids_left)

      back_entry : (back.nodes new_ref).children ≡ []
      unfolding allocate
      back_entry = ground (arith, nodes-back, nodes-grown, parent_old)

      back-ids : (i : String) → back.nodes_by_id i ≡ (if str_eq id i then none else t.nodes_by_id i)
      unfolding detach allocate
      back-ids i = ground (
        arith,
        ids-remove_node_index t.next new_ref (record behind { nodes = back_nodes }) i
            same_next_grown,
        grown-ids i,
        leaf_swept t.next back_nodes new_ref i
            (sym (ap (λ h. (h new_ref).children) nodes-back) ∙ back_entry),
        nodes-grown,
        entry_id,
        parent_old,
      )

      same_tree_back : back.tree ≡ t.tree
      unfolding detach
      same_tree_back = ground (
        arith,
        remove_node_index-OnlyIds new_ref (record behind { nodes = back_nodes }),
        same_tree_grown,
      )

      pub detach-IsLonger : IsLonger t back
      unfolding allocate
      detach-IsLonger = record {
        same_get = λ i.
            unfold get_node_by_id in
            ground (
              arith,
              back-ids i,
              same_tree_back,
              eq_iff id i,
              eq_iff i root_id,
              eq_iff i "",
              get-none i,
            );
        same_tree = same_tree_back;
        next_after =
            unfold detach in
            ground (
              arith,
              remove_node_index-OnlyIds new_ref (record behind { nodes = back_nodes }),
              same_next_grown,
            );
        unknown = ground (arith, unknown, nodes-back, nodes-grown, entry_id, parent_old);
        no_children = λ x. unfold mem in ground (arith, back_entry);
        same_id = λ x o. ground (arith, o, nodes-back, nodes-grown, ==_iff t.next x);
        same_parent = λ x o. ground (arith, o, nodes-back, nodes-grown, ==_iff t.next x);
        kids = λ p x o. ground (arith, back_kids p o);
        once = λ p. elim (dec_eq p t.next) [
          | inl q ↦ ground (arith, q, back_entry)
          | inr q ↦ ground (arith, back_kids p q, l.once p)
        ];
      }

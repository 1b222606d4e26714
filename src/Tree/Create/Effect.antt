-- ===== src/Tree/Create/Effect.antt =====
-- What a `createNodeLocked` that returns no error has done.
use leafwiki.Base.{
  ◌≡◌, ◌≢◌, refl, sym, ap, subst, ◌∙◌, String, Bool, true, [], ◌∷◌, ◌++◌, Option, none, some, arith,
  str_eq, eq_iff, if◌then◌else◌, ==_iff,
}
use leafwiki.Tree.Node.{Ref, is_section}
use leafwiki.Tree.State.{TreeService, NodeStore, Check, pass, fail}
use leafwiki.Tree.Index.{get_node_by_id}
use leafwiki.Tree.Invariant.{IsSoundTree}
use leafwiki.Tree.Create.{
  NewNode, new_entry, check_create, choose_id, allocate, open_parent, save_created, place,
  create_below, create_node,
}
use leafwiki.Tree.Create.Attached.{grown-get, nodes-grown, linked_nodes}
use leafwiki.Tree.Create.Sound.{
  filed, bigger, attached, IsFresh, IsPlaceable, check_create-IsPlaceable, choose_id_free, opened,
  same, opened-IsSoundTree, opened-IsFresh, opened_loaded, opened_in,
}

-- The node of the given id and parent, at address `r`, and the tree around it.
pub record IsAdded {D : Type 0} (t u : TreeService D) (parent : Ref) (id : String) (n : NewNode)
    (r : Ref) : Type 0 where
  pub unused : get_node_by_id t id ≡ none
  pub got : get_node_by_id u id ≡ some r
  pub made : u.nodes r ≡ new_entry t.nodes parent id n
  pub last : (u.nodes parent).children ≡ (t.nodes parent).children ++ r ∷ []
  pub in_section : is_section (u.nodes parent).kind ≡ true
  pub others : (x : Ref) → x ≢ parent → x ≢ r → u.nodes x ≡ t.nodes x
  pub still : (i : String) (x : Ref) → get_node_by_id t i ≡ some x → get_node_by_id u i ≡ some x

module _ {D : Type 0} (store : NodeStore D) (n : NewNode) (t : TreeService D)
    (sound : IsSoundTree t) (parent : Ref) (id : String) (root : Ref) (loaded : t.tree ≡ some root)
    (parent_in : get_node_by_id t (t.nodes parent).id ≡ some parent)
    (unknown : get_node_by_id t id ≡ none) (given : id ≢ "")
    (is_open : is_section (t.nodes parent).kind ≡ true) where
  abbrev files : D
  files = (filed store n t sound parent id root loaded parent_in unknown given).0.disk

  abbrev after : TreeService D
  after = bigger store n t sound parent id root loaded parent_in unknown given

  after-IsAdded : IsAdded t after parent id n t.next
  unfolding allocate
  after-IsAdded = record {
    unused = unknown;
    got = ground (arith, got t.next id, eq_iff id id);
    made = ground (arith, made, old);
    last = ground (arith, made, old);
    in_section = ground (arith, made, old, is_open);
    others = λ x a b. ground (arith, made, a, b, ==_iff t.next x, ==_iff parent x);
    still = λ i x e. ground (arith, got x i, e, eq_iff id i, unknown);
  }
    where
      old : parent ≢ t.next
      old e = ground (arith, e, sound.linked.allocated parent parent_in)

      made :
          after.nodes ≡ linked_nodes t sound parent id n root loaded parent_in unknown given files
      made = nodes-grown t sound parent id n root loaded parent_in unknown given files

      got :
          (x : Ref) (i : String)
          → get_node_by_id after i ≡ (if str_eq id i then some t.next else get_node_by_id t i)
      got x i = grown-get t sound parent id n root loaded parent_in unknown given files i

  -- Nothing but the files comes after.
  save_created-IsAdded :
      (converted : Bool) (r : Ref)
      → (save_created store converted parent t.next after).1 ≡ pass r
      → IsAdded t (save_created store converted parent t.next after).0 parent id n r
  unfolding save_created
  save_created-IsAdded converted r e =
      go (store.save_child_order after.nodes parent after.disk).1 refl
    where
      go :
          (x : Option String)
          → (store.save_child_order after.nodes parent after.disk).1 ≡ x
          → IsAdded t (save_created store converted parent t.next after).0 parent id n r
      go (some x) p = absurd (ground (arith, p, e))
      go none p =
          let own : r ≡ t.next = ground (arith, p, e) in
          rw (p, save_created, own) (again (store.save_child_order after.nodes parent after.disk).0)
        where
          again : (d : D) → IsAdded t (record after { disk = d }) parent id n t.next
          again d = record {
            unused = unknown;
            got = unfold get_node_by_id in after-IsAdded.got;
            made = after-IsAdded.made;
            last = after-IsAdded.last;
            in_section = after-IsAdded.in_section;
            others = after-IsAdded.others;
            still = unfold get_node_by_id in after-IsAdded.still;
          }

  place-IsAdded :
      (converted : Bool) (r : Ref)
      → (place store converted parent id n t).1 ≡ pass r
      → IsAdded t (place store converted parent id n t).0 parent id n r
  unfolding place
  place-IsAdded converted r e =
      go (filed store n t sound parent id root loaded parent_in unknown given).1 refl
    where
      go :
          (x : Option String)
          → (filed store n t sound parent id root loaded parent_in unknown given).1 ≡ x
          → IsAdded t (place store converted parent id n t).0 parent id n r
      go (some x) p = absurd (ground (arith, p, e))
      go none p =
          let whole : place store converted parent id n t
              ≡ save_created store converted parent t.next after =
            rw (p, place)
              (ap (save_created store converted parent t.next)
                (attached store n t sound parent id root loaded parent_in unknown given)) in
          subst (λ s. IsAdded t s.0 parent id n r) (sym whole)
            (save_created-IsAdded converted r (sym (ap (λ s. s.1) whole) ∙ e))

-- What the checks let through, the id that was chosen, and the node in the tree.
pub record IsCreated {D : Type 0} (t u : TreeService D) (parent_id : String) (n : NewNode) (r : Ref)
    : Type 0 where
  pub parent : Ref
  pub id : String
  pub placeable : IsPlaceable t parent_id n parent
  pub chosen : choose_id t n ≡ pass id
  pub added : IsAdded t u parent id n r

module _ {D : Type 0} (store : NodeStore D) (n : NewNode) (t : TreeService D)
    (sound : IsSoundTree t) (fresh : IsFresh t n) where
  module _ (parent_id : String) (parent : Ref) (c : IsPlaceable t parent_id n parent) where
    abbrev wide : TreeService D × Check Bool
    wide = opened store n t sound fresh parent_id parent c

    kept_children : (wide.0.nodes parent).children ≡ (t.nodes parent).children
    unfolding open_parent
    kept_children = ground arith

    kept_others : (x : Ref) → x ≢ parent → wide.0.nodes x ≡ t.nodes x
    unfolding open_parent
    kept_others x e = ground (arith, e, ==_iff parent x)

    kept_get : (i : String) → get_node_by_id wide.0 i ≡ get_node_by_id t i
    kept_get = (same store n t sound fresh parent_id parent c).same_get

    now_section : (b : Bool) → wide.1 ≡ pass b → is_section (wide.0.nodes parent).kind ≡ true
    unfolding open_parent
    now_section b e = ground (arith, e)

    kept_choice : choose_id wide.0 n ≡ choose_id t n
    unfolding choose_id
    kept_choice = ground (arith, kept_get n.existing_id)

    -- The kind of the parent is all that its opening changes.
    IsAdded-opened :
        (u : TreeService D) (id : String) (r : Ref)
        → IsAdded wide.0 u parent id n r
        → IsAdded t u parent id n r
    IsAdded-opened u id r a = record {
      unused = sym (kept_get id) ∙ a.unused;
      got = a.got;
      made = ground (arith, a.made, kept_children);
      last = ground (arith, a.last, kept_children);
      in_section = a.in_section;
      others = λ x p q. a.others x p q ∙ kept_others x p;
      still = λ i x e. a.still i x (kept_get i ∙ e);
    }

    create_below-IsCreated :
        (r : Ref)
        → (create_below store parent n t).1 ≡ pass r
        → IsCreated t (create_below store parent n t).0 parent_id n r
    create_below-IsCreated r ok = go wide.1 refl
      where
        under :
            (converted : Bool) (i : Check String)
            → wide.1 ≡ pass converted
            → choose_id wide.0 n ≡ i
            → IsCreated t (create_below store parent n t).0 parent_id n r
        under converted (fail e) p q = absurd (unfold create_below in ground (arith, p, q, ok))
        under converted (pass id) p q =
            let whole : create_below store parent n t ≡ place store converted parent id n wide.0 =
              unfold create_below in ground (arith, p, q) in
            let (g, u) =
              choose_id_free wide.0 n id (opened-IsFresh store n t sound fresh parent_id parent c)
                q in
            let done : IsAdded wide.0 (place store converted parent id n wide.0).0 parent id n r =
              place-IsAdded store n wide.0
                (opened-IsSoundTree store n t sound fresh parent_id parent c) parent id c.loaded.0
                (opened_loaded store n t sound fresh parent_id parent c)
                (opened_in store n t sound fresh parent_id parent c) u g (now_section converted p)
                converted r (sym (ap (λ s. s.1) whole) ∙ ok) in
            record {
              parent = parent;
              id = id;
              placeable = c;
              chosen = sym kept_choice ∙ q;
              added =
                  subst (λ s. IsAdded t s.0 parent id n r) (sym whole)
                    (IsAdded-opened (place store converted parent id n wide.0).0 id r done);
            }

        go :
            (o : Check Bool)
            → wide.1 ≡ o
            → IsCreated t (create_below store parent n t).0 parent_id n r
        go (fail e) p = absurd (unfold create_below in ground (arith, p, ok))
        go (pass converted) p = under converted (choose_id wide.0 n) p refl

  -- A `createNodeLocked` of a sound tree that returns a node has found the parent (the root for "" and
  -- "root"), and below it no node of the slug; it has added a node with an id that was not in use and
  -- the fields asked for, as the last child of the parent, which is a section; the other nodes are as
  -- before, and the index still gives all that it gave. The id that `GenerateUniqueID` gives is not
  -- empty and not in use.
  pub create_effect :
      (parent_id : String) (r : Ref)
      → (create_node store parent_id n t).1 ≡ pass r
      → IsCreated t (create_node store parent_id n t).0 parent_id n r
  create_effect parent_id r ok = go (check_create t parent_id n.slug) refl
    where
      go :
          (c : Check Ref)
          → check_create t parent_id n.slug ≡ c
          → IsCreated t (create_node store parent_id n t).0 parent_id n r
      go (fail e) p = absurd (unfold create_node in ground (arith, p, ok))
      go (pass parent) p =
          let whole : create_node store parent_id n t ≡ create_below store parent n t =
            unfold create_node in ground (arith, p) in
          subst (λ s. IsCreated t s.0 parent_id n r) (sym whole)
            (create_below-IsCreated parent_id parent
              (check_create-IsPlaceable t parent_id n parent p) r (sym (ap (λ s. s.1) whole) ∙ ok))

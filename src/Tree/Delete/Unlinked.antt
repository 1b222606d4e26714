-- ===== src/Tree/Delete/Unlinked.antt =====
-- The tree after a node is unlinked from it.
use leafwiki.Base.{
  ℕ, zero, suc, ◌<◌, ◌≡◌, ◌≢◌, refl, sym, subst, inl, inr, String, true, false, not, ◌||◌, ◌&&◌,
  List, none, some, arith, str_eq, eq_iff, Bool-cases, Bool-ext, if◌then◌else◌, ◌==◌, ==_iff,
}
use leafwiki.Base.Members.{mem}
use leafwiki.Tree.Node.{Ref}
use leafwiki.Tree.State.{Heap, TreeService, root_id}
use leafwiki.Tree.Index.{get_node_by_id, is_child_of}
use leafwiki.Tree.Invariant.{IsLinked, DepthIs, IsSoundTree}
use leafwiki.Tree.Depth.{Down, Down-snoc, is_child_of-Down, depth-lt-next, DepthIs-unique}
use leafwiki.Tree.Subtree.Walks.{Down-is_child_of, Down-last, Down-depth, Down-IsRegistered}
use leafwiki.Tree.Registered.{found-IsRegistered}
use leafwiki.Tree.Positions.{set_children, reindex_positions}
use leafwiki.Tree.Positions.Members.{
  mem-reindex_positions, reindex_positions-NoRepeat, reindex_positions_same,
}
use leafwiki.Tree.Move.{remove_child}
use leafwiki.Tree.Move.Lists.{mem-remove_child_once, remove_child-NoRepeat}
use leafwiki.Tree.Delete.{Doomed, unlink}
use leafwiki.Tree.Delete.Pruned.{IsPruned, pruned-IsSoundTree}
use leafwiki.Tree.Delete.Swept.{swept, remove_node_index-OnlyIds, ids-remove_node_index}

module _ {D : Type 0} (t : TreeService D) (sound : IsSoundTree t) (id : String) (r : Doomed)
    (root : Ref) (found : get_node_by_id t id ≡ some r.node)
    (under : (t.nodes r.node).parent ≡ some r.parent) (loaded : t.tree ≡ some root) where
  abbrev l : IsLinked t
  l = sound.linked

  abbrev IsIn : Ref → Type 0
  IsIn x = get_node_by_id t (t.nodes x).id ≡ some x

  abbrev left : List Ref
  left = remove_child t.nodes id (t.nodes r.parent).children

  abbrev cut : Heap
  cut = set_children r.parent left t.nodes

  abbrev after : TreeService D
  after = unlink id r t

  node-IsIn : IsIn r.node
  node-IsIn = found-IsRegistered t l id r.node found

  parent-IsIn : IsIn r.parent
  parent-IsIn = l.rooted r.node r.parent node-IsIn under

  mem-left : (x : Ref) → mem x left ≡ (mem x (t.nodes r.parent).children && not (x == r.node))
  mem-left x =
      let own = l.named id r.node found in
      subst
        (λ i.
          mem x (remove_child t.nodes i (t.nodes r.parent).children)
          ≡ (mem x (t.nodes r.parent).children && not (x == r.node)))
        own
        (mem-remove_child_once x t.nodes r.node (t.nodes r.parent).children (l.once r.parent)
          (λ c m e. cc (l.registered r.parent c parent-IsIn m, node-IsIn, e)))

  nodes-after : after.nodes ≡ reindex_positions r.parent cut
  unfolding unlink
  nodes-after = ground (arith, remove_node_index-OnlyIds r.node (record t { nodes = cut }))

  same_tree : after.tree ≡ t.tree
  unfolding unlink
  same_tree = ground (arith, remove_node_index-OnlyIds r.node (record t { nodes = cut }))

  same_next : after.next ≡ t.next
  unfolding unlink
  same_next = ground (arith, remove_node_index-OnlyIds r.node (record t { nodes = cut }))

  same_id : (x : Ref) → (after.nodes x).id ≡ (t.nodes x).id
  same_id x = ground (arith, nodes-after, reindex_positions_same r.parent x cut)

  same_parent : (x : Ref) → (after.nodes x).parent ≡ (t.nodes x).parent
  same_parent x = ground (arith, nodes-after, reindex_positions_same r.parent x cut)

  kids :
      (p x : Ref)
      → mem x (after.nodes p).children
        ≡ (mem x (t.nodes p).children && not (p == r.parent && x == r.node))
  kids p x = ground (arith, nodes-after, mem-reindex_positions x r.parent p cut, mem-left x)

  cut_sub : (p x : Ref) → mem x (cut p).children ≡ true → mem x (t.nodes p).children ≡ true
  cut_sub p x m = ground (arith, mem-left x, m)

  cut_keeps :
      (p x : Ref) → mem x (t.nodes p).children ≡ true → x ≢ r.node → mem x (cut p).children ≡ true
  cut_keeps p x m e = ground (arith, mem-left x, m, e, ==_iff x r.node)

  Down-cut : (n : ℕ) (a x : Ref) → Down cut n a x → Down t.nodes n a x
  Down-cut zero a x e = e
  Down-cut (suc n) a x (c, m, w) = (c, cut_sub a c m, Down-cut n c x w)

  same-get :
      (f : ℕ) (i : String)
      → t.next ≡ suc f
      → (i ≡ root_id → swept f cut r.node i ≡ false)
      → get_node_by_id after i ≡ (if swept f cut r.node i then none else get_node_by_id t i)
  unfolding get_node_by_id unlink
  same-get f i e top = ground (
    arith,
    ids-remove_node_index f r.node (record t { nodes = cut }) i e,
    remove_node_index-OnlyIds r.node (record t { nodes = cut }),
    eq_iff i root_id,
    top,
  )

  -- What is swept out is the node, or stands below it.
  below_swept :
      (f : ℕ) (i : String)
      → swept f cut r.node i ≡ true
      → (x : Ref) × (n : ℕ) × Down cut n r.node x × ((t.nodes x).id ≡ i)
  below_swept f i e = elim (Bool-cases (str_eq (t.nodes r.node).id i)) [
    | inl s ↦ (r.node, 0, refl, (eq_iff (t.nodes r.node).id i).0 s)
    | inr s ↦
        let (x, n, w, p) = Down-is_child_of cut f r.node i (ground (arith, e, s)) in
        (x, suc n, w, ground (arith, p))
  ]

  Down-IsIn : (n : ℕ) (x : Ref) → Down cut n r.node x → IsIn x
  Down-IsIn n x w = Down-IsRegistered t sound n r.node x node-IsIn (Down-cut n r.node x w)

  swept_below :
      (f n : ℕ) (x : Ref)
      → t.next ≡ suc f
      → Down cut n r.node x
      → swept f cut r.node (t.nodes x).id ≡ true
  swept_below f zero x e w = ground (arith, w, eq_iff (t.nodes r.node).id (t.nodes x).id)
  swept_below f (suc n) x e w =
      let i = Down-IsIn (suc n) x w in
      let (d, depth) = sound.grounded.depth x i in
      let short = Down-depth t sound (suc n) d r.node x (Down-cut (suc n) r.node x w) depth in
      let small = depth-lt-next t l d x depth i in
      let found_below = is_child_of-Down cut n f r.node x w (omega (arith, short, small, e)) in
      ground (arith, found_below)

  module _ (f : ℕ) (fuel : t.next ≡ suc f) where
    root_stays : (i : String) → i ≡ root_id → swept f cut r.node i ≡ false
    root_stays i e = elim (Bool-cases (swept f cut r.node i)) [
      | inr s ↦ s
      | inl s ↦
          let (x, n, w, p) = below_swept f i s in
          let got : get_node_by_id t root_id ≡ some root = unfold get_node_by_id in loaded in
          let same : x ≡ root = cc (Down-IsIn n x w, got, p, e) in
          absurd (go n x w (l.top x (cc (loaded, same))))
    ]
      where
        go : (n : ℕ) (x : Ref) → Down cut n r.node x → (t.nodes x).parent ≡ none → ⊥
        go zero x w e = cc (under, w, e)
        go (suc n) x w e =
            let (p, v, m) = Down-last t.nodes n r.node x (Down-cut (suc n) r.node x w) in
            cc (l.owns p x m, e)

    get-after :
        (i : String)
        → get_node_by_id after i ≡ (if swept f cut r.node i then none else get_node_by_id t i)
    get-after i = same-get f i fuel (root_stays i)

    -- What stands below a node that is swept out is swept out.
    swept_child :
        (p c : Ref)
        → IsIn p
        → mem c (t.nodes p).children ≡ true
        → c ≢ r.node
        → swept f cut r.node (t.nodes p).id ≡ true
        → swept f cut r.node (t.nodes c).id ≡ true
    swept_child p c i m other s =
        let (x, n, w, q) = below_swept f (t.nodes p).id s in
        let same : x ≡ p = cc (Down-IsIn n x w, i, q) in
        swept_below f (suc n) c fuel (
          Down-snoc cut n r.node x c w
            (cut_keeps x c (subst (λ y. mem c (t.nodes y).children ≡ true) (sym same) m) other))

    swept_parent :
        (p c : Ref)
        → IsIn c
        → (t.nodes c).parent ≡ some p
        → c ≢ r.node
        → swept f cut r.node (t.nodes c).id ≡ true
        → swept f cut r.node (t.nodes p).id ≡ true
    swept_parent p c i e other s =
        let (x, n, w, q) = below_swept f (t.nodes c).id s in
        let same : x ≡ c = cc (Down-IsIn n x w, i, q) in go n (subst (Down cut n r.node) same w)
      where
        go : (n : ℕ) → Down cut n r.node c → swept f cut r.node (t.nodes p).id ≡ true
        go zero w = absurd (other (sym w))
        go (suc n) w =
            let (y, v, m) = Down-last cut n r.node c w in
            let same : y ≡ p = cc (l.owns y c (cut_sub y c m), e) in
            subst (λ z. swept f cut r.node (t.nodes z).id ≡ true) same (swept_below f n y fuel v)

    unlink-IsPruned : IsPruned t after r (swept f cut r.node)
    unlink-IsPruned = record {
      same_tree = same_tree;
      same_next = same_next;
      same_id = same_id;
      same_parent = same_parent;
      kids = kids;
      once = λ p. ground (
        arith,
        nodes-after,
        reindex_positions-NoRepeat r.parent p cut,
        remove_child-NoRepeat t.nodes id (t.nodes r.parent).children (l.once r.parent),
        l.once p,
        l.once r.parent,
      );
      got = get-after;
      under = under;
      node_out = ground (arith, eq_iff (t.nodes r.node).id (t.nodes r.node).id);
      child_out = swept_child;
      parent_out = swept_parent;
    }

    pub unlink-IsSoundTree : IsSoundTree after
    unlink-IsSoundTree = pruned-IsSoundTree t after r (swept f cut r.node) sound unlink-IsPruned

    -- With a parent less deep than the node, the walk below the node does not meet it.
    Down-uncut :
        (n da dp : ℕ) (a x : Ref)
        → DepthIs t.nodes dp r.parent
        → DepthIs t.nodes da a
        → dp < da
        → Down t.nodes n a x
        → Down cut n a x
    Down-uncut zero da dp a x p q lt e = e
    Down-uncut (suc n) da dp a x p q lt (c, m, w) =
        let apart : a ≢ r.parent = λ e.
          omega
            (arith, DepthIs-unique t.nodes da dp a q (subst (DepthIs t.nodes dp) (sym e) p), lt) in
        (
          c,
          ground (arith, m, apart, ==_iff a r.parent),
          Down-uncut n (suc da) dp c x p (a, l.owns a c m, q) (omega arith) w,
        )

    -- After a node is unlinked, the index has the nodes that it had, but for the node and all that
    -- the walk down from it finds.
    pub unlink-get :
        (i : String) (x : Ref)
        → get_node_by_id t i ≡ some x
        → get_node_by_id after i ≡ (
            if str_eq i (t.nodes r.node).id || is_child_of t.next t.nodes r.node i true
            then none
            else some x)
    unlink-get i x e =
        let same =
          Bool-ext (swept f cut r.node i)
            (str_eq i (t.nodes r.node).id || is_child_of t.next t.nodes r.node i true) out back in
        ground (arith, get-after i, same, e)
      where
        out :
            swept f cut r.node i ≡ true
            → (str_eq i (t.nodes r.node).id || is_child_of t.next t.nodes r.node i true) ≡ true
        out s = let (y, n, w, q) = below_swept f i s in go y n w q
          where
            go :
                (y : Ref) (n : ℕ)
                → Down cut n r.node y
                → (t.nodes y).id ≡ i
                → (str_eq i (t.nodes r.node).id || is_child_of t.next t.nodes r.node i true) ≡ true
            go y zero w q = ground (arith, w, q, eq_iff i (t.nodes r.node).id)
            go y (suc n) w q =
                let j = Down-IsIn (suc n) y w in
                let (d, depth) = sound.grounded.depth y j in
                let v = Down-cut (suc n) r.node y w in
                let short = Down-depth t sound (suc n) d r.node y v depth in
                let small = depth-lt-next t l d y depth j in
                ground (
                  arith,
                  q,
                  is_child_of-Down t.nodes n t.next r.node y v (omega (arith, short, small)),
                )

        back :
            (str_eq i (t.nodes r.node).id || is_child_of t.next t.nodes r.node i true) ≡ true
            → swept f cut r.node i ≡ true
        back s = elim (Bool-cases (str_eq i (t.nodes r.node).id)) [
          | inl q ↦ ground (arith, q, eq_iff i (t.nodes r.node).id, eq_iff (t.nodes r.node).id i)
          | inr q ↦
              let (y, n, w, own) =
                Down-is_child_of t.nodes t.next r.node i (ground (arith, s, q)) in
              let (dp, up) = sound.grounded.depth r.parent parent-IsIn in
              let v =
                Down-uncut (suc n) (suc dp) dp r.node y up (r.parent, under, up) (omega arith) w in
              subst (λ j. swept f cut r.node j ≡ true) own (swept_below f (suc n) y fuel v)
        ]

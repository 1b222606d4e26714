-- ===== src/Tree/Sort/Sound.antt =====
-- What `SortPages` does to the nodes, with and without an error.
use leafwiki.Base.{
  ℕ, zero, suc, ◌≡◌, refl, ap, ◌∙◌, inl, inr, String, false, not, ◌||◌, List, [], ◌∷◌, Option, none,
  some, arith, length, some_of, str_eq, Bool-cases, if◌then◌else◌, ◌==◌,
}
use leafwiki.Base.Members.{mem}
use leafwiki.Tree.Node.{Ref}
use leafwiki.Tree.State.{Heap, write, TreeService, NodeStore, TreeError, Check, pass, fail, root_id}
use leafwiki.Tree.Index.{get_node_by_id}
use leafwiki.Tree.Invariant.{IsLinked}
use leafwiki.Tree.Registered.{target-IsRegistered}
use leafwiki.Tree.Alike.{Alike, SameIndex, Alike-same, get_node_by_id-same}
use leafwiki.Tree.Positions.{sort_stable, or_position, snapshot_child_positions, set_children}
use leafwiki.Tree.Positions.Members.{
  mem-sort_stable, sort_stable-NoRepeat, assign_positions_same, assign_positions_other, DistinctIds,
  snapshot_child_positions_lem,
}
use leafwiki.Tree.Sort.{
  has_child_id, has_duplicate, order_key, put_back, check_sort, sorted_nodes, unsorted_nodes,
  save_sorted, sort_pages,
}
use leafwiki.Tree.Sort.Order.{ids_of}

abbrev pub upward : ℕ → ℕ → List ℕ
upward i zero = []
upward i (suc n) = i ∷ upward (suc i) n

abbrev pub positions_of : Heap → List Ref → List ℕ
positions_of h [] = []
positions_of h (c ∷ cs) = (h c).position ∷ positions_of h cs

put_back_lem :
    (x : Ref) (positions : String → Option ℕ) (cs : List Ref) (h : Heap)
    → put_back positions cs h x ≡ (
        if mem x cs
        then record (h x) { position = or_position (positions (h x).id) (h x).position }
        else h x)
unfolding put_back mem
put_back_lem x positions [] h = refl
put_back_lem x positions (c ∷ cs) h = ground (
  arith,
  put_back_lem x positions cs
      (write c (record (h c) { position = or_position (positions (h c).id) (h c).position }) h),
)

module _ (parent : Ref) (ids : List String) (h : Heap) where
  abbrev sorted : List Ref
  sorted = sort_stable (order_key h ids) (h parent).children

  -- Only positions change, and the order of the children.
  pub sorted_nodes_same :
      (x : Ref)
      → sorted_nodes parent ids h x ≡ record (h x) {
        children = if x == parent then sorted else (h x).children;
        position = (sorted_nodes parent ids h x).position;
      }
  unfolding sorted_nodes
  sorted_nodes_same x =
      ground (arith, assign_positions_same x 0 sorted (set_children parent sorted h))

  sorted_nodes_other :
      (x : Ref)
      → mem x (h parent).children ≡ false
      → (sorted_nodes parent ids h x).position ≡ (h x).position
  unfolding sorted_nodes
  sorted_nodes_other x m = ground (
    arith,
    assign_positions_other x 0 sorted (set_children parent sorted h)
        (mem-sort_stable x (order_key h ids) (h parent).children ∙ m),
  )

  pub unsorted_nodes_lem :
      DistinctIds h (h parent).children
      → (x : Ref) → unsorted_nodes parent h (sorted_nodes parent ids h) x ≡ h x
  unfolding unsorted_nodes
  unsorted_nodes_lem d x =
      let cs = (h parent).children in
      let back = snapshot_child_positions h cs in
      elim (Bool-cases (mem x cs)) [
        | inl m ↦ ground (
          arith,
          m,
          put_back_lem x back cs (set_children parent cs (sorted_nodes parent ids h)),
          sorted_nodes_same x,
          sorted_nodes_same parent,
          snapshot_child_positions_lem h cs x d m,
        )
        | inr m ↦ ground (
          arith,
          m,
          put_back_lem x back cs (set_children parent cs (sorted_nodes parent ids h)),
          sorted_nodes_same x,
          sorted_nodes_other x m,
        )
      ]

-- What the checks in front of a sort let through.
pub record IsSortable {D : Type 0} (t : TreeService D) (parent_id : String) (ids : List String)
    (parent : Ref) : Type 0 where
  pub target :
      (if str_eq parent_id "" || str_eq parent_id root_id
        then t.tree
        else get_node_by_id t parent_id)
      ≡ some parent
  pub same_length : length ids ≡ length (t.nodes parent).children
  pub all_named :
      some_of (λ id. not (has_child_id t.nodes (t.nodes parent).children id)) ids ≡ false
  pub no_duplicate : has_duplicate ids ≡ false

module _ {D : Type 0} (t : TreeService D) (parent_id : String) (ids : List String)
    (parent : Ref) where
  check_sort-IsSortable :
      check_sort t parent_id ids ≡ pass parent → IsSortable t parent_id ids parent
  unfolding check_sort
  check_sort-IsSortable e = record {
    target = ground arith;
    same_length = ground arith;
    all_named = ground arith;
    no_duplicate = ground arith;
  }

module _ {D : Type 0} (store : NodeStore D) (parent_id : String) (ids : List String)
    (t : TreeService D) where
  abbrev result : TreeService D × Option TreeError
  result = sort_pages store parent_id ids t

  abbrev saved : Ref → TreeService D × Option TreeError
  saved parent = save_sorted store parent ids t

  siblings-DistinctIds :
      (parent : Ref)
      → IsLinked t
      → get_node_by_id t (t.nodes parent).id ≡ some parent
      → DistinctIds t.nodes (t.nodes parent).children
  siblings-DistinctIds parent l i c d m n e =
      cc (l.registered parent c i m, l.registered parent d i n)

  saved-error :
      (parent : Ref) (err : TreeError) (x : Ref)
      → IsLinked t
      → get_node_by_id t (t.nodes parent).id ≡ some parent
      → (saved parent).1 ≡ some err
      → (saved parent).0.nodes x ≡ t.nodes x
  unfolding save_sorted
  saved-error parent err x l i e =
      ground (arith, unsorted_nodes_lem parent ids t.nodes (siblings-DistinctIds parent l i) x)

  saved-nodes :
      (parent : Ref)
      → (saved parent).1 ≡ none
      → (saved parent).0.nodes ≡ sorted_nodes parent ids t.nodes
  unfolding save_sorted
  saved-nodes parent e = ground arith

  -- A `SortPages` in a linked tree that returns an error changes no node.
  pub sort_atomic :
      (err : TreeError)
      → IsLinked t
      → result.1 ≡ some err
      → (x : Ref) → result.0.nodes x ≡ t.nodes x
  unfolding sort_pages
  sort_atomic err l e x = go (check_sort t parent_id ids) refl
    where
      go : (c : Check Ref) → check_sort t parent_id ids ≡ c → result.0.nodes x ≡ t.nodes x
      go (fail f) p = ground (arith, p)
      go (pass parent) p =
          let i =
            target-IsRegistered t l parent_id parent
              (check_sort-IsSortable t parent_id ids parent p).target in
          ground (arith, p, saved-error parent err x l i (ground (arith, p)))

  abbrev pub IsSorted : Ref → Heap → Type 0
  IsSorted parent h =
      (ids_of h (h parent).children ≡ ids)
      × (positions_of h (h parent).children ≡ upward 0 (length ids))
      × ((x : Ref)
          → h x ≡ record (t.nodes x) {
            children = if x == parent then (h parent).children else (t.nodes x).children;
            position = (h x).position;
          })

  -- `SortPages` changes no link, whatever it returns.
  pub sort_pages-Alike : IsLinked t → Alike t result.0
  sort_pages-Alike l = go (check_sort t parent_id ids) refl result.1 refl
    where
      same_index : SameIndex t result.0
      same_index = unfold sort_pages save_sorted in ground arith

      go :
          (c : Check Ref)
          → check_sort t parent_id ids ≡ c
          → (e : Option TreeError) → result.1 ≡ e
          → Alike t result.0
      go c p (some err) e = Alike-same same_index (sort_atomic err l e)
      go (fail f) p none e = absurd (unfold sort_pages in ground (arith, p, e))
      go (pass parent) p none e =
          let h = sorted_nodes parent ids t.nodes in
          let nodes : result.0.nodes ≡ h =
            unfold sort_pages in ground (arith, p, e, saved-nodes parent) in
          let kept = λ (x : Ref). ap (λ n. n x) nodes ∙ sorted_nodes_same parent ids t.nodes x in
          let cs = (t.nodes parent).children in
          let key = order_key t.nodes ids in
          record {
            same_get = get_node_by_id-same same_index;
            same_tree = same_index.same_tree;
            same_next = same_index.same_next;
            same_id = λ x. ground (arith, kept x);
            same_parent = λ x. ground (arith, kept x);
            same_children = λ q x. ground (arith, kept q, mem-sort_stable x key cs);
            still_once = λ q n. ground (arith, kept q, sort_stable-NoRepeat key cs);
          }

-- ===== src/Tree/Sort.antt =====
-- tree_mutations.go: `SortPages`, which gives the children of a parent the order of a list of ids.
pub mod Strict
pub mod Order
pub mod Sound
use leafwiki.Base.{
  ℕ, zero, suc, String, Bool, true, false, not, ◌||◌, List, [], ◌∷◌, Option, none, some, ◌==◌,
  if◌then◌else◌, str_eq, length, some_of,
}
use leafwiki.Tree.Node.{Ref}
use leafwiki.Tree.State.{
  Heap, write, TreeService, NodeStore, TreeError, Check, pass, fail, ◌>>=◌, ◌>>◌, or_fail,
  refuse_if, root_id, tree_not_loaded, parent_not_found, invalid_sort_order,
  duplicate_in_sort_order, child_order_failed,
}
use leafwiki.Tree.Index.{get_node_by_id}
use leafwiki.Tree.Positions.{
  set_children, sort_stable, assign_positions, snapshot_child_positions, or_position,
}

-- `existingIDs[id]`
unfoldable pub has_child_id : Heap → List Ref → String → Bool
unfolding some_of
has_child_id h children id = some_of (λ c. str_eq (h c).id id) children

-- the loop over `seen`
unfoldable pub has_duplicate : List String → Bool
unfolding some_of
has_duplicate [] = false
has_duplicate (id ∷ ids) = some_of (λ other. str_eq other id) ids || has_duplicate ids

-- `positions`, where a later entry overwrites an earlier one
unfoldable pub order_positions : ℕ → List String → String → Option ℕ
order_positions i [] id = none
order_positions i (x ∷ xs) id = elim (order_positions (suc i) xs id) [
  | some n ↦ some n
  | none ↦ if str_eq x id then some i else none
]

-- the position that a child is sorted by; a missing key of the map is 0
abbrev pub order_key : Heap → List String → Ref → ℕ
order_key h ids c = or_position (order_positions 0 ids (h c).id) 0

-- the loop that puts back the positions after a failure
unfoldable pub put_back : (String → Option ℕ) → List Ref → Heap → Heap
put_back positions [] h = h
put_back positions (c ∷ cs) h =
    put_back positions cs
      (write c (record (h c) { position = or_position (positions (h c).id) (h c).position }) h)

-- the nodes with the children in the new order
unfoldable pub sorted_nodes : Ref → List String → Heap → Heap
unfolding sort_stable assign_positions order_positions
sorted_nodes parent ids h =
    let sorted = sort_stable (order_key h ids) (h parent).children in
    assign_positions 0 sorted (set_children parent sorted h)

unfoldable pub unsorted_nodes : Ref → Heap → Heap → Heap
unsorted_nodes parent before h =
    let children = (before parent).children in
    put_back (snapshot_child_positions before children) children (set_children parent children h)

module _ {D : Type 0} where
  -- the checks, in the order of the code
  unfoldable pub check_sort : TreeService D → String → List String → Check Ref
  unfolding has_child_id has_duplicate
  check_sort t parent_id ids = do
    root ← or_fail tree_not_loaded t.tree
    parent ←
        if str_eq parent_id "" || str_eq parent_id root_id
        then pass root
        else or_fail parent_not_found (get_node_by_id t parent_id)
    refuse_if (not (length ids == length (t.nodes parent).children)) invalid_sort_order
    refuse_if (some_of (λ id. not (has_child_id t.nodes (t.nodes parent).children id)) ids)
        invalid_sort_order
    refuse_if (has_duplicate ids) duplicate_in_sort_order
    pass parent

module _ {D : Type 0} (store : NodeStore D) where
  unfoldable pub save_sorted : Ref → List String → TreeService D → TreeService D × Option TreeError
  save_sorted parent ids t =
      let h = sorted_nodes parent ids t.nodes in
      let (d, err) = store.save_child_order h parent t.disk in
      elim err [
        | none ↦ (record t { nodes = h; disk = d }, none)
        | some e ↦ (
          record t { nodes = unsorted_nodes parent t.nodes h; disk = d },
          some (child_order_failed e),
        )
      ]

  -- `SortPages`
  unfoldable pub sort_pages :
      String → List String → TreeService D → TreeService D × Option TreeError
  sort_pages parent_id ids t = elim (check_sort t parent_id ids) [
    | fail e ↦ (t, some e)
    | pass parent ↦ save_sorted parent ids t
  ]

-- ===== src/Tree/Move/Frame.antt =====
-- What a move leaves alone.
use leafwiki.Base.{
  ℕ, ◌≡◌, ◌⊎◌, inl, inr, refl, String, true, false, ◌||◌, List, ◌∷◌, ◌++◌, some, arith, ◌==◌,
  length,
}
use leafwiki.Base.Members.{mem, mem-append}
use leafwiki.Base.Int.{ℤ}
use leafwiki.Tree.Node.{Ref, PageNode}
use leafwiki.Tree.State.{Heap, write, TreeService}
use leafwiki.Tree.Index.{rebuild_child_slug_index}
use leafwiki.Tree.Positions.{set_children, assign_positions, sort_stable, reindex_positions}
use leafwiki.Tree.Positions.Members.{
  mem-sort_stable, mem-reindex_positions, assign_positions_other, assign_positions_same,
}
use leafwiki.Tree.Move.{Route, remove_child, insert_nth, insert_at, relink}
use leafwiki.Tree.Move.Lists.{mem-remove_child, mem-insert_nth}

-- `q` stands at `x` where `p` stood: only the children of the two parents, the parent and the
-- metadata of the node, and the positions of the nodes in `cs` may differ.
pub record Near (r : Route) (cs : List Ref) (x : Ref) (p q : PageNode) : Type 0 where
  pub same_id : q.id ≡ p.id
  pub same_title : q.title ≡ p.title
  pub same_slug : q.slug ≡ p.slug
  pub same_pinned : q.pinned ≡ p.pinned
  pub same_kind : q.kind ≡ p.kind
  pub same_children : (x == r.from || x == r.to) ≡ false → q.children ≡ p.children
  pub same_parent : (x == r.node) ≡ false → q.parent ≡ p.parent
  pub same_metadata : (x == r.node) ≡ false → q.metadata ≡ p.metadata
  pub same_position : mem x cs ≡ false → q.position ≡ p.position

module _ (r : Route) (cs : List Ref) (before : Heap) where
  abbrev pub IsNear : Heap → Type 0
  IsNear h = (x : Ref) → Near r cs x (before x) (h x)

  IsNear-refl : IsNear before
  IsNear-refl x = ground arith

  IsNear-from : (h : Heap) (l : List Ref) → IsNear h → IsNear (set_children r.from l h)
  IsNear-from h l n x = ground (arith, n x)

  IsNear-to : (h : Heap) (l : List Ref) → IsNear h → IsNear (set_children r.to l h)
  IsNear-to h l n x = ground (arith, n x)

  -- numbering nodes that are all in `cs`
  IsNear-assign_positions :
      (h : Heap) (i : ℕ) (l : List Ref)
      → ((x : Ref) → mem x l ≡ true → mem x cs ≡ true)
      → IsNear h
      → IsNear (assign_positions i l h)
  IsNear-assign_positions h i l sub n x =
      ground (arith, n x, sub x, assign_positions_other x i l h, assign_positions_same x i l h)

  IsNear-reindex_positions :
      (h : Heap) (p : Ref)
      → ((p ≡ r.from) ⊎ (p ≡ r.to))
      → ((x : Ref) → mem x (h p).children ≡ true → mem x cs ≡ true)
      → IsNear h
      → IsNear (reindex_positions p h)
  unfolding reindex_positions
  IsNear-reindex_positions h p w sub n =
      let sorted = sort_stable (λ c. (h c).position) (h p).children in
      IsNear-assign_positions (set_children p sorted h) 0 sorted
        (λ x m. sub x (rw mem-sort_stable at m)) (IsNear-parent sorted)
    where
      IsNear-parent : (l : List Ref) → IsNear (set_children p l h)
      IsNear-parent l x = ground (arith, n x)

-- The nodes after `relink`, before their positions are numbered.
unfoldable pub linked : String → ℕ → ℤ → Route → Heap → Heap
linked user_id now position r h =
    let id = (h r.node).id in
    let h1 = set_children r.from (remove_child h id (h r.from).children) h in
    let at = insert_at position (length (h1 r.to).children) in
    let h2 = set_children r.to (insert_nth at r.node (h1 r.to).children) h1 in
    let h3 = write r.node (record (h2 r.node) { position = at; parent = some r.to }) h2 in
    let touched = record (h3 r.node).metadata { updated_at = now; last_author_id = user_id } in
    write r.node (record (h3 r.node) { metadata = touched }) h3

pub nodes-relink :
    {D : Type 0} (user_id : String) (now : ℕ) (position : ℤ) (r : Route) (t : TreeService D)
    → (relink user_id now position r t).nodes
      ≡ reindex_positions r.from (reindex_positions r.to (linked user_id now position r t.nodes))
unfolding relink linked rebuild_child_slug_index
nodes-relink user_id now position r t = refl

-- The nodes that a move numbers.
abbrev pub numbered_nodes : Route → Heap → List Ref
numbered_nodes r h = r.node ∷ (h r.from).children ++ (h r.to).children

module _ (user_id : String) (now : ℕ) (position : ℤ) (r : Route) (h : Heap) where
  linked-Near : IsNear r (numbered_nodes r h) h (linked user_id now position r h)
  unfolding linked mem
  linked-Near x = ground arith

  children-linked-sub :
      (p x : Ref)
      → ((p ≡ r.from) ⊎ (p ≡ r.to))
      → mem x (linked user_id now position r h p).children ≡ true
      → mem x (numbered_nodes r h) ≡ true
  unfolding linked mem
  children-linked-sub p x w m =
      let left = remove_child h (h r.node).id (h r.from).children in
      let right = (h r.to).children in
      ground (
        arith,
        mem-append x (h r.from).children right,
        mem-remove_child x h (h r.node).id (h r.from).children,
        mem-insert_nth x (insert_at position (length left)) r.node left,
        mem-insert_nth x (insert_at position (length right)) r.node right,
      )

  -- The move in memory changes nothing else.
  pub relinked-Near :
      IsNear r
        (numbered_nodes r h)
        h
        (reindex_positions r.from (reindex_positions r.to (linked user_id now position r h)))
  relinked-Near =
      let cs = numbered_nodes r h in
      let l = linked user_id now position r h in
      IsNear-reindex_positions r cs h (reindex_positions r.to l) r.from (inl refl)
        (λ x m.
          children-linked-sub r.from x (inl refl) (rw (mem-reindex_positions x r.to r.from l) at m))
        (IsNear-reindex_positions r cs h l r.to (inr refl)
          (λ x m. children-linked-sub r.to x (inr refl) m) linked-Near)

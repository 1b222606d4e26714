-- ===== src/Tree/Move/Relinked.antt =====
-- The nodes after a move: who is whose child.
use leafwiki.Base.{
  ℕ, ◌≡◌, String, true, false, not, ◌||◌, ◌&&◌, List, some, arith, ◌==◌, if◌then◌else◌, length,
}
use leafwiki.Base.Members.{mem, NoRepeat}
use leafwiki.Base.Int.{ℤ}
use leafwiki.Tree.Node.{Ref}
use leafwiki.Tree.State.{Heap}
use leafwiki.Tree.Positions.{reindex_positions}
use leafwiki.Tree.Positions.Members.{
  mem-reindex_positions, reindex_positions-NoRepeat, parent-reindex_positions,
}
use leafwiki.Tree.Move.{Route, remove_child, insert_nth, insert_at}
use leafwiki.Tree.Move.Lists.{
  OnlyId, mem-insert_nth, mem-remove_child_once, remove_child-NoRepeat, insert_nth-NoRepeat,
}
use leafwiki.Tree.Move.Frame.{linked}

-- What the lists of children must hold before a move for it to do what it says.
pub record IsOrderly (h : Heap) (r : Route) : Type 0 where
  pub owns : (p c : Ref) → mem c (h p).children ≡ true → (h c).parent ≡ some p
  pub once : (p : Ref) → NoRepeat (h p).children
  pub only : OnlyId h r.node (h r.from).children
  pub under : (h r.node).parent ≡ some r.from

module _ (user_id : String) (now : ℕ) (position : ℤ) (r : Route) (h : Heap) where
  abbrev pub relinked : Heap
  relinked = reindex_positions r.from (reindex_positions r.to (linked user_id now position r h))

  abbrev left : List Ref
  left = remove_child h (h r.node).id (h r.from).children

  abbrev right : List Ref
  right = (h r.to).children

  children-linked :
      (p : Ref)
      → (linked user_id now position r h p).children ≡ (
          if p == r.to
          then (if r.to == r.from
              then insert_nth (insert_at position (length left)) r.node left
              else insert_nth (insert_at position (length right)) r.node right)
          else if p == r.from
          then left
          else (h p).children)
  unfolding linked
  children-linked p = ground arith

  pub parent-relinked :
      (x : Ref) → (relinked x).parent ≡ (if x == r.node then some r.to else (h x).parent)
  unfolding linked
  parent-relinked x = ground (
    arith,
    parent-reindex_positions r.from x (reindex_positions r.to (linked user_id now position r h)),
    parent-reindex_positions r.to x (linked user_id now position r h),
  )

  module _ (o : IsOrderly h r) where
    -- The node is a child of `to`, and of no other node; all else stays.
    pub mem-relinked :
        (p c : Ref)
        → mem c (relinked p).children ≡ (
            if p == r.to
            then c == r.node || mem c (h p).children
            else mem c (h p).children && not (c == r.node))
    mem-relinked p c = ground (
      arith,
      mem-reindex_positions c r.from p (reindex_positions r.to (linked user_id now position r h)),
      mem-reindex_positions c r.to p (linked user_id now position r h),
      children-linked p,
      mem_of_insert left,
      mem_of_insert right,
      mem-remove_child_once c h r.node (h r.from).children (o.once r.from) o.only,
      o.owns p c,
      o.under,
    )
      where
        mem_of_insert :
            (l : List Ref)
            → mem c (insert_nth (insert_at position (length l)) r.node l)
              ≡ (if c == r.node then true else mem c l)
        mem_of_insert l = unfold mem in mem-insert_nth c (insert_at position (length l)) r.node l

    left-NoRepeat : (n : ℕ) → NoRepeat (insert_nth n r.node left)
    left-NoRepeat n =
        insert_nth-NoRepeat n r.node left
          (ground (
            arith,
            mem-remove_child_once r.node h r.node (h r.from).children (o.once r.from) o.only,
          ))
          (remove_child-NoRepeat h (h r.node).id (h r.from).children (o.once r.from))

    right-NoRepeat : (n : ℕ) → (r.to == r.from) ≡ false → NoRepeat (insert_nth n r.node right)
    right-NoRepeat n e =
        insert_nth-NoRepeat n r.node right (ground (arith, o.owns r.to r.node, o.under))
          (o.once r.to)

    linked-NoRepeat : (p : Ref) → NoRepeat (linked user_id now position r h p).children
    linked-NoRepeat p = ground (
      arith,
      children-linked p,
      left-NoRepeat (insert_at position (length left)),
      right-NoRepeat (insert_at position (length right)),
      remove_child-NoRepeat h (h r.node).id (h r.from).children (o.once r.from),
      o.once p,
    )

    pub relinked-NoRepeat : (p : Ref) → NoRepeat (relinked p).children
    relinked-NoRepeat p =
        let l = linked user_id now position r h in
        reindex_positions-NoRepeat r.from p (reindex_positions r.to l)
          (reindex_positions-NoRepeat r.to r.from l (linked-NoRepeat r.to) (linked-NoRepeat r.from))
          (reindex_positions-NoRepeat r.to p l (linked-NoRepeat r.to) (linked-NoRepeat p))

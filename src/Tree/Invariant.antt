-- ===== src/Tree/Invariant.antt =====
-- When the nodes of a tree and the index of their ids agree.
use leafwiki.Base.{ℕ, zero, suc, ◌<◌, ◌≤◌, ◌≡◌, String, true, false, none, some}
use leafwiki.Base.Members.{mem, NoRepeat}
use leafwiki.Tree.Node.{Ref}
use leafwiki.Tree.State.{Heap, TreeService}
use leafwiki.Tree.Index.{get_node_by_id}

-- The children of a node point back to it and stand in its list once; those of a node of the index
-- are those that the index gives for their ids; the index gives a node of the id that it is asked
-- for; a node of the index is among the children of its parent, which is in the index too; the root
-- has no parent; the addresses of the index and of children are in use, and a free address has no
-- children.
pub record IsLinked {D : Type 0} (t : TreeService D) : Type 0 where
  pub owns : (p c : Ref) → mem c (t.nodes p).children ≡ true → (t.nodes c).parent ≡ some p
  pub once : (p : Ref) → NoRepeat (t.nodes p).children
  pub registered :
      (p c : Ref)
      → get_node_by_id t (t.nodes p).id ≡ some p
      → mem c (t.nodes p).children ≡ true
      → get_node_by_id t (t.nodes c).id ≡ some c
  pub named : (id : String) (n : Ref) → get_node_by_id t id ≡ some n → (t.nodes n).id ≡ id
  pub listed :
      (n p : Ref)
      → get_node_by_id t (t.nodes n).id ≡ some n
      → (t.nodes n).parent ≡ some p
      → mem n (t.nodes p).children ≡ true
  pub rooted :
      (n p : Ref)
      → get_node_by_id t (t.nodes n).id ≡ some n
      → (t.nodes n).parent ≡ some p
      → get_node_by_id t (t.nodes p).id ≡ some p
  pub allocated : (n : Ref) → get_node_by_id t (t.nodes n).id ≡ some n → n < t.next
  pub below : (p c : Ref) → mem c (t.nodes p).children ≡ true → c < t.next
  pub free : (p c : Ref) → t.next ≤ p → mem c (t.nodes p).children ≡ false
  pub top : (r : Ref) → t.tree ≡ some r → (t.nodes r).parent ≡ none

-- The depth of a node: how many nodes are above it.
abbrev pub DepthIs : Heap → ℕ → Ref → Type 0
DepthIs h zero r = (h r).parent ≡ none
DepthIs h (suc d) r = (p : Ref) × ((h r).parent ≡ some p) × DepthIs h d p

-- No node of the index is above itself: the way up from it ends.
pub record IsGrounded {D : Type 0} (t : TreeService D) : Type 0 where
  pub depth : (n : Ref) → get_node_by_id t (t.nodes n).id ≡ some n → (d : ℕ) × DepthIs t.nodes d n

-- A tree whose links agree and in which no node is above itself.
pub record IsSoundTree {D : Type 0} (t : TreeService D) : Type 0 where
  pub linked : IsLinked t
  pub grounded : IsGrounded t

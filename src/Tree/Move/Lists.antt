-- ===== src/Tree/Move/Lists.antt =====
-- The lists of children before and after a move.
use leafwiki.Base.{
  ℕ, zero, suc, ◌≡◌, refl, String, true, false, List, [], ◌∷◌, arith, ◌==◌, eq_iff, not, ◌&&◌,
}
use leafwiki.Base.Members.{mem, NoRepeat}
use leafwiki.Tree.Node.{Ref}
use leafwiki.Tree.State.{Heap}
use leafwiki.Tree.Move.{remove_child, insert_nth}

pub mem-remove_child :
    (x : Ref) (h : Heap) (id : String) (cs : List Ref)
    → mem x (remove_child h id cs) ≡ true
    → mem x cs ≡ true
unfolding mem remove_child
mem-remove_child x h id [] m = m
mem-remove_child x h id (c ∷ cs) m = ground (arith, mem-remove_child x h id cs)

pub mem-insert_nth :
    (x : Ref) (n : ℕ) (r : Ref) (cs : List Ref) → mem x (insert_nth n r cs) ≡ mem x (r ∷ cs)
unfolding mem insert_nth
mem-insert_nth x zero r cs = refl
mem-insert_nth x (suc n) r [] = refl
mem-insert_nth x (suc n) r (c ∷ cs) = ground (arith, mem-insert_nth x n r cs)

-- Only the node itself has its id among these.
abbrev pub OnlyId : Heap → Ref → List Ref → Type 0
OnlyId h node cs = (c : Ref) → mem c cs ≡ true → (h c).id ≡ (h node).id → c ≡ node

pub mem-remove_child_once :
    (x : Ref) (h : Heap) (node : Ref) (cs : List Ref)
    → NoRepeat cs
    → OnlyId h node cs
    → mem x (remove_child h (h node).id cs) ≡ (mem x cs && not (x == node))
unfolding mem remove_child
mem-remove_child_once x h node [] n o = refl
mem-remove_child_once x h node (c ∷ cs) (f, n) o = ground (
  arith,
  eq_iff (h c).id (h node).id,
  o c,
  mem-remove_child_once x h node cs n (λ d m. o d (unfold mem in ground arith)),
)

pub remove_child-NoRepeat :
    (h : Heap) (id : String) (cs : List Ref) → NoRepeat cs → NoRepeat (remove_child h id cs)
unfolding remove_child
remove_child-NoRepeat h id [] n = n
remove_child-NoRepeat h id (c ∷ cs) (f, n) =
    ground (arith, remove_child-NoRepeat h id cs n, mem-remove_child c h id cs)

pub insert_nth-NoRepeat :
    (n : ℕ) (r : Ref) (cs : List Ref)
    → mem r cs ≡ false
    → NoRepeat cs
    → NoRepeat (insert_nth n r cs)
unfolding insert_nth mem
insert_nth-NoRepeat zero r cs m u = (m, u)
insert_nth-NoRepeat (suc n) r [] m u = (refl, tt)
insert_nth-NoRepeat (suc n) r (c ∷ cs) m (f, u) =
    ground (arith, insert_nth-NoRepeat n r cs, mem-insert_nth c n r cs)

-- ===== src/Tree/Create/Longer.antt =====
-- A tree with one more object, which nothing points to.
use leafwiki.Base.{ℕ, zero, suc, ◌≡◌, ◌≢◌, sym, ◌∙◌, String, true, false, none, some, arith}
use leafwiki.Base.Members.{mem, NoRepeat}
use leafwiki.Tree.Node.{Ref}
use leafwiki.Tree.State.{TreeService}
use leafwiki.Tree.Index.{get_node_by_id}
use leafwiki.Tree.Invariant.{IsLinked, DepthIs, IsSoundTree}
use leafwiki.Tree.Registered.{root-IsRegistered}

-- The tree `u` is `t` with an object at the free address, of which the index knows nothing.
pub record IsLonger {D : Type 0} (t u : TreeService D) : Type 0 where
  pub same_get : (id : String) → get_node_by_id u id ≡ get_node_by_id t id
  pub same_tree : u.tree ≡ t.tree
  pub next_after : u.next ≡ suc t.next
  pub unknown : get_node_by_id t (u.nodes t.next).id ≡ none
  pub no_children : (x : Ref) → mem x (u.nodes t.next).children ≡ false
  pub same_id : (x : Ref) → x ≢ t.next → (u.nodes x).id ≡ (t.nodes x).id
  pub same_parent : (x : Ref) → x ≢ t.next → (u.nodes x).parent ≡ (t.nodes x).parent
  pub kids : (p x : Ref) → p ≢ t.next → mem x (u.nodes p).children ≡ mem x (t.nodes p).children
  pub once : (p : Ref) → NoRepeat (u.nodes p).children

module _ {D : Type 0} (t u : TreeService D) (sound : IsSoundTree t) (k : IsLonger t u) where
  abbrev l : IsLinked t
  l = sound.linked

  known :
      (x : Ref)
      → get_node_by_id u (u.nodes x).id ≡ some x
      → (x ≢ t.next) × (get_node_by_id t (t.nodes x).id ≡ some x)
  known x e = (new, ground (arith, e, new, k.same_id x, k.same_get (u.nodes x).id))
    where
      new : x ≢ t.next
      new p = cc (k.unknown, k.same_get (u.nodes x).id, e, p)

  old_child :
      (p c : Ref)
      → mem c (u.nodes p).children ≡ true
      → (p ≢ t.next) × (c ≢ t.next) × (mem c (t.nodes p).children ≡ true)
  old_child p c m = (old, λ e. ground (arith, e, l.below p c was), was)
    where
      old : p ≢ t.next
      old e = cc (k.no_children c, m, e)

      was : mem c (t.nodes p).children ≡ true
      was = sym (k.kids p c old) ∙ m

  old_in : (x : Ref) → get_node_by_id t (t.nodes x).id ≡ some x → x ≢ t.next
  old_in x i e = ground (arith, e, l.allocated x i)

  longer-IsLinked : IsLinked u
  longer-IsLinked = record {
    owns = λ p c m.
        let (a, b, was) = old_child p c m in ground (arith, k.same_parent c b, l.owns p c was);
    once = k.once;
    registered = λ p c i m.
        let (a, b, was) = old_child p c m in
        let (_, j) = known p i in
        ground (arith, k.same_id c b, k.same_get (t.nodes c).id, l.registered p c j was);
    named = λ i n e.
        let e' = sym (k.same_get i) ∙ e in
        let name = l.named i n e' in
        let new : n ≢ t.next = λ q. ground (arith, q, l.allocated n, name, e') in
        k.same_id n new ∙ name;
    listed = λ n p i e.
        let (new, j) = known n i in
        let up = sym (k.same_parent n new) ∙ e in
        let old = old_in p (l.rooted n p j up) in k.kids p n old ∙ l.listed n p j up;
    rooted = λ n p i e.
        let (new, j) = known n i in
        let q = l.rooted n p j (sym (k.same_parent n new) ∙ e) in
        ground (arith, k.same_id p (old_in p q), k.same_get (t.nodes p).id, q);
    allocated = λ n i. let (new, j) = known n i in ground (arith, k.next_after, l.allocated n j);
    below =
        λ p c m. let (a, b, was) = old_child p c m in ground (arith, k.next_after, l.below p c was);
    free = λ p c e. ground (arith, k.next_after, k.kids p c, l.free p c);
    top = λ r e.
        let was = sym k.same_tree ∙ e in
        k.same_parent r (old_in r (root-IsRegistered t l r was)) ∙ l.top r was;
  }

  longer_depth :
      (d : ℕ) (n : Ref)
      → get_node_by_id t (t.nodes n).id ≡ some n
      → DepthIs t.nodes d n
      → DepthIs u.nodes d n
  longer_depth zero n i e = k.same_parent n (old_in n i) ∙ e
  longer_depth (suc d) n i (p, e, w) =
      (p, k.same_parent n (old_in n i) ∙ e, longer_depth d p (l.rooted n p i e) w)

  pub longer-IsSoundTree : IsSoundTree u
  longer-IsSoundTree = record {
    linked = longer-IsLinked;
    grounded = record {
      depth = λ n i.
          let (_, j) = known n i in
          let (d, w) = sound.grounded.depth n j in (d, longer_depth d n j w);
    };
  }

-- ===== src/Tree/Create/Grown.antt =====
-- A tree with one more node, the last child of a parent.
use leafwiki.Base.{
  ℕ, zero, suc, ◌≡◌, ◌≢◌, sym, ◌∙◌, String, true, false, ◌||◌, ◌&&◌, none, some, arith, eq_iff, inl,
  inr, ◌⊎◌, Bool-cases, subst, if◌then◌else◌, ◌==◌, ==_iff, str_eq,
}
use leafwiki.Base.Members.{mem, NoRepeat}
use leafwiki.Tree.Node.{Ref}
use leafwiki.Tree.State.{TreeService}
use leafwiki.Tree.Index.{get_node_by_id}
use leafwiki.Tree.Invariant.{IsLinked, DepthIs, IsSoundTree}
use leafwiki.Tree.Registered.{root-IsRegistered}

-- The tree `u` is `t` with an object at the free address, the last child of a parent.
pub record IsGrown {D : Type 0} (t u : TreeService D) (parent : Ref) : Type 0 where
  pub parent_in : get_node_by_id t (t.nodes parent).id ≡ some parent
  pub grown_get :
      (id : String)
      → get_node_by_id u id
        ≡ (if str_eq (u.nodes t.next).id id then some t.next else get_node_by_id t id)
  pub same_tree : u.tree ≡ t.tree
  pub next_after : u.next ≡ suc t.next
  pub unknown : get_node_by_id t (u.nodes t.next).id ≡ none
  pub new_parent : (u.nodes t.next).parent ≡ some parent
  pub no_children : (x : Ref) → mem x (u.nodes t.next).children ≡ false
  pub same_id : (x : Ref) → x ≢ t.next → (u.nodes x).id ≡ (t.nodes x).id
  pub same_parent : (x : Ref) → x ≢ t.next → (u.nodes x).parent ≡ (t.nodes x).parent
  pub kids :
      (p x : Ref)
      → p ≢ t.next
      → mem x (u.nodes p).children ≡ (mem x (t.nodes p).children || (p == parent && x == t.next))
  pub once : (p : Ref) → NoRepeat (u.nodes p).children

pub dec_eq : (a b : ℕ) → (a ≡ b) ⊎ (a ≢ b)
dec_eq a b = elim (Bool-cases (a == b)) [
  | inl e ↦ inl ((==_iff a b).0 e)
  | inr e ↦ inr (λ q. ground (arith, q, e))
]

module _ {D : Type 0} (t u : TreeService D) (parent : Ref) (sound : IsSoundTree t)
    (k : IsGrown t u parent) where
  abbrev l : IsLinked t
  l = sound.linked

  abbrev new : Ref
  new = t.next

  old_in : (x : Ref) → get_node_by_id t (t.nodes x).id ≡ some x → x ≢ new
  old_in x i e = ground (arith, e, l.allocated x i)

  -- A node of the old tree has another id than the new one.
  other_id :
      (x : Ref) → get_node_by_id t (t.nodes x).id ≡ some x → (u.nodes new).id ≢ (t.nodes x).id
  other_id x i e = cc (k.unknown, e, i)

  still_in :
      (x : Ref)
      → get_node_by_id t (t.nodes x).id ≡ some x
      → get_node_by_id u (u.nodes x).id ≡ some x
  still_in x i = ground (
    arith,
    k.same_id x (old_in x i),
    k.grown_get (t.nodes x).id,
    eq_iff (u.nodes new).id (t.nodes x).id,
    other_id x i,
    i,
  )

  new_in : get_node_by_id u (u.nodes new).id ≡ some new
  new_in = ground (arith, k.grown_get (u.nodes new).id, eq_iff (u.nodes new).id (u.nodes new).id)

  known :
      (x : Ref)
      → get_node_by_id u (u.nodes x).id ≡ some x
      → x ≢ new
      → get_node_by_id t (t.nodes x).id ≡ some x
  known x e n = ground (arith, e, n, k.same_id x n, k.grown_get (t.nodes x).id)

  -- The children in the new tree are the old ones, and the new node.
  child :
      (p c : Ref)
      → mem c (u.nodes p).children ≡ true
      → (p ≢ new) × (((c ≢ new) × (mem c (t.nodes p).children ≡ true)) ⊎ ((c ≡ new) × (p ≡ parent)))
  child p c m = (
    old,
    elim (Bool-cases (mem c (t.nodes p).children)) [
      | inl was ↦ inl (λ e. ground (arith, e, l.below p c was), was)
      | inr not_was ↦ inr (
        ground (arith, k.kids p c old, m, not_was, ==_iff c new),
        ground (arith, k.kids p c old, m, not_was, ==_iff p parent),
      )
    ],
  )
    where
      old : p ≢ new
      old e = cc (k.no_children c, m, e)

  grown-IsLinked : IsLinked u
  grown-IsLinked = record {
    owns = λ p c m. elim ((child p c m).1) [
      | inl (n, was) ↦ k.same_parent c n ∙ l.owns p c was
      | inr (e, q) ↦ cc (k.new_parent, e, q)
    ];
    once = k.once;
    registered = λ p c i m. elim ((child p c m).1) [
      | inl (n, was) ↦ still_in c (l.registered p c (known p i (child p c m).0) was)
      | inr (e, q) ↦ subst (λ x. get_node_by_id u (u.nodes x).id ≡ some x) (sym e) new_in
    ];
    named = λ i n e. ground (
      arith,
      e,
      k.grown_get i,
      eq_iff (u.nodes new).id i,
      l.named i n,
      l.allocated n,
      k.same_id n,
    );
    listed = λ n p i e. elim (dec_eq n new) [
      | inl q ↦ ground (arith, q, e, k.new_parent, k.kids parent new, old_in parent k.parent_in)
      | inr q ↦
          let j = known n i q in
          let up = sym (k.same_parent n q) ∙ e in
          ground (arith, k.kids p n (old_in p (l.rooted n p j up)), l.listed n p j up)
    ];
    rooted = λ n p i e. elim (dec_eq n new) [
      | inl q ↦
          let same : parent ≡ p = cc (k.new_parent, q, e) in
          subst (λ x. get_node_by_id u (u.nodes x).id ≡ some x) same (still_in parent k.parent_in)
      | inr q ↦ still_in p (l.rooted n p (known n i q) (sym (k.same_parent n q) ∙ e))
    ];
    allocated = λ n i. elim (dec_eq n new) [
      | inl q ↦ omega (arith, k.next_after, q)
      | inr q ↦ omega (arith, k.next_after, l.allocated n (known n i q))
    ];
    below = λ p c m. elim ((child p c m).1) [
      | inl (n, was) ↦ omega (arith, k.next_after, l.below p c was)
      | inr (e, q) ↦ omega (arith, k.next_after, e)
    ];
    free = λ p c e. ground (
      arith,
      k.next_after,
      k.kids p c,
      l.free p c,
      ==_iff p parent,
      l.allocated parent k.parent_in,
    );
    top = λ r e.
        let was = sym k.same_tree ∙ e in
        k.same_parent r (old_in r (root-IsRegistered t l r was)) ∙ l.top r was;
  }

  grown_depth :
      (d : ℕ) (n : Ref)
      → get_node_by_id t (t.nodes n).id ≡ some n
      → DepthIs t.nodes d n
      → DepthIs u.nodes d n
  grown_depth zero n i e = k.same_parent n (old_in n i) ∙ e
  grown_depth (suc d) n i (p, e, w) =
      (p, k.same_parent n (old_in n i) ∙ e, grown_depth d p (l.rooted n p i e) w)

  pub grown-IsSoundTree : IsSoundTree u
  grown-IsSoundTree = record {
    linked = grown-IsLinked;
    grounded = record {
      depth = λ n i. elim (dec_eq n new) [
        | inl q ↦
            let (d, w) = sound.grounded.depth parent k.parent_in in
            (suc d, (parent, cc (k.new_parent, q), grown_depth d parent k.parent_in w))
        | inr q ↦
            let (d, w) = sound.grounded.depth n (known n i q) in
            (d, grown_depth d n (known n i q) w)
      ];
    };
  }

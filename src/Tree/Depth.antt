-- ===== src/Tree/Depth.antt =====
-- Depths in a linked tree: they are below the number of nodes, and a node above another is found
-- by the walk down.
use leafwiki.Base.{
  ℕ, zero, suc, ◌≤◌, ◌<◌, ◌≡◌, ◌≢◌, ◌⊎◌, inl, inr, refl, sym, Bool, true, false, List, [], ◌∷◌,
  none, some, arith, Bool-cases, ==_iff, ap, subst, ◌==◌, eq_iff, length, some_of,
}
use leafwiki.Base.Members.{mem, NoRepeat}
use leafwiki.Base.Hits.{length-le_of_NoRepeat}
use leafwiki.Tree.Node.{Ref}
use leafwiki.Tree.State.{Heap, TreeService}
use leafwiki.Tree.Index.{get_node_by_id, is_child_of}
use leafwiki.Tree.Invariant.{IsLinked, DepthIs}

module _ (h : Heap) where
  pub DepthIs-unique : (d e : ℕ) (r : Ref) → DepthIs h d r → DepthIs h e r → d ≡ e
  DepthIs-unique zero zero r x y = refl
  DepthIs-unique zero (suc e) r x (q, y, z) = cc
  DepthIs-unique (suc d) zero r (p, x, w) y = cc
  DepthIs-unique (suc d) (suc e) r (p, x, w) (q, y, z) =
      let same : q ≡ p = cc in ap suc (DepthIs-unique d e p w (subst (DepthIs h e) same z))

  -- the node and those above it
  ancestors : ℕ → Ref → List Ref
  ancestors zero r = r ∷ []
  ancestors (suc d) r = r ∷ (elim (h r).parent [ none ↦ [] | some p ↦ ancestors d p ])

  length-ancestors : (d : ℕ) (r : Ref) → DepthIs h d r → length (ancestors d r) ≡ suc d
  unfolding ancestors
  length-ancestors zero r x = refl
  length-ancestors (suc d) r (p, x, w) = ground (arith, length-ancestors d p w)

  -- What stands above is less deep.
  ancestors-DepthIs :
      (d : ℕ) (r a : Ref)
      → DepthIs h d r
      → mem a (ancestors d r) ≡ true
      → (e : ℕ) × (e ≤ d) × DepthIs h e a
  unfolding ancestors mem
  ancestors-DepthIs zero r a x m = (0, omega arith, ground arith)
  ancestors-DepthIs (suc d) r a (p, x, w) m = elim (Bool-cases (a == r)) [
    | inl e ↦ (suc d, omega arith, subst (DepthIs h (suc d)) (sym ((==_iff a r).0 e)) (p, x, w))
    | inr e ↦ let (f, l, y) = ancestors-DepthIs d p a w (ground arith) in (f, omega arith, y)
  ]

  ancestors-NoRepeat : (d : ℕ) (r : Ref) → DepthIs h d r → NoRepeat (ancestors d r)
  unfolding ancestors
  ancestors-NoRepeat zero r x = unfold mem in (refl, tt)
  ancestors-NoRepeat (suc d) r (p, x, w) =
      let rest = ancestors-NoRepeat d p w in
      elim (Bool-cases (mem r (ancestors d p))) [
        | inl m ↦
            let (e, l, y) = ancestors-DepthIs d p r w m in
            absurd (omega (arith, DepthIs-unique e (suc d) r y (p, x, w)))
        | inr m ↦ ground (arith, m, rest)
      ]

  -- A way down: `n` steps from a node to one of its children.
  abbrev pub Down : ℕ → Ref → Ref → Type 0
  Down zero a x = a ≡ x
  Down (suc n) a x = (c : Ref) × (mem c (h a).children ≡ true) × Down n c x

  pub Down-snoc :
      (n : ℕ) (a p x : Ref) → Down n a p → mem x (h p).children ≡ true → Down (suc n) a x
  Down-snoc zero a p x e m = (x, subst (λ q. mem x (h q).children ≡ true) (sym e) m, refl)
  Down-snoc (suc n) a p x (c, k, w) m = (c, k, Down-snoc n c p x w m)

  some_of-mem :
      (p : Ref → Bool) (c : Ref) (cs : List Ref)
      → mem c cs ≡ true
      → p c ≡ true
      → some_of p cs ≡ true
  unfolding some_of mem
  some_of-mem p c [] m e = absurd (ground arith)
  some_of-mem p c (d ∷ cs) m e = ground (arith, some_of-mem p c cs)

  -- With fuel for the way down, `IsChildOf` finds the node at its end.
  pub is_child_of-Down :
      (n f : ℕ) (a x : Ref) → Down (suc n) a x → n < f → is_child_of f h a (h x).id true ≡ true
  unfolding is_child_of
  is_child_of-Down n zero a x w l = absurd (omega arith)
  is_child_of-Down zero (suc f) a x (c, m, e) l =
      some_of-mem _ c (h a).children m (ground (arith, e, eq_iff (h c).id (h x).id))
  is_child_of-Down (suc n) (suc f) a x (c, m, w) l =
      some_of-mem _ c (h a).children m (ground (arith, is_child_of-Down n f c x w (omega arith)))

  -- `a` stands above `x`, or is `x`, within `d` steps.
  abbrev pub Above : ℕ → Ref → Ref → Type 0
  Above zero a x = a ≡ x
  Above (suc d) a x = (a ≡ x) ⊎ ((p : Ref) × ((h x).parent ≡ some p) × Above d a p)

module _ {D : Type 0} (t : TreeService D) (l : IsLinked t) where
  abbrev pub IsRegistered : Ref → Type 0
  IsRegistered n = get_node_by_id t (t.nodes n).id ≡ some n

  pub Above-Down :
      (d : ℕ) (a x : Ref)
      → IsRegistered x
      → Above t.nodes d a x
      → (n : ℕ) × (n ≤ d) × Down t.nodes n a x
  Above-Down zero a x i e = (0, omega arith, e)
  Above-Down (suc d) a x i (inl e) = (0, omega arith, e)
  Above-Down (suc d) a x i (inr (p, e, w)) =
      let (n, le, down) = Above-Down d a p (l.rooted x p i e) w in
      (suc n, omega arith, Down-snoc t.nodes n a p x down (l.listed x p i e))

  ancestors-IsRegistered :
      (d : ℕ) (r a : Ref)
      → DepthIs t.nodes d r
      → IsRegistered r
      → mem a (ancestors t.nodes d r) ≡ true
      → IsRegistered a
  unfolding ancestors mem
  ancestors-IsRegistered zero r a x i m = subst IsRegistered (sym ((==_iff a r).0 (ground arith))) i
  ancestors-IsRegistered (suc d) r a (p, x, w) i m = elim (Bool-cases (a == r)) [
    | inl e ↦ subst IsRegistered (sym ((==_iff a r).0 e)) i
    | inr e ↦ ancestors-IsRegistered d p a w (l.rooted r p i x) (ground arith)
  ]

  -- A node of the index is less deep than there are addresses in use.
  pub depth-lt-next : (d : ℕ) (r : Ref) → DepthIs t.nodes d r → IsRegistered r → d < t.next
  depth-lt-next d r x i = omega (
    arith,
    length-ancestors t.nodes d r x,
    length-le_of_NoRepeat t.next (ancestors t.nodes d r) (ancestors-NoRepeat t.nodes d r x)
        (λ a m. l.allocated a (ancestors-IsRegistered d r a x i m)),
  )

  -- Where `IsChildOf` finds nothing, with as much fuel as addresses, the node is not above.
  pub not-Above :
      (d : ℕ) (a x : Ref)
      → DepthIs t.nodes d x
      → IsRegistered x
      → a ≢ x
      → is_child_of t.next t.nodes a (t.nodes x).id true ≡ false
      → ¬ Above t.nodes d a x
  not-Above d a x depth i other none_found w = go (Above-Down d a x i w)
    where
      go : (n : ℕ) × (n ≤ d) × Down t.nodes n a x → ⊥
      go (zero, le, e) = other e
      go (suc n, le, down) =
          let found =
            is_child_of-Down t.nodes n t.next a x down (omega (arith, depth-lt-next d x depth i)) in
          ground (arith, found)

-- ===== src/Tree/Subtree/Walks.antt =====
-- The walk up from a node and the walk down to it agree.
use leafwiki.Base.{
  ℕ, zero, suc, ◌≤◌, ◌<◌, ◌≡◌, refl, sym, subst, inl, inr, String, Bool, true, ◌||◌, List, [], ◌∷◌,
  some, arith, Bool-cases, Option-cases, eq_iff, str_eq, some_of,
}
use leafwiki.Base.Members.{mem}
use leafwiki.Tree.Node.{Ref}
use leafwiki.Tree.State.{Heap, TreeService, pass}
use leafwiki.Tree.Index.{get_node_by_id, is_child_of, climbs_to}
use leafwiki.Tree.Invariant.{DepthIs}
use leafwiki.Tree.Depth.{Down, Above, Above-Down, is_child_of-Down, depth-lt-next, IsRegistered}
use leafwiki.Tree.Invariant.{IsSoundTree}
use leafwiki.Tree.Subtree.{is_in_subtree}

-- A test that holds of some element holds of a member.
some_of-witness :
    (p : Ref → Bool) (cs : List Ref)
    → some_of p cs ≡ true
    → (c : Ref) × (mem c cs ≡ true) × (p c ≡ true)
unfolding some_of mem
some_of-witness p [] e = absurd (ground arith)
some_of-witness p (c ∷ cs) e = elim (Bool-cases (p c)) [
  | inl q ↦ (c, ground arith, q)
  | inr q ↦ let (d, m, r) = some_of-witness p cs (ground (arith, q)) in (d, ground (arith, m), r)
]

module _ (h : Heap) where
  -- What `IsChildOf` finds is at the end of a way down.
  pub Down-is_child_of :
      (f : ℕ) (a : Ref) (id : String)
      → is_child_of f h a id true ≡ true
      → (x : Ref) × (n : ℕ) × Down h (suc n) a x × ((h x).id ≡ id)
  unfolding is_child_of
  Down-is_child_of zero a id e = absurd (ground arith)
  Down-is_child_of (suc f) a id e =
      let (c, m, q) = some_of-witness _ (h a).children e in
      elim (Bool-cases (str_eq (h c).id id)) [
        | inl s ↦ (c, 0, (c, m, refl), (eq_iff (h c).id id).0 s)
        | inr s ↦
            let (x, n, w, i) = Down-is_child_of f c id (ground (arith, s, q)) in
            (x, suc n, (c, m, w), i)
      ]

  -- A way down from above, taken at its end.
  pub Down-last :
      (n : ℕ) (a x : Ref)
      → Down h (suc n) a x
      → (p : Ref) × Down h n a p × (mem x (h p).children ≡ true)
  Down-last zero a x (c, m, e) = (a, refl, subst (λ q. mem q (h a).children ≡ true) e m)
  Down-last (suc n) a x (c, m, w) = let (p, v, k) = Down-last n c x w in (p, (c, m, v), k)

  -- What `climbs_to` finds is above.
  Above-climbs_to :
      (f : ℕ) (x : Ref) (id : String)
      → climbs_to (suc f) h x id ≡ true
      → (a : Ref) × Above h f a x × ((h a).id ≡ id)
  unfolding climbs_to
  Above-climbs_to zero x id e =
      (x, refl, ground (arith, Option-cases (h x).parent, eq_iff (h x).id id))
  Above-climbs_to (suc f) x id e = elim (Bool-cases (str_eq (h x).id id)) [
    | inl s ↦ (x, inl refl, (eq_iff (h x).id id).0 s)
    | inr s ↦ elim (Option-cases (h x).parent) [
      | inl q ↦ absurd (ground (arith, q, s))
      | inr (p, q) ↦
          let (a, w, i) = Above-climbs_to f p id (ground (arith, q, s)) in (a, inr (p, q, w), i)
    ]
  ]

module _ {D : Type 0} (t : TreeService D) (sound : IsSoundTree t) where
  abbrev h : Heap
  h = t.nodes

  climbs_to-Down : (n f : ℕ) (a x : Ref) → Down h n a x → n < f → climbs_to f h x (h a).id ≡ true
  unfolding climbs_to
  climbs_to-Down n zero a x w l = absurd (omega arith)
  climbs_to-Down zero (suc f) a x w l = ground (arith, w, eq_iff (h x).id (h a).id)
  climbs_to-Down (suc n) (suc f) a x w l =
      let (p, v, m) = Down-last h n a x w in
      ground (arith, sound.linked.owns p x m, climbs_to-Down n f a p v (omega arith))

  pub Down-depth : (n d : ℕ) (a x : Ref) → Down h n a x → DepthIs h d x → n ≤ d
  Down-depth zero d a x w e = omega arith
  Down-depth (suc n) zero a x w e =
      let (p, v, m) = Down-last h n a x w in absurd (ground (arith, sound.linked.owns p x m, e))
  Down-depth (suc n) (suc d) a x w (q, e, k) =
      let (p, v, m) = Down-last h n a x w in
      let same : q ≡ p = ground (arith, sound.linked.owns p x m, e) in
      omega (arith, Down-depth n d a p v (subst (DepthIs h d) same k))

  get-id : (id : String) (n : Ref) → get_node_by_id t id ≡ some n → IsRegistered t sound.linked n
  get-id id n g = subst (λ i. get_node_by_id t i ≡ some n) (sym (sound.linked.named id n g)) g

  Above-IsRegistered :
      (d : ℕ) (a x : Ref)
      → IsRegistered t sound.linked x
      → Above h d a x
      → IsRegistered t sound.linked a
  Above-IsRegistered zero a x i e = subst (IsRegistered t sound.linked) (sym e) i
  Above-IsRegistered (suc d) a x i (inl e) = subst (IsRegistered t sound.linked) (sym e) i
  Above-IsRegistered (suc d) a x i (inr (p, e, w)) =
      Above-IsRegistered d a p (sound.linked.rooted x p i e) w

  pub Down-IsRegistered :
      (n : ℕ) (a x : Ref)
      → IsRegistered t sound.linked a
      → Down h n a x
      → IsRegistered t sound.linked x
  Down-IsRegistered zero a x i e = subst (IsRegistered t sound.linked) e i
  Down-IsRegistered (suc n) a x i (c, m, w) =
      Down-IsRegistered n c x (sound.linked.registered a c i m) w

  module _ (id root_id : String) (n a : Ref) (gn : get_node_by_id t id ≡ some n)
      (ga : get_node_by_id t root_id ≡ some a) where
    at_end :
        (k : ℕ)
        → Down h k a n
        → k ≤ t.next
        → (str_eq id root_id || is_child_of t.next h a id true) ≡ true
    at_end zero v le =
        ground
          (arith, v, sound.linked.named id n gn, sound.linked.named root_id a ga, eq_iff id root_id)
    at_end (suc k) v le =
        let found = is_child_of-Down h k t.next a n v (omega arith) in
        ground (arith, found, sound.linked.named id n gn)

    found_below :
        climbs_to t.next h n root_id ≡ true
        → (str_eq id root_id || is_child_of t.next h a id true) ≡ true
    found_below e = go t.next refl
      where
        go : (f : ℕ) → t.next ≡ f → (str_eq id root_id || is_child_of t.next h a id true) ≡ true
        go zero p = absurd (omega (arith, p, sound.linked.allocated n (get-id id n gn)))
        go (suc f) p =
            let (b, w, i) =
              Above-climbs_to h f n root_id (subst (λ k. climbs_to k h n root_id ≡ true) p e) in
            let same : b ≡ a = cc (Above-IsRegistered f b n (get-id id n gn) w, ga, i) in
            let (k, le, v) = Above-Down t sound.linked f b n (get-id id n gn) w in
            at_end k (subst (λ c. Down h k c n) same v) (omega (arith, p, le))

    found_above :
        (str_eq id root_id || is_child_of t.next h a id true) ≡ true
        → climbs_to t.next h n root_id ≡ true
    found_above e = elim (Bool-cases (str_eq id root_id)) [
      | inl s ↦
          let same : a ≡ n = cc ((eq_iff id root_id).0 s, gn, ga) in
          let here =
            climbs_to-Down 0 t.next a n same
              (omega (arith, sound.linked.allocated n (get-id id n gn))) in
          subst (λ i. climbs_to t.next h n i ≡ true) (sound.linked.named root_id a ga) here
      | inr s ↦
          let (x, k, w, i) = Down-is_child_of h t.next a id (ground (arith, s)) in
          let (p, v, m) = Down-last h k a x w in
          let ix =
            sound.linked.registered p x (Down-IsRegistered k a p (get-id root_id a ga) v) m in
          let same : x ≡ n = cc (ix, gn, i) in
          let (d, depth) = sound.grounded.depth x ix in
          let there = climbs_to-Down (suc k) t.next a x w (
            omega (
              arith,
              Down-depth (suc k) d a x w depth,
              depth-lt-next t sound.linked d x depth ix,
            )) in
          subst (λ y. climbs_to t.next h y root_id ≡ true) same
            (subst (λ i. climbs_to t.next h x i ≡ true) (sound.linked.named root_id a ga) there)
    ]

-- In a sound tree the walk up of `IsInSubtree` answers for two of its nodes what the walk down of
-- `IsChildOf` does: the one is the other, or below it.
pub is_in_subtree_lem :
    {D : Type 0} (t : TreeService D) (id root_id : String) (r n a : Ref)
    → IsSoundTree t
    → t.tree ≡ some r
    → get_node_by_id t id ≡ some n
    → get_node_by_id t root_id ≡ some a
    → is_in_subtree t id root_id ≡ pass (str_eq id root_id || is_child_of t.next t.nodes a id true)
unfolding is_in_subtree
is_in_subtree_lem t id root_id r n a sound loaded gn ga = ground (
  arith,
  loaded,
  gn,
  ga,
  found_below t sound id root_id n a gn ga,
  found_above t sound id root_id n a gn ga,
)

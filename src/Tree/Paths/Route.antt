-- ===== src/Tree/Paths/Route.antt =====
-- The route path of a node leads back to the node.
use leafwiki.Base.{
  ℕ, zero, suc, ◌<◌, ◌≡◌, ◌≢◌, sym, ap, subst, ◌∙◌, inl, inr, String, Bool, true, false, ◌||◌, List,
  [], ◌∷◌, ◌++◌, none, some, arith, ==_iff, Option-cases, Bool-cases,
}
use leafwiki.Base.Text.{Text, codes, text_eq, text_eq_self}
use leafwiki.Base.Members.{mem}
use leafwiki.Tree.Node.{Ref}
use leafwiki.Tree.State.{Heap, TreeService, NodeStore, pass, root_id}
use leafwiki.Tree.Index.{get_node_by_id, first_of_refs, find_child_by_slug_exact}
use leafwiki.Tree.Invariant.{IsLinked, DepthIs, IsSoundTree}
use leafwiki.Tree.Depth.{depth-lt-next}
use leafwiki.Tree.Registered.{get-root, found-IsRegistered}
use leafwiki.Tree.SlugPath.{slash, split}
use leafwiki.Tree.Paths.Slashed.{
  AllPlain, AllPlain-snoc, slashed, slashed-snoc, snoc_first, trim_split,
}
use leafwiki.Tree.Paths.{
  is_nil, calculate_path, trim_prefix, PermalinkTarget, resolve_permalink_target, follow_route,
  find_page_by_route_path,
}

-- The slugs of a tree: that of the root is "" or "root", the others are not empty and have no slash,
-- and the children of a node have different ones. Only the root stands below nothing.
pub record IsRouted {D : Type 0} (t : TreeService D) : Type 0 where
  pub only_root :
      (n : Ref)
      → get_node_by_id t (t.nodes n).id ≡ some n
      → (t.nodes n).parent ≡ none
      → t.tree ≡ some n
  pub root_slug :
      (r : Ref)
      → t.tree ≡ some r
      → (is_nil (t.nodes r).slug || text_eq (t.nodes r).slug (codes "root")) ≡ true
  pub given :
      (n p : Ref)
      → get_node_by_id t (t.nodes n).id ≡ some n
      → (t.nodes n).parent ≡ some p
      → is_nil (t.nodes n).slug ≡ false
  pub plain :
      (n p : Ref)
      → get_node_by_id t (t.nodes n).id ≡ some n
      → (t.nodes n).parent ≡ some p
      → mem slash (t.nodes n).slug ≡ false
  pub apart :
      (p c d : Ref)
      → mem c (t.nodes p).children ≡ true
      → mem d (t.nodes p).children ≡ true
      → text_eq (t.nodes c).slug (t.nodes d).slug ≡ true
      → c ≡ d

-- the slugs on the way down to a node
abbrev way : ℕ → Heap → Ref → List Text
way zero h r = []
way (suc d) h r = elim (h r).parent [ none ↦ [] | some p ↦ way d h p ++ (h r).slug ∷ [] ]

way_below :
    (d : ℕ) (h : Heap) (n p : Ref)
    → (h n).parent ≡ some p
    → way (suc d) h n ≡ way d h p ++ (h n).slug ∷ []
way_below d h n p e = ground (arith, e)

path_below :
    (f : ℕ) (h : Heap) (n p : Ref)
    → (h n).parent ≡ some p
    → calculate_path (suc f) h n ≡ calculate_path f h p ++ slash ∷ (h n).slug
unfolding calculate_path
path_below f h n p e = ground (arith, e)

module _ {D : Type 0} (t : TreeService D) where
  follow_route-append :
      (p q : Ref) (xs ys : List Text)
      → follow_route t p xs ≡ pass q
      → follow_route t p (xs ++ ys) ≡ follow_route t q ys
  unfolding follow_route
  follow_route-append p q [] ys e = ground (arith, e)
  follow_route-append p q (x ∷ xs) ys e = elim (Option-cases (find_child_by_slug_exact t p x)) [
    | inl w ↦ absurd (ground (arith, w, e))
    | inr (n, w) ↦ ground (arith, w, e, follow_route-append n q xs ys)
  ]

  first_is :
      (f : Ref → Bool) (c : Ref) (cs : List Ref)
      → mem c cs ≡ true
      → f c ≡ true
      → ((d : Ref) → mem d cs ≡ true → f d ≡ true → d ≡ c)
      → first_of_refs f cs ≡ some c
  unfolding mem
  first_is f c [] m e only = absurd (ground (arith, m))
  first_is f c (d ∷ cs) m e only = elim (Bool-cases (f d)) [
    | inl w ↦ ground (arith, w, only d, ==_iff d d)
    | inr w ↦ ground (
      arith,
      w,
      m,
      e,
      ==_iff c d,
      first_is f c cs (ground (arith, w, m, e, ==_iff c d)) e
          (λ x k q. only x (ground (arith, k)) q),
    )
  ]

module _ {D : Type 0} (t : TreeService D) (sound : IsSoundTree t) (routed : IsRouted t) where
  abbrev l : IsLinked t
  l = sound.linked

  find_own :
      (n p : Ref)
      → get_node_by_id t (t.nodes n).id ≡ some n
      → (t.nodes n).parent ≡ some p
      → find_child_by_slug_exact t p (t.nodes n).slug ≡ some n
  unfolding find_child_by_slug_exact
  find_own n p i e =
      let m = l.listed n p i e in
      first_is t (λ c. text_eq (t.nodes c).slug (t.nodes n).slug) n (t.nodes p).children m
        (text_eq_self (t.nodes n).slug) (λ d k q. routed.apart p d n k m q)

  way-AllPlain :
      (d : ℕ) (n : Ref)
      → get_node_by_id t (t.nodes n).id ≡ some n
      → DepthIs t.nodes d n
      → AllPlain (way d t.nodes n)
  way-AllPlain zero n i e = tt
  way-AllPlain (suc d) n i (p, e, w) = subst AllPlain (sym (way_below d t.nodes n p e)) (
      AllPlain-snoc (way d t.nodes p) (t.nodes n).slug (way-AllPlain d p (l.rooted n p i e) w)
        (routed.given n p i e) (routed.plain n p i e))

  way_leads :
      (d : ℕ) (n root : Ref)
      → t.tree ≡ some root
      → get_node_by_id t (t.nodes n).id ≡ some n
      → DepthIs t.nodes d n
      → follow_route t root (way d t.nodes n) ≡ pass n
  unfolding follow_route
  way_leads zero n root loaded i e = ground (arith, routed.only_root n i e, loaded)
  way_leads (suc d) n root loaded i (p, e, w) =
      ap (follow_route t root) (way_below d t.nodes n p e)
      ∙ (follow_route-append t root p (way d t.nodes p) ((t.nodes n).slug ∷ [])
            (way_leads d p root loaded (l.rooted n p i e) w)
          ∙ ground (arith, find_own n p i e, routed.given n p i e))

  path_is :
      (d f : ℕ) (n : Ref)
      → get_node_by_id t (t.nodes n).id ≡ some n
      → DepthIs t.nodes d n
      → d < f
      → calculate_path f t.nodes n ≡ slashed (way d t.nodes n)
  unfolding calculate_path
  path_is zero zero n i e lt = absurd (omega (arith, lt))
  path_is zero (suc f) n i e lt = ground (arith, e, routed.root_slug n (routed.only_root n i e))
  path_is (suc d) zero n i w lt = absurd (omega (arith, lt))
  path_is (suc d) (suc f) n i (p, e, w) lt =
      path_below f t.nodes n p e
      ∙ (ap (λ x. x ++ slash ∷ (t.nodes n).slug)
            (path_is d f p (l.rooted n p i e) w (omega (arith, lt)))
          ∙ (sym (slashed-snoc (way d t.nodes p) (t.nodes n).slug)
              ∙ ap slashed (sym (way_below d t.nodes n p e))))

module _ {D : Type 0} (store : NodeStore D) (t : TreeService D) (sound : IsSoundTree t)
    (routed : IsRouted t) where
  abbrev m : IsLinked t
  m = sound.linked

  resolved :
      (id : String) (target : PermalinkTarget)
      → resolve_permalink_target t id ≡ pass target
      → (root n : Ref) × (t.tree ≡ some root)
        × (get_node_by_id t id ≡ some n)
        × (target.path ≡ trim_prefix (calculate_path t.next t.nodes n))
  unfolding resolve_permalink_target
  resolved id target e = elim (Option-cases t.tree) [
    | inl p ↦ absurd (ground (arith, p, e))
    | inr (root, p) ↦ elim (Option-cases (get_node_by_id t id)) [
      | inl q ↦ absurd (ground (arith, p, q, e))
      | inr (n, q) ↦ (root, n, p, q, ground (arith, p, q, e))
    ]
  ]

  leads_back :
      (root n : Ref)
      → t.tree ≡ some root
      → get_node_by_id t (t.nodes n).id ≡ some n
      → (t.nodes n).id ≢ root_id
      → follow_route t root (split (trim_prefix (calculate_path t.next t.nodes n))) ≡ pass n
  leads_back root n loaded i other = let (d, w) = sound.grounded.depth n i in go d w
    where
      go :
          (d : ℕ)
          → DepthIs t.nodes d n
          → follow_route t root (split (trim_prefix (calculate_path t.next t.nodes n))) ≡ pass n
      go zero e = absurd (other (m.named root_id n (get-root t m ∙ routed.only_root n i e)))
      go (suc d) (p, e, w) =
          let (y, ys, q) = snoc_first (way d t.nodes p) (t.nodes n).slug in
          let path =
            path_is t sound routed (suc d) t.next n i (p, e, w)
              (depth-lt-next t m (suc d) n (p, e, w) i) in
          ap (λ s. follow_route t root (split (trim_prefix s))) path
          ∙ (ap (follow_route t root) (
                trim_split (way (suc d) t.nodes n) y ys (way_below d t.nodes n p e ∙ q)
                  (way-AllPlain t sound routed (suc d) n i (p, e, w)))
              ∙ way_leads t sound routed (suc d) n root loaded i (p, e, w))

  -- In a sound tree with proper slugs, where only the root is without a parent, the path that
  -- `ResolvePermalinkTarget` gives for the id of a node other than the root leads
  -- `FindPageByRoutePath` back to the node of that id, if its content can be read.
  pub route_round_trip :
      (id : String) (target : PermalinkTarget)
      → id ≢ root_id
      → resolve_permalink_target t id ≡ pass target
      → (n : Ref) × (get_node_by_id t id ≡ some n)
        × ((content : Text)
            → store.read_page_content t.nodes n t.disk ≡ (content, none)
            → find_page_by_route_path store t target.path ≡ pass (n, content))
  route_round_trip id target other e =
      let (root, n, loaded, found, path) = resolved id target e in
      (
        n,
        found,
        λ content ok.
            unfold find_page_by_route_path in
            ground (
              arith,
              loaded,
              ok,
              path,
              leads_back root n loaded (found-IsRegistered t m id n found)
                  (λ q. other (sym (m.named id n found) ∙ q)),
            ),
      )

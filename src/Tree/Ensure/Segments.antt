-- ===== src/Tree/Ensure/Segments.antt =====
-- The loop of `EnsurePagePath` over the segments is a number of creations.
use leafwiki.Base.{
  ℕ, ◌≡◌, refl, sym, ap, subst, ◌∙◌, inl, inr, String, true, false, List, [], ◌∷◌, Option, some,
  arith, Bool-cases,
}
use leafwiki.Tree.Node.{Ref}
use leafwiki.Tree.State.{TreeService, NodeStore, TreeError, Check, pass, fail, Check-cases}
use leafwiki.Tree.Index.{get_node_by_id}
use leafwiki.Tree.Invariant.{IsSoundTree}
use leafwiki.Tree.Paths.{PathSegment}
use leafwiki.Tree.Create.{NewNode, create_node}
use leafwiki.Tree.Create.Sound.{IsFresh, create_node-IsSoundTree}
use leafwiki.Tree.Create.Effect.{IsCreated, create_effect}
use leafwiki.Tree.Ensure.{CreatedPage, Asked, or_empty, segment_node, listed_page, ensure_segments}
use leafwiki.Tree.Calls.{creates, Reaches, here, after}
use leafwiki.Tree.Ensure.Builds.{IsGenerator, IsEnsured, at_end, walked, built, AllNew_before}

module _ {D : Type 0} (format_time : ℕ → String) (store : NodeStore D) where
  pub Reaches-trans :
      (t u v : TreeService D)
      → Reaches format_time store t u
      → Reaches format_time store u v
      → Reaches format_time store t v
  Reaches-trans t u v r here = r
  Reaches-trans t u v r (after {u = w} s c) = after (Reaches-trans t u w r s) c

module _ {D : Type 0} (format_time : ℕ → String) (store : NodeStore D)
    (generate : TreeService D → Option String) (clock : TreeService D → ℕ)
    (fresh : IsGenerator generate) (a : Asked) where
  module _ (current : Option String) (s : PathSegment) (rest : List PathSegment)
      (t : TreeService D) where
    abbrev asked : NewNode
    asked = segment_node a (clock t) (generate t) s rest

    abbrev made : TreeService D × Check Ref
    made = create_node store (or_empty current) asked t

    asked-IsFresh : IsFresh t asked
    asked-IsFresh i e = fresh t i e

    made-Reaches : Reaches format_time store t made.0
    made-Reaches = after here (creates (or_empty current) asked asked-IsFresh)

    passed_over :
        s.exists ≡ true
        → ensure_segments store generate clock a current (s ∷ rest) t
          ≡ ensure_segments store generate clock a s.id rest t
    unfolding ensure_segments
    passed_over p = ground (arith, p)

    stopped :
        (e : TreeError)
        → s.exists ≡ false
        → made.1 ≡ fail e
        → ensure_segments store generate clock a current (s ∷ rest) t ≡ (made.0, fail e)
    unfolding ensure_segments
    stopped e p q = ground (arith, p, q)

    abbrev more : Ref → TreeService D × Check (Option String × List CreatedPage)
    more r = ensure_segments store generate clock a (some (made.0.nodes r).id) rest made.0

    went_on :
        (r : Ref)
        → s.exists ≡ false
        → made.1 ≡ pass r
        → (ensure_segments store generate clock a current (s ∷ rest) t).0 ≡ (more r).0
    unfolding ensure_segments
    went_on r p q = ground (arith, p, q)

    listed :
        (r : Ref) (w : Option String × List CreatedPage)
        → s.exists ≡ false
        → made.1 ≡ pass r
        → (ensure_segments store generate clock a current (s ∷ rest) t).1 ≡ pass w
        → (v : Option String × List CreatedPage) × ((more r).1 ≡ pass v)
          × (w.0 ≡ v.0)
          × (w.1 ≡ listed_page (made.0.nodes r).id asked ∷ v.1)
    unfolding ensure_segments
    listed r w p q e = elim (Check-cases (more r).1) [
      | inl (f, u) ↦ absurd (ground (arith, p, q, u, e))
      | inr (v, u) ↦ (v, u, ground (arith, p, q, u, e), ground (arith, p, q, u, e))
    ]

  pub segments-Reaches :
      (current : Option String) (ss : List PathSegment) (t : TreeService D)
      → Reaches format_time store t (ensure_segments store generate clock a current ss t).0
  segments-Reaches current [] t = unfold ensure_segments in here
  segments-Reaches current (s ∷ rest) t = elim (Bool-cases s.exists) [
    | inl p ↦
        subst (λ u. Reaches format_time store t u.0) (sym (passed_over current s rest t p))
          (segments-Reaches s.id rest t)
    | inr p ↦ elim (Check-cases (made current s rest t).1) [
      | inl (e, q) ↦
          subst (λ u. Reaches format_time store t u.0) (sym (stopped current s rest t e p q))
            (made-Reaches current s rest t)
      | inr (r, q) ↦ subst (Reaches format_time store t) (sym (went_on current s rest t r p q)) (
          Reaches-trans format_time store t (made current s rest t).0 (more current s rest t r).0
            (made-Reaches current s rest t)
            (segments-Reaches (some ((made current s rest t).0.nodes r).id) rest
              (made current s rest t).0))
    ]
  ]

  abbrev Ensures :
      TreeService D
      → Option String
      → List PathSegment
      → Option String × List CreatedPage
      → TreeService D
      → Type 0
  Ensures t current ss w u = IsEnsured generate clock a t u current ss w.1 w.0

  -- A missing segment, when the way below it is built.
  made_effect :
      (current : Option String) (s : PathSegment) (rest : List PathSegment) (t u : TreeService D)
      (r : Ref) (v : Option String × List CreatedPage)
      → s.exists ≡ false
      → IsCreated t (made current s rest t).0 (or_empty current) (asked current s rest t) r
      → Ensures (made current s rest t).0 (some ((made current s rest t).0.nodes r).id) rest v u
      → Ensures t current
          (s ∷ rest)
          (v.0, listed_page ((made current s rest t).0.nodes r).id (asked current s rest t) ∷ v.1)
          u
  made_effect current s rest t u r v p c k =
      let m = (made current s rest t).0 in
      let named : (m.nodes r).id ≡ c.id = ap (λ n. n.id) c.added.made in
      record {
        builds = built p c k.builds;
        slugs = ground (arith, k.slugs, p);
        fresh = (
          ap (get_node_by_id t) named ∙ c.added.unused,
          AllNew_before t m v.1 c.added.still k.fresh,
        );
        stand =
            ((r, k.keeps (m.nodes r).id r (ap (get_node_by_id m) named ∙ c.added.got)), k.stand);
        keeps = λ i x g. k.keeps i x (c.added.still i x g);
      }

  pub segments_effect :
      (current : Option String) (ss : List PathSegment) (t : TreeService D)
      (w : Option String × List CreatedPage)
      → IsSoundTree t
      → (ensure_segments store generate clock a current ss t).1 ≡ pass w
      → Ensures t current ss w (ensure_segments store generate clock a current ss t).0
  segments_effect current [] t w sound e =
      let own : (current, []) ≡ w = unfold ensure_segments in ground (arith, e) in
      subst (λ v. Ensures t current [] v (ensure_segments store generate clock a current [] t).0)
        own
        (unfold ensure_segments in
          record { builds = at_end; slugs = refl; fresh = tt; stand = tt; keeps = λ i x g. g })
  segments_effect current (s ∷ rest) t w sound e = elim (Bool-cases s.exists) [
    | inl p ↦
        let same = passed_over current s rest t p in
        let k = segments_effect s.id rest t w sound (ap (λ u. u.1) (sym same) ∙ e) in
        subst (λ u. Ensures t current (s ∷ rest) w u.0) (sym same)
          (record {
            builds = walked p k.builds;
            slugs = ground (arith, k.slugs, p);
            fresh = k.fresh;
            stand = k.stand;
            keeps = k.keeps;
          })
    | inr p ↦ elim (Check-cases (made current s rest t).1) [
      | inl (f, q) ↦ absurd (ground (arith, stopped current s rest t f p q, e))
      | inr (r, q) ↦
          let m = (made current s rest t).0 in
          let (v, ve, end, own) = listed current s rest t r w p q e in
          let c =
            create_effect store (asked current s rest t) t sound (asked-IsFresh current s rest t)
              (or_empty current) r q in
          let k =
            segments_effect (some (m.nodes r).id) rest m v
              (create_node-IsSoundTree store (asked current s rest t) t sound
                (asked-IsFresh current s rest t) (or_empty current))
              ve in
          let whole : (v.0, listed_page (m.nodes r).id (asked current s rest t) ∷ v.1) ≡ w =
            cc (end, own) in
          subst (λ u. Ensures t current (s ∷ rest) w u) (sym (went_on current s rest t r p q))
            (subst (λ x. Ensures t current (s ∷ rest) x (more current s rest t r).0) whole
              (made_effect current s rest t (more current s rest t r).0 r v p c k))
    ]
  ]

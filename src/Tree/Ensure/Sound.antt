-- ===== src/Tree/Ensure/Sound.antt =====
-- `EnsurePagePath` is a number of creations.
use leafwiki.Base.{
  ℕ, ◌≡◌, refl, sym, ap, subst, ◌∙◌, inl, inr, String, true, false, List, [], ◌∷◌, Option, none,
  some, arith, Bool-cases, Option-cases,
}
use leafwiki.Base.Text.{Text}
use leafwiki.Tree.State.{TreeService, NodeStore, TreeError, Check, pass, fail, Check-cases}
use leafwiki.Tree.Index.{get_node_by_id}
use leafwiki.Tree.Invariant.{IsSoundTree}
use leafwiki.Tree.Paths.{PathSegment, PathLookup, lookup_page_path}
use leafwiki.Tree.Paths.Lookup.{existing_path}
use leafwiki.Tree.Paths.Followed.{missing_slugs, all_exist}
use leafwiki.Tree.Ensure.{
  CreatedPage, EnsurePathResult, Asked, or_empty, last_id, ensure_segments, resolve_page,
  ensure_page_path,
}
use leafwiki.Tree.Ensure.Segments.{segments-Reaches, segments_effect}
use leafwiki.Tree.Ensure.Builds.{IsGenerator, IsEnsured, Builds, at_end, walked}
use leafwiki.Tree.Calls.{Reaches, here}

pub record IsServed {D : Type 0} (generate : TreeService D → Option String)
    (clock : TreeService D → ℕ) (a : Asked) (t u : TreeService D) (l : PathLookup)
    (r : EnsurePathResult) : Type 0 where
  pub last : Option String
  pub served : IsEnsured generate clock a t u none l.segments r.created last
  pub page_in : get_node_by_id u (or_empty last) ≡ some r.page

-- The way along segments that all exist ends at the last of them, and creates nothing.
all_walked :
    {D : Type 0} (generate : TreeService D → Option String) (clock : TreeService D → ℕ) (a : Asked)
    (t : TreeService D) (current : Option String) (s : PathSegment) (ss : List PathSegment)
    → all_exist (s ∷ ss) ≡ true
    → Builds generate clock a t current (s ∷ ss) [] (last_id (s ∷ ss)) t
all_walked generate clock a t current s [] e = walked (ground (arith, e)) at_end
all_walked generate clock a t current s (x ∷ ss) e =
    walked (ground (arith, e)) (all_walked generate clock a t s.id x ss (ground (arith, e)))

nothing_missing :
    {D : Type 0} (generate : TreeService D → Option String) (clock : TreeService D → ℕ) (a : Asked)
    (t : TreeService D) (ss : List PathSegment)
    → all_exist ss ≡ true
    → Builds generate clock a t none ss [] (last_id ss) t
nothing_missing generate clock a t [] e = at_end
nothing_missing generate clock a t (s ∷ ss) e = all_walked generate clock a t none s ss e

resolved :
    {D : Type 0} (u : TreeService D) (current : Option String) (cs : List CreatedPage)
    (r : EnsurePathResult)
    → resolve_page current cs u ≡ pass r
    → (get_node_by_id u (or_empty current) ≡ some r.page) × (r.created ≡ cs)
unfolding resolve_page
resolved u none cs r w = absurd (ground (arith, w))
resolved u (some i) cs r w = elim (Option-cases (get_node_by_id u i)) [
  | inl g ↦ absurd (ground (arith, g, w))
  | inr (x, g) ↦ (ground (arith, g, w), ground (arith, g, w))
]

module _ {D : Type 0} (format_time : ℕ → String) (store : NodeStore D)
    (generate : TreeService D → Option String) (clock : TreeService D → ℕ)
    (fresh : IsGenerator generate) (a : Asked) where
  module _ (p : Text) (t : TreeService D) where
    abbrev pub ensured : TreeService D × Check EnsurePathResult
    ensured = ensure_page_path store generate clock a p t

    no_path : (e : TreeError) → lookup_page_path t p ≡ fail e → ensured ≡ (t, fail e)
    unfolding ensure_page_path
    no_path e q = ground (arith, q)

    old_path :
        (l : PathLookup)
        → lookup_page_path t p ≡ pass l
        → l.exists ≡ true
        → ensured ≡ (t, resolve_page (some (or_empty (last_id l.segments))) [] t)
    unfolding ensure_page_path
    old_path l q x = ground (arith, q, x)

    abbrev run : PathLookup → TreeService D × Check (Option String × List CreatedPage)
    run l = ensure_segments store generate clock a none l.segments t

    new_path :
        (l : PathLookup) → lookup_page_path t p ≡ pass l → l.exists ≡ false → ensured.0 ≡ (run l).0
    unfolding ensure_page_path
    new_path l q x = ground (arith, q, x)

    -- `EnsurePagePath` does no more to the tree than creations do, one after the other.
    pub ensure_page_path-Reaches : Reaches format_time store t ensured.0
    ensure_page_path-Reaches = elim (Check-cases (lookup_page_path t p)) [
      | inl (e, q) ↦ subst (λ u. Reaches format_time store t u.0) (sym (no_path e q)) here
      | inr (l, q) ↦ elim (Bool-cases l.exists) [
        | inl x ↦ subst (λ u. Reaches format_time store t u.0) (sym (old_path l q x)) here
        | inr x ↦
            subst (Reaches format_time store t) (sym (new_path l q x))
              (segments-Reaches format_time store generate clock fresh a none l.segments t)
      ]
    ]

    all_there : (ss : List PathSegment) → all_exist ss ≡ true → missing_slugs ss ≡ []
    all_there [] e = refl
    all_there (s ∷ ss) e = ground (arith, e, all_there ss)

    passed :
        (l : PathLookup) (r : EnsurePathResult)
        → lookup_page_path t p ≡ pass l
        → l.exists ≡ false
        → ensured.1 ≡ pass r
        → (w : Option String × List CreatedPage) × ((run l).1 ≡ pass w)
          × (resolve_page w.0 w.1 (run l).0 ≡ pass r)
    unfolding ensure_page_path
    passed l r q x e = elim (Check-cases (run l).1) [
      | inl (f, u) ↦ absurd (ground (arith, q, x, u, e))
      | inr (w, u) ↦ (w, u, ground (arith, q, x, u, e))
    ]

    -- An `EnsurePagePath` of a sound tree that returns no error has looked the path up and gone along
    -- its segments from the root: it has created, for each segment that was missing and for no
    -- other, a node with its slug below the node that the way had come to, each with a new id, where
    -- the last one has the title and the kind that were asked for. No other id is lost, all created
    -- nodes stand in the tree, and the page that it returns is the one at the end of the path. If
    -- all segments exist the tree is as before. An id that `GenerateUniqueID` gives is not empty and
    -- not in use.
    pub ensure_effect :
        (r : EnsurePathResult)
        → IsSoundTree t
        → ensured.1 ≡ pass r
        → (l : PathLookup) × (lookup_page_path t p ≡ pass l)
          × IsServed generate clock a t ensured.0 l r
          × (l.exists ≡ true → ensured.0 ≡ t)
    ensure_effect r sound e = elim (Check-cases (lookup_page_path t p)) [
      | inl (f, q) ↦ absurd (ground (arith, no_path f q, e))
      | inr (l, q) ↦ elim (Bool-cases l.exists) [
        | inl x ↦
            let same = old_path l q x in
            let (g, made) =
              resolved t (some (or_empty (last_id l.segments))) [] r
                (ap (λ u. u.1) (sym same) ∙ e) in
            let there = existing_path t p l q x in
            (
              l,
              q,
              subst (λ u. IsServed generate clock a t u.0 l r) (sym same)
                  (record {
                    last = last_id l.segments;
                    served =
                        subst
                          (λ cs.
                            IsEnsured generate clock a t t none l.segments cs (last_id l.segments))
                          (sym made)
                          (record {
                            builds = nothing_missing generate clock a t l.segments there;
                            slugs = sym (all_there l.segments there);
                            fresh = tt;
                            stand = tt;
                            keeps = λ j y h. h;
                          });
                    page_in = g;
                  }),
              λ y. ap (λ u. u.0) same,
            )
        | inr x ↦
            let (w, u, v) = passed l r q x e in
            let (g, made) = resolved (run l).0 w.0 w.1 r v in
            (
              l,
              q,
              subst (λ u. IsServed generate clock a t u l r) (sym (new_path l q x))
                  (record {
                    last = w.0;
                    served =
                        subst (λ cs. IsEnsured generate clock a t (run l).0 none l.segments cs w.0)
                          (sym made)
                          (segments_effect format_time store generate clock fresh a none l.segments
                            t w sound u);
                    page_in = g;
                  }),
              λ y. absurd (cc (x, y)),
            )
      ]
    ]

-- ===== src/Tree/Paths/Lookup.antt =====
-- What `LookupPagePath` tells of a path.
use leafwiki.Base.{
  ◌≡◌, ◌≢◌, refl, sym, ap, subst, ◌∙◌, ◌⊎◌, inl, inr, true, false, ◌&&◌, List, [], ◌∷◌, Option,
  none, some, arith, Bool-cases, Option-cases,
}
use leafwiki.Base.Text.{Text}
use leafwiki.Tree.Node.{Ref}
use leafwiki.Tree.State.{TreeService, TreeError, pass, fail, invalid_path_segment, Check-cases}
use leafwiki.Tree.SlugPath.{split}
use leafwiki.Tree.Paths.{
  is_nil, PathLookup, missing, present, all_valid, is_bad_part, nothing_found, find_under,
  replace_double, lookup_parts, lookup_page_path,
}
use leafwiki.Tree.Paths.Followed.{
  missing_slugs, all_exist, IsCutOnce, FirstBad, Follows, IsLookup, trimmed_path,
}

module _ {D : Type 0} (t : TreeService D) where
  module _ (parent : Option Ref) (part : Text) (parts : List Text) (l : PathLookup)
      (e : lookup_parts t parent (part ∷ parts) ≡ pass l) where
    abbrev found : Option Ref
    found = find_under t parent part

    taken : (is_bad_part part ≡ false) × ((k : PathLookup) × (lookup_parts t found parts ≡ pass k))
    unfolding lookup_parts
    taken = elim (Bool-cases (is_bad_part part)) [
      | inl b ↦ absurd (ground (arith, b, e))
      | inr b ↦ (
        b,
        elim (Check-cases (lookup_parts t found parts)) [
          | inl (f, u) ↦ absurd (ground (arith, b, u, e))
          | inr w ↦ w
        ],
      )
    ]

    met :
        (r : Ref) (k : PathLookup)
        → found ≡ some r
        → lookup_parts t found parts ≡ pass k
        → l ≡ record k { segments = present t.nodes part r ∷ k.segments }
    unfolding lookup_parts
    met r k f u = ground (arith, taken.0, f, u, e)

    missed :
        (k : PathLookup)
        → found ≡ none
        → lookup_parts t found parts ≡ pass k
        → l ≡ record k {
          segments = missing part ∷ k.segments;
          exists = false;
          can_create = all_valid (part ∷ parts) && k.can_create;
        }
    unfolding lookup_parts
    missed k f u = ground (arith, taken.0, f, u, e)

  abbrev all_found : PathLookup
  all_found = record { path = []; segments = []; exists = true; can_create = true }

  at_end :
      (parent : Option Ref) (l : PathLookup) → lookup_parts t parent [] ≡ pass l → all_found ≡ l
  unfolding lookup_parts
  at_end parent l e = ground (arith, e)

  nothing_below :
      (parts : List Text) (l : PathLookup)
      → lookup_parts t none parts ≡ pass l
      → missing_slugs l.segments ≡ parts
  nothing_below [] l e = ap (λ k. missing_slugs k.segments) (sym (at_end none l e))
  nothing_below (part ∷ parts) l e =
      let (b, (k, u)) = taken none part parts l e in
      ground (arith, missed none part parts l e k refl u, nothing_below parts k u)

  lookup_parts-IsLookup :
      (parent : Option Ref) (parts : List Text) (l : PathLookup)
      → lookup_parts t parent parts ≡ pass l
      → IsLookup t parent l parts
  lookup_parts-IsLookup parent [] l e =
      subst (λ k. IsLookup t parent k []) (at_end parent l e)
        (record {
          slugs = refl;
          proper = tt;
          follows = tt;
          whole = refl;
          cut = tt;
          creatable = refl;
        })
  lookup_parts-IsLookup parent (part ∷ parts) l e =
      let (b, (k, u)) = taken parent part parts l e in
      let i = lookup_parts-IsLookup (find_under t parent part) parts k u in
      elim (Option-cases (find_under t parent part)) [
        | inr (r, f) ↦
            let own = met parent part parts l e r k f u in
            record {
              slugs = ground (arith, own, i.slugs);
              proper = (b, i.proper);
              follows =
                  subst (λ m. Follows t parent m.segments) (sym own)
                    (inr (r, f, refl, subst (λ o. Follows t o k.segments) f i.follows));
              whole = ground (arith, own, i.whole);
              cut = subst (λ m. IsCutOnce m.segments) (sym own) (λ x. ground (arith, x), i.cut);
              creatable = ground (arith, own, i.creatable);
            }
        | inl f ↦
            let own = missed parent part parts l e k f u in
            let rest = nothing_below parts k (subst (λ o. lookup_parts t o parts ≡ pass k) f u) in
            record {
              slugs = ground (arith, own, i.slugs);
              proper = (b, i.proper);
              follows =
                  subst (λ m. Follows t parent m.segments) (sym own)
                    (inl (f, refl, subst (λ o. Follows t o k.segments) f i.follows));
              whole = ground (arith, own, i.whole);
              cut = subst (λ m. IsCutOnce m.segments) (sym own) (λ x. rest ∙ sym i.slugs, i.cut);
              creatable = ground (arith, own, i.creatable, rest);
            }
      ]

  passed_on :
      (parent : Option Ref) (part : Text) (parts : List Text) (k : PathLookup)
      → is_bad_part part ≡ false
      → lookup_parts t (find_under t parent part) parts ≡ pass k
      → (f : TreeError) → lookup_parts t parent (part ∷ parts) ≢ fail f
  unfolding lookup_parts
  passed_on parent part parts k x u f e = elim (Option-cases (find_under t parent part)) [
    | inl n ↦ ground (arith, x, u, n, e)
    | inr (r, n) ↦ ground (arith, x, u, n, e)
  ]

  -- The loop gives a result, or stops at the first part that a path may not have.
  stopped_at :
      (parent : Option Ref) (parts : List Text) (f : TreeError)
      → lookup_parts t parent parts ≡ fail f
      → (b : Text) × (f ≡ invalid_path_segment b) × FirstBad parts b
  unfolding lookup_parts
  stopped_at parent [] f e = absurd (ground (arith, e))
  stopped_at parent (part ∷ parts) f e = elim (Bool-cases (is_bad_part part)) [
    | inl x ↦ (part, ground (arith, x, e), inl (refl, x))
    | inr x ↦ elim (Check-cases (lookup_parts t (find_under t parent part) parts)) [
      | inr (k, u) ↦ absurd (passed_on parent part parts k x u f e)
      | inl (g, u) ↦
          let (b, q, first) = stopped_at (find_under t parent part) parts g u in
          (b, ground (arith, x, u, e, q), inr (x, first))
    ]
  ]

  module _ (root : Ref) (loaded : t.tree ≡ some root) (p : Text) where
    abbrev clean : Text
    clean = replace_double (trimmed_path p)

    of_empty : is_nil (trimmed_path p) ≡ true → lookup_page_path t p ≡ pass nothing_found
    unfolding lookup_page_path
    of_empty x = ground (arith, loaded, x)

    of_found :
        (k : PathLookup)
        → is_nil (trimmed_path p) ≡ false
        → lookup_parts t (some root) (split clean) ≡ pass k
        → lookup_page_path t p ≡ pass (record k { path = clean })
    unfolding lookup_page_path
    of_found k x u = ground (arith, loaded, x, u)

    of_bad :
        (f : TreeError)
        → is_nil (trimmed_path p) ≡ false
        → lookup_parts t (some root) (split clean) ≡ fail f
        → lookup_page_path t p ≡ fail f
    unfolding lookup_page_path
    of_bad f x u = ground (arith, loaded, x, u)

    pub lookup_page_path_lem :
        ((is_nil (trimmed_path p) ≡ true) × (lookup_page_path t p ≡ pass nothing_found))
        ⊎ ((is_nil (trimmed_path p) ≡ false)
            × (((l : PathLookup) × (lookup_page_path t p ≡ pass l)
                  × (l.path ≡ replace_double (trimmed_path p))
                  × IsLookup t (some root) l (split l.path))
                ⊎ ((b : Text) × (lookup_page_path t p ≡ fail (invalid_path_segment b))
                    × FirstBad (split (replace_double (trimmed_path p))) b)))
    lookup_page_path_lem = elim (Bool-cases (is_nil (trimmed_path p))) [
      | inl x ↦ inl (x, of_empty x)
      | inr x ↦ inr (
        x,
        elim (Check-cases (lookup_parts t (some root) (split clean))) [
          | inl (f, u) ↦
              let (b, q, first) = stopped_at (some root) (split clean) f u in
              inr (b, of_bad f x u ∙ ap fail q, first)
          | inr (k, u) ↦
              let i = lookup_parts-IsLookup (some root) (split clean) k u in
              inl (
                record k { path = clean },
                of_found k x u,
                refl,
                record {
                  slugs = i.slugs;
                  proper = i.proper;
                  follows = i.follows;
                  whole = i.whole;
                  cut = i.cut;
                  creatable = i.creatable;
                },
              )
        ],
      )
    ]

  -- A path that exists has no missing segment.
  pub existing_path :
      (p : Text) (l : PathLookup)
      → lookup_page_path t p ≡ pass l
      → l.exists ≡ true
      → all_exist l.segments ≡ true
  existing_path p l q x = elim (Option-cases t.tree) [
    | inl n ↦ absurd (unfold lookup_page_path in ground (arith, n, q))
    | inr (root, n) ↦ elim (lookup_page_path_lem root n p) [
      | inl (_, e) ↦ absurd (ground (arith, e, q, x))
      | inr (_, inr (b, e, _)) ↦ absurd (ground (arith, e, q))
      | inr (_, inl (k, e, _, i)) ↦ ground (arith, e, q, x, i.whole)
    ]
  ]

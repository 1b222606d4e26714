-- ===== src/Tree/SlugPath/Segments.antt =====
-- What the normalized paths consist of.
use leafwiki.Base.{
  ◌≡◌, ◌≢◌, refl, true, ◌⊎◌, inl, inr, List, [], ◌∷◌, Option, none, some, arith, Option-cases,
}
use leafwiki.Base.Text.{Text}
use leafwiki.Tree.Slug.{is_valid_slug, generate_valid_slug}
use leafwiki.Tree.Slug.Unique.{MakesSlugs, generate_valid_slug_lem}
use leafwiki.Tree.SlugPath.{
  split, join, each_segment, non_empty, Normalized, segments, bad_segment, path, not_a_slug,
  checked, normalize_path, normalize_path_to_valid_slugs,
}

abbrev IsSlug : Text → Type 0
IsSlug s = is_valid_slug s ≡ none

-- The segments that are not "".
abbrev pub filled : List Text → List Text
filled [] = []
filled ([] ∷ ss) = filled ss
filled ((c ∷ s) ∷ ss) = (c ∷ s) ∷ filled ss

-- The lists have the same length, and the relation holds at each place.
abbrev pub Each : (Text → Text → Type 0) → List Text → List Text → Type 0
Each rel [] [] = Unit
Each rel [] (t ∷ ts) = ⊥
Each rel (s ∷ ss) [] = ⊥
Each rel (s ∷ ss) (t ∷ ts) = rel s t × Each rel ss ts

-- The first text that is bad.
abbrev pub First : (Text → Type 0) → List Text → Text → Type 0
First bad [] b = ⊥
First bad (s ∷ ss) b = ((s ≡ b) × bad s) ⊎ ((¬ bad s) × First bad ss b)

-- Each segment has become what it is related to, or the loop stopped at the first that is bad.
abbrev Outcome : (Text → Text → Type 0) → (Text → Type 0) → List Text → Option Normalized → Type 0
Outcome rel bad ss r =
    ((ts : List Text) × (r ≡ some (segments ts)) × Each rel (filled ss) ts)
    ⊎ ((b : Text) × (r ≡ some (bad_segment b)) × First bad (filled ss) b)

-- A step makes a related text of a segment, or refuses one that is bad.
abbrev Steps : (Text → Option (Option Text)) → (Text → Text → Type 0) → (Text → Type 0) → Type 0
Steps step rel bad =
    (s : Text)
    → ((t : Text) × (step s ≡ some (some t)) × rel s t × (¬ bad s)) ⊎ ((step s ≡ some none) × bad s)

module _ (step : Text → Option (Option Text)) (rel : Text → Text → Type 0) (bad : Text → Type 0)
    (steps : Steps step rel bad) where
  each_segment-Outcome : (ss : List Text) → Outcome rel bad ss (each_segment step ss)
  unfolding each_segment
  each_segment-Outcome [] = inl ([], refl, tt)
  each_segment-Outcome ([] ∷ rest) = each_segment-Outcome rest
  each_segment-Outcome ((c ∷ s) ∷ rest) = elim (steps (c ∷ s)) [
    | inr (e, b) ↦ inr (c ∷ s, ground (arith, e), inl (refl, b))
    | inl (t, e, v, n) ↦ elim (each_segment-Outcome rest) [
      | inl (ts, p, vs) ↦ inl (t ∷ ts, ground (arith, e, p), (v, vs))
      | inr (b, p, q) ↦ inr (b, ground (arith, e, p), inr (n, q))
    ]
  ]

non_empty-slug : (t : Text) → IsSlug t → non_empty (some t) ≡ some (some t)
unfolding is_valid_slug
non_empty-slug [] v = absurd (ground arith)
non_empty-slug (c ∷ t) v = refl

checked-Steps :
    (make : Text → Text)
    → Steps
        (λ s. some (checked true (make s)))
        (λ s t. (make s ≡ t) × IsSlug t)
        (λ s. is_valid_slug (make s) ≢ none)
checked-Steps make s = elim (Option-cases (is_valid_slug (make s))) [
  | inl e ↦ inl (make s, ground (arith, e), (refl, e), λ n. n e)
  | inr (x, e) ↦ inr (ground (arith, e), λ f. cc (e, f))
]

module _ (make : Text → Text) (makes : MakesSlugs make) where
  abbrev safe : Text → Option (Option Text)
  safe s = non_empty (generate_valid_slug make s)

  abbrev Safe : Text → Text → Type 0
  Safe s t = (generate_valid_slug make s ≡ some t) × IsSlug t

  safe-Steps : Steps safe Safe (λ s. make s ≡ [])
  safe-Steps s = go (make s) refl
    where
      go :
          (m : Text)
          → make s ≡ m
          → ((t : Text) × (safe s ≡ some (some t)) × Safe s t × (make s ≢ []))
            ⊎ ((safe s ≡ some none) × (make s ≡ []))
      go [] e = inr (unfold generate_valid_slug in ground (arith, e), e)
      go (c ∷ m) e =
          let (t, g, v, _) = generate_valid_slug_lem make makes s (λ f. cc (e, f)) in
          inl (t, ground (arith, g, non_empty-slug t v), (g, v), λ f. cc (e, f))

  -- Where `slug.Make` gives slugs or "", `NormalizePathToValidSlugs` returns for every path the
  -- results of `GenerateValidSlug` on its segments that are not "", one after the other with slashes
  -- between them, each of which `IsValidSlug` accepts; or the error that names the first of these
  -- segments without any usable character.
  pub normalize_path_to_valid_slugs_lem :
      (value : Text)
      → ((ss : List Text) × (normalize_path_to_valid_slugs make value ≡ some (path (join ss)))
          × Each
              (λ s t. (generate_valid_slug make s ≡ some t) × (is_valid_slug t ≡ none))
              (filled (split value))
              ss)
        ⊎ ((b : Text) × (normalize_path_to_valid_slugs make value ≡ some (not_a_slug b))
            × First (λ s. make s ≡ []) (filled (split value)) b)
  unfolding normalize_path_to_valid_slugs
  normalize_path_to_valid_slugs_lem value =
      elim (each_segment-Outcome safe Safe (λ s. make s ≡ []) safe-Steps (split value)) [
        | inl (ss, p, v) ↦ inl (ss, ground (arith, p), v)
        | inr (b, p, e) ↦ inr (b, ground (arith, p), e)
      ]

-- When `NormalizePath` validates, it returns what `slug.Make` makes of the segments that are not "",
-- one after the other with slashes between them, each of which `IsValidSlug` accepts; or the error
-- that names the first of these segments whose slug `IsValidSlug` refuses.
pub normalize_path_lem :
    (make : Text → Text) (value : Text)
    → ((ss : List Text) × (normalize_path make true value ≡ some (path (join ss)))
        × Each (λ s t. (make s ≡ t) × (is_valid_slug t ≡ none)) (filled (split value)) ss)
      ⊎ ((b : Text) × (normalize_path make true value ≡ some (not_a_slug b))
          × First (λ s. is_valid_slug (make s) ≢ none) (filled (split value)) b)
unfolding normalize_path
normalize_path_lem make value =
    elim (each_segment-Outcome (λ s. some (checked true (make s))) (λ s t. (make s ≡ t) × IsSlug t)
      (λ s. is_valid_slug (make s) ≢ none) (checked-Steps make) (split value)) [
        | inl (ss, p, v) ↦ inl (ss, ground (arith, p), v)
        | inr (b, p, e) ↦ inr (b, ground (arith, p), e)
      ]

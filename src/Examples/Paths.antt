-- ===== src/Examples/Paths.antt =====
-- Paths, with a `slug.Make` that finds nothing usable in a text that is no slug.
use leafwiki.Base.{arith, ◌≡◌, ◌≢◌, refl, true, false, List, [], none, some, ◌⊎◌, if◌then◌else◌}
use leafwiki.Base.Text.{Text, codes, text_eq, to_lower}
use leafwiki.Base.Decimal.{format_int}
use leafwiki.Tree.Slug.{
  is_valid_slug, is_reserved, slug_pattern, starts_with_dash, ends_with_dash, generate_valid_slug,
  numbered,
}
use leafwiki.Tree.Slug.Unique.{MakesSlugs}
use leafwiki.Tree.SlugPath.{
  split, join, each_segment, path, not_a_slug, normalize_path, normalize_path_to_valid_slugs,
}
use leafwiki.Tree.SlugPath.Segments.{
  filled, Each, First, normalize_path_to_valid_slugs_lem, normalize_path_lem,
}

abbrev make : Text → Text
make t = if slug_pattern false t then t else []

make-MakesSlugs : MakesSlugs make
make-MakesSlugs t h = ground (arith, h)

paths_tests :
    (normalize_path_to_valid_slugs make (codes "docs//api/go")
      ≡ some (path (codes "docs/api-1/go")))
    × (normalize_path make true (codes "docs/api") ≡ some (not_a_slug (codes "api")))
    × (normalize_path make false (codes "/docs/api") ≡ some (path (codes "docs/api")))
    × (normalize_path_to_valid_slugs make (codes "docs/*") ≡ some (not_a_slug (codes "*")))
unfolding normalize_path_to_valid_slugs normalize_path split join each_segment generate_valid_slug
    is_valid_slug is_reserved slug_pattern starts_with_dash ends_with_dash numbered text_eq to_lower
    format_int
paths_tests = (refl, refl, refl, refl)

-- Both ends of the first theorem at one path.
abbrev Normal : Text → Type 0
Normal value =
    ((ss : List Text) × (normalize_path_to_valid_slugs make value ≡ some (path (join ss)))
      × Each (λ s t. (generate_valid_slug make s ≡ some t) × (is_valid_slug t ≡ none))
          (filled (split value)) ss)
    ⊎ ((b : Text) × (normalize_path_to_valid_slugs make value ≡ some (not_a_slug b))
        × First (λ s. make s ≡ []) (filled (split value)) b)

normalize_path_to_valid_slugs_example : Normal (codes "docs//api")
normalize_path_to_valid_slugs_example =
    normalize_path_to_valid_slugs_lem make make-MakesSlugs (codes "docs//api")

abbrev Validated : Text → Type 0
Validated value =
    ((ss : List Text) × (normalize_path make true value ≡ some (path (join ss)))
      × Each (λ s t. (make s ≡ t) × (is_valid_slug t ≡ none)) (filled (split value)) ss)
    ⊎ ((b : Text) × (normalize_path make true value ≡ some (not_a_slug b))
        × First (λ s. is_valid_slug (make s) ≢ none) (filled (split value)) b)

normalize_path_example : Validated (codes "docs//api")
normalize_path_example = normalize_path_lem make (codes "docs//api")

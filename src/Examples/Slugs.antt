-- ===== src/Examples/Slugs.antt =====
-- Slugs, and the search for a free one.
use leafwiki.Base.{
  ℕ, ◌≡◌, ◌↔◌, refl, String, List, [], ◌∷◌, none, some, ◌<◌, true, false, if◌then◌else◌,
}
use leafwiki.Base.Text.{Text, codes, to_lower, equal_fold, text_eq}
use leafwiki.Base.Decimal.{format_int}
use leafwiki.Tree.Node.{PageNode, page}
use leafwiki.Tree.Slug.{
  is_valid_slug, reserved, bad_character, slug_pattern, is_reserved, has_slug_conflict, numbered,
  generate_unique_child_slug, generate_valid_slug, starts_with_dash, ends_with_dash,
}
use leafwiki.Tree.Slug.Valid.{is_valid_slug_iff}
use leafwiki.Tree.Slug.Unique.{
  MakesSlugs, candidate, taken, generate_unique_child_slug_lem, generate_valid_slug_lem,
}

format_int_tests : (format_int 0 ≡ codes "0") × (format_int 120 ≡ codes "120")
unfolding format_int
format_int_tests = (refl, refl)

is_valid_slug_tests :
    (is_valid_slug (codes "getting-started_2") ≡ none)
    × (is_valid_slug (codes "Edit") ≡ some reserved)
    × (is_valid_slug (codes "a--b") ≡ some bad_character)
    × (is_valid_slug (codes "a-") ≡ some bad_character)
unfolding is_valid_slug is_reserved slug_pattern starts_with_dash ends_with_dash text_eq to_lower
is_valid_slug_tests = (refl, refl, refl, refl)

abbrev child : String → String → PageNode
child id slug = record {
  id = id;
  title = [];
  slug = codes slug;
  children = [];
  position = 0;
  parent = none;
  pinned = false;
  kind = page;
  metadata = record { created_at = 0; updated_at = 0; creator_id = ""; last_author_id = "" };
}

-- a `slug.Make` that gives every title the reserved slug "api"
abbrev make_api : Text → Text
make_api t = codes "api"

make_api-MakesSlugs : MakesSlugs make_api
unfolding slug_pattern
make_api-MakesSlugs t h = refl

abbrev siblings : List PageNode
siblings = child "1" "API-1" ∷ child "2" "api-2" ∷ []

generate_tests :
    (generate_unique_child_slug make_api siblings "" [] ≡ some (codes "api-3"))
    × (generate_valid_slug make_api [] ≡ some (codes "api-1"))
unfolding generate_unique_child_slug generate_valid_slug has_slug_conflict is_valid_slug is_reserved
    slug_pattern starts_with_dash ends_with_dash equal_fold numbered format_int
generate_tests = (refl, refl)

abbrev Found : Type 0
Found =
    (s : Text) × (generate_unique_child_slug make_api siblings "" [] ≡ some s)
    × (is_valid_slug s ≡ none)
    × (has_slug_conflict siblings "" s ≡ false)
    × ((k : ℕ) × (s ≡ candidate (codes "api") k)
        × ((j : ℕ) → j < k → taken siblings "" (candidate (codes "api") j) ≡ true))

generate_unique_child_slug_example : Found
generate_unique_child_slug_example =
    generate_unique_child_slug_lem make_api make_api-MakesSlugs siblings "" []

abbrev FoundValid : Type 0
FoundValid =
    (s : Text) × (generate_valid_slug make_api [] ≡ some s)
    × (is_valid_slug s ≡ none)
    × (s ≡ (if is_reserved (codes "api") then numbered (codes "api") 1 else codes "api"))

generate_valid_slug_example : FoundValid
generate_valid_slug_example = generate_valid_slug_lem make_api make_api-MakesSlugs [] (λ e. cc)

is_valid_slug_iff_example :
    (is_valid_slug (codes "home") ≡ none)
    ↔ ((slug_pattern false (codes "home") ≡ true) × (is_reserved (codes "home") ≡ false))
is_valid_slug_iff_example = is_valid_slug_iff (codes "home")

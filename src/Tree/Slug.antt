-- ===== src/Tree/Slug.antt =====
-- slug_service.go: which slugs are valid, and how a free one is found under a parent.
-- `slug.Make` of github.com/gosimple/slug is the parameter `make`.
pub mod Valid
pub mod Unique
use leafwiki.Base.{
  ℕ, zero, suc, ◌+◌, String, Bool, true, false, ◌&&◌, ◌||◌, not, List, [], ◌∷◌, ◌++◌, Option, none,
  some, leb, ◌==◌, if◌then◌else◌, str_eq, length, some_of,
}
use leafwiki.Base.Text.{Text, codes, to_lower, text_eq, equal_fold}
use leafwiki.Base.Decimal.{format_int}
use leafwiki.Tree.Node.{PageNode}

abbrev pub reserved_slugs : List Text
reserved_slugs =
    codes "e"
    ∷ codes "edit"
    ∷ codes "api"
    ∷ codes "assets"
    ∷ codes "branding"
    ∷ codes "index"
    ∷ codes "users"
    ∷ codes "user"
    ∷ codes "login"
    ∷ codes "history"
    ∷ codes "settings"
    ∷ []

abbrev pub default_slug : Text
default_slug = codes "page"

abbrev pub dash : ℕ
dash = b'-'

-- the class `[a-zA-Z0-9_]`
unfoldable pub is_word : ℕ → Bool
is_word c =
    leb b'a' c && leb c b'z' || leb b'A' c && leb c b'Z' || leb b'0' c && leb c b'9' || c == b'_'

-- `^[a-zA-Z0-9_]+(-[a-zA-Z0-9_]+)*$`; the flag says that a word has begun
unfoldable pub slug_pattern : Bool → Text → Bool
unfolding is_word
slug_pattern started [] = started
slug_pattern started (c ∷ s) = slug_pattern (is_word c) s && (is_word c || (started && c == dash))

pub data SlugError : Type 0 where
  empty reserved bad_character edge_hyphen : SlugError

unfoldable pub is_reserved : Text → Bool
unfolding some_of
is_reserved slug = some_of (text_eq (to_lower slug)) reserved_slugs

unfoldable pub starts_with_dash : Text → Bool
starts_with_dash [] = false
starts_with_dash (c ∷ s) = c == dash

unfoldable pub ends_with_dash : Text → Bool
ends_with_dash [] = false
ends_with_dash (c ∷ []) = c == dash
ends_with_dash (c ∷ d ∷ s) = ends_with_dash (d ∷ s)

abbrev is_nil : Text → Bool
is_nil [] = true
is_nil (_ ∷ _) = false

-- `IsValidSlug`; `none` is its nil error.
unfoldable pub is_valid_slug : Text → Option SlugError
is_valid_slug slug =
    if is_nil slug
    then some empty
    else if is_reserved slug
    then some reserved
    else if not (slug_pattern false slug)
    then some bad_character
    else if starts_with_dash slug || ends_with_dash slug
    then some edge_hyphen
    else none

abbrev pub refused : Option SlugError → Bool
refused none = false
refused (some _) = true

-- `hasSlugConflict`, over the nodes that `parent.Children` points to
unfoldable pub has_slug_conflict : List PageNode → String → Text → Bool
unfolding some_of
has_slug_conflict children current_id slug =
    some_of (λ child. equal_fold child.slug slug && not (str_eq child.id current_id)) children

-- `fmt.Sprintf("%s-%d", original, i)`
unfoldable pub numbered : Text → ℕ → Text
numbered original i = original ++ dash ∷ format_int i

-- The loop `for bad(slug) { slug = original-i; i++ }`, with fuel; `none` means that it ran out.
unfoldable pub first_free : ℕ → (Text → Bool) → Text → Text → ℕ → Option Text
first_free zero bad original slug i = none
first_free (suc f) bad original slug i =
    let rest = first_free f bad original (numbered original i) (suc i) in
    if bad slug then rest else some slug

abbrev pub or_default : Text → Text
or_default [] = default_slug
or_default (c ∷ s) = c ∷ s

module _ (make : Text → Text) where
  -- `GenerateUniqueChildSlug`
  unfoldable pub generate_unique_child_slug : List PageNode → String → Text → Option Text
  unfolding first_free
  generate_unique_child_slug children current_id desired =
      let slug = or_default (make desired) in
      first_free (length children + 2)
        (λ s. has_slug_conflict children current_id s || refused (is_valid_slug s)) slug slug 1

  -- `GenerateValidSlug`; the text "" stands for no slug
  unfoldable pub generate_valid_slug : Text → Option Text
  unfolding first_free
  generate_valid_slug desired =
      let slug = make desired in
      if is_nil slug then some [] else first_free 2 (λ s. refused (is_valid_slug s)) slug slug 1

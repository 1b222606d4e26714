-- ===== src/Tree/SlugPath.antt =====
-- slug_service.go: paths of slugs. The text "" between two slashes stands for no segment.
pub mod Segments
use leafwiki.Base.{
  ℕ, Bool, true, false, List, [], ◌∷◌, ◌++◌, Option, none, some, ◌==◌, if◌then◌else◌,
}
use leafwiki.Base.Text.{Text}
use leafwiki.Tree.Slug.{is_valid_slug, refused, generate_valid_slug}

abbrev pub slash : ℕ
slash = b'/'

abbrev to_first : ℕ → List Text → List Text
to_first c [] = (c ∷ []) ∷ []
to_first c (s ∷ ss) = (c ∷ s) ∷ ss

-- `strings.Split(path, "/")`
unfoldable pub split : Text → List Text
split [] = [] ∷ []
split (c ∷ s) = let rest = split s in if c == slash then [] ∷ rest else to_first c rest

-- `strings.Join(segments, "/")`
unfoldable pub join : List Text → Text
join [] = []
join (s ∷ []) = s
join (s ∷ t ∷ ss) = s ++ slash ∷ join (t ∷ ss)

-- The segments of a path that all went well, or the first that did not.
pub data Normalized : Type 0 where
  segments : List Text → Normalized
  bad_segment : Text → Normalized

abbrev pub add : Text → Option Normalized → Option Normalized
add s none = none
add s (some (segments ss)) = some (segments (s ∷ ss))
add s (some (bad_segment b)) = some (bad_segment b)

-- The loop over the segments: `step` gives what a segment becomes, or `none` inside for an error;
-- `none` outside means that its fuel ran out.
unfoldable pub each_segment : (Text → Option (Option Text)) → List Text → Option Normalized
each_segment step [] = some (segments [])
each_segment step ([] ∷ rest) = each_segment step rest
each_segment step ((c ∷ s) ∷ rest) =
    let more = each_segment step rest in
    elim (step (c ∷ s)) [
      | none ↦ none
      | some none ↦ some (bad_segment (c ∷ s))
      | some (some t) ↦ add t more
    ]

abbrev pub non_empty : Option Text → Option (Option Text)
non_empty none = none
non_empty (some []) = some none
non_empty (some (c ∷ s)) = some (some (c ∷ s))

-- What a method returns: the path, or an error on a segment.
pub data PathResult : Type 0 where
  path : Text → PathResult
  not_a_slug : Text → PathResult

abbrev pub joined : Option Normalized → Option PathResult
joined none = none
joined (some (segments ss)) = some (path (join ss))
joined (some (bad_segment b)) = some (not_a_slug b)

-- with `validate`, a segment that is not a valid slug is an error
abbrev pub checked : Bool → Text → Option Text
checked false s = some s
checked true s = if refused (is_valid_slug s) then none else some s

module _ (make : Text → Text) where
  -- `NormalizePath`
  unfoldable pub normalize_path : Bool → Text → Option PathResult
  normalize_path validate value =
      joined (each_segment (λ s. some (checked validate (make s))) (split value))

  -- `NormalizePathToValidSlugs`
  unfoldable pub normalize_path_to_valid_slugs : Text → Option PathResult
  normalize_path_to_valid_slugs value =
      joined (each_segment (λ s. non_empty (generate_valid_slug make s)) (split value))

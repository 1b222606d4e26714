-- ===== src/Tree/Slug/Valid.antt =====
-- What `IsValidSlug` accepts, and that a numbered slug is always accepted.
use leafwiki.Base.{
  ℕ, ◌≡◌, ◌≢◌, ◌↔◌, refl, Bool, true, false, ◌||◌, List, [], ◌∷◌, ◌++◌, none, arith, ◌==◌, All,
  some_of,
}
use leafwiki.Base.Text.{Text, to_lower, text_eq, text_eq_sound}
use leafwiki.Base.Decimal.{IsDigit, format_int, format_int-IsDigit, format_int-ne-nil}
use leafwiki.Tree.Slug.{
  dash, is_word, slug_pattern, is_reserved, reserved_slugs, starts_with_dash, ends_with_dash,
  is_valid_slug, numbered,
}

slug_pattern-starts : (s : Text) → slug_pattern false s ≡ true → starts_with_dash s ≡ false
unfolding slug_pattern starts_with_dash
slug_pattern-starts [] h = refl
slug_pattern-starts (c ∷ s) h = ground arith

slug_pattern-ends : (b : Bool) (s : Text) → slug_pattern b s ≡ true → ends_with_dash s ≡ false
unfolding slug_pattern ends_with_dash
slug_pattern-ends b [] h = refl
slug_pattern-ends b (c ∷ []) h = ground arith
slug_pattern-ends b (c ∷ d ∷ s) h = ground (arith, slug_pattern-ends (is_word c) (d ∷ s))

-- A slug is accepted exactly when it matches the pattern and is not reserved: the check for the
-- empty slug and the one for hyphens at the ends refuse nothing more.
pub is_valid_slug_iff :
    (s : Text)
    → (is_valid_slug s ≡ none) ↔ ((slug_pattern false s ≡ true) × (is_reserved s ≡ false))
unfolding is_valid_slug
is_valid_slug_iff [] = unfold slug_pattern in ground arith
is_valid_slug_iff (c ∷ s) =
    ground (arith, slug_pattern-starts (c ∷ s), slug_pattern-ends false (c ∷ s))

has_dash : Text → Bool
has_dash [] = false
has_dash (c ∷ s) = c == dash || has_dash s

reserved-has_dash : All (λ r. has_dash r ≡ false) reserved_slugs
unfolding has_dash
reserved-has_dash = ground arith

some_of-has_dash :
    (t : Text) (rs : List Text)
    → has_dash t ≡ true
    → All (λ r. has_dash r ≡ false) rs
    → some_of (text_eq t) rs ≡ false
unfolding some_of
some_of-has_dash t [] h a = refl
some_of-has_dash t (r ∷ rs) h (p, a) = ground (arith, some_of-has_dash t rs h a, text_eq_sound t r)

has_dash-numbered : (o w : Text) → has_dash (to_lower (o ++ dash ∷ w)) ≡ true
unfolding has_dash to_lower
has_dash-numbered [] w = refl
has_dash-numbered (c ∷ o) w = ground (arith, has_dash-numbered o w)

slug_pattern-digits : (b : Bool) (w : Text) → All IsDigit w → w ≢ [] → slug_pattern b w ≡ true
unfolding slug_pattern
slug_pattern-digits b [] d h = absurd (h refl)
slug_pattern-digits b (c ∷ []) (p, d) h = ground arith
slug_pattern-digits b (c ∷ e ∷ w) (p, d) h =
    ground (arith, slug_pattern-digits true (e ∷ w) d (λ q. cc))

slug_pattern-numbered :
    (b : Bool) (o : Text) (i : ℕ) → slug_pattern b o ≡ true → slug_pattern b (numbered o i) ≡ true
unfolding slug_pattern numbered
slug_pattern-numbered b [] i h =
    ground
      (arith, slug_pattern-digits false (format_int i) (format_int-IsDigit i) (format_int-ne-nil i))
slug_pattern-numbered b (c ∷ o) i h = ground (arith, slug_pattern-numbered (is_word c) o i)

-- A slug that matches the pattern is accepted with any number behind it, also if it is reserved.
pub is_valid_slug-numbered :
    (o : Text) (i : ℕ) → slug_pattern false o ≡ true → is_valid_slug (numbered o i) ≡ none
unfolding is_reserved numbered
is_valid_slug-numbered o i h = (is_valid_slug_iff (numbered o i)).1 (
  slug_pattern-numbered false o i h,
  some_of-has_dash (to_lower (numbered o i)) reserved_slugs (has_dash-numbered o (format_int i))
      reserved-has_dash,
)

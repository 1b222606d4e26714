-- ===== src/Tree/Slug/Unique.antt =====
-- What the two generators return, and that their loops end.
use leafwiki.Base.{
  ℕ, zero, suc, ◌+◌, ◌≤◌, ◌<◌, ◌≡◌, ◌≢◌, refl, sym, ◌∙◌, inl, inr, String, Bool, true, false, ◌&&◌,
  ◌||◌, not, List, [], ◌∷◌, ◌++◌, none, some, arith, if◌then◌else◌, str_eq, length, some_of,
  Option-cases, Bool-cases, fun_ext, dec_le,
}
use leafwiki.Base.Text.{Text, to_lower, text_eq_sound, equal_fold}
use leafwiki.Base.Decimal.{format_int, format_int-injective, format_int-IsDigit, to_lower-IsDigit}
use leafwiki.Base.Hits.{hits, hits-some_of}
use leafwiki.Tree.Node.{PageNode}
use leafwiki.Tree.Slug.{
  dash, is_reserved, slug_pattern, is_valid_slug, refused, has_slug_conflict, numbered, first_free,
  or_default, generate_unique_child_slug, generate_valid_slug,
}
use leafwiki.Tree.Slug.Valid.{is_valid_slug-numbered, is_valid_slug_iff}

-- The names that the loop tries: the slug itself, then the slug with 1, 2, … behind it.
abbrev pub candidate : Text → ℕ → Text
candidate o zero = o
candidate o (suc k) = numbered o (suc k)

module _ (bad : Text → Bool) (o : Text) where
  first_free_first :
      (f i : ℕ) (t : Text)
      → first_free f bad o (candidate o i) (suc i) ≡ some t
      → (k : ℕ) × (i ≤ k)
        × (t ≡ candidate o k)
        × (bad t ≡ false)
        × ((j : ℕ) → i ≤ j → j < k → bad (candidate o j) ≡ true)
  unfolding first_free
  first_free_first zero i t h = absurd (ground arith)
  first_free_first (suc f) i t h = elim (Bool-cases (bad (candidate o i))) [
    | inl e ↦
        let (k, l, p, g, before) = first_free_first f (suc i) t (rw e at h) in
        (
          k,
          omega arith,
          p,
          g,
          λ j a b. elim (dec_le (suc i) j) [ yes c ↦ before j c b | no c ↦ rw (eq_of i j a c) e ],
        )
    | inr e ↦ (i, omega arith, ground arith, ground arith, λ j a b. absurd (omega arith))
  ]
    where
      eq_of : (i j : ℕ) → i ≤ j → ¬ (suc i ≤ j) → j ≡ i
      eq_of i j a c = omega arith

  -- A loop that runs out of fuel has refused every name in the window.
  first_free-none_bad :
      (f i : ℕ) (slug : Text) → first_free (suc f) bad o slug i ≡ none → bad slug ≡ true
  unfolding first_free
  first_free-none_bad f i slug h = ground arith

  first_free-none :
      (f i : ℕ) (slug : Text)
      → first_free (suc f) bad o slug i ≡ none
      → hits (λ k. bad (numbered o k)) i f ≡ f
  unfolding first_free hits
  first_free-none zero i slug h = refl
  first_free-none (suc f) i slug h = ground (
    arith,
    first_free-none_bad (suc f) i slug h,
    first_free-none f (suc i) (numbered o i),
    first_free-none_bad f (suc i) (numbered o i),
  )

to_lower-cancel :
    (o s t : Text) → to_lower (o ++ dash ∷ s) ≡ to_lower (o ++ dash ∷ t) → to_lower s ≡ to_lower t
unfolding to_lower
to_lower-cancel [] s t h = cc
to_lower-cancel (c ∷ o) s t h = to_lower-cancel o s t (cc)

-- Two numbers behind one slug give names that no case folding identifies.
numbered-fold : (o : Text) (a b : ℕ) → to_lower (numbered o a) ≡ to_lower (numbered o b) → a ≡ b
unfolding numbered
numbered-fold o a b h = format_int-injective a b (
    sym (to_lower-IsDigit (format_int a) (format_int-IsDigit a))
    ∙ to_lower-cancel o (format_int a) (format_int b) h
    ∙ to_lower-IsDigit (format_int b) (format_int-IsDigit b))

equal_fold-numbered :
    (s o : Text) (a b : ℕ)
    → equal_fold s (numbered o a) ≡ true
    → equal_fold s (numbered o b) ≡ true
    → a ≡ b
unfolding equal_fold
equal_fold-numbered s o a b h k =
    numbered-fold o a b (sym (text_eq_sound _ _ h) ∙ text_eq_sound _ _ k)

module _ (children : List PageNode) (id : String) where
  -- The test of the loop in `GenerateUniqueChildSlug`.
  abbrev pub taken : Text → Bool
  taken s = has_slug_conflict children id s || refused (is_valid_slug s)

  taken-numbered :
      (o : Text) (k : ℕ)
      → slug_pattern false o ≡ true
      → taken (numbered o k)
        ≡ some_of (λ c. equal_fold c.slug (numbered o k) && not (str_eq c.id id)) children
  unfolding has_slug_conflict
  taken-numbered o k h = ground (arith, is_valid_slug-numbered o k h)

  -- Among the numbers behind a slug, the children stop at most one each.
  hits-taken :
      (o : Text) (i n : ℕ)
      → slug_pattern false o ≡ true
      → hits (λ k. taken (numbered o k)) i n ≤ length children
  hits-taken o i n h = rw (fun_ext (λ k. taken-numbered o k h)) (
      hits-some_of (λ c k. equal_fold c.slug (numbered o k) && not (str_eq c.id id)) alone children
        i n)
    where
      alone :
          (c : PageNode) (a b : ℕ)
          → (equal_fold c.slug (numbered o a) && not (str_eq c.id id)) ≡ true
          → (equal_fold c.slug (numbered o b) && not (str_eq c.id id)) ≡ true
          → a ≡ b
      alone c a b p q = equal_fold-numbered c.slug o a b (ground arith) (ground arith)

  -- The loop never runs out of its fuel.
  first_free-taken_total :
      (o : Text) → slug_pattern false o ≡ true → first_free (length children + 2) taken o o 1 ≢ none
  first_free-taken_total o h e =
      let full = first_free-none taken o (length children + 1) 1 o (rw add_two at e) in
      omega (arith, full, hits-taken o 1 (length children + 1) h)
    where
      add_two : length children + 2 ≡ suc (length children + 1)
      add_two = omega arith

-- What `slug.Make` promises: a text of lower-case ASCII words joined by single hyphens, or "".
abbrev pub MakesSlugs : (Text → Text) → Type 0
MakesSlugs make = (t : Text) → make t ≢ [] → slug_pattern false (make t) ≡ true

module _ (make : Text → Text) (makes : MakesSlugs make) where
  or_default-make : (t : Text) → slug_pattern false (or_default (make t)) ≡ true
  or_default-make t = go (make t) (makes t)
    where
      go :
          (s : Text)
          → (s ≢ [] → slug_pattern false s ≡ true)
          → slug_pattern false (or_default s) ≡ true
      go [] h = unfold slug_pattern in refl
      go (c ∷ s) h = h (λ e. cc)

  -- Where `slug.Make` gives slugs or "", the search for a free slug ends, and returns the first of
  -- the candidates `slug`, `slug-1`, `slug-2`, … that `IsValidSlug` accepts and that no other child
  -- has, upper and lower case being one.
  pub generate_unique_child_slug_lem :
      (children : List PageNode) (id : String) (desired : Text)
      → let o = or_default (make desired) in
        (s : Text) × (generate_unique_child_slug make children id desired ≡ some s)
        × (is_valid_slug s ≡ none)
        × (has_slug_conflict children id s ≡ false)
        × ((k : ℕ) × (s ≡ candidate o k)
            × ((j : ℕ) → j < k → taken children id (candidate o j) ≡ true))
  unfolding generate_unique_child_slug
  generate_unique_child_slug_lem children id desired =
      elim (Option-cases (first_free (length children + 2) (taken children id) o o 1)) [
        | inl e ↦ absurd (first_free-taken_total children id o (or_default-make desired) e)
        | inr (s, e) ↦
            let (k, l, p, g, before) =
              first_free_first (taken children id) o (length children + 2) 0 s e in
            (s, e, ground arith, ground arith, (k, p, λ j b. before j (omega arith) b))
      ]
    where
      o : Text
      o = or_default (make desired)

  -- Where `slug.Make` gives slugs or "", and not "" for this text, `GenerateValidSlug` returns the
  -- slug that it gives, with "-1" behind it exactly if it is reserved, and `IsValidSlug` accepts it.
  pub generate_valid_slug_lem :
      (desired : Text)
      → make desired ≢ []
      → (s : Text) × (generate_valid_slug make desired ≡ some s)
        × (is_valid_slug s ≡ none)
        × (s ≡ (if is_reserved (make desired) then numbered (make desired) 1 else make desired))
  unfolding generate_valid_slug first_free
  generate_valid_slug_lem desired h =
      let p = makes desired h in
      let accepts = is_valid_slug_iff (make desired) in
      let first = is_valid_slug-numbered (make desired) 1 p in
      elim (Bool-cases (is_reserved (make desired))) [
        | inl e ↦ (numbered (make desired) 1, ground (arith, accepts, first), first, rw e)
        | inr e ↦ (make desired, ground (arith, accepts), accepts.1 (p, e), rw e)
      ]

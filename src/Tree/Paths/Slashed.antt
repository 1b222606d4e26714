-- ===== src/Tree/Paths/Slashed.antt =====
-- Texts with slashes between them: what `strings.Split` makes of what `strings.Join` gives.
use leafwiki.Base.{
  ◌≡◌, refl, sym, ap, subst, ◌∙◌, false, List, [], ◌∷◌, ◌++◌, arith, ==_iff, append_assoc,
  append-nil,
}
use leafwiki.Base.Text.{Text}
use leafwiki.Base.Members.{mem}
use leafwiki.Tree.SlugPath.{slash, split, join}
use leafwiki.Tree.Paths.{is_nil, trim_prefix}

-- A list of texts without a slash, none of them empty.
abbrev pub AllPlain : List Text → Type 0
AllPlain [] = Unit
AllPlain (s ∷ ss) = (is_nil s ≡ false) × (mem slash s ≡ false) × AllPlain ss

pub AllPlain-snoc :
    (ss : List Text) (s : Text)
    → AllPlain ss
    → is_nil s ≡ false
    → mem slash s ≡ false
    → AllPlain (ss ++ s ∷ [])
AllPlain-snoc [] s a b c = (b, c, tt)
AllPlain-snoc (x ∷ ss) s (p, q, a) b c = (p, q, AllPlain-snoc ss s a b c)

split_plain : (s : Text) → mem slash s ≡ false → split s ≡ s ∷ []
unfolding split mem
split_plain [] m = refl
split_plain (c ∷ s) m = ground (arith, m, split_plain s, ==_iff slash c, ==_iff c slash)

split_first : (s rest : Text) → mem slash s ≡ false → split (s ++ slash ∷ rest) ≡ s ∷ split rest
unfolding split mem
split_first [] rest m = ground arith
split_first (c ∷ s) rest m = ground (arith, m, split_first s rest, ==_iff slash c, ==_iff c slash)

split-join : (s : Text) (ss : List Text) → AllPlain (s ∷ ss) → split (join (s ∷ ss)) ≡ s ∷ ss
unfolding join
split-join s [] (g, m, a) = split_plain s m
split-join s (r ∷ ss) (g, m, a) =
    split_first s (join (r ∷ ss)) m ∙ ap (λ xs. s ∷ xs) (split-join r ss a)

-- every text behind a slash
abbrev pub slashed : List Text → Text
slashed [] = []
slashed (s ∷ ss) = slash ∷ s ++ slashed ss

pub slashed-snoc : (ss : List Text) (s : Text) → slashed (ss ++ s ∷ []) ≡ slashed ss ++ slash ∷ s
slashed-snoc [] s = ap (λ x. slash ∷ x) (append-nil s)
slashed-snoc (r ∷ ss) s =
    ap (λ x. slash ∷ r ++ x) (slashed-snoc ss s)
    ∙ ap (λ x. slash ∷ x) (sym (append_assoc r (slashed ss) (slash ∷ s)))

slashed-join : (s : Text) (ss : List Text) → slashed (s ∷ ss) ≡ slash ∷ join (s ∷ ss)
unfolding join
slashed-join s [] = ap (λ x. slash ∷ x) (append-nil s)
slashed-join s (r ∷ ss) = ap (λ x. slash ∷ s ++ x) (slashed-join r ss)

pub snoc_first :
    (xs : List Text) (s : Text) → (y : Text) × (ys : List Text) × (xs ++ s ∷ [] ≡ y ∷ ys)
snoc_first [] s = (s, [], refl)
snoc_first (x ∷ xs) s = (x, xs ++ s ∷ [], refl)

pub trim_split :
    (ss : List Text) (y : Text) (ys : List Text)
    → ss ≡ y ∷ ys
    → AllPlain ss
    → split (trim_prefix (slashed ss)) ≡ ss
trim_split ss y ys e a =
    subst (λ xs. split (trim_prefix (slashed xs)) ≡ xs) (sym e)
      (ap (λ s. split (trim_prefix s)) (slashed-join y ys)
        ∙ (ap split (ground (arith, ==_iff slash slash)) ∙ split-join y ys (subst AllPlain e a)))

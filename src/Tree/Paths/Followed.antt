-- ===== src/Tree/Paths/Followed.antt =====
-- When the segments of a look-up follow the children of the tree.
use leafwiki.Base.{
  ◌≡◌, ◌⊎◌, Bool, true, false, ◌&&◌, List, [], ◌∷◌, Option, none, some, map, if◌then◌else◌,
}
use leafwiki.Base.Text.{Text, trim_space}
use leafwiki.Tree.Node.{Ref}
use leafwiki.Tree.State.{TreeService}
use leafwiki.Tree.Paths.{
  PathSegment, PathLookup, missing, present, all_valid, is_bad_part, find_under, drop_slashes,
  drop_last_slashes,
}

abbrev pub missing_slugs : List PathSegment → List Text
missing_slugs [] = []
missing_slugs (s ∷ ss) = if s.exists then missing_slugs ss else s.slug ∷ missing_slugs ss

abbrev pub all_exist : List PathSegment → Bool
all_exist [] = true
all_exist (s ∷ ss) = s.exists && all_exist ss

-- Below a missing segment there is none that exists.
abbrev pub IsCutOnce : List PathSegment → Type 0
IsCutOnce [] = Unit
IsCutOnce (s ∷ ss) = (s.exists ≡ false → missing_slugs ss ≡ map (λ r. r.slug) ss) × IsCutOnce ss

abbrev pub AllProper : List Text → Type 0
AllProper [] = Unit
AllProper (s ∷ ss) = (is_bad_part s ≡ false) × AllProper ss

-- The first part that a path may not have.
abbrev pub FirstBad : List Text → Text → Type 0
FirstBad [] b = ⊥
FirstBad (s ∷ ss) b = ((s ≡ b) × (is_bad_part s ≡ true)) ⊎ ((is_bad_part s ≡ false) × FirstBad ss b)

-- The segments follow the children of the tree from a parent down: a segment that has a child there
-- tells of this node, and the next one is looked for below it; below a missing one there is none.
abbrev pub Follows : {D : Type 0} → TreeService D → Option Ref → List PathSegment → Type 0
Follows t parent [] = Unit
Follows t parent (s ∷ ss) =
    ((find_under t parent s.slug ≡ none) × (s ≡ missing s.slug) × Follows t none ss)
    ⊎ ((r : Ref) × (find_under t parent s.slug ≡ some r)
        × (s ≡ present t.nodes s.slug r)
        × Follows t (some r) ss)

pub record IsLookup {D : Type 0} (t : TreeService D) (parent : Option Ref) (l : PathLookup)
    (parts : List Text) : Type 0 where
  pub slugs : map (λ s. s.slug) l.segments ≡ parts
  pub proper : AllProper parts
  pub follows : Follows t parent l.segments
  pub whole : l.exists ≡ all_exist l.segments
  pub cut : IsCutOnce l.segments
  pub creatable : l.can_create ≡ all_valid (missing_slugs l.segments)

-- The path without the spaces and the slashes around it.
abbrev pub trimmed_path : Text → Text
trimmed_path p = drop_last_slashes (drop_slashes (trim_space p))

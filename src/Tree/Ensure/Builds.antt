-- ===== src/Tree/Ensure/Builds.antt =====
-- `EnsurePagePath`: the way along the segments that builds what is missing.
use leafwiki.Base.{
  ℕ, ◌≡◌, ◌≢◌, inl, inr, String, true, false, List, [], ◌∷◌, Option, none, some, arith, map,
  Option-cases,
}
use leafwiki.Tree.Node.{Ref}
use leafwiki.Tree.State.{TreeService}
use leafwiki.Tree.Index.{get_node_by_id}
use leafwiki.Tree.Paths.{PathSegment}
use leafwiki.Tree.Paths.Followed.{missing_slugs}
use leafwiki.Tree.Create.Effect.{IsCreated}
use leafwiki.Tree.Ensure.{CreatedPage, Asked, or_empty, segment_node, listed_page}

-- What `GenerateUniqueID` gives is not empty, and in use nowhere.
abbrev pub IsGenerator : {D : Type 0} → (TreeService D → Option String) → Type 0
IsGenerator {D = D} generate =
    (t : TreeService D) (i : String) → generate t ≡ some i → (i ≢ "") × (get_node_by_id t i ≡ none)

-- No id is lost.
abbrev pub Keeps : {D : Type 0} → TreeService D → TreeService D → Type 0
Keeps t u = (i : String) (x : Ref) → get_node_by_id t i ≡ some x → get_node_by_id u i ≡ some x

abbrev pub AllStand : {D : Type 0} → TreeService D → List CreatedPage → Type 0
AllStand u [] = Unit
AllStand u (c ∷ cs) = ((x : Ref) × (get_node_by_id u c.id ≡ some x)) × AllStand u cs

abbrev pub AllNew : {D : Type 0} → TreeService D → List CreatedPage → Type 0
AllNew t [] = Unit
AllNew t (c ∷ cs) = (get_node_by_id t c.id ≡ none) × AllNew t cs

-- From tree `t` to tree `u` along the segments below the node of an id, where the root is `none`:
-- a segment that exists is walked over, and for a missing one a node is created below the node that
-- the way has come to, with what was asked for it, and the way goes on below this node. The list
-- tells of the created nodes, and the second id is that of the end of the way.
pub data Builds {D : Type 0} (generate : TreeService D → Option String) (clock : TreeService D → ℕ)
    (a : Asked)
    : TreeService D
      → Option String
      → List PathSegment
      → List CreatedPage
      → Option String
      → TreeService D
      → Type 0 where
  at_end :
      {t : TreeService D} {current : Option String}
      → Builds generate clock a t current [] [] current t
  walked :
      {t u : TreeService D} {current last : Option String} {s : PathSegment} {ss : List PathSegment}
      {pages : List CreatedPage}
      → s.exists ≡ true
      → Builds generate clock a t s.id ss pages last u
      → Builds generate clock a t current (s ∷ ss) pages last u
  built :
      {t m u : TreeService D} {current last : Option String} {s : PathSegment}
      {ss : List PathSegment} {pages : List CreatedPage} {r : Ref}
      → s.exists ≡ false
      → IsCreated t m (or_empty current) (segment_node a (clock t) (generate t) s ss) r
      → Builds generate clock a m (some (m.nodes r).id) ss pages last u
      → Builds generate clock a t current
          (s ∷ ss)
          (listed_page (m.nodes r).id (segment_node a (clock t) (generate t) s ss) ∷ pages)
          last
          u

-- The created nodes have the slugs that were missing; each stands in the tree, where none had its
-- id before, and no other id is lost.
pub record IsEnsured {D : Type 0} (generate : TreeService D → Option String)
    (clock : TreeService D → ℕ) (a : Asked) (t u : TreeService D) (current : Option String)
    (ss : List PathSegment) (pages : List CreatedPage) (last : Option String) : Type 0 where
  pub builds : Builds generate clock a t current ss pages last u
  pub slugs : map (λ c. c.slug) pages ≡ missing_slugs ss
  pub fresh : AllNew t pages
  pub stand : AllStand u pages
  pub keeps : Keeps t u

pub AllNew_before :
    {D : Type 0} (t m : TreeService D) (cs : List CreatedPage)
    → Keeps t m
    → AllNew m cs
    → AllNew t cs
AllNew_before t m [] k n = tt
AllNew_before t m (c ∷ cs) k (n, ns) = (
  elim (Option-cases (get_node_by_id t c.id)) [
    | inl e ↦ e
    | inr (x, e) ↦ absurd (ground (arith, k c.id x e, n))
  ],
  AllNew_before t m cs k ns,
)

-- ===== src/Tree/Ensure.antt =====
-- tree_mutations.go, ensure_path_result.go: `EnsurePagePath`, which creates what is missing on a path.
-- `GenerateUniqueID` and the clock are parameters, functions of the tree that they are asked in;
-- `none` is the error of the first.
pub mod Builds
pub mod Segments
pub mod Sound
use leafwiki.Base.{ℕ, String, Bool, true, false, List, [], ◌∷◌, Option, none, some, if◌then◌else◌}
use leafwiki.Base.Text.{Text}
use leafwiki.Tree.Node.{Ref, NodeKind, section}
use leafwiki.Tree.State.{
  TreeService, NodeStore, TreeError, Check, pass, fail, tree_not_loaded, page_not_found,
  path_not_ensured,
}
use leafwiki.Tree.Index.{get_node_by_id}
use leafwiki.Tree.Paths.{PathSegment, PathLookup, lookup_page_path}
use leafwiki.Tree.Create.{NewNode, create_node}

-- what the result tells of a node that was created
pub record CreatedPage : Type 0 where
  pub id : String
  pub slug : Text
  pub title : Text
  pub kind : NodeKind

pub record EnsurePathResult : Type 0 where
  pub exists : Bool
  pub page : Ref
  pub created : List CreatedPage

-- What is asked for: who asks, the title and the kind of the last node.
pub record Asked : Type 0 where
  pub user_id : String
  pub title : Text
  pub kind : Option NodeKind

abbrev or_empty : Option String → String
or_empty none = ""
or_empty (some s) = s

abbrev last_id : List PathSegment → Option String
last_id [] = none
last_id (s ∷ []) = s.id
last_id (s ∷ r ∷ rest) = last_id (r ∷ rest)

abbrev title_of : Asked → PathSegment → List PathSegment → Text
title_of a s [] = a.title
title_of a s (_ ∷ _) = s.slug

abbrev kind_of : Asked → List PathSegment → NodeKind
kind_of a (_ ∷ _) = section
kind_of a [] = elim a.kind [ none ↦ section | some k ↦ k ]

abbrev pub segment_node : Asked → ℕ → Option String → PathSegment → List PathSegment → NewNode
segment_node a now new_id s rest = record {
  user_id = a.user_id;
  title = title_of a s rest;
  slug = s.slug;
  kind = kind_of a rest;
  existing_id = "";
  new_id = new_id;
  now = now;
}

abbrev pub listed_page : String → NewNode → CreatedPage
listed_page id n = record { id = id; slug = n.slug; title = n.title; kind = n.kind }

module _ {D : Type 0} where
  -- the page of an id at the end
  unfoldable pub resolve_page :
      Option String → List CreatedPage → TreeService D → Check EnsurePathResult
  resolve_page none created t = fail path_not_ensured
  resolve_page (some id) created t = elim (get_node_by_id t id) [
    | none ↦ fail page_not_found
    | some r ↦ pass (record { exists = true; page = r; created = created })
  ]

module _ {D : Type 0} (store : NodeStore D) (generate : TreeService D → Option String)
    (clock : TreeService D → ℕ) where
  -- The loop over the segments, with the id of the last node of the path so far, `none` for the root.
  unfoldable pub ensure_segments :
      Asked
      → Option String
      → List PathSegment
      → TreeService D
      → TreeService D × Check (Option String × List CreatedPage)
  ensure_segments a current [] t = (t, pass (current, []))
  ensure_segments a current (s ∷ rest) t = elim s.exists [
    | true ↦ ensure_segments a s.id rest t
    | false ↦
        let n = segment_node a (clock t) (generate t) s rest in
        let (t1, made) = create_node store (or_empty current) n t in
        elim made [
          | fail e ↦ (t1, fail e)
          | pass r ↦
              let id = (t1.nodes r).id in
              let (t2, more) = ensure_segments a (some id) rest t1 in
              elim more [
                | fail e ↦ (t2, fail e)
                | pass w ↦ (t2, pass (w.0, listed_page id n ∷ w.1))
              ]
        ]
  ]

  -- `EnsurePagePath`
  unfoldable pub ensure_page_path :
      Asked → Text → TreeService D → TreeService D × Check EnsurePathResult
  unfolding ensure_segments resolve_page
  ensure_page_path a p t = elim (lookup_page_path t p) [
    | fail e ↦ (t, fail e)
    | pass l ↦
        if l.exists
        then (t, resolve_page (some (or_empty (last_id l.segments))) [] t)
        else (let (t1, done) = ensure_segments a none l.segments t in
            elim done [ fail e ↦ (t1, fail e) | pass w ↦ (t1, resolve_page w.0 w.1 t1) ])
  ]

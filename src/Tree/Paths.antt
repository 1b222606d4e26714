-- ===== src/Tree/Paths.antt =====
-- page_node.go, path_lookup.go and tree_reads.go: the route paths of nodes, and the lookups along them;
-- tree_mutations.go: `EnsurePagePath`, which creates what is missing on a path.
pub mod Slashed
pub mod Route
pub mod Followed
pub mod Lookup
use leafwiki.Base.{
  ℕ, zero, suc, String, Bool, true, false, not, ◌&&◌, ◌||◌, List, [], ◌∷◌, ◌++◌, Option, none, some,
  ◌==◌, if◌then◌else◌, str_eq,
}
use leafwiki.Base.Text.{Text, codes, text_eq, trim_space}
use leafwiki.Tree.Node.{Ref, NodeKind, section}
use leafwiki.Tree.State.{
  Heap, TreeService, NodeStore, TreeError, Check, pass, fail, ◌>>=◌, ◌>>◌, or_fail, refuse_if,
  tree_not_loaded, page_not_found, read_failed, invalid_path_segment, path_not_ensured,
}
use leafwiki.Tree.Index.{get_node_by_id, find_child_by_slug, find_child_by_slug_exact}
use leafwiki.Tree.Slug.{is_valid_slug, refused}
use leafwiki.Tree.SlugPath.{slash, split}
use leafwiki.Tree.Create.{NewNode, create_node}

abbrev pub is_nil : Text → Bool
is_nil [] = true
is_nil (_ ∷ _) = false

-- `CalculatePath`: the way up, with fuel for each node on it
unfoldable pub calculate_path : ℕ → Heap → Ref → Text
unfolding text_eq
calculate_path zero h r = []
calculate_path (suc f) h r = elim (h r).parent [
  | none ↦ if is_nil (h r).slug || text_eq (h r).slug (codes "root") then [] else (h r).slug
  | some p ↦ calculate_path f h p ++ slash ∷ (h r).slug
]

-- `strings.TrimPrefix(path, "/")`
abbrev pub trim_prefix : Text → Text
trim_prefix [] = []
trim_prefix (c ∷ s) = if c == slash then s else c ∷ s

-- `strings.Trim(path, "/")`
abbrev pub drop_slashes : Text → Text
drop_slashes [] = []
drop_slashes (c ∷ s) = let rest = drop_slashes s in if c == slash then rest else c ∷ s

abbrev pub drop_last_slashes : Text → Text
drop_last_slashes [] = []
drop_last_slashes (c ∷ s) = elim (drop_last_slashes s) [
  | [] ↦ if c == slash then [] else c ∷ []
  | d ∷ t ↦ c ∷ d ∷ t
]

-- `strings.ReplaceAll(path, "//", "/")`
abbrev pub replace_double : Text → Text
replace_double [] = []
replace_double (c ∷ []) = c ∷ []
replace_double (c ∷ d ∷ s) =
    let both = replace_double s in
    let one = replace_double (d ∷ s) in if c == slash && d == slash then slash ∷ both else c ∷ one

pub record PermalinkTarget : Type 0 where
  pub id : String
  pub slug : Text
  pub path : Text

-- What the pointers of the source point to; `none` is nil.
pub record PathSegment : Type 0 where
  pub slug : Text
  pub exists : Bool
  pub kind : Option NodeKind
  pub title : Option Text
  pub id : Option String

pub record PathLookup : Type 0 where
  pub path : Text
  pub segments : List PathSegment
  pub exists : Bool
  pub can_create : Bool

abbrev pub missing : Text → PathSegment
missing slug = record { slug = slug; exists = false; kind = none; title = none; id = none }

abbrev pub present : Heap → Text → Ref → PathSegment
present h slug r = record {
  slug = slug;
  exists = true;
  kind = some (h r).kind;
  title = some (h r).title;
  id = some (h r).id;
}

abbrev pub all_valid : List Text → Bool
all_valid [] = true
all_valid (s ∷ ss) = not (refused (is_valid_slug s)) && all_valid ss

abbrev pub is_bad_part : Text → Bool
is_bad_part s = is_nil s || text_eq s (codes ".") || text_eq s (codes "..")

abbrev pub nothing_found : PathLookup
nothing_found = record { path = []; segments = []; exists = false; can_create = false }

module _ {D : Type 0} where
  -- `HasPages`
  unfoldable pub has_pages : TreeService D → Bool
  has_pages t = elim t.tree [
    | none ↦ false
    | some r ↦ elim (t.nodes r).children [ [] ↦ false | c ∷ cs ↦ true ]
  ]

  -- `FirstRootChildPath`
  unfoldable pub first_root_child_path : TreeService D → Check Text
  first_root_child_path t = elim t.tree [
    | none ↦ fail tree_not_loaded
    | some r ↦ elim (t.nodes r).children [
      | [] ↦ fail page_not_found
      | c ∷ cs ↦ pass (t.nodes c).slug
    ]
  ]

  -- `ResolvePermalinkTarget`
  unfoldable pub resolve_permalink_target : TreeService D → String → Check PermalinkTarget
  unfolding calculate_path
  resolve_permalink_target t id = do
    root ← or_fail tree_not_loaded t.tree
    node ← or_fail page_not_found (get_node_by_id t id)
    pass (record {
      id = (t.nodes node).id;
      slug = (t.nodes node).slug;
      path = trim_prefix (calculate_path t.next t.nodes node);
    })

  -- the loop of `FindPageByRoutePath`
  unfoldable pub follow_route : TreeService D → Ref → List Text → Check Ref
  follow_route t parent [] = pass parent
  follow_route t parent (part ∷ parts) =
      if is_nil part then fail page_not_found else elim (find_child_by_slug_exact t parent part) [
        | none ↦ fail page_not_found
        | some node ↦ follow_route t node parts
      ]

  abbrev pub find_under : TreeService D → Option Ref → Text → Option Ref
  find_under t none part = none
  find_under t (some p) part = find_child_by_slug t p part

  -- The loop of `lookupPagePathLocked` over the parts of the path; the parent is nil from the first
  -- part that is missing.
  unfoldable pub lookup_parts : TreeService D → Option Ref → List Text → Check PathLookup
  lookup_parts t parent [] =
      pass (record { path = []; segments = []; exists = true; can_create = true })
  lookup_parts t parent (part ∷ parts) =
      let found = find_under t parent part in
      let rest = lookup_parts t found parts in
      if is_bad_part part then fail (invalid_path_segment part) else elim rest [
        | fail e ↦ fail e
        | pass l ↦ elim found [
          | some r ↦ pass (record l { segments = present t.nodes part r ∷ l.segments })
          | none ↦ pass (record l {
            segments = missing part ∷ l.segments;
            exists = false;
            can_create = all_valid (part ∷ parts) && l.can_create;
          })
        ]
      ]

  -- `lookupPagePathLocked`, and `LookupPagePath`, which calls it
  unfoldable pub lookup_page_path : TreeService D → Text → Check PathLookup
  unfolding lookup_parts
  lookup_page_path t p = elim t.tree [
    | none ↦ fail tree_not_loaded
    | some root ↦
        let path = drop_last_slashes (drop_slashes (trim_space p)) in
        if is_nil path
        then pass nothing_found
        else (let clean = replace_double path in
            elim (lookup_parts t (some root) (split clean)) [
              | fail e ↦ fail e
              | pass l ↦ pass (record l { path = clean })
            ])
  ]

module _ {D : Type 0} (store : NodeStore D) where
  -- `FindPageByRoutePath`: the node, and its content
  unfoldable pub find_page_by_route_path : TreeService D → Text → Check (Ref × Text)
  unfolding follow_route
  find_page_by_route_path t route_path = do
    root ← or_fail tree_not_loaded t.tree
    node ← follow_route t root (split route_path)
    let (content, err) = store.read_page_content t.nodes node t.disk
    elim err [ some e ↦ fail (read_failed e) | none ↦ pass (node, content) ]

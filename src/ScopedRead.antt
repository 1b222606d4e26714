-- ===== src/ScopedRead.antt =====
-- internal/scopedread: scope.go and page_reader.go, which let a caller see only a part of the wiki.
-- The tree is the interface `PageSource` that the package asks for.
pub mod Shown
use leafwiki.Base.{
  ℕ, String, Bool, true, false, not, ◌||◌, List, [], ◌∷◌, ◌++◌, Option, none, some, leb, ◌&&◌, ◌==◌,
  if◌then◌else◌, str_eq,
}
use leafwiki.Base.Text.{Text, codes, text_eq, trim_space}
use leafwiki.Tree.Node.{NodeKind, page, section, other_kind, PageNode}
use leafwiki.Tree.State.{TreeError, page_not_found, Check, pass, fail}

pub record ReadScope : Type 0 where
  pub root_id : String
  pub include_descendants : Bool

-- `ErrNotFound`, `ErrInvalidScope`, and errors of the tree and of the context that go through
pub data ScopeError : Type 0 where
  not_found invalid_scope : ScopeError
  tree_failed : TreeError → ScopeError
  context_done : String → ScopeError

-- `tree.Page`: the node with its content
pub record Page : Type 0 where
  pub node : PageNode
  pub content : Text
  pub raw_content : Text

pub record PageSource : Type 0 where
  pub is_in_subtree : String → String → Check Bool
  pub get_page : String → Check Page

pub record PageView : Type 0 where
  pub id : String
  pub title : Text
  pub kind : Text
  pub content : Text
  pub updated_at : ℕ

-- `validate`
unfoldable pub validate : ReadScope → Option ScopeError
unfolding trim_space
validate scope =
    let given = codes scope.root_id in
    let root = trim_space given in
    if text_eq root [] || text_eq root (codes "root") || not (text_eq root given)
    then some invalid_scope
    else none

-- `errors.Is(err, tree.ErrPageNotFound)`
abbrev is_not_found : TreeError → Bool
is_not_found page_not_found = true
is_not_found e = false

abbrev hide : TreeError → ScopeError
hide e = if is_not_found e then not_found else tree_failed e

-- `check`
unfoldable pub check : PageSource → ReadScope → String → Option ScopeError
check src scope id =
    if str_eq id ""
    then some not_found
    else if not scope.include_descendants
    then if str_eq id scope.root_id then none else some not_found
    else elim (src.is_in_subtree id scope.root_id) [
      | fail e ↦ some (hide e)
      | pass inside ↦ if inside then none else some not_found
    ]

-- `string(page.Kind)`
abbrev kind_text : NodeKind → Text
kind_text page = codes "page"
kind_text section = codes "section"
kind_text (other_kind s) = codes s

pub data Answer : Type 0 where
  shown : PageView → Answer
  refused : ScopeError → Answer

abbrev view : Page → PageView
view p = record {
  id = p.node.id;
  title = p.node.title;
  kind = kind_text p.node.kind;
  content = p.content;
  updated_at = p.node.metadata.updated_at;
}

-- `PageReader.Page`; the first argument is the error of the context
unfoldable pub read_page : Option String → PageSource → ReadScope → String → Answer
read_page context src scope id = elim context [
  | some e ↦ refused (context_done e)
  | none ↦ elim (validate scope) [
    | some e ↦ refused e
    | none ↦ elim (check src scope id) [
      | some e ↦ refused e
      | none ↦ elim (src.get_page id) [ fail e ↦ refused (hide e) | pass p ↦ shown (view p) ]
    ]
  ]
]

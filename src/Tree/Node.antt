-- ===== src/Tree/Node.antt =====
-- page_node.go: the nodes of the page tree. A `*PageNode` is an address; the objects stand in a
-- heap, so two nodes that point to one object share it. The zero time is 0.
use leafwiki.Base.{ℕ, String, Bool, true, false, List, [], ◌∷◌, Option, str_eq}
use leafwiki.Base.Text.{Text}

abbrev pub Ref : Type 0
Ref = ℕ

pub data NodeKind : Type 0 where
  page section : NodeKind
  other_kind : String → NodeKind

pub record PageMetadata : Type 0 where
  pub created_at : ℕ
  pub updated_at : ℕ
  pub creator_id : String
  pub last_author_id : String

pub record PageNode : Type 0 where
  pub id : String
  pub title : Text
  pub slug : Text
  pub children : List Ref
  pub position : ℕ
  pub parent : Option Ref
  pub pinned : Bool
  pub kind : NodeKind
  pub metadata : PageMetadata

abbrev pub is_section : NodeKind → Bool
is_section section = true
is_section _ = false

abbrev pub is_page : NodeKind → Bool
is_page page = true
is_page _ = false

unfoldable pub has_children : PageNode → Bool
has_children p = elim p.children [ [] ↦ false | _ ∷ _ ↦ true ]

abbrev pub kind_eq : NodeKind → NodeKind → Bool
kind_eq page page = true
kind_eq section section = true
kind_eq (other_kind a) (other_kind b) = str_eq a b
kind_eq _ _ = false

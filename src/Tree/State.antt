-- ===== src/Tree/State.antt =====
-- tree_service.go, errors.go, helpers.go: the state of `TreeService`, its errors, what it asks of
-- the `NodeStore` that writes the files, and the check of a page's version. All methods hold the
-- service's lock from their first read to their return, so each is one step.
use leafwiki.Base.{
  ◌≡◌, refl, ◌⊎◌, inl, inr, ℕ, String, Bool, true, false, List, Option, none, some, ◌==◌,
  if◌then◌else◌, str_eq,
}
use leafwiki.Base.Text.{Text}
use leafwiki.Tree.Node.{Ref, NodeKind, PageNode}

abbrev pub Heap : Type 0
Heap = Ref → PageNode

abbrev pub write : Ref → PageNode → Heap → Heap
write r p h q = if r == q then p else h q

-- The errors of errors.go; a message of the file layer comes with the place that reports it, and
-- with what went wrong in the rollback.
pub data TreeError : Type 0 where
  page_not_found parent_not_found tree_not_loaded page_has_children page_already_exists : TreeError
  move_page_circular_reference page_cannot_be_moved_to_itself invalid_sort_order : TreeError
  duplicate_in_sort_order version_conflict version_required : TreeError
  not_a_section unknown_node_kind id_exists : TreeError
  convert_failed create_failed delete_failed move_failed : String → TreeError
  upsert_failed rename_failed pin_failed read_failed : String → TreeError
  invalid_path_segment : Text → TreeError
  path_not_ensured : TreeError
  child_order_failed source_order_failed destination_order_failed sync_failed : String → TreeError
  rollback_failed : TreeError → List String → TreeError

-- What the service asks of the files. An operation reads the nodes that its arguments point to
-- and those above them, changes the files, and answers with an error's text or none.
-- `ConvertNode` also writes the node's kind, which its flag reports.
pub record NodeStore (D : Type 0) : Type 0 where
  pub create_page : Heap → Ref → Ref → D → D × Option String
  pub create_section : Heap → Ref → Ref → D → D × Option String
  pub delete_page : Heap → Ref → D → D × Option String
  pub delete_section : Heap → Ref → D → D × Option String
  pub convert_node : Heap → Ref → NodeKind → D → D × Bool × Option String
  pub move_node : Heap → Ref → Ref → D → D × Option String
  pub save_child_order : Heap → Ref → D → D × Option String
  pub remove_child_order : Heap → Ref → D → D × Option String
  pub sync_frontmatter_if_exists : Heap → Ref → D → D × Option String
  pub upsert_content : Heap → Ref → Text → D → D × Option String
  pub upsert_content_preserving_frontmatter : Heap → Ref → Text → D → D × Option String
  pub upsert_content_and_metadata :
      Heap → Ref → Text → Option (List Text) → Option (List (Text × Text)) → D → D × Option String
  pub read_page_content : Heap → Ref → D → Text × Option String
  pub rename_node : Heap → Ref → Text → D → D × Option String
  pub set_pinned_frontmatter : Heap → Ref → Bool → D → D × Option String

-- `nodes` is the heap, and the addresses from `next` on are free. An absent key of an index is
-- `none`, and no title is the empty list.
pub record TreeService (D : Type 0) : Type 0 where
  pub nodes : Heap
  pub next : Ref
  pub tree : Option Ref
  pub nodes_by_id : String → Option Ref
  pub nodes_by_title : Text → List Ref
  pub child_slugs : String → Option (Text → Option Ref)
  pub disk : D

abbrev pub root_id : String
root_id = "root"

abbrev pub version_unchecked : String
version_unchecked = "\0"

module _ (format_time : ℕ → String) where
  -- `Version`: the time of the last update in RFC 3339, "" for the zero time
  unfoldable pub version : PageNode → String
  version p = if p.metadata.updated_at == 0 then "" else format_time p.metadata.updated_at

  -- `checkNodeVersion`
  unfoldable pub check_node_version : PageNode → String → Option TreeError
  unfolding version
  check_node_version p expected =
      if str_eq expected version_unchecked
      then none
      else if str_eq (version p) ""
      then none
      else if str_eq expected ""
      then some version_required
      else if str_eq (version p) expected
      then none
      else some version_conflict

-- A result or an error, for the checks in front of a change.
pub data Check {ℓ} (A : Type ℓ) : Type ℓ where
  pass : A → Check A
  fail : TreeError → Check A

infixl 5 ◌>>=◌ ◌>>◌
abbrev pub ◌>>=◌ {ℓ κ} : {A : Type ℓ} {B : Type κ} → Check A → (A → Check B) → Check B
pass a >>= f = f a
fail e >>= f = fail e

abbrev pub ◌>>◌ {ℓ} : {B : Type ℓ} → Check (Unit {0}) → Check B → Check B
m >> k = m >>= λ _. k

abbrev pub or_fail {ℓ} : {A : Type ℓ} → TreeError → Option A → Check A
or_fail e none = fail e
or_fail e (some a) = pass a

abbrev pub refuse_if : Bool → TreeError → Check (Unit {0})
refuse_if true e = fail e
refuse_if false e = pass tt

abbrev pub refuse_some : Option TreeError → Check (Unit {0})
refuse_some none = pass tt
refuse_some (some e) = fail e

pub Check-cases :
    {A : Type 0} (c : Check A) → ((e : TreeError) × (c ≡ fail e)) ⊎ ((a : A) × (c ≡ pass a))
Check-cases (fail e) = inl (e, refl)
Check-cases (pass a) = inr (a, refl)

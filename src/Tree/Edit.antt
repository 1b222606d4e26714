-- ===== src/Tree/Edit.antt =====
-- tree_mutations.go: `UpdateNode`, `ConvertNode` and `SetPinned`, which change a node in its place.
pub mod Sound
pub mod Bulk
pub mod Effect
use leafwiki.Base.{
  ℕ, String, Bool, true, false, not, ◌&&◌, ◌||◌, List, [], ◌∷◌, Option, none, some, if◌then◌else◌,
  str_eq,
}
use leafwiki.Base.Text.{Text, text_eq}
use leafwiki.Tree.Node.{
  Ref, NodeKind, page, section, PageNode, is_section, is_page, kind_eq, has_children,
}
use leafwiki.Tree.State.{
  Heap, write, TreeService, NodeStore, TreeError, Check, pass, fail, ◌>>=◌, ◌>>◌, or_fail,
  refuse_if, refuse_some, check_node_version, tree_not_loaded, page_not_found, page_has_children,
  page_already_exists, upsert_failed, rename_failed, pin_failed, convert_failed, sync_failed,
}
use leafwiki.Tree.Index.{
  get_node_by_id, find_child_by_slug, rebuild_child_slug_index, add_title_index, remove_title_index,
  at_parent,
}
use leafwiki.Tree.Move.{set_kind}

-- `content`, `tags` and `properties` may be nil, which is `none`.
pub record UpdateNodeInput : Type 0 where
  pub user_id : String
  pub id : String
  pub title : Text
  pub slug : Text
  pub content : Option Text
  pub expected_version : String
  pub tags : Option (List Text)
  pub properties : Option (List (Text × Text))
  pub preserve_frontmatter : Bool

abbrev set_slug : Ref → Text → Heap → Heap
set_slug r s h = write r (record (h r) { slug = s }) h

abbrev set_title : Ref → Text → Heap → Heap
set_title r s h = write r (record (h r) { title = s }) h

abbrev set_pin : Ref → Bool → Heap → Heap
set_pin r b h = write r (record (h r) { pinned = b }) h

-- `UpdatedAt` and `LastAuthorID`
abbrev pub stamp : Ref → ℕ → String → Heap → Heap
stamp r now user h =
    write r
      (record (h r) {
        metadata = record (h r).metadata { updated_at = now; last_author_id = user };
      })
      h

abbrev has_value {ℓ} : {A : Type ℓ} → Option A → Bool
has_value none = false
has_value (some a) = true

abbrev pub other_node : Heap → Ref → Option Ref → Bool
other_node h r none = false
other_node h r (some x) = not (str_eq (h x).id (h r).id)

abbrev error_of : (String → TreeError) → Option String → Option TreeError
error_of f none = none
error_of f (some e) = some (f e)

module _ {D : Type 0} where
  -- Is there another node of the slug below the parent of this one?
  unfoldable pub slug_is_taken : TreeService D → Ref → Text → Bool
  slug_is_taken t node slug = elim (t.nodes node).parent [
    | none ↦ false
    | some p ↦
        not (text_eq slug (t.nodes node).slug)
        && other_node t.nodes node (find_child_by_slug t p slug)
  ]

module _ {D : Type 0} (format_time : ℕ → String) where
  -- the node, if the version is the one expected
  unfoldable pub check_edit : TreeService D → String → String → Check Ref
  check_edit t id expected = do
    root ← or_fail tree_not_loaded t.tree
    node ← or_fail page_not_found (get_node_by_id t id)
    refuse_some (check_node_version format_time (t.nodes node) expected)
    pass node

module _ {D : Type 0} (store : NodeStore D) where
  -- the content, in the way that the input asks for
  unfoldable pub write_content :
      Ref → UpdateNodeInput → TreeService D → TreeService D × Option String
  write_content node i t = elim i.content [
    | none ↦ (t, none)
    | some content ↦
        let (d, e) =
          if i.preserve_frontmatter
          then store.upsert_content_preserving_frontmatter t.nodes node content t.disk
          else if has_value i.tags || has_value i.properties
          then store.upsert_content_and_metadata t.nodes node content i.tags i.properties t.disk
          else store.upsert_content t.nodes node content t.disk in
        (record t { disk = d }, e)
  ]

  unfoldable pub change_slug : Ref → Text → TreeService D → TreeService D × Option String
  change_slug node slug t =
      if text_eq slug (t.nodes node).slug
      then (t, none)
      else (let (d, err) = store.rename_node t.nodes node slug t.disk in
          elim err [
            | some e ↦ (record t { disk = d }, some e)
            | none ↦ (
              at_parent rebuild_child_slug_index node
                  (record t { disk = d; nodes = set_slug node slug t.nodes }),
              none,
            )
          ])

  unfoldable pub sync : Ref → TreeService D → TreeService D × Option TreeError
  sync node t =
      let (d, e) = store.sync_frontmatter_if_exists t.nodes node t.disk in
      (record t { disk = d }, error_of sync_failed e)

  -- the title and the metadata
  unfoldable pub retitle : Ref → UpdateNodeInput → ℕ → TreeService D → TreeService D
  retitle node i now t =
      let t1 = remove_title_index node t in
      let t2 = add_title_index node (record t1 { nodes = set_title node i.title t1.nodes }) in
      record t2 { nodes = stamp node now i.user_id t2.nodes }

  -- what follows the checks of `UpdateNode`
  unfoldable pub edit_node :
      Ref → UpdateNodeInput → ℕ → TreeService D → TreeService D × Option TreeError
  edit_node node i now t =
      let (t1, wrote) = write_content node i t in
      elim wrote [
        | some e ↦ (t1, some (upsert_failed e))
        | none ↦
            let (t2, renamed) = change_slug node i.slug t1 in
            elim renamed [
              | some e ↦ (t2, some (rename_failed e))
              | none ↦ sync node (retitle node i now t2)
            ]
      ]

  -- what follows the checks of `ConvertNode`
  unfoldable pub change_kind :
      Ref → String → NodeKind → ℕ → TreeService D → TreeService D × Option TreeError
  change_kind node user kind now t =
      let (d, wrote, err) = store.convert_node t.nodes node kind t.disk in
      elim err [
        | some e ↦ (
          record t { disk = d; nodes = if wrote then set_kind node kind t.nodes else t.nodes },
          some (convert_failed e),
        )
        | none ↦
            sync node
              (record t { disk = d; nodes = stamp node now user (set_kind node kind t.nodes) })
      ]

module _ {D : Type 0} (format_time : ℕ → String) (store : NodeStore D) where
  -- `UpdateNode`
  unfoldable pub update_node :
      UpdateNodeInput → ℕ → TreeService D → TreeService D × Option TreeError
  update_node i now t = elim (check_edit format_time t i.id i.expected_version) [
    | fail e ↦ (t, some e)
    | pass node ↦
        if slug_is_taken t node i.slug
        then (t, some page_already_exists)
        else edit_node store node i now t
  ]

  -- `ConvertNode`
  unfoldable pub convert_node :
      String → String → NodeKind → String → ℕ → TreeService D → TreeService D × Option TreeError
  convert_node user id kind expected now t = elim (check_edit format_time t id expected) [
    | fail e ↦ (t, some e)
    | pass node ↦
        if kind_eq (t.nodes node).kind kind
        then (t, none)
        else if is_section (t.nodes node).kind && is_page kind && has_children (t.nodes node)
        then (t, some page_has_children)
        else change_kind store node user kind now t
  ]

  -- `SetPinned`
  unfoldable pub set_pinned : String → String → Bool → TreeService D → TreeService D × Check Ref
  set_pinned id expected pinned t = elim (check_edit format_time t id expected) [
    | fail e ↦ (t, fail e)
    | pass node ↦
        let (d, err) = store.set_pinned_frontmatter t.nodes node pinned t.disk in
        elim err [
          | some e ↦ (record t { disk = d }, fail (pin_failed e))
          | none ↦ (record t { disk = d; nodes = set_pin node pinned t.nodes }, pass node)
        ]
  ]

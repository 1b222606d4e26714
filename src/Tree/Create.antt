-- ===== src/Tree/Create.antt =====
-- tree_mutations.go: `createNodeLocked`, which makes a page or a section below a parent, with its
-- rollback; `CreateNode` and `RestoreNode` call it. The new object takes the next free address.
pub mod Longer
pub mod Grown
pub mod Attached
pub mod Sound
pub mod Effect
pub mod Restore
use leafwiki.Base.{
  ℕ, suc, String, Bool, true, false, not, ◌&&◌, ◌||◌, List, [], ◌∷◌, ◌++◌, Option, none, some, ◌==◌,
  if◌then◌else◌, str_eq, length,
}
use leafwiki.Base.Text.{Text}
use leafwiki.Tree.Node.{Ref, NodeKind, page, section, other_kind, PageNode, is_section}
use leafwiki.Tree.State.{
  Heap, write, TreeService, NodeStore, TreeError, Check, pass, fail, ◌>>=◌, ◌>>◌, or_fail,
  refuse_if, root_id, tree_not_loaded, parent_not_found, page_already_exists, not_a_section,
  id_exists, convert_failed, create_failed, child_order_failed, rollback_failed,
}
use leafwiki.Tree.Index.{get_node_by_id, find_child_by_slug, index_node, remove_node_index}
use leafwiki.Tree.Positions.{set_children}
use leafwiki.Tree.Move.{set_kind}

-- What is to be created, of which kind once a nil kind is a page; `existing_id` is what `TrimSpace`
-- leaves of the id that is asked for, "" for none, and `new_id` is what `GenerateUniqueID` gives,
-- `none` for an error.
pub record NewNode : Type 0 where
  pub user_id : String
  pub title : Text
  pub slug : Text
  pub kind : NodeKind
  pub existing_id : String
  pub new_id : Option String
  pub now : ℕ

abbrev is_given : Option Ref → Bool
is_given none = false
is_given (some r) = true

abbrev pub new_entry : Heap → Ref → String → NewNode → PageNode
new_entry h parent id n = record {
  id = id;
  title = n.title;
  slug = n.slug;
  children = [];
  position = length (h parent).children;
  parent = some parent;
  pinned = false;
  kind = n.kind;
  metadata = record {
    created_at = n.now;
    updated_at = n.now;
    creator_id = n.user_id;
    last_author_id = n.user_id;
  };
}

module _ {D : Type 0} where
  -- the checks in front of a change, in the order of the code
  unfoldable pub check_create : TreeService D → String → Text → Check Ref
  check_create t parent_id slug = do
    root ← or_fail tree_not_loaded t.tree
    parent ←
        if str_eq parent_id "" || str_eq parent_id root_id
        then pass root
        else or_fail parent_not_found (get_node_by_id t parent_id)
    refuse_if (is_given (find_child_by_slug t parent slug)) page_already_exists
    pass parent

  -- the id of the new node
  unfoldable pub choose_id : TreeService D → NewNode → Check String
  choose_id t n =
      if str_eq n.existing_id ""
      then or_fail (create_failed "could not generate unique ID") n.new_id
      else if is_given (get_node_by_id t n.existing_id)
      then fail id_exists
      else pass n.existing_id

  -- the new object, which nothing points to yet
  unfoldable pub allocate : Ref → String → NewNode → TreeService D → TreeService D
  allocate parent id n t = record t {
    nodes = write t.next (new_entry t.nodes parent id n) t.nodes;
    next = suc t.next;
  }

  -- the new node goes behind the children of its parent
  unfoldable pub attach : Ref → Ref → TreeService D → TreeService D
  attach parent entry t =
      index_node entry
        (record t { nodes = set_children parent ((t.nodes parent).children ++ entry ∷ []) t.nodes })

-- the loop that takes this object out
unfoldable pub remove_ref : Ref → List Ref → List Ref
remove_ref r [] = []
remove_ref r (c ∷ cs) = let rest = remove_ref r cs in if c == r then cs else c ∷ rest

module _ {D : Type 0} where
  unfoldable pub detach : Ref → Ref → TreeService D → TreeService D
  detach parent entry t = remove_node_index entry (record t {
    nodes = set_children parent (remove_ref entry (t.nodes parent).children) t.nodes;
  })

module _ {D : Type 0} (store : NodeStore D) where
  -- A parent that is no section becomes one. The flag says that it was converted.
  unfoldable pub open_parent : Ref → TreeService D → TreeService D × Check Bool
  open_parent parent t =
      if not (is_section (t.nodes parent).kind) && not (str_eq (t.nodes parent).id root_id)
      then (let (d, wrote, err) = store.convert_node t.nodes parent section t.disk in
          elim err [
            | some e ↦ (
              record t {
                disk = d;
                nodes = if wrote then set_kind parent section t.nodes else t.nodes;
              },
              fail (convert_failed e),
            )
            | none ↦ (record t { disk = d; nodes = set_kind parent section t.nodes }, pass true)
          ])
      else if is_section (t.nodes parent).kind
      then (t, pass false)
      else (t, fail not_a_section)

  -- the files of the new node
  unfoldable pub create_files : Ref → Ref → TreeService D → TreeService D × Option String
  create_files parent entry t = elim (t.nodes entry).kind [
    | page ↦
        let (d, e) = store.create_page t.nodes parent entry t.disk in (record t { disk = d }, e)
    | section ↦
        let (d, e) = store.create_section t.nodes parent entry t.disk in (record t { disk = d }, e)
    | other_kind k ↦ (t, none)
  ]

  unfoldable pub delete_created : Ref → TreeService D → TreeService D × Option String
  delete_created entry t = elim (t.nodes entry).kind [
    | page ↦ let (d, e) = store.delete_page t.nodes entry t.disk in (record t { disk = d }, e)
    | section ↦ let (d, e) = store.delete_section t.nodes entry t.disk in (record t { disk = d }, e)
    | other_kind k ↦ (t, none)
  ]

  -- a converted parent without children becomes a page again
  unfoldable pub close_parent : Bool → Ref → TreeService D → TreeService D × Option String
  close_parent converted parent t = elim (t.nodes parent).children [
    | c ∷ cs ↦ (t, none)
    | [] ↦
        if converted
        then (let (d1, e1) = store.remove_child_order t.nodes parent t.disk in
            elim e1 [
              | some e ↦ (record t { disk = d1 }, some e)
              | none ↦
                  let (d2, wrote, e2) = store.convert_node t.nodes parent page d1 in
                  elim e2 [
                    | some e ↦ (
                      record t {
                        disk = d2;
                        nodes = if wrote then set_kind parent page t.nodes else t.nodes;
                      },
                      some e,
                    )
                    | none ↦ (record t { disk = d2; nodes = set_kind parent page t.nodes }, none)
                  ]
            ])
        else (t, none)
  ]

  -- `rollbackCreatedNodeLocked`
  unfoldable pub roll_back_created :
      Bool → Ref → Ref → TreeService D → TreeService D × Option String
  roll_back_created converted parent entry t =
      let (t1, e1) = delete_created entry (detach parent entry t) in
      elim e1 [ some e ↦ (t1, some e) | none ↦ close_parent converted parent t1 ]

  abbrev pub with_message : TreeError → Option String → TreeError
  with_message err none = err
  with_message err (some e) = rollback_failed err (e ∷ [])

  -- what a creation returns: the address of the node, or an error
  unfoldable pub save_created : Bool → Ref → Ref → TreeService D → TreeService D × Check Ref
  save_created converted parent entry t =
      let (d, err) = store.save_child_order t.nodes parent t.disk in
      elim err [
        | none ↦ (record t { disk = d }, pass entry)
        | some e ↦
            let (t1, failed) = roll_back_created converted parent entry (record t { disk = d }) in
            (t1, fail (with_message (child_order_failed e) failed))
      ]

  unfoldable pub place : Bool → Ref → String → NewNode → TreeService D → TreeService D × Check Ref
  place converted parent id n t =
      let entry = t.next in
      let (t1, err) = create_files parent entry (allocate parent id n t) in
      elim err [
        | some e ↦ (t1, fail (create_failed e))
        | none ↦ save_created converted parent entry (attach parent entry t1)
      ]

  unfoldable pub create_below : Ref → NewNode → TreeService D → TreeService D × Check Ref
  create_below parent n t =
      let (t1, opened) = open_parent parent t in
      elim opened [
        | fail e ↦ (t1, fail e)
        | pass converted ↦ elim (choose_id t1 n) [
          | fail e ↦ (t1, fail e)
          | pass id ↦ place converted parent id n t1
        ]
      ]

  -- `createNodeLocked`; the parent "" or "root" is the root
  unfoldable pub create_node : String → NewNode → TreeService D → TreeService D × Check Ref
  create_node parent_id n t = elim (check_create t parent_id n.slug) [
    | fail e ↦ (t, fail e)
    | pass parent ↦ create_below parent n t
  ]

-- ===== src/Tree/Move.antt =====
-- tree_mutations.go: `MoveNodeToPosition`, with its checks and its rollback.
pub mod Lists
pub mod Frame
pub mod Restore
pub mod Relinked
pub mod Effect
mod Linked
pub mod Sound
pub mod Checks
pub mod Atomic
use leafwiki.Base.{
  ℕ, zero, suc, ◌+◌, String, Bool, true, false, not, ◌&&◌, ◌||◌, List, [], ◌∷◌, ◌++◌, Option, none,
  some, ltb, ◌==◌, if◌then◌else◌, str_eq, length,
}
use leafwiki.Base.Int.{ℤ, pos, negsuc}
use leafwiki.Tree.Node.{Ref, NodeKind, section, page, PageNode, PageMetadata, is_section, is_page}
use leafwiki.Tree.State.{
  Heap, write, TreeService, NodeStore, TreeError, Check, pass, fail, ◌>>=◌, ◌>>◌, or_fail,
  refuse_if, refuse_some, root_id, check_node_version, page_not_found, parent_not_found,
  tree_not_loaded, page_already_exists, move_page_circular_reference,
  page_cannot_be_moved_to_itself, not_a_section, convert_failed, move_failed, source_order_failed,
  destination_order_failed, sync_failed, rollback_failed,
}
use leafwiki.Tree.Index.{get_node_by_id, find_child_by_slug, is_child_of, rebuild_child_slug_index}
use leafwiki.Tree.Positions.{
  set_children, reindex_positions, snapshot_child_positions, restore_child_snapshot,
}

-- the loop that takes the first child of this id out
unfoldable pub remove_child : Heap → String → List Ref → List Ref
remove_child h id [] = []
remove_child h id (c ∷ cs) =
    let rest = remove_child h id cs in if str_eq (h c).id id then cs else c ∷ rest

-- `append`, `copy` and the write at `insertAt`, which is at most the length
unfoldable pub insert_nth : ℕ → Ref → List Ref → List Ref
insert_nth zero r cs = r ∷ cs
insert_nth (suc n) r [] = r ∷ []
insert_nth (suc n) r (c ∷ cs) = c ∷ insert_nth n r cs

unfoldable pub insert_at : ℤ → ℕ → ℕ
insert_at (pos n) len = if ltb n len then n else len
insert_at (negsuc n) len = len

abbrev pub set_kind : Ref → NodeKind → Heap → Heap
set_kind r k h = write r (record (h r) { kind = k }) h

-- `errors.Join` on the messages of a rollback
abbrev pub note : Option String → List String → List String
note none es = es
note (some e) es = es ++ e ∷ []

abbrev pub with_rollback : TreeError → List String → TreeError
with_rollback err [] = err
with_rollback err (e ∷ es) = rollback_failed err (e ∷ es)

-- The node, its parent, and the parent that it is to have.
pub record Route : Type 0 where
  pub node : Ref
  pub from : Ref
  pub to : Ref

abbrev pub conflicts : Heap → String → Option Ref → Bool
conflicts h id none = false
conflicts h id (some c) = not (str_eq (h c).id id)

module _ {D : Type 0} (format_time : ℕ → String) where
  abbrev destination : TreeService D → Ref → String → Check Ref
  destination t root parent_id =
      if str_eq parent_id "" || str_eq parent_id root_id
      then pass root
      else or_fail parent_not_found (get_node_by_id t parent_id)

  -- the checks, in the order of the code
  unfoldable pub check_move : TreeService D → String → String → String → Check Route
  check_move t id parent_id expected = do
    root ← or_fail tree_not_loaded t.tree
    node ← or_fail page_not_found (get_node_by_id t id)
    refuse_some (check_node_version format_time (t.nodes node) expected)
    from ← or_fail parent_not_found (t.nodes node).parent
    to ← destination t root parent_id
    refuse_if (conflicts t.nodes (t.nodes node).id (find_child_by_slug t to (t.nodes node).slug))
        page_already_exists
    refuse_if (str_eq (t.nodes node).id (t.nodes to).id) page_cannot_be_moved_to_itself
    refuse_if (is_child_of t.next t.nodes node (t.nodes to).id true) move_page_circular_reference
    pass (record { node = node; from = from; to = to })

module _ {D : Type 0} where
  -- the changes in memory, after the files have moved
  unfoldable pub relink : String → ℕ → ℤ → Route → TreeService D → TreeService D
  relink user_id now position r t =
      let node = r.node in
      let id = (t.nodes node).id in
      let h1 = set_children r.from (remove_child t.nodes id (t.nodes r.from).children) t.nodes in
      let at = insert_at position (length (h1 r.to).children) in
      let h2 = set_children r.to (insert_nth at node (h1 r.to).children) h1 in
      let h3 = write node (record (h2 node) { position = at; parent = some r.to }) h2 in
      let t' =
        rebuild_child_slug_index r.to (rebuild_child_slug_index r.from (record t { nodes = h3 })) in
      let touched = record (t'.nodes node).metadata {
        updated_at = now;
        last_author_id = user_id;
      } in
      let h4 = write node (record (t'.nodes node) { metadata = touched }) t'.nodes in
      record t' { nodes = reindex_positions r.from (reindex_positions r.to h4) }

  -- `rollbackMovedNodeLocked`: the nodes in memory as they are in `before`, and the files as far
  -- as the store allows. `before` holds what the snapshots of the code hold.
  unfoldable pub relink_back : Heap → Route → TreeService D → TreeService D
  relink_back before r t =
      let old = (before r.from).children in
      let new = (before r.to).children in
      let h1 = restore_child_snapshot r.from old (snapshot_child_positions before old) t.nodes in
      let h2 =
        if r.to == r.from
        then h1
        else restore_child_snapshot r.to new (snapshot_child_positions before new) h1 in
      let t1 = rebuild_child_slug_index r.from (record t { nodes = h2 }) in
      let t2 = if r.to == r.from then t1 else rebuild_child_slug_index r.to t1 in
      record t2 {
        nodes =
            write r.node
              (record (t2.nodes r.node) {
                parent = some r.from;
                position = (before r.node).position;
                metadata = (before r.node).metadata;
              })
              t2.nodes;
      }

module _ {D : Type 0} (store : NodeStore D) where
  open store use {
    convert_node, move_node, save_child_order, remove_child_order, sync_frontmatter_if_exists,
  }

  -- A page that is to get a child becomes a section first. The flag says that it was converted.
  unfoldable pub make_section : Ref → TreeService D → TreeService D × Check Bool
  make_section to t =
      if not (str_eq (t.nodes to).id root_id) && is_page (t.nodes to).kind
      then (let (disk, wrote, err) = convert_node t.nodes to section t.disk in
          let t' = record t {
            disk = disk;
            nodes = if wrote then set_kind to section t.nodes else t.nodes;
          } in
          elim err [
            | some e ↦ (t', fail (convert_failed e))
            | none ↦ (record t' { nodes = set_kind to section t'.nodes }, pass true)
          ])
      else if is_section (t.nodes to).kind
      then (t, pass false)
      else (t, fail not_a_section)

  -- the converted parent becomes a page again if it has no children
  unfoldable pub unmake_section :
      Bool → Ref → List String → TreeService D → TreeService D × List String
  unmake_section converted to es t = elim (t.nodes to).children [
    | c ∷ cs ↦ (t, es)
    | [] ↦
        if converted && not (str_eq (t.nodes to).id root_id)
        then (let (d1, e1) = remove_child_order t.nodes to t.disk in
            let (d2, wrote, e2) = convert_node t.nodes to page d1 in
            elim e2 [
              | some e ↦ (
                record t { disk = d2; nodes = if wrote then set_kind to page t.nodes else t.nodes },
                note (some e) (note e1 es),
              )
              | none ↦ (record t { disk = d2; nodes = set_kind to page t.nodes }, note e1 es)
            ])
        else (t, es)
  ]

  unfoldable pub restore_orders : Route → List String → TreeService D → TreeService D × List String
  restore_orders r es t =
      let (d1, e1) = save_child_order t.nodes r.from t.disk in
      let t1 = record t { disk = d1 } in
      if not (r.to == r.from) && is_section (t.nodes r.to).kind
      then (let (d2, e2) = save_child_order t.nodes r.to d1 in
          (record t { disk = d2 }, note e2 (note e1 es)))
      else (t1, note e1 es)

  unfoldable pub roll_back :
      Heap → Bool → Route → TreeError → TreeService D → TreeService D × Option TreeError
  roll_back before converted r err t =
      let (d, e) = move_node t.nodes r.node r.from t.disk in
      let back = relink_back before r (record t { disk = d }) in
      let (t1, es1) = unmake_section converted r.to (note e []) back in
      let (t2, es2) = restore_orders r es1 t1 in (t2, some (with_rollback err es2))

  -- the saves after the change; the first that fails rolls the move back
  unfoldable pub persist : Heap → Bool → Route → TreeService D → TreeService D × Option TreeError
  persist before converted r t =
      let (d1, e1) = save_child_order t.nodes r.from t.disk in
      elim e1 [
        | some e ↦ roll_back before converted r (source_order_failed e) (record t { disk = d1 })
        | none ↦
            let (d2, e2) : D × Option String =
              if r.to == r.from then (d1, none) else save_child_order t.nodes r.to d1 in
            elim e2 [
              | some e ↦
                  roll_back before converted r (destination_order_failed e) (record t { disk = d2 })
              | none ↦
                  let (d3, e3) = sync_frontmatter_if_exists t.nodes r.node d2 in
                  elim e3 [
                    | some e ↦ roll_back before converted r (sync_failed e) (record t { disk = d3 })
                    | none ↦ (record t { disk = d3 }, none)
                  ]
            ]
      ]

  -- what follows the checks
  unfoldable pub carry_out :
      String → ℕ → ℤ → Route → TreeService D → TreeService D × Option TreeError
  carry_out user_id now position r t =
      let (t1, made) = make_section r.to t in
      elim made [
        | fail e ↦ (t1, some e)
        | pass converted ↦
            let (d, err) = move_node t1.nodes r.node r.to t1.disk in
            elim err [
              | some e ↦ (record t1 { disk = d }, some (move_failed e))
              | none ↦
                  persist t1.nodes converted r
                    (relink user_id now position r (record t1 { disk = d }))
            ]
      ]

module _ {D : Type 0} (format_time : ℕ → String) (store : NodeStore D) where
  -- `MoveNodeToPosition`; `now` is the clock
  unfoldable pub move_node_to_position :
      String → String → String → String → ℤ → ℕ → TreeService D → TreeService D × Option TreeError
  move_node_to_position user_id id parent_id expected position now t =
      elim (check_move format_time t id parent_id expected) [
        | fail e ↦ (t, some e)
        | pass r ↦ carry_out store user_id now position r t
      ]

  -- `MoveNode`
  unfoldable pub move_node :
      String → String → String → String → ℕ → TreeService D → TreeService D × Option TreeError
  move_node user_id id parent_id expected now t =
      move_node_to_position user_id id parent_id expected (negsuc 0) now t

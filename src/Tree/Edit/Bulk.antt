-- ===== src/Tree/Edit/Bulk.antt =====
-- tree_mutations.go: `BulkUpdateContent`, which writes the contents of many pages, in parallel, under
-- one lock. The writes run in an order that is an argument of the model.
pub mod Effect
use leafwiki.Base.{ℕ, suc, String, List, [], ◌∷◌, Option, none, some, if◌then◌else◌, ◌==◌}
use leafwiki.Base.Text.{Text}
use leafwiki.Tree.Node.{Ref, PageMetadata}
use leafwiki.Tree.State.{
  Heap, write, TreeService, NodeStore, TreeError, tree_not_loaded, page_not_found, upsert_failed,
}
use leafwiki.Tree.Index.{get_node_by_id}
use leafwiki.Tree.Edit.{stamp}

pub record BulkContentUpdate : Type 0 where
  pub id : String
  pub content : Text

pub record Task : Type 0 where
  pub index : ℕ
  pub node : Ref
  pub content : Text
  pub old_metadata : PageMetadata

-- The errors by index; `none` is nil.
abbrev pub Errors : Type 0
Errors = ℕ → Option TreeError

abbrev pub put_error : ℕ → TreeError → Errors → Errors
put_error i e errs j = if i == j then some e else errs j

abbrev pub no_errors : Errors
no_errors i = none

-- the tasks, the nodes with the new time and author, and the errors of the ids without a node
pub record Prepared : Type 0 where
  pub tasks : List Task
  pub nodes : Heap
  pub errors : Errors

module _ {D : Type 0} (user : String) (now : ℕ) (t : TreeService D) where
  -- The loop before the writes. The index is not changed by it.
  unfoldable pub prepare : ℕ → List BulkContentUpdate → Heap → Prepared
  prepare i [] h = record { tasks = []; nodes = h; errors = no_errors }
  prepare i (u ∷ us) h = elim (get_node_by_id t u.id) [
    | none ↦
        let rest = prepare (suc i) us h in
        record rest { errors = put_error i page_not_found rest.errors }
    | some node ↦
        let rest = prepare (suc i) us (stamp node now user h) in
        record rest {
          tasks =
              record {
                index = i;
                node = node;
                content = u.content;
                old_metadata = (h node).metadata;
              }
              ∷ rest.tasks;
        }
  ]

module _ {D : Type 0} (store : NodeStore D) where
  -- the writes, one after the other, with the nodes that all of them read
  unfoldable pub write_all : Heap → List Task → D → Errors → D × Errors
  write_all h [] d errs = (d, errs)
  write_all h (k ∷ ks) d errs =
      let (d1, err) = store.upsert_content h k.node k.content d in
      elim err [
        | none ↦ write_all h ks d1 errs
        | some e ↦ write_all h ks d1 (put_error k.index (upsert_failed e) errs)
      ]

-- The last loop: a page that could not be written gets its metadata back.
unfoldable pub take_back : Errors → List Task → Heap → Heap
take_back errs [] h = h
take_back errs (k ∷ ks) h = elim (errs k.index) [
  | none ↦ take_back errs ks h
  | some e ↦ take_back errs ks (write k.node (record (h k.node) { metadata = k.old_metadata }) h)
]

module _ {D : Type 0} (store : NodeStore D) (order : List Task → List Task) where
  -- `BulkUpdateContent`
  unfoldable pub bulk_update_content :
      String → List BulkContentUpdate → ℕ → TreeService D → TreeService D × Errors
  unfolding prepare write_all take_back
  bulk_update_content user us now t = elim t.tree [
    | none ↦ (t, λ i. some tree_not_loaded)
    | some root ↦
        let p = prepare user now t 0 us t.nodes in
        let (d, errs) = write_all store p.nodes (order p.tasks) t.disk p.errors in
        (record t { disk = d; nodes = take_back errs p.tasks p.nodes }, errs)
  ]

-- ===== src/Tree/Edit/Bulk/Effect.antt =====
-- What a `BulkUpdateContent` does to the nodes.
use leafwiki.Base.{
  ℕ, suc, ◌≡◌, refl, ap, inl, inr, String, Bool, false, not, ◌&&◌, ◌||◌, List, [], ◌∷◌, Option,
  none, some, arith, if◌then◌else◌, ◌==◌, ==_iff, Option-cases,
}
use leafwiki.Base.Members.{mem, NoRepeat}
use leafwiki.Tree.Node.{Ref, PageNode, PageMetadata}
use leafwiki.Tree.State.{Heap, write, TreeService, NodeStore, page_not_found}
use leafwiki.Tree.Index.{get_node_by_id}
use leafwiki.Tree.Alike.{Alike, Alike-fields}
use leafwiki.Tree.Edit.{stamp}
use leafwiki.Tree.Edit.Effect.{stamped}
use leafwiki.Tree.Edit.Bulk.{
  BulkContentUpdate, Task, Errors, put_error, no_errors, Prepared, prepare, take_back,
  bulk_update_content,
}

abbrev pub nodes_of : List Task → List Ref
nodes_of [] = []
nodes_of (k ∷ ks) = k.node ∷ nodes_of ks

-- Is this the node of a task without an error?
abbrev pub is_written : Errors → List Task → Ref → Bool
is_written errs [] x = false
is_written errs (k ∷ ks) x = elim (errs k.index) [
  | none ↦ k.node == x || is_written errs ks x
  | some e ↦ is_written errs ks x
]

-- the metadata that the first failed task of a node puts back
abbrev failed_old : Errors → List Task → Ref → Option PageMetadata
failed_old errs [] x = none
failed_old errs (k ∷ ks) x = elim (errs k.index) [
  | none ↦ failed_old errs ks x
  | some e ↦ if k.node == x then some k.old_metadata else failed_old errs ks x
]

abbrev with_old : PageNode → Option PageMetadata → PageNode
with_old p none = p
with_old p (some m) = record p { metadata = m }

module _ {D : Type 0} (user : String) (now : ℕ) (t : TreeService D) (errs : Errors) where
  -- Each node of a task is stamped, and the task has the metadata from before.
  abbrev IsPrepared : Heap → Ref → Prepared → Type 0
  IsPrepared h x p =
      NoRepeat (nodes_of p.tasks)
      → (p.nodes x ≡ (if mem x (nodes_of p.tasks) then stamped now user (h x) else h x))
        × (failed_old errs p.tasks x ≡ (
            if mem x (nodes_of p.tasks) && not (is_written errs p.tasks x)
            then some (h x).metadata
            else none))

  abbrev with_task : ℕ → BulkContentUpdate → Heap → Ref → Prepared → Prepared
  with_task i u h r rest = record rest {
    tasks =
        record { index = i; node = r; content = u.content; old_metadata = (h r).metadata }
        ∷ rest.tasks;
  }

  prepare-none :
      (i : ℕ) (u : BulkContentUpdate) (us : List BulkContentUpdate) (h : Heap)
      → get_node_by_id t u.id ≡ none
      → prepare user now t i (u ∷ us) h ≡ record (prepare user now t (suc i) us h) {
        errors = put_error i page_not_found (prepare user now t (suc i) us h).errors;
      }
  unfolding prepare
  prepare-none i u us h p = ground (arith, p)

  prepare-some :
      (i : ℕ) (u : BulkContentUpdate) (us : List BulkContentUpdate) (h : Heap) (r : Ref)
      → get_node_by_id t u.id ≡ some r
      → prepare user now t i (u ∷ us) h
        ≡ with_task i u h r (prepare user now t (suc i) us (stamp r now user h))
  unfolding prepare
  prepare-some i u us h r p = ground (arith, p)

module _ {D : Type 0} (store : NodeStore D) (order : List Task → List Task) (user : String)
    (us : List BulkContentUpdate) (now : ℕ) (t : TreeService D) where
  abbrev pub tasks : List Task
  tasks = (prepare user now t 0 us t.nodes).tasks

  abbrev pub bulk : TreeService D × Errors
  bulk = bulk_update_content store order user us now t

  take_back_same :
      (errs : Errors) (ks : List Task) (h : Heap) (x : Ref)
      → take_back errs ks h x ≡ record (h x) { metadata = (take_back errs ks h x).metadata }
  unfolding take_back
  take_back_same errs [] h x = refl
  take_back_same errs (k ∷ ks) h x =
      let h' = write k.node (record (h k.node) { metadata = k.old_metadata }) h in
      ground (arith, take_back_same errs ks h x, take_back_same errs ks h' x, ==_iff k.node x)

  prepare_same :
      (i : ℕ) (vs : List BulkContentUpdate) (h : Heap) (x : Ref)
      → (prepare user now t i vs h).nodes x
        ≡ record (h x) { metadata = ((prepare user now t i vs h).nodes x).metadata }
  prepare_same i [] h x = unfold prepare in refl
  prepare_same i (u ∷ vs) h x = elim (Option-cases (get_node_by_id t u.id)) [
    | inl p ↦
        ground (arith, prepare-none user now t no_errors i u vs h p, prepare_same (suc i) vs h x)
    | inr (r, p) ↦ ground (
      arith,
      prepare-some user now t no_errors i u vs h r p,
      prepare_same (suc i) vs (stamp r now user h) x,
      ==_iff r x,
    )
  ]

  -- Nothing but metadata changes.
  bulk_same :
      (x : Ref) → bulk.0.nodes x ≡ record (t.nodes x) { metadata = (bulk.0.nodes x).metadata }
  bulk_same x = elim (Option-cases t.tree) [
    | inl p ↦ unfold bulk_update_content in ground (arith, p)
    | inr (root, p) ↦
        let nodes : bulk.0.nodes ≡ take_back bulk.1 tasks (prepare user now t 0 us t.nodes).nodes =
          unfold bulk_update_content in ground (arith, p) in
        ground (
          arith,
          nodes,
          take_back_same bulk.1 tasks (prepare user now t 0 us t.nodes).nodes x,
          prepare_same 0 us t.nodes x,
        )
  ]

  pub bulk_update_content-Alike : Alike t bulk.0
  bulk_update_content-Alike =
      Alike-fields (unfold bulk_update_content in ground arith) (λ x. ap (λ n. n.id) (bulk_same x))
        (λ x. ap (λ n. n.parent) (bulk_same x)) (λ x. ap (λ n. n.children) (bulk_same x))

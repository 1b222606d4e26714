-- ===== src/Tree/Create/Restore.antt =====
-- tree_mutations.go: `RestoreNode`, which makes a page of a given id with its content and metadata.
pub mod Effect
use leafwiki.Base.{◌≡◌, subst, sym, String, none, some, arith, inl, inr}
use leafwiki.Base.Text.{Text}
use leafwiki.Tree.Node.{Ref, PageMetadata}
use leafwiki.Tree.State.{
  write, TreeService, NodeStore, Check, pass, fail, Check-cases, upsert_failed, sync_failed,
}
use leafwiki.Tree.Invariant.{IsSoundTree}
use leafwiki.Tree.Alike.{Alike, Alike-fields, IsSoundTree-Alike}
use leafwiki.Tree.Create.{NewNode, create_node}
use leafwiki.Tree.Create.Sound.{IsFresh, create_node-IsSoundTree}

-- `trim` is `strings.TrimSpace`.
abbrev pub trimmed : (String → String) → PageMetadata → PageMetadata
trimmed trim m = record m { creator_id = trim m.creator_id; last_author_id = trim m.last_author_id }

module _ {D : Type 0} (trim : String → String) (store : NodeStore D) where
  -- what follows the creation
  unfoldable pub fill : Ref → Text → PageMetadata → TreeService D → TreeService D × Check Ref
  fill r content m t =
      let (d, err) = store.upsert_content t.nodes r content t.disk in
      elim err [
        | some e ↦ (record t { disk = d }, fail (upsert_failed e))
        | none ↦
            let h = write r (record (t.nodes r) { metadata = trimmed trim m }) t.nodes in
            let (d2, err2) = store.sync_frontmatter_if_exists h r d in
            elim err2 [
              | some e ↦ (record t { disk = d2; nodes = h }, fail (sync_failed e))
              | none ↦ (record t { disk = d2; nodes = h }, pass r)
            ]
      ]

  -- `RestoreNode`; the id is the one that the new node asks for
  unfoldable pub restore_node :
      String → NewNode → Text → PageMetadata → TreeService D → TreeService D × Check Ref
  unfolding fill
  restore_node parent_id n content m t =
      let (t1, made) = create_node store parent_id n t in
      elim made [ fail e ↦ (t1, fail e) | pass r ↦ fill r content m t1 ]

  fill-Alike :
      (r : Ref) (content : Text) (m : PageMetadata) (t : TreeService D)
      → Alike t (fill r content m t).0
  unfolding fill
  fill-Alike r content m t =
      Alike-fields (ground arith) (λ x. ground arith) (λ x. ground arith) (λ x. ground arith)

  pub restore_node-IsSoundTree :
      (parent_id : String) (n : NewNode) (content : Text) (m : PageMetadata) (t : TreeService D)
      → IsSoundTree t
      → IsFresh t n
      → IsSoundTree (restore_node parent_id n content m t).0
  restore_node-IsSoundTree parent_id n content m t sound fresh =
      let made = create_node store parent_id n t in
      let good : IsSoundTree made.0 = create_node-IsSoundTree store n t sound fresh parent_id in
      elim (Check-cases made.1) [
        | inl (e, p) ↦
            let same : restore_node parent_id n content m t ≡ (made.0, fail e) =
              unfold restore_node in ground (arith, p) in
            subst (λ s. IsSoundTree s.0) (sym same) good
        | inr (r, p) ↦
            let same : restore_node parent_id n content m t ≡ fill r content m made.0 =
              unfold restore_node in ground (arith, p) in
            subst (λ s. IsSoundTree s.0) (sym same)
              (IsSoundTree-Alike (fill-Alike r content m made.0) good)
      ]

-- ===== src/Tree/Create/Restore/Effect.antt =====
-- What a `RestoreNode` that returns no error has done.
use leafwiki.Base.{◌≡◌, sym, ap, subst, ◌∙◌, String, arith, inl, inr, ==_iff}
use leafwiki.Base.Text.{Text}
use leafwiki.Tree.Node.{Ref, PageMetadata}
use leafwiki.Tree.State.{TreeService, NodeStore, pass, Check-cases}
use leafwiki.Tree.Invariant.{IsSoundTree}
use leafwiki.Tree.Create.{NewNode, create_node}
use leafwiki.Tree.Create.Sound.{IsFresh}
use leafwiki.Tree.Create.Effect.{IsCreated, create_effect}
use leafwiki.Tree.Edit.Effect.{IsReplaced}
use leafwiki.Tree.Create.Restore.{trimmed, fill, restore_node}

module _ {D : Type 0} (trim : String → String) (store : NodeStore D) where
  fill_replaces :
      (r x : Ref) (content : Text) (m : PageMetadata) (t : TreeService D)
      → (fill trim store r content m t).1 ≡ pass x
      → (r ≡ x)
        × IsReplaced t
            (fill trim store r content m t).0
            r
            (record (t.nodes r) { metadata = trimmed trim m })
  unfolding fill
  fill_replaces r x content m t e = (
    ground (arith, e),
    record { now_is = ground (arith, e); others = λ y o. ground (arith, e, o, ==_iff r y) },
  )

  -- A `RestoreNode` of a sound tree that returns a node has created it as `createNodeLocked` does, with
  -- the id that was asked for, and given it the metadata that was asked for, the names in them without
  -- space around them; every other node is as after the creation.
  pub restore_effect :
      (parent_id : String) (n : NewNode) (content : Text) (m : PageMetadata) (t : TreeService D)
      (r : Ref)
      → IsSoundTree t
      → IsFresh t n
      → (restore_node trim store parent_id n content m t).1 ≡ pass r
      → IsCreated t (create_node store parent_id n t).0 parent_id n r
        × IsReplaced
            (create_node store parent_id n t).0
            (restore_node trim store parent_id n content m t).0
            r
            (record ((create_node store parent_id n t).0.nodes r) { metadata = trimmed trim m })
  restore_effect parent_id n content m t r sound fresh ok =
      let made = create_node store parent_id n t in
      elim (Check-cases made.1) [
        | inl (e, p) ↦ absurd (unfold restore_node in ground (arith, p, ok))
        | inr (x, p) ↦
            let same : restore_node trim store parent_id n content m t
                ≡ fill trim store x content m made.0 =
              unfold restore_node in ground (arith, p) in
            let (own, k) = fill_replaces x r content m made.0 (sym (ap (λ s. s.1) same) ∙ ok) in
            (
              create_effect store n t sound fresh parent_id r (p ∙ ap pass own),
              subst
                  (λ s.
                    IsReplaced made.0 s.0 r (record (made.0.nodes r) { metadata = trimmed trim m }))
                  (sym same)
                  (subst
                    (λ y.
                      IsReplaced made.0 (fill trim store x content m made.0).0 y
                        (record (made.0.nodes y) { metadata = trimmed trim m }))
                    own k),
            )
      ]

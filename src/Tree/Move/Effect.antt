-- ===== src/Tree/Move/Effect.antt =====
-- What `carry_out` leaves behind: the nodes after a success, and the index of the ids always.
use leafwiki.Base.{
  ℕ, ◌≡◌, refl, inl, inr, String, Bool, true, false, List, [], Option, none, arith, ◌==◌,
  if◌then◌else◌, Option-cases,
}
use leafwiki.Base.Int.{ℤ}
use leafwiki.Tree.Node.{Ref}
use leafwiki.Tree.State.{
  Heap, TreeService, TreeError, NodeStore, source_order_failed, destination_order_failed,
  sync_failed,
}
use leafwiki.Tree.Index.{rebuild_child_slug_index}
use leafwiki.Tree.Alike.{SameIndex}
use leafwiki.Tree.Move.{
  Route, make_section, unmake_section, restore_orders, relink, relink_back, roll_back, persist,
  carry_out, note,
}
use leafwiki.Tree.Move.Frame.{nodes-relink}
use leafwiki.Tree.Move.Relinked.{relinked}

module _ {D : Type 0} where
  relink-SameIndex :
      (user_id : String) (now : ℕ) (position : ℤ) (r : Route) (t : TreeService D)
      → SameIndex t (relink user_id now position r t)
  unfolding relink rebuild_child_slug_index
  relink-SameIndex user_id now position r t = record {
    same_ids = refl;
    same_tree = refl;
    same_next = refl;
  }

  relink_back-SameIndex :
      (before : Heap) (r : Route) (t : TreeService D) → SameIndex t (relink_back before r t)
  unfolding relink_back rebuild_child_slug_index
  relink_back-SameIndex before r t = ground arith

module _ {D : Type 0} (store : NodeStore D) where
  make_section-SameIndex : (to : Ref) (t : TreeService D) → SameIndex t (make_section store to t).0
  unfolding make_section
  make_section-SameIndex to t = ground arith

  unmake_section-SameIndex :
      (converted : Bool) (to : Ref) (es : List String) (t : TreeService D)
      → SameIndex t (unmake_section store converted to es t).0
  unfolding unmake_section
  unmake_section-SameIndex converted to es t = ground arith

  restore_orders-SameIndex :
      (r : Route) (es : List String) (t : TreeService D)
      → SameIndex t (restore_orders store r es t).0
  unfolding restore_orders
  restore_orders-SameIndex r es t = ground arith

  roll_back-SameIndex :
      (before : Heap) (converted : Bool) (r : Route) (err : TreeError) (t : TreeService D)
      → SameIndex t (roll_back store before converted r err t).0
  unfolding roll_back
  roll_back-SameIndex before converted r err t =
      let (d, e) = store.move_node t.nodes r.node r.from t.disk in
      let back = relink_back before r (record t { disk = d }) in
      let (t1, es) = unmake_section store converted r.to (note e []) back in
      ground (
        arith,
        relink_back-SameIndex before r (record t { disk = d }),
        unmake_section-SameIndex converted r.to (note e []) back,
        restore_orders-SameIndex r es t1,
      )

  module _ (before : Heap) (converted : Bool) (r : Route) (t : TreeService D) where
    persist-SameIndex : SameIndex t (persist store before converted r t).0
    unfolding persist
    persist-SameIndex =
        let (d1, e1) = store.save_child_order t.nodes r.from t.disk in
        let (d2, e2) : D × Option String =
          if r.to == r.from then (d1, none) else store.save_child_order t.nodes r.to d1 in
        let (d3, e3) = store.sync_frontmatter_if_exists t.nodes r.node d2 in
        let back = λ (f : TreeError) (d : D).
          roll_back-SameIndex before converted r f (record t { disk = d }) in
        elim (Option-cases e1) [
          | inr (m, p) ↦ ground (arith, p, back (source_order_failed m) d1)
          | inl p ↦ elim (Option-cases e2) [
            | inr (m, q) ↦ ground (arith, p, q, back (destination_order_failed m) d2)
            | inl q ↦ elim (Option-cases e3) [
              | inr (m, s) ↦ ground (arith, p, q, s, back (sync_failed m) d3)
              | inl s ↦ ground (arith, p, q, s)
            ]
          ]
        ]

    -- Only a rollback writes a node, and it always comes with an error.
    persist-nodes :
        (persist store before converted r t).1 ≡ none
        → (persist store before converted r t).0.nodes ≡ t.nodes
    unfolding persist roll_back
    persist-nodes e = ground arith

  module _ (user_id : String) (now : ℕ) (position : ℤ) (r : Route) (t : TreeService D) where
    pub carry_out-SameIndex : SameIndex t (carry_out store user_id now position r t).0
    unfolding carry_out
    carry_out-SameIndex =
        let (t1, made) = make_section store r.to t in
        let (d, err) = store.move_node t1.nodes r.node r.to t1.disk in
        let t2 = relink user_id now position r (record t1 { disk = d }) in
        ground (
          arith,
          make_section-SameIndex r.to t,
          relink-SameIndex user_id now position r (record t1 { disk = d }),
          persist-SameIndex t1.nodes true r t2,
          persist-SameIndex t1.nodes false r t2,
        )

    -- The nodes after a move that returns no error.
    pub carry_out-relinked :
        (carry_out store user_id now position r t).1 ≡ none
        → (carry_out store user_id now position r t).0.nodes
          ≡ relinked user_id now position r (make_section store r.to t).0.nodes
    unfolding carry_out
    carry_out-relinked e =
        let (t1, made) = make_section store r.to t in
        let (d, err) = store.move_node t1.nodes r.node r.to t1.disk in
        let t2 = relink user_id now position r (record t1 { disk = d }) in
        ground (
          arith,
          nodes-relink user_id now position r (record t1 { disk = d }),
          persist-nodes t1.nodes true r t2,
          persist-nodes t1.nodes false r t2,
        )

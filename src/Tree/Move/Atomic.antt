-- ===== src/Tree/Move/Atomic.antt =====
-- A move that returns an error leaves the nodes as they were.
use leafwiki.Base.{
  ℕ, ◌≡◌, ◌⊎◌, inl, inr, refl, sym, subst, String, Bool, true, List, [], Option, none, some, arith,
  ◌==◌, if◌then◌else◌, Option-cases,
}
use leafwiki.Base.Int.{ℤ}
use leafwiki.Tree.Node.{Ref, PageNode, page, section}
use leafwiki.Tree.State.{
  Heap, TreeService, TreeError, Check, NodeStore, pass, fail, source_order_failed,
  destination_order_failed, sync_failed,
}
use leafwiki.Tree.Invariant.{IsLinked}
use leafwiki.Tree.Move.Checks.{check_move-IsSound}
use leafwiki.Tree.Move.{
  Route, make_section, unmake_section, restore_orders, relink, relink_back, roll_back, persist,
  carry_out, check_move, move_node_to_position, note,
}
use leafwiki.Tree.Move.Frame.{IsNear, numbered_nodes, nodes-relink, relinked-Near}
use leafwiki.Tree.Move.Restore.{IsSound, nodes-relink_back}

-- A node is as it was, or was a page and is a section now.
abbrev pub SameNode : PageNode → PageNode → Type 0
SameNode p q = (q ≡ p) ⊎ ((p.kind ≡ page) × (q ≡ record p { kind = section }))

module _ {D : Type 0} (store : NodeStore D) (to : Ref) (t : TreeService D) where
  -- What `make_section` did, by its answer.
  pub make_section-SameNode : (x : Ref) → SameNode (t.nodes x) ((make_section store to t).0.nodes x)
  unfolding make_section
  make_section-SameNode x = ground arith

module _ {D : Type 0} (store : NodeStore D) (r : Route) (h before : Heap) (converted : Bool)
    (made : (x : Ref) → SameNode (h x) (before x))
    (was_page : converted ≡ true → (h r.to).kind ≡ page) where
  unmake_section-SameNode :
      (es : List String) (t : TreeService D) (x : Ref)
      → SameNode (h x) (t.nodes x)
      → SameNode (h x) ((unmake_section store converted r.to es t).0.nodes x)
  unfolding unmake_section
  unmake_section-SameNode es t x s = ground (arith, was_page)

  nodes-restore_orders :
      (es : List String) (t : TreeService D) → (restore_orders store r es t).0.nodes ≡ t.nodes
  unfolding restore_orders
  nodes-restore_orders es t = ground arith

  roll_back-SameNode :
      (err : TreeError) (t : TreeService D) (x : Ref)
      → IsSound before r
      → IsNear r (numbered_nodes r before) before t.nodes
      → SameNode (h x) ((roll_back store before converted r err t).0.nodes x)
  unfolding roll_back
  roll_back-SameNode err t x sound near =
      let (d, e) = store.move_node t.nodes r.node r.from t.disk in
      let back = relink_back before r (record t { disk = d }) in
      let (t1, es) = unmake_section store converted r.to (note e []) back in
      subst (λ (n : Heap). SameNode (h x) (n x)) (sym (nodes-restore_orders es t1))
        (unmake_section-SameNode (note e []) back x (
          subst (SameNode (h x))
            (sym (nodes-relink_back before r (record t { disk = d }) x sound near)) (made x)))

  persist-SameNode :
      (t : TreeService D) (x : Ref) (err : TreeError)
      → IsSound before r
      → IsNear r (numbered_nodes r before) before t.nodes
      → (persist store before converted r t).1 ≡ some err
      → SameNode (h x) ((persist store before converted r t).0.nodes x)
  unfolding persist
  persist-SameNode t x err sound near e =
      let (d1, e1) = store.save_child_order t.nodes r.from t.disk in
      let (d2, e2) : D × Option String =
        if r.to == r.from then (d1, none) else store.save_child_order t.nodes r.to d1 in
      let (d3, e3) = store.sync_frontmatter_if_exists t.nodes r.node d2 in
      let back =
        λ (f : TreeError) (d : D). roll_back-SameNode f (record t { disk = d }) x sound near in
      elim (Option-cases e1) [
        | inr (m, p) ↦ ground (arith, p, back (source_order_failed m) d1)
        | inl p ↦ elim (Option-cases e2) [
          | inr (m, q) ↦ ground (arith, p, q, back (destination_order_failed m) d2)
          | inl q ↦ elim (Option-cases e3) [
            | inr (m, s) ↦ ground (arith, p, q, s, back (sync_failed m) d3)
            | inl s ↦ ground (arith, p, q, s)
          ]
        ]
      ]

module _ {D : Type 0} (store : NodeStore D) (r : Route) (t : TreeService D) where
  make_section-was_page :
      (converted : Bool)
      → (make_section store r.to t).1 ≡ pass converted
      → converted ≡ true
      → (t.nodes r.to).kind ≡ page
  unfolding make_section
  make_section-was_page converted e c = ground arith

-- Changing kinds keeps a route sound.
IsSound-SameNode :
    (r : Route) (h h' : Heap) → ((x : Ref) → SameNode (h x) (h' x)) → IsSound h r → IsSound h' r
IsSound-SameNode r h h' s i = record {
  node_parent = ground (arith, s r.node, i.node_parent);
  from_owns = λ c m. ground (arith, s r.from, s c, i.from_owns c);
  to_owns = λ c m. ground (arith, s r.to, s c, i.to_owns c);
  from_ids = λ c d m n e. ground (arith, s r.from, s c, s d, i.from_ids c d);
  to_ids = λ c d m n e. ground (arith, s r.to, s c, s d, i.to_ids c d);
}

pub carry_out-SameNode :
    {D : Type 0} (store : NodeStore D) (user_id : String) (now : ℕ) (position : ℤ) (r : Route)
    (t : TreeService D) (x : Ref) (err : TreeError)
    → IsSound t.nodes r
    → (carry_out store user_id now position r t).1 ≡ some err
    → SameNode (t.nodes x) ((carry_out store user_id now position r t).0.nodes x)
unfolding carry_out
carry_out-SameNode store user_id now position r t x err sound e =
    go (make_section store r.to t).1 refl
  where
    made : (x : Ref) → SameNode (t.nodes x) ((make_section store r.to t).0.nodes x)
    made x = make_section-SameNode store r.to t x

    go :
        (c : Check Bool)
        → (make_section store r.to t).1 ≡ c
        → SameNode (t.nodes x) ((carry_out store user_id now position r t).0.nodes x)
    go (fail f) p = ground (arith, p, made x)
    go (pass converted) p =
        let t1 = (make_section store r.to t).0 in
        let (d, moved) = store.move_node t1.nodes r.node r.to t1.disk in
        let t2 = relink user_id now position r (record t1 { disk = d }) in
        let kept =
          persist-SameNode store r t.nodes t1.nodes converted made
            (make_section-was_page store r t converted p) t2 x err
            (IsSound-SameNode r t.nodes t1.nodes made sound)
            (rw (nodes-relink user_id now position r (record t1 { disk = d }))
              (relinked-Near user_id now position r t1.nodes)) in
        ground (arith, p, made x, kept)

-- When a move in a linked tree returns an error, every node is as it was, fields and children in
-- their order included, but for a page that became a section on the way.
pub move_atomic :
    {D : Type 0} (format_time : ℕ → String) (store : NodeStore D)
    (user_id id parent_id expected : String) (position : ℤ) (now : ℕ) (t : TreeService D)
    (err : TreeError)
    → IsLinked t
    → (move_node_to_position format_time store user_id id parent_id expected position now t).1
      ≡ some err
    → (x : Ref)
    → SameNode (t.nodes x) (
        (move_node_to_position format_time store user_id id parent_id expected position now
            t).0.nodes
          x)
unfolding move_node_to_position
move_atomic format_time store user_id id parent_id expected position now t err l e x =
    go (check_move format_time t id parent_id expected) refl
  where
    go :
        (c : Check Route)
        → check_move format_time t id parent_id expected ≡ c
        → SameNode (t.nodes x) (
            (move_node_to_position format_time store user_id id parent_id expected position now
                t).0.nodes
              x)
    go (fail f) p = inl (ground (arith, p))
    go (pass r) p = ground (
      arith,
      p,
      carry_out-SameNode store user_id now position r t x err
          (check_move-IsSound format_time t id parent_id expected r p l),
    )

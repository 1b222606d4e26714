-- ===== src/Tree/Move/Sound.antt =====
-- `MoveNodeToPosition` as a whole: what it keeps, and what it does when it returns no error.
use leafwiki.Base.{
  ℕ, ◌≡◌, refl, String, not, ◌||◌, ◌&&◌, Option, none, some, arith, ◌==◌, if◌then◌else◌,
}
use leafwiki.Base.Members.{mem}
use leafwiki.Base.Int.{ℤ}
use leafwiki.Tree.Node.{Ref}
use leafwiki.Tree.State.{TreeService, TreeError, NodeStore, Check, pass, fail}
use leafwiki.Tree.Invariant.{IsSoundTree}
use leafwiki.Tree.Alike.{SameIndex, IsSoundTree-Alike}
use leafwiki.Tree.Move.{Route, check_move, make_section, carry_out, move_node_to_position}
use leafwiki.Tree.Move.Checks.{IsCleared, check_move-IsCleared, check_move-IsSound}
use leafwiki.Tree.Move.Effect.{carry_out-SameIndex, carry_out-relinked}
use leafwiki.Tree.Move.Atomic.{SameNode, make_section-SameNode, carry_out-SameNode}
use leafwiki.Tree.Move.Linked.{
  Alike-SameNode, IsLinked-moved, IsGrounded-moved, new_parent, new_children,
}

module _ {D : Type 0} (format_time : ℕ → String) (store : NodeStore D)
    (user_id id parent_id expected : String) (position : ℤ) (now : ℕ) (t : TreeService D) where
  abbrev result : TreeService D × Option TreeError
  result = move_node_to_position format_time store user_id id parent_id expected position now t

  module _ (sound : IsSoundTree t) (r : Route)
      (passed : check_move format_time t id parent_id expected ≡ pass r) where
    abbrev ran : TreeService D × Option TreeError
    ran = carry_out store user_id now position r t

    cleared : IsCleared format_time t id parent_id expected r
    cleared = check_move-IsCleared format_time t id parent_id expected r passed

    same : SameIndex t ran.0
    same = carry_out-SameIndex store user_id now position r t

    made : (x : Ref) → SameNode (t.nodes x) ((make_section store r.to t).0.nodes x)
    made x = make_section-SameNode store r.to t x

    ran-IsSoundTree : IsSoundTree ran.0
    ran-IsSoundTree = go ran.1 refl
      where
        go : (e : Option TreeError) → ran.1 ≡ e → IsSoundTree ran.0
        go (some err) p =
            let kept = λ (x : Ref).
              carry_out-SameNode store user_id now position r t x err
                (check_move-IsSound format_time t id parent_id expected r passed sound.linked) p in
            IsSoundTree-Alike (Alike-SameNode same kept) sound
        go none p =
            let moved = carry_out-relinked store user_id now position r t p in
            let h = (make_section store r.to t).0.nodes in
            record {
              linked =
                  IsLinked-moved format_time t id parent_id expected r sound.linked cleared h made
                    ran.0 same user_id now position moved;
              grounded =
                  IsGrounded-moved format_time t id parent_id expected r sound.linked cleared h made
                    ran.0 same user_id now position moved sound.grounded;
            }

    ran_effect :
        ran.1 ≡ none
        → ((x : Ref)
            → (ran.0.nodes x).parent ≡ (if x == r.node then some r.to else (t.nodes x).parent))
          × ((p x : Ref)
              → mem x (ran.0.nodes p).children ≡ (
                  if p == r.to
                  then x == r.node || mem x (t.nodes p).children
                  else mem x (t.nodes p).children && not (x == r.node)))
    ran_effect e =
        let moved = carry_out-relinked store user_id now position r t e in
        let h = (make_section store r.to t).0.nodes in
        (
          new_parent format_time t id parent_id expected r sound.linked cleared h made ran.0 same
              user_id now position moved,
          new_children format_time t id parent_id expected r sound.linked cleared h made ran.0 same
              user_id now position moved,
        )

  -- Whatever a move returns, and whatever the files do, a sound tree stays sound: no node comes to
  -- stand above itself, and links and index keep agreeing.
  pub move-IsSoundTree : IsSoundTree t → IsSoundTree result.0
  unfolding move_node_to_position
  move-IsSoundTree sound = go (check_move format_time t id parent_id expected) refl
    where
      go :
          (c : Check Route)
          → check_move format_time t id parent_id expected ≡ c
          → IsSoundTree result.0
      go (fail e) p = rw (p, move_node_to_position) sound
      go (pass r) p = rw (p, move_node_to_position) (ran-IsSoundTree sound r p)

  -- A move of a sound tree that returns no error has found the node, checked its version, and made
  -- it a child of the requested parent and of no other node; all other nodes keep their parents,
  -- and all lists of children the other nodes in them.
  pub move_effect :
      IsSoundTree t
      → result.1 ≡ none
      → (r : Route) × IsCleared format_time t id parent_id expected r
        × ((x : Ref)
            → (result.0.nodes x).parent ≡ (if x == r.node then some r.to else (t.nodes x).parent))
        × ((p x : Ref)
            → mem x (result.0.nodes p).children ≡ (
                if p == r.to
                then x == r.node || mem x (t.nodes p).children
                else mem x (t.nodes p).children && not (x == r.node)))
  unfolding move_node_to_position
  move_effect sound = go (check_move format_time t id parent_id expected) refl
    where
      go :
          (c : Check Route)
          → check_move format_time t id parent_id expected ≡ c
          → result.1 ≡ none
          → (r : Route) × IsCleared format_time t id parent_id expected r
            × ((x : Ref)
                → (result.0.nodes x).parent
                  ≡ (if x == r.node then some r.to else (t.nodes x).parent))
            × ((p x : Ref)
                → mem x (result.0.nodes p).children ≡ (
                    if p == r.to
                    then x == r.node || mem x (t.nodes p).children
                    else mem x (t.nodes p).children && not (x == r.node)))
      go (fail e) p ok = absurd (ground (arith, p))
      go (pass r) p ok =
          let effect = ran_effect sound r p (ground (arith, p)) in
          (
            r,
            check_move-IsCleared format_time t id parent_id expected r p,
            rw (p, move_node_to_position) effect.0,
            rw (p, move_node_to_position) effect.1,
          )

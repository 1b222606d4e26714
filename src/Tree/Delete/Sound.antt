-- ===== src/Tree/Delete/Sound.antt =====
-- `DeleteNode` keeps a tree sound, and takes out a node with all that is below it.
use leafwiki.Base.{
  ℕ, zero, suc, ◌≡◌, refl, sym, ap, ◌∙◌, fun_ext, String, Bool, true, false, not, ◌||◌, ◌&&◌,
  Option, none, some, arith, str_eq, some_of, Option-cases, inl, inr, if◌then◌else◌,
}
use leafwiki.Tree.Node.{Ref, has_children}
use leafwiki.Tree.State.{
  Heap, TreeService, NodeStore, TreeError, Check, pass, fail, check_node_version,
}
use leafwiki.Tree.Index.{get_node_by_id, is_child_of}
use leafwiki.Tree.Invariant.{IsSoundTree}
use leafwiki.Tree.Alike.{Alike, Alike-fields, Alike-same, IsSoundTree-Alike}
use leafwiki.Tree.Registered.{found-IsRegistered}
use leafwiki.Tree.Delete.{Doomed, check_delete, delete_files, unlink, remove_node, delete_node}
use leafwiki.Tree.Delete.Unlinked.{unlink-IsSoundTree, unlink-get}

-- What the checks in front of a deletion let through.
pub record IsDeletable {D : Type 0} (format_time : ℕ → String) (t : TreeService D) (id : String)
    (recursive : Bool) (expected : String) (r : Doomed) : Type 0 where
  pub found : get_node_by_id t id ≡ some r.node
  pub current : check_node_version format_time (t.nodes r.node) expected ≡ none
  pub allowed : (has_children (t.nodes r.node) && not recursive) ≡ false
  pub under : (t.nodes r.node).parent ≡ some r.parent
  pub loaded : (root : Ref) × (t.tree ≡ some root)

check_delete-IsDeletable :
    {D : Type 0} (format_time : ℕ → String) (t : TreeService D) (id : String) (recursive : Bool)
    (expected : String) (r : Doomed)
    → check_delete format_time t id recursive expected ≡ pass r
    → IsDeletable format_time t id recursive expected r
unfolding check_delete
check_delete-IsDeletable format_time t id recursive expected r e = record {
  found = ground arith;
  current = ground arith;
  allowed = ground arith;
  under = ground arith;
  loaded = elim (Option-cases t.tree) [ inl p ↦ absurd (ground (arith, p)) | inr w ↦ w ];
}

-- The walk down reads ids and children alone.
is_child_of_same :
    (h g : Heap)
    → ((x : Ref) → (g x).id ≡ (h x).id)
    → ((x : Ref) → (g x).children ≡ (h x).children)
    → (f : ℕ) (r : Ref) (id : String) → is_child_of f g r id true ≡ is_child_of f h r id true
unfolding is_child_of
is_child_of_same h g i c zero r id = refl
is_child_of_same h g i c (suc f) r id = rw (c r) (
    ap (λ p. some_of p (h r).children)
      (fun_ext (λ x. rw (i x, is_child_of_same h g i c f x id) refl)))

module _ {D : Type 0} (store : NodeStore D) (node : Ref) (t : TreeService D) where
  -- Of a node the files may only change the kind.
  delete_files-Alike : Alike t (delete_files store node t).0
  unfolding delete_files
  delete_files-Alike =
      Alike-fields (ground arith) (λ x. ground arith) (λ x. ground arith) (λ x. ground arith)

  delete_files_children :
      (x : Ref) → ((delete_files store node t).0.nodes x).children ≡ (t.nodes x).children
  unfolding delete_files
  delete_files_children x = ground arith

module _ {D : Type 0} (format_time : ℕ → String) (store : NodeStore D) (id : String)
    (recursive : Bool) (expected : String) (t : TreeService D) (sound : IsSoundTree t) where
  module _ (r : Doomed) (c : IsDeletable format_time t id recursive expected r) where
    abbrev gone : TreeService D × Option TreeError
    gone = delete_files store r.node t

    abbrev ran : TreeService D × Option TreeError
    ran = remove_node store id r t

    kept : Alike t gone.0
    kept = delete_files-Alike store r.node t

    gone-IsSoundTree : IsSoundTree gone.0
    gone-IsSoundTree = IsSoundTree-Alike kept sound

    found : get_node_by_id gone.0 id ≡ some r.node
    found = kept.same_get id ∙ c.found

    under : (gone.0.nodes r.node).parent ≡ some r.parent
    under = kept.same_parent r.node ∙ c.under

    loaded : gone.0.tree ≡ some c.loaded.0
    loaded = kept.same_tree ∙ c.loaded.1

    fuel : (f : ℕ) × (gone.0.next ≡ suc f)
    fuel = go gone.0.next refl
      where
        go : (n : ℕ) → gone.0.next ≡ n → (f : ℕ) × (gone.0.next ≡ suc f)
        go zero e = absurd (
            omega (
              arith,
              e,
              gone-IsSoundTree.linked.allocated r.node
                  (found-IsRegistered gone.0 gone-IsSoundTree.linked id r.node found),
            ))
        go (suc f) e = (f, e)

    failed-Alike : (e : TreeError) → gone.1 ≡ some e → Alike gone.0 ran.0
    failed-Alike e p =
        Alike-same (unfold remove_node in ground (arith, p))
          (λ x. unfold remove_node in ground (arith, p))

    passed-Alike : gone.1 ≡ none → Alike (unlink id r gone.0) ran.0
    passed-Alike p =
        Alike-same (unfold remove_node in ground (arith, p))
          (λ x. unfold remove_node in ground (arith, p))

    ran-IsSoundTree : IsSoundTree ran.0
    ran-IsSoundTree = elim (Option-cases gone.1) [
      | inr (e, p) ↦ IsSoundTree-Alike (failed-Alike e p) gone-IsSoundTree
      | inl p ↦ IsSoundTree-Alike (passed-Alike p) (
          unlink-IsSoundTree gone.0 gone-IsSoundTree id r c.loaded.0 found under loaded fuel.0
            fuel.1)
    ]

    ran_get :
        ran.1 ≡ none
        → (i : String) (x : Ref) → get_node_by_id t i ≡ some x
        → get_node_by_id ran.0 i ≡ (
            if str_eq i (t.nodes r.node).id || is_child_of t.next t.nodes r.node i true
            then none
            else some x)
    ran_get e i x g = elim (Option-cases gone.1) [
      | inr (m, p) ↦ absurd (unfold remove_node in ground (arith, p, e))
      | inl p ↦
          let cut =
            unlink-get gone.0 gone-IsSoundTree id r c.loaded.0 found under loaded fuel.0 fuel.1 i x
              (kept.same_get i ∙ g) in
          ground (
            arith,
            cut,
            (passed-Alike p).same_get i,
            kept.same_id r.node,
            kept.same_next,
            is_child_of_same t.nodes gone.0.nodes kept.same_id
                (delete_files_children store r.node t) t.next r.node i,
          )
    ]

  abbrev result : TreeService D × Option TreeError
  result = delete_node format_time store id recursive expected t

  pub delete_node-IsSoundTree : IsSoundTree result.0
  unfolding delete_node
  delete_node-IsSoundTree = go (check_delete format_time t id recursive expected) refl
    where
      go :
          (c : Check Doomed)
          → check_delete format_time t id recursive expected ≡ c
          → IsSoundTree result.0
      go (fail e) p = rw (p, delete_node) sound
      go (pass r) p =
          rw (p, delete_node)
            (ran-IsSoundTree r (check_delete-IsDeletable format_time t id recursive expected r p))

  -- A `DeleteNode` of a sound tree that returns no error has found the node, checked its version, and
  -- that it has no children if it is not to delete them; and of the nodes of the tree it has taken
  -- the node out of the index with all that stands below it, and no other.
  pub delete_effect :
      result.1 ≡ none
      → (r : Doomed) × IsDeletable format_time t id recursive expected r
        × ((i : String) (x : Ref)
            → get_node_by_id t i ≡ some x
            → get_node_by_id result.0 i ≡ (
                if str_eq i (t.nodes r.node).id || is_child_of t.next t.nodes r.node i true
                then none
                else some x))
  delete_effect = go (check_delete format_time t id recursive expected) refl
    where
      go :
          (c : Check Doomed)
          → check_delete format_time t id recursive expected ≡ c
          → result.1 ≡ none
          → (r : Doomed) × IsDeletable format_time t id recursive expected r
            × ((i : String) (x : Ref)
                → get_node_by_id t i ≡ some x
                → get_node_by_id result.0 i ≡ (
                    if str_eq i (t.nodes r.node).id || is_child_of t.next t.nodes r.node i true
                    then none
                    else some x))
      go (fail f) p ok = absurd (unfold delete_node in ground (arith, p))
      go (pass r) p ok =
          let c = check_delete-IsDeletable format_time t id recursive expected r p in
          let same : result ≡ remove_node store id r t = unfold delete_node in ground (arith, p) in
          (
            r,
            c,
            λ i x g.
                ap (λ s. get_node_by_id s.0 i) same
                ∙ ran_get r c (sym (ap (λ s. s.1) same) ∙ ok) i x g,
          )

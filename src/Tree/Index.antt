-- ===== src/Tree/Index.antt =====
-- tree_index.go: the indexes of the tree, and the walks over it. A walk takes fuel, one for each
-- level that it goes down or up.
use leafwiki.Base.{
  ℕ, zero, suc, String, Bool, true, false, not, ◌&&◌, ◌||◌, List, [], ◌∷◌, ◌++◌, Option, none, some,
  if◌then◌else◌, str_eq, keep, some_of,
}
use leafwiki.Base.Text.{Text, to_lower, text_eq, equal_fold}
use leafwiki.Tree.Node.{Ref}
use leafwiki.Tree.State.{
  Heap, TreeService, Check, pass, fail, tree_not_loaded, page_not_found, root_id,
}

abbrev pub first_of_refs : (Ref → Bool) → List Ref → Option Ref
first_of_refs p [] = none
first_of_refs p (r ∷ rs) = if p r then some r else first_of_refs p rs

-- `m[key] = v` on the maps of the service
abbrev pub put_id {ℓ} : {A : Type ℓ} → String → A → (String → A) → String → A
put_id key v m k = if str_eq key k then v else m k

abbrev pub put_text {ℓ} : {A : Type ℓ} → Text → A → (Text → A) → Text → A
put_text key v m k = if text_eq key k then v else m k

-- the index of a parent's children by lower-case slug: a later child overwrites an earlier one
unfoldable pub slug_index : Heap → List Ref → (Text → Option Ref) → Text → Option Ref
slug_index h [] index = index
slug_index h (c ∷ cs) index = slug_index h cs (put_text (to_lower (h c).slug) (some c) index)

module _ {D : Type 0} where
  -- `getNodeByIDLocked`
  unfoldable pub get_node_by_id : TreeService D → String → Option Ref
  get_node_by_id t id =
      if str_eq id "" then none else if str_eq id root_id then t.tree else t.nodes_by_id id

  -- `FindPageByID`
  unfoldable pub find_page_by_id : TreeService D → String → Check Ref
  find_page_by_id t id = elim t.tree [
    | none ↦ fail tree_not_loaded
    | some r ↦ elim (get_node_by_id t id) [ none ↦ fail page_not_found | some n ↦ pass n ]
  ]

  -- `rebuildChildSlugIndexForParentLocked`
  unfoldable pub rebuild_child_slug_index : Ref → TreeService D → TreeService D
  unfolding slug_index
  rebuild_child_slug_index parent t = record t {
    child_slugs =
        put_id (t.nodes parent).id (some (slug_index t.nodes (t.nodes parent).children (λ s. none)))
          t.child_slugs;
  }

  -- `addTitleIndexForNodeLocked`
  unfoldable pub add_title_index : Ref → TreeService D → TreeService D
  add_title_index r t = elim (t.nodes r).title [
    | [] ↦ t
    | c ∷ s ↦
        let key = to_lower (c ∷ s) in
        record t { nodes_by_title = put_text key (t.nodes_by_title key ++ r ∷ []) t.nodes_by_title }
  ]

  -- `removeTitleIndexForNodeLocked`
  unfoldable pub remove_title_index : Ref → TreeService D → TreeService D
  remove_title_index r t = elim (t.nodes r).title [
    | [] ↦ t
    | c ∷ s ↦
        let key = to_lower (c ∷ s) in
        record t {
          nodes_by_title =
              put_text key
                (keep (λ q. not (str_eq (t.nodes q).id (t.nodes r).id)) (t.nodes_by_title key))
                t.nodes_by_title;
        }
  ]

  abbrev pub at_parent : (Ref → TreeService D → TreeService D) → Ref → TreeService D → TreeService D
  at_parent f r t = elim (t.nodes r).parent [ none ↦ t | some p ↦ f p t ]

  -- `indexNodeLocked`
  unfoldable pub index_node : Ref → TreeService D → TreeService D
  unfolding add_title_index rebuild_child_slug_index
  index_node r t =
      let id = (t.nodes r).id in
      let named =
        if not (str_eq id "") && not (str_eq id root_id)
        then add_title_index r (record t { nodes_by_id = put_id id (some r) t.nodes_by_id })
        else t in
      at_parent rebuild_child_slug_index r (rebuild_child_slug_index r named)

  -- one round of the walk in `removeNodeIndexLocked`
  unfoldable pub forget : Ref → TreeService D → TreeService D
  unfolding remove_title_index
  forget r t =
      let id = (t.nodes r).id in
      remove_title_index r (record t {
        nodes_by_id = put_id id none t.nodes_by_id;
        child_slugs = put_id id none t.child_slugs;
      })

  abbrev pub for_each :
      (Ref → TreeService D → TreeService D) → List Ref → TreeService D → TreeService D
  for_each f [] t = t
  for_each f (r ∷ rs) t = for_each f rs (f r t)

  unfoldable pub forget_subtree : ℕ → Ref → TreeService D → TreeService D
  unfolding forget
  forget_subtree zero r t = t
  forget_subtree (suc f) r t = for_each (forget_subtree f) (t.nodes r).children (forget r t)

  -- `removeNodeIndexLocked`
  unfoldable pub remove_node_index : Ref → TreeService D → TreeService D
  unfolding forget_subtree rebuild_child_slug_index
  remove_node_index r t = at_parent rebuild_child_slug_index r (forget_subtree t.next r t)

  -- `findChildBySlugInParentLocked`
  unfoldable pub find_child_by_slug : TreeService D → Ref → Text → Option Ref
  find_child_by_slug t parent slug = elim (t.child_slugs (t.nodes parent).id) [
    | some index ↦ index (to_lower slug)
    | none ↦ first_of_refs (λ c. equal_fold (t.nodes c).slug slug) (t.nodes parent).children
  ]

  -- `findChildBySlugExactInParentLocked`
  unfoldable pub find_child_by_slug_exact : TreeService D → Ref → Text → Option Ref
  find_child_by_slug_exact t parent slug =
      first_of_refs (λ c. text_eq (t.nodes c).slug slug) (t.nodes parent).children

-- `IsChildOf`: does a child, or with `recursive` any node below, have this id?
unfoldable pub is_child_of : ℕ → Heap → Ref → String → Bool → Bool
unfolding some_of
is_child_of zero h r id recursive = false
is_child_of (suc f) h r id recursive =
    some_of (λ c. str_eq (h c).id id || (recursive && is_child_of f h c id recursive))
      (h r).children

-- the loop of `IsInSubtree`: is the node, or one above it, the one of this id?
unfoldable pub climbs_to : ℕ → Heap → Ref → String → Bool
climbs_to zero h r id = false
climbs_to (suc f) h r id =
    let above : Bool = elim (h r).parent [ none ↦ false | some p ↦ climbs_to f h p id ] in
    if str_eq (h r).id id then true else above

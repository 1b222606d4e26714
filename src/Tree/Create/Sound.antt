-- ===== src/Tree/Create/Sound.antt =====
-- `createNodeLocked` keeps a tree sound, whatever it returns.
use leafwiki.Base.{
  ◌≡◌, ◌≢◌, refl, sym, ap, subst, ◌∙◌, inl, inr, String, Bool, ◌||◌, Option, none, some, arith,
  str_eq, eq_iff, Bool-cases, Option-cases, if◌then◌else◌,
}
use leafwiki.Tree.Node.{Ref}
use leafwiki.Tree.State.{TreeService, NodeStore, Check, pass, fail, root_id}
use leafwiki.Tree.Index.{get_node_by_id, find_child_by_slug}
use leafwiki.Tree.Invariant.{IsSoundTree}
use leafwiki.Tree.Alike.{Alike, Alike-fields, Alike-same, Alike-trans, IsSoundTree-Alike}
use leafwiki.Tree.Registered.{target-IsRegistered}
use leafwiki.Tree.Create.{
  NewNode, check_create, choose_id, allocate, attach, detach, open_parent, create_files,
  delete_created, close_parent, roll_back_created, save_created, place, create_below, create_node,
}
use leafwiki.Tree.Create.Longer.{longer-IsSoundTree}
use leafwiki.Tree.Create.Grown.{grown-IsSoundTree}
use leafwiki.Tree.Create.Attached.{
  longer, grown, back, allocate-IsLonger, attach-IsGrown, detach-IsLonger,
}

module _ {D : Type 0} (store : NodeStore D) (t : TreeService D) where
  open_parent-Alike : (parent : Ref) → Alike t (open_parent store parent t).0
  unfolding open_parent
  open_parent-Alike parent =
      Alike-fields (ground arith) (λ x. ground arith) (λ x. ground arith) (λ x. ground arith)

  create_files_disk :
      (parent entry : Ref)
      → (create_files store parent entry t).0
        ≡ record t { disk = (create_files store parent entry t).0.disk }
  unfolding create_files
  create_files_disk parent entry = ground arith

  delete_created-Alike : (entry : Ref) → Alike t (delete_created store entry t).0
  unfolding delete_created
  delete_created-Alike entry = Alike-same (ground arith) (λ x. ground arith)

  close_parent-Alike :
      (converted : Bool) (parent : Ref) → Alike t (close_parent store converted parent t).0
  unfolding close_parent
  close_parent-Alike converted parent =
      Alike-fields (ground arith) (λ x. ground arith) (λ x. ground arith) (λ x. ground arith)

module _ {D : Type 0} (store : NodeStore D) (t : TreeService D) where
  roll_back_created-Alike :
      (converted : Bool) (parent entry : Ref)
      → Alike (detach parent entry t) (roll_back_created store converted parent entry t).0
  unfolding roll_back_created
  roll_back_created-Alike converted parent entry =
      go (delete_created store entry (detach parent entry t)).1 refl
    where
      go :
          (e : Option String)
          → (delete_created store entry (detach parent entry t)).1 ≡ e
          → Alike (detach parent entry t) (roll_back_created store converted parent entry t).0
      go (some e) p =
          rw (p, roll_back_created) (delete_created-Alike store (detach parent entry t) entry)
      go none p =
          rw (p, roll_back_created)
            (Alike-trans (delete_created-Alike store (detach parent entry t) entry) (
              close_parent-Alike store (delete_created store entry (detach parent entry t)).0
                converted parent))

module _ {D : Type 0} (store : NodeStore D) (n : NewNode) (t : TreeService D)
    (sound : IsSoundTree t) (parent : Ref) (id : String) (root : Ref) (loaded : t.tree ≡ some root)
    (parent_in : get_node_by_id t (t.nodes parent).id ≡ some parent)
    (unknown : get_node_by_id t id ≡ none) (given : id ≢ "") where
  abbrev pub filed : TreeService D × Option String
  filed = create_files store parent t.next (allocate parent id n t)

  abbrev pub bigger : TreeService D
  bigger = grown t sound parent id n root loaded parent_in unknown given filed.0.disk

  bigger-IsSoundTree : IsSoundTree bigger
  bigger-IsSoundTree =
      grown-IsSoundTree t bigger parent sound
        (attach-IsGrown t sound parent id n root loaded parent_in unknown given filed.0.disk)

  pub attached : attach parent t.next filed.0 ≡ bigger
  attached =
      ap (attach parent t.next) (create_files_disk store (allocate parent id n t) parent t.next)

  -- The order of the children may not be saved; then the new node is taken out again.
  save_created-IsSoundTree :
      (converted : Bool) → IsSoundTree (save_created store converted parent t.next bigger).0
  unfolding save_created
  save_created-IsSoundTree converted =
      go (store.save_child_order bigger.nodes parent bigger.disk).1 refl
    where
      go :
          (e : Option String)
          → (store.save_child_order bigger.nodes parent bigger.disk).1 ≡ e
          → IsSoundTree (save_created store converted parent t.next bigger).0
      go none p =
          rw (p, save_created)
            (IsSoundTree-Alike
              (Alike-same (record { same_ids = refl; same_tree = refl; same_next = refl })
                (λ x. refl))
              bigger-IsSoundTree)
      go (some e) p =
          rw (p, save_created)
            (IsSoundTree-Alike
              (roll_back_created-Alike store
                (record bigger {
                  disk = (store.save_child_order bigger.nodes parent bigger.disk).0;
                })
                converted parent t.next)
              (longer-IsSoundTree t
                (back t sound parent id n root loaded parent_in unknown given filed.0.disk
                  (store.save_child_order bigger.nodes parent bigger.disk).0)
                sound
                (detach-IsLonger t sound parent id n root loaded parent_in unknown given
                  filed.0.disk (store.save_child_order bigger.nodes parent bigger.disk).0)))

  place-IsSoundTree : (converted : Bool) → IsSoundTree (place store converted parent id n t).0
  unfolding place
  place-IsSoundTree converted = go filed.1 refl
    where
      go : (e : Option String) → filed.1 ≡ e → IsSoundTree (place store converted parent id n t).0
      go none p =
          rw (p, place)
            (subst (λ u. IsSoundTree (save_created store converted parent t.next u).0)
              (sym attached) (save_created-IsSoundTree converted))
      go (some e) p =
          rw (p, place)
            (subst IsSoundTree
              (sym (create_files_disk store (allocate parent id n t) parent t.next))
              (longer-IsSoundTree t
                (longer t sound parent id n root loaded parent_in unknown given filed.0.disk) sound
                (allocate-IsLonger t sound parent id n root loaded parent_in unknown given
                  filed.0.disk)))

-- The id that a creation chooses is in use nowhere, if `GenerateUniqueID` gives such ids.
abbrev pub IsFresh : {D : Type 0} → TreeService D → NewNode → Type 0
IsFresh t n = (i : String) → n.new_id ≡ some i → (i ≢ "") × (get_node_by_id t i ≡ none)

pub choose_id_free :
    {D : Type 0} (t : TreeService D) (n : NewNode) (id : String)
    → IsFresh t n
    → choose_id t n ≡ pass id
    → (id ≢ "") × (get_node_by_id t id ≡ none)
unfolding choose_id
choose_id_free t n id fresh e = elim (Bool-cases (str_eq n.existing_id "")) [
  | inl q ↦ fresh id (ground (arith, q, e))
  | inr q ↦ (ground (arith, q, e, eq_iff id ""), ground (arith, q, e))
]

pub record IsPlaceable {D : Type 0} (t : TreeService D) (parent_id : String) (n : NewNode)
    (parent : Ref) : Type 0 where
  pub loaded : (root : Ref) × (t.tree ≡ some root)
  pub target :
      (if str_eq parent_id "" || str_eq parent_id root_id
        then t.tree
        else get_node_by_id t parent_id)
      ≡ some parent
  pub no_twin : find_child_by_slug t parent n.slug ≡ none

pub check_create-IsPlaceable :
    {D : Type 0} (t : TreeService D) (parent_id : String) (n : NewNode) (parent : Ref)
    → check_create t parent_id n.slug ≡ pass parent
    → IsPlaceable t parent_id n parent
unfolding check_create
check_create-IsPlaceable t parent_id n parent e = record {
  loaded = elim (Option-cases t.tree) [ inl p ↦ absurd (ground (arith, p)) | inr w ↦ w ];
  target = ground arith;
  no_twin = ground arith;
}

module _ {D : Type 0} (store : NodeStore D) (n : NewNode) (t : TreeService D)
    (sound : IsSoundTree t) (fresh : IsFresh t n) where
  module _ (parent_id : String) (parent : Ref) (c : IsPlaceable t parent_id n parent) where
    abbrev pub opened : TreeService D × Check Bool
    opened = open_parent store parent t

    pub same : Alike t opened.0
    same = open_parent-Alike store t parent

    pub opened-IsSoundTree : IsSoundTree opened.0
    opened-IsSoundTree = IsSoundTree-Alike same sound

    pub opened-IsFresh : IsFresh opened.0 n
    opened-IsFresh i e = let (g, u) = fresh i e in (g, same.same_get i ∙ u)

    pub opened_loaded : opened.0.tree ≡ some c.loaded.0
    opened_loaded = same.same_tree ∙ c.loaded.1

    pub opened_in : get_node_by_id opened.0 (opened.0.nodes parent).id ≡ some parent
    opened_in = ground (
      arith,
      same.same_id parent,
      same.same_get (t.nodes parent).id,
      target-IsRegistered t sound.linked parent_id parent c.target,
    )

    create_below-IsSoundTree : IsSoundTree (create_below store parent n t).0
    unfolding create_below
    create_below-IsSoundTree = go opened.1 refl
      where
        chosen :
            (converted : Bool) (i : Check String)
            → opened.1 ≡ pass converted
            → choose_id opened.0 n ≡ i
            → IsSoundTree (create_below store parent n t).0
        chosen converted (fail e) p q = rw (p, q, create_below) opened-IsSoundTree
        chosen converted (pass id) p q =
            rw (p, q, create_below)
              (let (g, u) = choose_id_free opened.0 n id opened-IsFresh q in
                place-IsSoundTree store n opened.0 opened-IsSoundTree parent id c.loaded.0
                  opened_loaded opened_in u g converted)

        go : (o : Check Bool) → opened.1 ≡ o → IsSoundTree (create_below store parent n t).0
        go (fail e) p = rw (p, create_below) opened-IsSoundTree
        go (pass converted) p = chosen converted (choose_id opened.0 n) p refl

  pub create_node-IsSoundTree :
      (parent_id : String) → IsSoundTree (create_node store parent_id n t).0
  unfolding create_node
  create_node-IsSoundTree parent_id = go (check_create t parent_id n.slug) refl
    where
      go :
          (c : Check Ref)
          → check_create t parent_id n.slug ≡ c
          → IsSoundTree (create_node store parent_id n t).0
      go (fail e) p = rw (p, create_node) sound
      go (pass parent) p =
          rw (p, create_node)
            (create_below-IsSoundTree parent_id parent
              (check_create-IsPlaceable t parent_id n parent p))

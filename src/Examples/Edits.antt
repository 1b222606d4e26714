-- ===== src/Examples/Edits.antt =====
-- A wiki in which nodes are created, deleted, sorted and edited.
use leafwiki.Base.{
  ◌≡◌, refl, subst, String, Bool, true, false, ◌&&◌, ◌||◌, [], ◌∷◌, Option, none, some, arith,
  if◌then◌else◌, str_eq, eq_iff,
}
use leafwiki.Base.Text.{codes, equal_fold, text_eq, to_lower, lower}
use leafwiki.Base.Int.{pos}
use leafwiki.Tree.Node.{Ref, page, section, is_section, is_page, has_children}
use leafwiki.Tree.State.{
  TreeService, TreeError, Check, pass, child_order_failed, page_already_exists, page_has_children,
  check_node_version, version,
}
use leafwiki.Tree.Index.{
  get_node_by_id, find_child_by_slug, is_child_of, index_node, remove_node_index, forget_subtree,
  forget, add_title_index, remove_title_index, rebuild_child_slug_index, slug_index,
}
use leafwiki.Tree.Invariant.{IsSoundTree}
use leafwiki.Tree.Positions.{
  reindex_positions, sort_stable, assign_positions, snapshot_child_positions,
}
use leafwiki.Tree.Move.{remove_child, move_node_to_position}
use leafwiki.Tree.Sort.{
  sort_pages, check_sort, save_sorted, sorted_nodes, unsorted_nodes, order_positions, put_back,
  has_child_id, has_duplicate,
}
use leafwiki.Tree.Sort.Sound.{sort_atomic}
use leafwiki.Tree.Delete.{
  Doomed, delete_node, check_delete, remove_node, delete_files, delete_section_files, unlink,
}
use leafwiki.Tree.Delete.Sound.{IsDeletable, delete_effect}
use leafwiki.Tree.Create.{
  NewNode, create_node, check_create, choose_id, create_below, open_parent, place, create_files,
  allocate, attach, save_created,
}
use leafwiki.Tree.Create.Sound.{IsFresh}
use leafwiki.Tree.Create.Effect.{IsCreated, create_effect}
use leafwiki.Tree.Edit.{
  UpdateNodeInput, update_node, convert_node, check_edit, slug_is_taken, edit_node, write_content,
  change_slug, retitle, sync, change_kind,
}
use leafwiki.Tree.Edit.Effect.{
  IsEditable, IsReplaced, updated, converted, update_effect, update_refused, convert_effect,
}
use leafwiki.Tree.Calls.{here, after, creates, deletes, moves, sorts}
use leafwiki.Tree.Calls.Sound.{reaches-IsSoundTree}
use leafwiki.Examples.Wiki.{four_nodes, wiki, files, format_time, wiki-IsLinked, wiki-IsSoundTree}

abbrev faq : NewNode
faq = record {
  user_id = "bob";
  title = codes "FAQ";
  slug = codes "faq";
  kind = page;
  existing_id = "";
  new_id = some "q";
  now = 9;
}

abbrev with_faq : TreeService Bool × Check Ref
with_faq = create_node files "g" faq (wiki false)

-- The new page is the last child of `guides`.
with_faq_tests :
    (with_faq.1 ≡ pass 4)
    × ((with_faq.0.nodes 2).children ≡ 3 ∷ 4 ∷ [])
    × ((with_faq.0.nodes 4).position ≡ 1)
    × (get_node_by_id with_faq.0 "q" ≡ some 4)
unfolding create_node check_create get_node_by_id find_child_by_slug create_below open_parent
    choose_id place create_files allocate attach index_node add_title_index rebuild_child_slug_index
    slug_index save_created equal_fold to_lower lower text_eq
with_faq_tests = (refl, refl, refl, refl)

faq-IsFresh : (b : Bool) → IsFresh (wiki b) faq
unfolding get_node_by_id
faq-IsFresh b i e = (
  ground (arith, e, eq_iff "q" ""),
  (let own : "q" ≡ i = ground (arith, e) in subst (λ j. get_node_by_id (wiki b) j ≡ none) own refl),
)

create_effect_example : IsCreated (wiki false) with_faq.0 "g" faq 4
create_effect_example =
    create_effect files faq (wiki false) (wiki-IsSoundTree false) (faq-IsFresh false) "g" 4
      with_faq_tests.0

abbrev sorted : Bool → TreeService Bool × Option TreeError
sorted b = sort_pages files "" ("g" ∷ "h" ∷ []) (wiki b)

sorted_tests :
    ((sorted false).1 ≡ none)
    × (((sorted false).0.nodes 0).children ≡ 2 ∷ 1 ∷ [])
    × ((sorted true).1 ≡ some (child_order_failed "disk full"))
unfolding sort_pages check_sort save_sorted sorted_nodes unsorted_nodes order_positions put_back
    has_child_id has_duplicate sort_stable assign_positions snapshot_child_positions get_node_by_id
sorted_tests = (refl, refl, refl)

sort_atomic_example : (sorted true).0.nodes 1 ≡ four_nodes 1
sort_atomic_example =
    sort_atomic files "" ("g" ∷ "h" ∷ []) (wiki true) (child_order_failed "disk full")
      (wiki-IsLinked true) sorted_tests.2 1

abbrev without_guides : TreeService Bool × Option TreeError
without_guides = delete_node format_time files "g" true "7" (wiki false)

without_guides_tests :
    (without_guides.1 ≡ none)
    × ((without_guides.0.nodes 0).children ≡ 1 ∷ [])
    × (get_node_by_id without_guides.0 "i" ≡ none)
unfolding delete_node check_delete check_node_version version get_node_by_id has_children
    remove_node delete_files delete_section_files unlink remove_child remove_node_index
    forget_subtree forget remove_title_index rebuild_child_slug_index slug_index reindex_positions
    sort_stable assign_positions
without_guides_tests = (refl, refl, refl)

delete_effect_example :
    (r : Doomed) × IsDeletable format_time (wiki false) "g" true "7" r
    × ((i : String) (x : Ref)
        → get_node_by_id (wiki false) i ≡ some x
        → get_node_by_id without_guides.0 i ≡ (
            if str_eq i (four_nodes r.node).id || is_child_of 4 four_nodes r.node i true
            then none
            else some x))
delete_effect_example =
    delete_effect format_time files "g" true "7" (wiki false) (wiki-IsSoundTree false)
      without_guides_tests.0

-- a new title and slug for `install`
abbrev renaming : String → UpdateNodeInput
renaming slug = record {
  user_id = "bob";
  id = "h";
  title = codes "Start";
  slug = codes slug;
  content = some (codes "Hello");
  expected_version = "7";
  tags = none;
  properties = none;
  preserve_frontmatter = false;
}

abbrev renamed : String → TreeService Bool × Option TreeError
renamed slug = update_node format_time files (renaming slug) 9 (wiki false)

renamed_tests :
    ((renamed "start").1 ≡ none)
    × (((renamed "start").0.nodes 1).slug ≡ codes "start")
    × ((renamed "guides").1 ≡ some page_already_exists)
unfolding update_node check_edit check_node_version version get_node_by_id slug_is_taken
    find_child_by_slug edit_node write_content change_slug retitle sync add_title_index
    remove_title_index rebuild_child_slug_index slug_index equal_fold to_lower lower text_eq
renamed_tests = (refl, refl, refl)

update_effect_example :
    (node : Ref) × IsEditable format_time (wiki false) "h" "7" node
    × (slug_is_taken (wiki false) node (codes "start") ≡ false)
    × IsReplaced
        (wiki false)
        (renamed "start").0
        node
        (updated files node (renaming "start") 9 (wiki false))
update_effect_example =
    update_effect format_time files (wiki false) (renaming "start") 9 renamed_tests.0

update_refused_example : (renamed "guides").0.nodes 1 ≡ four_nodes 1
update_refused_example =
    update_refused format_time files (wiki false) (renaming "guides") 9 page_already_exists
      renamed_tests.2 (λ m e. cc e) 1

abbrev home_section : TreeService Bool × Option TreeError
home_section = convert_node format_time files "bob" "h" section "7" 9 (wiki false)

home_section_tests :
    (home_section.1 ≡ none)
    × ((home_section.0.nodes 1).kind ≡ section)
    × ((convert_node format_time files "bob" "g" page "7" 9 (wiki false)).1
        ≡ some page_has_children)
unfolding convert_node check_edit check_node_version version get_node_by_id change_kind sync
    has_children
home_section_tests = (refl, refl, refl)

convert_effect_example :
    (node : Ref) × IsEditable format_time (wiki false) "h" "7" node
    × ((is_section (four_nodes node).kind && is_page section && has_children (four_nodes node))
        ≡ false)
    × IsReplaced
        (wiki false)
        home_section.0
        node
        (converted format_time files (wiki false) node "bob" section 9)
convert_effect_example =
    convert_effect format_time files (wiki false) "bob" "h" section "7" 9 home_section_tests.0

-- a creation, a move, a deletion and a new order, one after the other
abbrev moved : TreeService Bool
moved = (move_node_to_position format_time files "bob" "q" "" "later" (pos 0) 9 with_faq.0).0

abbrev cleared : TreeService Bool
cleared = (delete_node format_time files "g" true "7" moved).0

abbrev at_last : TreeService Bool
at_last = (sort_pages files "" ("h" ∷ "q" ∷ []) cleared).0

reaches-IsSoundTree_example : IsSoundTree at_last
reaches-IsSoundTree_example =
    reaches-IsSoundTree format_time files (wiki false) at_last (wiki-IsSoundTree false) (
      after
        (after
          (after (after here (creates "g" faq (faq-IsFresh false)))
            (moves "bob" "q" "" "later" (pos 0) 9))
          (deletes "g" true "7"))
        (sorts "" ("h" ∷ "q" ∷ [])))

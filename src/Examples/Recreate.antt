-- ===== src/Examples/Recreate.antt =====
-- A page that is made again with its old id.
use leafwiki.Base.{◌≡◌, refl, String, Bool, false, none, some, arith, if◌then◌else◌, str_eq}
use leafwiki.Base.Text.{codes, equal_fold, to_lower, lower, text_eq}
use leafwiki.Tree.Node.{Ref, page, PageMetadata}
use leafwiki.Tree.State.{TreeService, Check, pass}
use leafwiki.Tree.Index.{
  get_node_by_id, find_child_by_slug, index_node, add_title_index, rebuild_child_slug_index,
  slug_index,
}
use leafwiki.Tree.Create.{
  NewNode, create_node, check_create, choose_id, create_below, open_parent, place, create_files,
  allocate, attach, save_created,
}
use leafwiki.Tree.Create.Sound.{IsFresh}
use leafwiki.Tree.Create.Effect.{IsCreated}
use leafwiki.Tree.Create.Restore.{trimmed, fill, restore_node}
use leafwiki.Tree.Create.Restore.Effect.{restore_effect}
use leafwiki.Tree.Edit.Effect.{IsReplaced}
use leafwiki.Examples.Wiki.{wiki, files, wiki-IsSoundTree}

abbrev old_page : NewNode
old_page = record {
  user_id = "bob";
  title = codes "Old";
  slug = codes "old";
  kind = page;
  existing_id = "o";
  new_id = none;
  now = 9;
}

abbrev old_metadata : PageMetadata
old_metadata = record {
  created_at = 1;
  updated_at = 2;
  creator_id = " ann ";
  last_author_id = "bob";
}

abbrev trim : String → String
trim s = if str_eq s " ann " then "ann" else s

abbrev remade : TreeService Bool × Check Ref
remade = restore_node trim files "g" old_page (codes "text") old_metadata (wiki false)

remade_tests :
    (remade.1 ≡ pass 4)
    × ((remade.0.nodes 4).metadata.creator_id ≡ "ann")
    × (get_node_by_id remade.0 "o" ≡ some 4)
unfolding restore_node fill create_node check_create get_node_by_id find_child_by_slug create_below
    open_parent choose_id place create_files allocate attach index_node add_title_index
    rebuild_child_slug_index slug_index save_created equal_fold to_lower lower text_eq
remade_tests = (refl, refl, refl)

old_page-IsFresh : IsFresh (wiki false) old_page
old_page-IsFresh i e = absurd (ground (arith, e))

restore_effect_example :
    IsCreated (wiki false) (create_node files "g" old_page (wiki false)).0 "g" old_page 4
    × IsReplaced
        (create_node files "g" old_page (wiki false)).0
        remade.0
        4
        (record ((create_node files "g" old_page (wiki false)).0.nodes 4) {
          metadata = trimmed trim old_metadata;
        })
restore_effect_example =
    restore_effect trim files "g" old_page (codes "text") old_metadata (wiki false) 4
      (wiki-IsSoundTree false) old_page-IsFresh remade_tests.0

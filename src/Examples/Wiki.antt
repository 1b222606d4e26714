-- ===== src/Examples/Wiki.antt =====
-- A wiki of four nodes.
use leafwiki.Base.{
  ℕ, zero, suc, ◌≡◌, refl, String, Bool, true, false, ◌<◌, ◌≤◌, [], ◌∷◌, Option, none, some, arith,
  ◌==◌, if◌then◌else◌, str_eq, eq_iff,
}
use leafwiki.Base.Members.{mem, NoRepeat}
use leafwiki.Base.Text.{codes}
use leafwiki.Tree.Node.{Ref, page, section, PageNode, PageMetadata}
use leafwiki.Tree.State.{Heap, TreeService, NodeStore}
use leafwiki.Tree.Index.{get_node_by_id}
use leafwiki.Tree.Invariant.{IsLinked, DepthIs}
use leafwiki.Tree.Invariant.{IsSoundTree}

abbrev pub wiki_metadata : PageMetadata
wiki_metadata = record {
  created_at = 5;
  updated_at = 7;
  creator_id = "ann";
  last_author_id = "ann";
}

abbrev pub leaf : String → String → Option Ref → ℕ → PageNode
leaf id slug parent position = record {
  id = id;
  title = codes slug;
  slug = codes slug;
  children = [];
  position = position;
  parent = parent;
  pinned = false;
  kind = page;
  metadata = wiki_metadata;
}

abbrev root_node : PageNode
root_node = record (leaf "root" "root" none 0) { kind = section; children = 1 ∷ 2 ∷ [] }

abbrev guides : PageNode
guides = record (leaf "g" "guides" (some 0) 1) { kind = section; children = 3 ∷ [] }

-- the root over the pages `home` and `guides`, and the page `install` below `guides`
abbrev pub four_nodes : Heap
four_nodes zero = root_node
four_nodes (suc zero) = leaf "h" "home" (some 0) 0
four_nodes (suc (suc zero)) = guides
four_nodes (suc (suc (suc zero))) = leaf "i" "install" (some 2) 0
four_nodes _ = leaf "" "" none 0

abbrev four_ids : String → Option Ref
four_ids id =
    if str_eq id "h"
    then some 1
    else if str_eq id "g"
    then some 2
    else if str_eq id "i"
    then some 3
    else none

-- The files are a flag: do the saves of the order fail?
abbrev pub wiki : Bool → TreeService Bool
wiki broken = record {
  nodes = four_nodes;
  next = 4;
  tree = some 0;
  nodes_by_id = four_ids;
  nodes_by_title = λ s. [];
  child_slugs = λ id. none;
  disk = broken;
}

abbrev pub files : NodeStore Bool
files = record {
  create_page = λ h p e d. (d, none);
  create_section = λ h p e d. (d, none);
  delete_page = λ h e d. (d, none);
  delete_section = λ h e d. (d, none);
  convert_node = λ h e k d. (d, true, none);
  move_node = λ h e p d. (d, none);
  save_child_order = λ h p d. (d, if d then some "disk full" else none);
  remove_child_order = λ h p d. (d, none);
  sync_frontmatter_if_exists = λ h e d. (d, none);
  upsert_content = λ h e c d. (d, none);
  upsert_content_preserving_frontmatter = λ h e c d. (d, none);
  upsert_content_and_metadata = λ h e c tags properties d. (d, none);
  read_page_content = λ h e d. ([], none);
  rename_node = λ h e s d. (d, none);
  set_pinned_frontmatter = λ h e b d. (d, none);
}

abbrev pub format_time : ℕ → String
format_time n = if n == 7 then "7" else "later"

module _ (b : Bool) where
  wiki_named :
      (id : String) (n : Ref) → get_node_by_id (wiki b) id ≡ some n → (four_nodes n).id ≡ id
  unfolding get_node_by_id
  wiki_named id n e = ground (arith, eq_iff id "root", eq_iff id "h", eq_iff id "g", eq_iff id "i")

  wiki_registered :
      (p c : Ref)
      → mem c (four_nodes p).children ≡ true
      → get_node_by_id (wiki b) (four_nodes c).id ≡ some c
  unfolding mem get_node_by_id
  wiki_registered zero (suc zero) m = refl
  wiki_registered zero (suc (suc zero)) m = refl
  wiki_registered (suc (suc zero)) (suc (suc (suc zero))) m = refl
  wiki_registered p c m = ground arith

  wiki_owns : (p c : Ref) → mem c (four_nodes p).children ≡ true → (four_nodes c).parent ≡ some p
  unfolding mem
  wiki_owns zero c m = ground arith
  wiki_owns (suc zero) c m = ground arith
  wiki_owns (suc (suc zero)) c m = ground arith
  wiki_owns (suc (suc (suc zero))) c m = ground arith
  wiki_owns (suc (suc (suc (suc p)))) c m = ground arith

  wiki_once : (p : Ref) → NoRepeat (four_nodes p).children
  unfolding mem
  wiki_once zero = (refl, (refl, tt))
  wiki_once (suc zero) = tt
  wiki_once (suc (suc zero)) = (refl, tt)
  wiki_once (suc (suc (suc zero))) = tt
  wiki_once (suc (suc (suc (suc p)))) = tt

  wiki_listed :
      (n p : Ref)
      → get_node_by_id (wiki b) (four_nodes n).id ≡ some n
      → (four_nodes n).parent ≡ some p
      → (mem n (four_nodes p).children ≡ true)
        × (get_node_by_id (wiki b) (four_nodes p).id ≡ some p)
  unfolding mem get_node_by_id
  wiki_listed zero p i e = cc
  wiki_listed (suc zero) zero i e = (refl, refl)
  wiki_listed (suc zero) (suc p) i e = cc
  wiki_listed (suc (suc zero)) zero i e = (refl, refl)
  wiki_listed (suc (suc zero)) (suc p) i e = cc
  wiki_listed (suc (suc (suc zero))) (suc (suc zero)) i e = (refl, refl)
  wiki_listed (suc (suc (suc (suc n)))) p i e = cc
  wiki_listed n p i e = ground arith

  wiki_allocated : (n : Ref) → get_node_by_id (wiki b) (four_nodes n).id ≡ some n → n < 4
  unfolding get_node_by_id
  wiki_allocated zero i = omega arith
  wiki_allocated (suc zero) i = omega arith
  wiki_allocated (suc (suc zero)) i = omega arith
  wiki_allocated (suc (suc (suc zero))) i = omega arith
  wiki_allocated (suc (suc (suc (suc n)))) i = cc

  wiki_below : (p c : Ref) → mem c (four_nodes p).children ≡ true → c < 4
  unfolding mem
  wiki_below zero c m = ground arith
  wiki_below (suc zero) c m = ground arith
  wiki_below (suc (suc zero)) c m = ground arith
  wiki_below (suc (suc (suc zero))) c m = ground arith
  wiki_below (suc (suc (suc (suc p)))) c m = ground arith

  wiki_free : (p c : Ref) → 4 ≤ p → mem c (four_nodes p).children ≡ false
  unfolding mem
  wiki_free (suc (suc (suc (suc p)))) c h = refl
  wiki_free p c h = ground arith

  pub wiki-IsLinked : IsLinked (wiki b)
  wiki-IsLinked = record {
    owns = wiki_owns;
    once = wiki_once;
    registered = λ p c i m. wiki_registered p c m;
    named = wiki_named;
    listed = λ n p i e. (wiki_listed n p i e).0;
    rooted = λ n p i e. (wiki_listed n p i e).1;
    allocated = wiki_allocated;
    below = wiki_below;
    free = wiki_free;
    top = λ r e. ground (arith, e);
  }

  wiki_depth :
      (n : Ref)
      → get_node_by_id (wiki b) (four_nodes n).id ≡ some n
      → (d : ℕ) × DepthIs four_nodes d n
  unfolding get_node_by_id
  wiki_depth zero i = (0, refl)
  wiki_depth (suc zero) i = (1, (0, refl, refl))
  wiki_depth (suc (suc zero)) i = (1, (0, refl, refl))
  wiki_depth (suc (suc (suc zero))) i = (2, (2, refl, (0, refl, refl)))
  wiki_depth (suc (suc (suc (suc n)))) i = cc

  pub wiki-IsSoundTree : IsSoundTree (wiki b)
  wiki-IsSoundTree = record { linked = wiki-IsLinked; grounded = record { depth = wiki_depth } }

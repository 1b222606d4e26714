-- ===== src/Examples/Routes.antt =====
-- Paths in a wiki.
use leafwiki.Base.{
  ℕ, ◌+◌, zero, suc, ◌≡◌, ◌≢◌, refl, sym, subst, ◌⊎◌, inl, inr, String, Bool, true, false, ◌||◌,
  List, [], ◌∷◌, Option, none, some, arith, eq_iff, Option-cases,
}
use leafwiki.Base.Text.{
  Text, codes, equal_fold, text_eq, to_lower, lower, trim_space, trim_left, trim_right, is_space,
}
use leafwiki.Base.Members.{mem}
use leafwiki.Tree.Node.{Ref, page, section}
use leafwiki.Tree.State.{TreeService, Check, pass, fail, invalid_path_segment}
use leafwiki.Tree.Index.{
  get_node_by_id, find_child_by_slug, find_child_by_slug_exact, index_node, add_title_index,
  rebuild_child_slug_index, slug_index,
}
use leafwiki.Tree.Slug.{is_valid_slug, is_reserved, slug_pattern}
use leafwiki.Tree.SlugPath.{slash, split}
use leafwiki.Tree.Create.{
  create_node, check_create, choose_id, create_below, open_parent, place, create_files, allocate,
  attach, save_created,
}
use leafwiki.Tree.Paths.{
  is_nil, calculate_path, PermalinkTarget, resolve_permalink_target, follow_route,
  find_page_by_route_path, PathLookup, nothing_found, lookup_parts, lookup_page_path,
}
use leafwiki.Tree.Paths.Route.{IsRouted, route_round_trip}
use leafwiki.Tree.Paths.Followed.{trimmed_path, missing_slugs}
use leafwiki.Tree.Ensure.{EnsurePathResult, Asked, ensure_page_path, ensure_segments, resolve_page}
use leafwiki.Tree.Ensure.Builds.{IsGenerator}
use leafwiki.Tree.Ensure.Sound.{IsServed, ensure_effect}
use leafwiki.Examples.Wiki.{four_nodes, wiki, files, format_time, wiki-IsSoundTree}

root_children : (c : Ref) → mem c (four_nodes 0).children ≡ true → (c ≡ 1) ⊎ (c ≡ 2)
unfolding mem
root_children zero m = ground arith
root_children (suc zero) m = inl refl
root_children (suc (suc zero)) m = inr refl
root_children (suc (suc (suc c))) m = absurd (ground (arith, m))

guides_children : (c : Ref) → mem c (four_nodes 2).children ≡ true → c ≡ 3
unfolding mem
guides_children c m = ground arith

other_slugs : (c d : Ref) → c ≡ 1 → d ≡ 2 → text_eq (four_nodes c).slug (four_nodes d).slug ≡ false
unfolding text_eq
other_slugs c d p q =
    subst (λ x. text_eq (four_nodes c).slug (four_nodes x).slug ≡ false) (sym q)
      (subst (λ x. text_eq (four_nodes x).slug (four_nodes 2).slug ≡ false) (sym p) refl)

other_slugs_back :
    (c d : Ref) → c ≡ 2 → d ≡ 1 → text_eq (four_nodes c).slug (four_nodes d).slug ≡ false
unfolding text_eq
other_slugs_back c d p q =
    subst (λ x. text_eq (four_nodes c).slug (four_nodes x).slug ≡ false) (sym q)
      (subst (λ x. text_eq (four_nodes x).slug (four_nodes 1).slug ≡ false) (sym p) refl)

wiki_apart :
    (p c d : Ref)
    → mem c (four_nodes p).children ≡ true
    → mem d (four_nodes p).children ≡ true
    → text_eq (four_nodes c).slug (four_nodes d).slug ≡ true
    → c ≡ d
unfolding mem
wiki_apart zero c d m k e = elim (root_children c m) [
  | inl p ↦ elim (root_children d k) [ inl q ↦ cc | inr q ↦ absurd (cc (other_slugs c d p q, e)) ]
  | inr p ↦ elim (root_children d k) [
    | inl q ↦ absurd (cc (other_slugs_back c d p q, e))
    | inr q ↦ cc
  ]
]
wiki_apart (suc zero) c d m k e = cc
wiki_apart (suc (suc zero)) c d m k e = cc (guides_children c m, guides_children d k)
wiki_apart (suc (suc (suc zero))) c d m k e = cc
wiki_apart (suc (suc (suc (suc p)))) c d m k e = cc

wiki_slugs :
    (n p : Ref)
    → get_node_by_id (wiki false) (four_nodes n).id ≡ some n
    → (four_nodes n).parent ≡ some p
    → (is_nil (four_nodes n).slug ≡ false) × (mem slash (four_nodes n).slug ≡ false)
unfolding mem get_node_by_id
wiki_slugs zero p i e = cc
wiki_slugs (suc zero) p i e = (refl, refl)
wiki_slugs (suc (suc zero)) p i e = (refl, refl)
wiki_slugs (suc (suc (suc zero))) p i e = (refl, refl)
wiki_slugs (suc (suc (suc (suc n)))) p i e = cc

wiki_root :
    (n : Ref)
    → get_node_by_id (wiki false) (four_nodes n).id ≡ some n
    → (four_nodes n).parent ≡ none
    → some 0 ≡ some n
unfolding get_node_by_id
wiki_root zero i e = refl
wiki_root (suc zero) i e = cc
wiki_root (suc (suc zero)) i e = cc
wiki_root (suc (suc (suc zero))) i e = cc
wiki_root (suc (suc (suc (suc n)))) i e = cc

unwrap : (r : Ref) → some 0 ≡ some r → 0 ≡ r
unwrap r e = ground (arith, e)

wiki-IsRouted : IsRouted (wiki false)
unfolding text_eq
wiki-IsRouted = record {
  only_root = wiki_root;
  root_slug = λ r e.
      subst (λ x. (is_nil (four_nodes x).slug || text_eq (four_nodes x).slug (codes "root")) ≡ true)
        (unwrap r e) refl;
  given = λ n p i e. (wiki_slugs n p i e).0;
  plain = λ n p i e. (wiki_slugs n p i e).1;
  apart = wiki_apart;
}

abbrev install_target : PermalinkTarget
install_target = record { id = "i"; slug = codes "install"; path = codes "guides/install" }

install_tests :
    (resolve_permalink_target (wiki false) "i" ≡ pass install_target)
    × (find_page_by_route_path files (wiki false) (codes "guides/install") ≡ pass (3, []))
unfolding resolve_permalink_target calculate_path get_node_by_id find_page_by_route_path
    follow_route find_child_by_slug_exact split text_eq
install_tests = (refl, refl)

route_round_trip_example :
    (n : Ref) × (get_node_by_id (wiki false) "i" ≡ some n)
    × ((content : Text)
        → files.read_page_content four_nodes n false ≡ (content, none)
        → find_page_by_route_path files (wiki false) (codes "guides/install") ≡ pass (n, content))
route_round_trip_example =
    route_round_trip files (wiki false) (wiki-IsSoundTree false) wiki-IsRouted "i" install_target
      (λ e. ground (arith, e, eq_iff "i" "root")) install_tests.0

abbrev deep : Text
deep = codes " /guides//faq/more/ "

abbrev deep_lookup : Check PathLookup
deep_lookup = lookup_page_path (wiki false) deep

abbrev segments_of : Check PathLookup → List Text
segments_of (fail e) = []
segments_of (pass l) = missing_slugs l.segments

deep_tests :
    (segments_of deep_lookup ≡ codes "faq" ∷ codes "more" ∷ [])
    × (trimmed_path deep ≡ codes "guides//faq/more")
    × (lookup_page_path (wiki false) (codes " / ") ≡ pass nothing_found)
    × (lookup_page_path (wiki false) (codes "guides/../a")
        ≡ fail (invalid_path_segment (codes "..")))
unfolding lookup_page_path lookup_parts find_child_by_slug split trim_space trim_left trim_right
    is_space is_valid_slug is_reserved slug_pattern equal_fold to_lower lower text_eq
deep_tests = (refl, refl, refl, refl)

-- "q", or "r" if there is a "q"
abbrev generate : TreeService Bool → Option String
generate t = elim (get_node_by_id t "q") [
  | none ↦ some "q"
  | some x ↦ elim (get_node_by_id t "r") [ none ↦ some "r" | some y ↦ none ]
]

generate-IsGenerator : IsGenerator generate
generate-IsGenerator t i e = elim (Option-cases (get_node_by_id t "q")) [
  | inl p ↦
      let own : "q" ≡ i = ground (arith, p, e) in
      subst (λ j. (j ≢ "") × (get_node_by_id t j ≡ none)) own
        (λ w. ground (arith, w, eq_iff "q" ""), p)
  | inr (x, p) ↦ elim (Option-cases (get_node_by_id t "r")) [
    | inl q ↦
        let own : "r" ≡ i = ground (arith, p, q, e) in
        subst (λ j. (j ≢ "") × (get_node_by_id t j ≡ none)) own
          (λ w. ground (arith, w, eq_iff "r" ""), q)
    | inr (y, q) ↦ absurd (ground (arith, p, q, e))
  ]
]

abbrev bob : Asked
bob = record { user_id = "bob"; title = codes "More"; kind = some page }

abbrev clock : TreeService Bool → ℕ
clock t = 9 + t.next

abbrev ensured : TreeService Bool × Check EnsurePathResult
ensured = ensure_page_path files generate clock bob deep (wiki false)

abbrev two_pages : EnsurePathResult
two_pages = record {
  exists = true;
  page = 5;
  created =
      record { id = "q"; slug = codes "faq"; title = codes "faq"; kind = section }
      ∷ record { id = "r"; slug = codes "more"; title = codes "More"; kind = page }
      ∷ [];
}

ensured_tests :
    (ensured.1 ≡ pass two_pages)
    × ((ensured.0.nodes 4).children ≡ 5 ∷ [])
    × ((ensured.0.nodes 4).metadata.created_at ≡ 13)
    × ((ensured.0.nodes 5).metadata.created_at ≡ 14)
unfolding ensure_page_path ensure_segments resolve_page lookup_page_path lookup_parts
    find_child_by_slug split trim_space trim_left trim_right is_space is_valid_slug is_reserved
    slug_pattern equal_fold to_lower lower text_eq create_node check_create get_node_by_id
    create_below open_parent choose_id place create_files allocate attach index_node add_title_index
    rebuild_child_slug_index slug_index save_created
ensured_tests = (refl, refl, refl, refl)

ensure_effect_example :
    (l : PathLookup) × (lookup_page_path (wiki false) deep ≡ pass l)
    × IsServed generate clock bob (wiki false) ensured.0 l two_pages
    × (l.exists ≡ true → ensured.0 ≡ wiki false)
ensure_effect_example =
    ensure_effect format_time files generate clock generate-IsGenerator bob deep (wiki false)
      two_pages (wiki-IsSoundTree false) ensured_tests.0

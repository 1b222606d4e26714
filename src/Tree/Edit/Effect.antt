-- ===== src/Tree/Edit/Effect.antt =====
-- What `UpdateNode`, `ConvertNode` and `SetPinned` change.
use leafwiki.Base.{
  ℕ, ◌≡◌, ◌≢◌, refl, sym, ap, subst, ◌∙◌, String, Bool, true, false, ◌&&◌, Option, none, some,
  arith, if◌then◌else◌, Option-cases, inl, inr, ==_iff,
}
use leafwiki.Base.Text.{Text, text_eq_sound}
use leafwiki.Tree.Node.{
  Ref, NodeKind, PageNode, page, section, other_kind, is_section, is_page, kind_eq, has_children,
}
use leafwiki.Tree.State.{
  TreeService, NodeStore, TreeError, Check, pass, fail, check_node_version, sync_failed,
}
use leafwiki.Tree.Index.{
  get_node_by_id, rebuild_child_slug_index, add_title_index, remove_title_index,
}
use leafwiki.Tree.Edit.{
  UpdateNodeInput, check_edit, slug_is_taken, write_content, change_slug, sync, retitle, edit_node,
  change_kind, update_node, convert_node,
}
use leafwiki.Tree.Edit.Sound.{written, slugged, titled}

kind_eq_apart : (a b : NodeKind) → kind_eq a b ≡ true → (is_section a && is_page b) ≡ false
kind_eq_apart page b e = refl
kind_eq_apart section page e = ground (arith, e)
kind_eq_apart section section e = refl
kind_eq_apart section (other_kind b) e = refl
kind_eq_apart (other_kind a) b e = refl

-- The node of an id, which has the version expected.
pub record IsEditable {D : Type 0} (format_time : ℕ → String) (t : TreeService D)
    (id expected : String) (node : Ref) : Type 0 where
  pub loaded : t.tree ≢ none
  pub found : get_node_by_id t id ≡ some node
  pub current : check_node_version format_time (t.nodes node) expected ≡ none

check_edit-IsEditable :
    {D : Type 0} (format_time : ℕ → String) (t : TreeService D) (id expected : String) (node : Ref)
    → check_edit format_time t id expected ≡ pass node
    → IsEditable format_time t id expected node
unfolding check_edit
check_edit-IsEditable format_time t id expected node e = record {
  loaded = λ p. ground (arith, p, e);
  found = ground arith;
  current = ground arith;
}

-- Of the nodes, this one alone differs, and is what is given.
pub record IsReplaced {D : Type 0} (t u : TreeService D) (node : Ref) (p : PageNode) : Type 0 where
  pub now_is : u.nodes node ≡ p
  pub others : (x : Ref) → x ≢ node → u.nodes x ≡ t.nodes x

abbrev pub stamped : ℕ → String → PageNode → PageNode
stamped now user p = record p {
  metadata = record p.metadata { updated_at = now; last_author_id = user };
}

module _ {D : Type 0} (store : NodeStore D) (node : Ref) (t : TreeService D) where
  write_content_same :
      (i : UpdateNodeInput) (x : Ref) → (write_content store node i t).0.nodes x ≡ t.nodes x
  unfolding write_content
  write_content_same i x = ground arith

  change_slug_failed :
      (slug : Text) (e : String) (x : Ref)
      → (change_slug store node slug t).1 ≡ some e
      → (change_slug store node slug t).0.nodes x ≡ t.nodes x
  unfolding change_slug rebuild_child_slug_index
  change_slug_failed slug e x p = ground (arith, p)

  change_slug_passed :
      (slug : Text)
      → (change_slug store node slug t).1 ≡ none
      → IsReplaced t (change_slug store node slug t).0 node (record (t.nodes node) { slug = slug })
  unfolding change_slug rebuild_child_slug_index
  change_slug_passed slug p = record {
    now_is = ground (arith, p, text_eq_sound slug (t.nodes node).slug);
    others = λ x o. ground (arith, p, o, ==_iff node x);
  }

  retitle_replaces :
      (i : UpdateNodeInput) (now : ℕ)
      → IsReplaced t
          (retitle store node i now t)
          node
          (stamped now i.user_id (record (t.nodes node) { title = i.title }))
  unfolding retitle add_title_index remove_title_index
  retitle_replaces i now = record {
    now_is = ground arith;
    others = λ x o. ground (arith, o, ==_iff node x);
  }

  sync_error :
      (err : TreeError) → (sync store node t).1 ≡ some err → (m : String) × (err ≡ sync_failed m)
  unfolding sync
  sync_error err e = elim (Option-cases (store.sync_frontmatter_if_exists t.nodes node t.disk).1) [
    | inl p ↦ absurd (ground (arith, p, e))
    | inr (m, p) ↦ (m, ground (arith, p, e))
  ]

  sync_same : (x : Ref) → (sync store node t).0.nodes x ≡ t.nodes x
  unfolding sync
  sync_same x = refl

module _ {D : Type 0} (store : NodeStore D) (node : Ref) (i : UpdateNodeInput) (now : ℕ)
    (t : TreeService D) where
  abbrev pub updated : PageNode
  updated = stamped now i.user_id (record (t.nodes node) { title = i.title; slug = i.slug })

  abbrev one : TreeService D × Option String
  one = written store node i now t

  abbrev two : TreeService D × Option String
  two = slugged store node i now t

  edit_refused :
      (e f : Option String)
      → one.1 ≡ e
      → two.1 ≡ f
      → (err : TreeError) → (edit_node store node i now t).1 ≡ some err
      → ((m : String) → err ≢ sync_failed m)
      → (x : Ref) → (edit_node store node i now t).0.nodes x ≡ t.nodes x
  unfolding edit_node
  edit_refused (some e) f p q err w bad x = rw (p, edit_node) (write_content_same store node t i x)
  edit_refused none (some e) p q err w bad x =
      rw (p, q, edit_node)
        (change_slug_failed store node one.0 i.slug e x q ∙ write_content_same store node t i x)
  edit_refused none none p q err w bad x =
      let (m, own) =
        sync_error store node (titled store node i now t) err (ground (arith, p, q, w)) in
      absurd (bad m own)

  edit_passed :
      (e f : Option String)
      → one.1 ≡ e
      → two.1 ≡ f
      → (edit_node store node i now t).1 ≡ none
      → IsReplaced t (edit_node store node i now t).0 node updated
  unfolding edit_node
  edit_passed (some e) f p q ok = absurd (ground (arith, p, ok))
  edit_passed none (some e) p q ok = absurd (ground (arith, p, q, ok))
  edit_passed none none p q ok =
      let a = change_slug_passed store node one.0 i.slug q in
      let b = retitle_replaces store node two.0 i now in
      rw (p, q, edit_node)
        (record {
          now_is =
              sync_same store node (titled store node i now t) node
              ∙ (b.now_is ∙ ground (arith, a.now_is, write_content_same store node t i node));
          others = λ x o.
              sync_same store node (titled store node i now t) x
              ∙ (b.others x o ∙ (a.others x o ∙ write_content_same store node t i x));
        })

module _ {D : Type 0} (format_time : ℕ → String) (store : NodeStore D) (t : TreeService D) where
  module _ (i : UpdateNodeInput) (now : ℕ) where
    abbrev pub edited : TreeService D × Option TreeError
    edited = update_node format_time store i now t

    update_whole :
        (node : Ref) (b : Bool)
        → check_edit format_time t i.id i.expected_version ≡ pass node
        → slug_is_taken t node i.slug ≡ false
        → edited ≡ edit_node store node i now t
    unfolding update_node
    update_whole node b p q = ground (arith, p, q)

    -- An `UpdateNode` that returns no error has found the node, checked its version, and found no other
    -- child of its parent with a slug that changes; the node has then the title and the slug asked for,
    -- the time and the author of the change and else what it had, and the other nodes are as before.
    pub update_effect :
        edited.1 ≡ none
        → (node : Ref) × IsEditable format_time t i.id i.expected_version node
          × (slug_is_taken t node i.slug ≡ false)
          × IsReplaced t edited.0 node (updated store node i now t)
    update_effect ok = go (check_edit format_time t i.id i.expected_version) refl
      where
        open_slug :
            (node : Ref) (b : Bool)
            → check_edit format_time t i.id i.expected_version ≡ pass node
            → slug_is_taken t node i.slug ≡ b
            → (node : Ref) × IsEditable format_time t i.id i.expected_version node
              × (slug_is_taken t node i.slug ≡ false)
              × IsReplaced t edited.0 node (updated store node i now t)
        open_slug node true p q = absurd (unfold update_node in ground (arith, p, q, ok))
        open_slug node false p q =
            let whole = update_whole node false p q in
            (
              node,
              check_edit-IsEditable format_time t i.id i.expected_version node p,
              q,
              subst (λ s. IsReplaced t s.0 node (updated store node i now t)) (sym whole)
                  (edit_passed store node i now t (written store node i now t).1
                    (slugged store node i now t).1 refl refl (sym (ap (λ s. s.1) whole) ∙ ok)),
            )

        go :
            (c : Check Ref)
            → check_edit format_time t i.id i.expected_version ≡ c
            → (node : Ref) × IsEditable format_time t i.id i.expected_version node
              × (slug_is_taken t node i.slug ≡ false)
              × IsReplaced t edited.0 node (updated store node i now t)
        go (fail e) p = absurd (unfold update_node in ground (arith, p, ok))
        go (pass node) p = open_slug node (slug_is_taken t node i.slug) p refl

    -- An `UpdateNode` that returns an error other than that of the last step, which brings the front
    -- matter up to date, leaves every node as it was.
    pub update_refused :
        (err : TreeError)
        → edited.1 ≡ some err
        → ((m : String) → err ≢ sync_failed m)
        → (x : Ref) → edited.0.nodes x ≡ t.nodes x
    update_refused err e bad x = go (check_edit format_time t i.id i.expected_version) refl
      where
        open_slug :
            (node : Ref) (b : Bool)
            → check_edit format_time t i.id i.expected_version ≡ pass node
            → slug_is_taken t node i.slug ≡ b
            → edited.0.nodes x ≡ t.nodes x
        open_slug node true p q = unfold update_node in ground (arith, p, q)
        open_slug node false p q =
            let whole = update_whole node false p q in
            ap (λ s. s.0.nodes x) whole
            ∙ edit_refused store node i now t (written store node i now t).1
                (slugged store node i now t).1 refl refl err (sym (ap (λ s. s.1) whole) ∙ e) bad x

        go :
            (c : Check Ref)
            → check_edit format_time t i.id i.expected_version ≡ c
            → edited.0.nodes x ≡ t.nodes x
        go (fail f) p = unfold update_node in ground (arith, p)
        go (pass node) p = open_slug node (slug_is_taken t node i.slug) p refl

  -- what a conversion makes of a node
  abbrev pub converted : Ref → String → NodeKind → ℕ → PageNode
  converted node user kind now =
      if kind_eq (t.nodes node).kind kind
      then t.nodes node
      else stamped now user (record (t.nodes node) { kind = kind })

  -- A `ConvertNode` that returns no error has found the node and checked its version, and a section
  -- that it makes a page has no children; the node has the kind asked for, with the time and the author
  -- of the change if its kind was another one, and else what it had; the other nodes are as before.
  pub convert_effect :
      (user id : String) (kind : NodeKind) (expected : String) (now : ℕ)
      → (convert_node format_time store user id kind expected now t).1 ≡ none
      → (node : Ref) × IsEditable format_time t id expected node
        × ((is_section (t.nodes node).kind && is_page kind && has_children (t.nodes node)) ≡ false)
        × IsReplaced t
            (convert_node format_time store user id kind expected now t).0
            node
            (converted node user kind now)
  convert_effect user id kind expected now ok = go (check_edit format_time t id expected) refl
    where
      go :
          (c : Check Ref)
          → check_edit format_time t id expected ≡ c
          → (node : Ref) × IsEditable format_time t id expected node
            × ((is_section (t.nodes node).kind && is_page kind && has_children (t.nodes node))
                ≡ false)
            × IsReplaced t
                (convert_node format_time store user id kind expected now t).0
                node
                (converted node user kind now)
      go (fail e) p = absurd (unfold convert_node in ground (arith, p, ok))
      go (pass node) p = (
        node,
        check_edit-IsEditable format_time t id expected node p,
        unfold convert_node in ground (arith, p, ok, kind_eq_apart (t.nodes node).kind kind),
        record {
          now_is =
              unfold convert_node in unfold change_kind in unfold sync in ground (arith, p, ok);
          others = λ x o.
              unfold convert_node in
              unfold change_kind in unfold sync in ground (arith, p, ok, o, ==_iff node x);
        },
      )

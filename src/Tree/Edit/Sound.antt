-- ===== src/Tree/Edit/Sound.antt =====
-- `UpdateNode`, `ConvertNode` and `SetPinned` leave the links of the tree as they are.
use leafwiki.Base.{ℕ, ◌≡◌, refl, String, Bool, true, false, Option, none, some, arith}
use leafwiki.Base.Text.{Text}
use leafwiki.Tree.Node.{Ref, NodeKind}
use leafwiki.Tree.State.{TreeService, NodeStore, Check, pass, fail}
use leafwiki.Tree.Index.{rebuild_child_slug_index, add_title_index, remove_title_index}
use leafwiki.Tree.Alike.{Alike, Alike-fields, Alike-same, Alike-trans}
use leafwiki.Tree.Edit.{
  UpdateNodeInput, check_edit, slug_is_taken, write_content, change_slug, sync, retitle, edit_node,
  change_kind, update_node, convert_node, set_pinned,
}

module _ {D : Type 0} (t : TreeService D) where
  pub unchanged : Alike t t
  unchanged =
      Alike-same (record { same_ids = refl; same_tree = refl; same_next = refl }) (λ x. refl)

module _ {D : Type 0} (store : NodeStore D) (node : Ref) (t : TreeService D) where
  write_content-Alike : (i : UpdateNodeInput) → Alike t (write_content store node i t).0
  unfolding write_content
  write_content-Alike i = Alike-same (ground arith) (λ x. ground arith)

  change_slug-Alike : (slug : Text) → Alike t (change_slug store node slug t).0
  unfolding change_slug rebuild_child_slug_index
  change_slug-Alike slug =
      Alike-fields (ground arith) (λ x. ground arith) (λ x. ground arith) (λ x. ground arith)

  sync-Alike : Alike t (sync store node t).0
  unfolding sync
  sync-Alike = Alike-same (ground arith) (λ x. ground arith)

  retitle-Alike : (i : UpdateNodeInput) (now : ℕ) → Alike t (retitle store node i now t)
  unfolding retitle add_title_index remove_title_index
  retitle-Alike i now =
      Alike-fields (ground arith) (λ x. ground arith) (λ x. ground arith) (λ x. ground arith)

module _ {D : Type 0} (store : NodeStore D) (node : Ref) (i : UpdateNodeInput) (now : ℕ)
    (t : TreeService D) where
  abbrev pub written : TreeService D × Option String
  written = write_content store node i t

  abbrev pub slugged : TreeService D × Option String
  slugged = change_slug store node i.slug written.0

  abbrev pub titled : TreeService D
  titled = retitle store node i now slugged.0

  edit_node-Alike : Alike t (edit_node store node i now t).0
  unfolding edit_node
  edit_node-Alike = go written.1 slugged.1 refl refl
    where
      go :
          (e f : Option String)
          → written.1 ≡ e
          → slugged.1 ≡ f
          → Alike t (edit_node store node i now t).0
      go (some e) f p q = rw (p, edit_node) (write_content-Alike store node t i)
      go none (some e) p q =
          rw (p, q, edit_node)
            (Alike-trans (write_content-Alike store node t i)
              (change_slug-Alike store node written.0 i.slug))
      go none none p q =
          rw (p, q, edit_node)
            (Alike-trans (write_content-Alike store node t i) (
              Alike-trans (change_slug-Alike store node written.0 i.slug) (
                Alike-trans (retitle-Alike store node slugged.0 i now)
                  (sync-Alike store node titled))))

module _ {D : Type 0} (format_time : ℕ → String) (store : NodeStore D) (t : TreeService D) where
  change_kind-Alike :
      (node : Ref) (user : String) (kind : NodeKind) (now : ℕ)
      → Alike t (change_kind store node user kind now t).0
  unfolding change_kind sync
  change_kind-Alike node user kind now =
      Alike-fields (ground arith) (λ x. ground arith) (λ x. ground arith) (λ x. ground arith)

  pub update_node-Alike :
      (i : UpdateNodeInput) (now : ℕ) → Alike t (update_node format_time store i now t).0
  unfolding update_node
  update_node-Alike i now = go (check_edit format_time t i.id i.expected_version) refl
    where
      open_slug :
          (node : Ref) (b : Bool)
          → check_edit format_time t i.id i.expected_version ≡ pass node
          → slug_is_taken t node i.slug ≡ b
          → Alike t (update_node format_time store i now t).0
      open_slug node true p q = rw (p, q, update_node) (unchanged t)
      open_slug node false p q = rw (p, q, update_node) (edit_node-Alike store node i now t)

      go :
          (c : Check Ref)
          → check_edit format_time t i.id i.expected_version ≡ c
          → Alike t (update_node format_time store i now t).0
      go (fail e) p = rw (p, update_node) (unchanged t)
      go (pass node) p = open_slug node (slug_is_taken t node i.slug) p refl

  pub convert_node-Alike :
      (user id : String) (kind : NodeKind) (expected : String) (now : ℕ)
      → Alike t (convert_node format_time store user id kind expected now t).0
  unfolding convert_node change_kind sync
  convert_node-Alike user id kind expected now =
      Alike-fields (ground arith) (λ x. ground arith) (λ x. ground arith) (λ x. ground arith)

  pub set_pinned-Alike :
      (id expected : String) (b : Bool) → Alike t (set_pinned format_time store id expected b t).0
  unfolding set_pinned
  set_pinned-Alike id expected b =
      Alike-fields (ground arith) (λ x. ground arith) (λ x. ground arith) (λ x. ground arith)

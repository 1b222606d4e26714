-- ===== src/Tree/Calls/Sound.antt =====
-- A sound tree stays sound under calls of `TreeService`.
use leafwiki.Base.{ℕ, String}
use leafwiki.Tree.State.{TreeService, NodeStore}
use leafwiki.Tree.Invariant.{IsSoundTree}
use leafwiki.Tree.Alike.{IsSoundTree-Alike}
use leafwiki.Tree.Move.Sound.{move-IsSoundTree}
use leafwiki.Tree.Sort.Sound.{sort_pages-Alike}
use leafwiki.Tree.Delete.Sound.{delete_node-IsSoundTree}
use leafwiki.Tree.Create.Sound.{create_node-IsSoundTree}
use leafwiki.Tree.Create.Restore.{restore_node-IsSoundTree}
use leafwiki.Tree.Edit.Bulk.Effect.{bulk_update_content-Alike}
use leafwiki.Tree.Edit.Sound.{update_node-Alike, convert_node-Alike, set_pinned-Alike}
use leafwiki.Tree.Calls.{
  Call, creates, deletes, updates, converts, moves, pins, restores, writes_many, sorts, Reaches,
  here, after,
}

module _ {D : Type 0} (format_time : ℕ → String) (store : NodeStore D) where
  call-IsSoundTree :
      {t u : TreeService D} → IsSoundTree t → Call format_time store t u → IsSoundTree u
  call-IsSoundTree {t = t} s (creates parent_id n fresh) =
      create_node-IsSoundTree store n t s fresh parent_id
  call-IsSoundTree {t = t} s (deletes id recursive expected) =
      delete_node-IsSoundTree format_time store id recursive expected t s
  call-IsSoundTree {t = t} s (updates i now) =
      IsSoundTree-Alike (update_node-Alike format_time store t i now) s
  call-IsSoundTree {t = t} s (converts user id kind expected now) =
      IsSoundTree-Alike (convert_node-Alike format_time store t user id kind expected now) s
  call-IsSoundTree {t = t} s (moves user id parent_id expected position now) =
      move-IsSoundTree format_time store user id parent_id expected position now t s
  call-IsSoundTree {t = t} s (pins id expected b) =
      IsSoundTree-Alike (set_pinned-Alike format_time store t id expected b) s
  call-IsSoundTree {t = t} s (restores trim parent_id n content m fresh) =
      restore_node-IsSoundTree trim store parent_id n content m t s fresh
  call-IsSoundTree {t = t} s (writes_many order user us now) =
      IsSoundTree-Alike (bulk_update_content-Alike store order user us now t) s
  call-IsSoundTree {t = t} s (sorts parent_id ids) =
      IsSoundTree-Alike (sort_pages-Alike store parent_id ids t s.linked) s

  -- Whatever calls of `TreeService` create, restore, delete, update, convert, move, pin and sort nodes
  -- and write many contents, with whatever arguments and results of the file layer, a sound tree stays
  -- sound: parents and children, the index of the ids and the way up to the root agree. The ids that
  -- are made up are in use nowhere.
  pub reaches-IsSoundTree :
      (t u : TreeService D) → IsSoundTree t → Reaches format_time store t u → IsSoundTree u
  reaches-IsSoundTree t u s here = s
  reaches-IsSoundTree t v s (after {u = u} r c) = call-IsSoundTree (reaches-IsSoundTree t u s r) c

-- ===== src/Tree/Calls.antt =====
-- tree_mutations.go: what the tree can become by calls of `TreeService`, each of which holds its lock.
pub mod Sound
use leafwiki.Base.{ℕ, String, Bool, List}
use leafwiki.Base.Int.{ℤ}
use leafwiki.Base.Text.{Text}
use leafwiki.Tree.Node.{NodeKind, PageMetadata}
use leafwiki.Tree.State.{TreeService, NodeStore}
use leafwiki.Tree.Move.{move_node_to_position}
use leafwiki.Tree.Sort.{sort_pages}
use leafwiki.Tree.Delete.{delete_node}
use leafwiki.Tree.Create.{NewNode, create_node}
use leafwiki.Tree.Create.Sound.{IsFresh}
use leafwiki.Tree.Create.Restore.{restore_node}
use leafwiki.Tree.Edit.Bulk.{BulkContentUpdate, Task, bulk_update_content}
use leafwiki.Tree.Edit.{UpdateNodeInput, update_node, convert_node, set_pinned}

module _ {D : Type 0} (format_time : ℕ → String) (store : NodeStore D) where
  -- One call that changes the tree, whatever it returns. An id that is made up is in use nowhere.
  pub data Call (t : TreeService D) : TreeService D → Type 0 where
    creates :
        (parent_id : String) (n : NewNode)
        → IsFresh t n
        → Call t (create_node store parent_id n t).0
    deletes :
        (id : String) (recursive : Bool) (expected : String)
        → Call t (delete_node format_time store id recursive expected t).0
    updates : (i : UpdateNodeInput) (now : ℕ) → Call t (update_node format_time store i now t).0
    converts :
        (user id : String) (kind : NodeKind) (expected : String) (now : ℕ)
        → Call t (convert_node format_time store user id kind expected now t).0
    moves :
        (user id parent_id expected : String) (position : ℤ) (now : ℕ)
        → Call t
            (move_node_to_position format_time store user id parent_id expected position now t).0
    pins :
        (id expected : String) (b : Bool) → Call t (set_pinned format_time store id expected b t).0
    restores :
        (trim : String → String) (parent_id : String) (n : NewNode) (content : Text)
        (m : PageMetadata)
        → IsFresh t n
        → Call t (restore_node trim store parent_id n content m t).0
    writes_many :
        (order : List Task → List Task) (user : String) (us : List BulkContentUpdate) (now : ℕ)
        → Call t (bulk_update_content store order user us now t).0
    sorts : (parent_id : String) (ids : List String) → Call t (sort_pages store parent_id ids t).0

  -- what any number of calls can make of a tree
  pub data Reaches (t : TreeService D) : TreeService D → Type 0 where
    here : Reaches t t
    after : {u v : TreeService D} → Reaches t u → Call u v → Reaches t v

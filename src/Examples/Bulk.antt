-- ===== src/Examples/Bulk.antt =====
-- Many contents written at once.
use leafwiki.Base.{◌≡◌, refl, String, Bool, false, List, [], ◌∷◌, some}
use leafwiki.Base.Text.{codes}
use leafwiki.Tree.State.{NodeStore}
use leafwiki.Tree.Index.{get_node_by_id}
use leafwiki.Tree.Edit.Bulk.{
  BulkContentUpdate, Task, prepare, write_all, take_back, bulk_update_content,
}
use leafwiki.Tree.Edit.Bulk.Effect.{bulk}
use leafwiki.Examples.Wiki.{wiki, files}

abbrev swapped : List Task → List Task
swapped [] = []
swapped (k ∷ []) = k ∷ []
swapped (k ∷ l ∷ ks) = l ∷ k ∷ ks

abbrev update : String → BulkContentUpdate
update id = record { id = id; content = codes "new" }

abbrev three : List BulkContentUpdate
three = update "h" ∷ update "nobody" ∷ update "i" ∷ []

abbrev broken_files : NodeStore Bool
broken_files = record files { upsert_content = λ h r c d. (d, some "disk full") }

-- When no write works, a page that is named once keeps its time, and one that is named twice does not.
broken_tests :
    (((bulk broken_files swapped "bob" (update "h" ∷ []) 9 (wiki false)).0.nodes
        1).metadata.updated_at
      ≡ 7)
    × (((bulk broken_files swapped "bob" (update "h" ∷ update "h" ∷ []) 9 (wiki false)).0.nodes
          1).metadata.updated_at
        ≡ 9)
unfolding bulk_update_content prepare write_all take_back get_node_by_id
broken_tests = (refl, refl)

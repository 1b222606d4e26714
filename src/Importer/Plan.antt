-- ===== src/Importer/Plan.antt =====
-- planner.go, executor.go: the plan of an import, its progress and its result. A pointer to text
-- is `none` when it is nil.
use leafwiki.Base.{ℕ, String, Bool, List, Option}
use leafwiki.Tree.Node.{NodeKind}

pub data PlanAction : Type 0 where
  create update skip : PlanAction

pub record PlanItem : Type 0 where
  pub source_path : String
  pub target_path : String
  pub title : String
  pub desired_slug : String
  pub kind : NodeKind
  pub exists : Bool
  pub existing_id : Option String
  pub action : PlanAction
  pub conflicts : List String
  pub notes : List String

pub record PlanOptions : Type 0 where
  pub source_base_path : String
  pub target_base_path : String

pub record PlanResult : Type 0 where
  pub id : String
  pub tree_hash : String
  pub items : List PlanItem
  pub errors : List String

pub data ExecutionAction : Type 0 where
  created updated skipped : ExecutionAction

pub record ExecutionItemResult : Type 0 where
  pub source_path : String
  pub target_path : String
  pub action : ExecutionAction
  pub error : Option String
  pub notes : List String

pub record ExecutionResult : Type 0 where
  pub imported_count : ℕ
  pub updated_count : ℕ
  pub skipped_count : ℕ
  pub items : List ExecutionItemResult
  pub tree_hash : String
  pub tree_hash_before : String

pub record ExecutionProgress : Type 0 where
  pub processed_items : ℕ
  pub total_items : ℕ
  pub current_item_source_path : Option String
  pub started_at : Option ℕ
  pub finished_at : Option ℕ

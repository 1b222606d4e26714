-- ===== src/Importer/StoredPlan.antt =====
-- plan_store.go: the stored plan, and how it changes when an execution starts, goes on and ends.
use leafwiki.Base.{ℕ, String, Bool, true, false, Option, none, some, str_eq}
use leafwiki.Importer.Plan.{PlanOptions, PlanResult, ExecutionResult, ExecutionProgress}

pub data ExecutionStatus : Type 0 where
  planned running completed failed canceled : ExecutionStatus
  other_status : String → ExecutionStatus

pub record StoredPlan : Type 0 where
  pub plan : Option PlanResult
  pub plan_options : PlanOptions
  pub workspace_root : String
  pub created_at : ℕ
  pub execution_status : ExecutionStatus
  pub execution_user_id : String
  pub cancel_requested : Bool
  pub execution_result : Option ExecutionResult
  pub execution_error : Option String
  pub progress : ExecutionProgress

-- An execution's error: one that is `ErrImportCanceled`, or another with its text.
pub data ExecutionFailure : Type 0 where
  import_canceled : ExecutionFailure
  execution_failed : String → ExecutionFailure

abbrev pub is_running : ExecutionStatus → Bool
is_running running = true
is_running _ = false

abbrev pub is_completed : ExecutionStatus → Bool
is_completed completed = true
is_completed _ = false

abbrev pub has_id : String → StoredPlan → Bool
has_id id sp = elim sp.plan [ none ↦ false | some p ↦ str_eq p.id id ]

-- the plan as an execution starts
unfoldable pub begun : String → ℕ → ℕ → StoredPlan → StoredPlan
begun user_id now total sp = record sp {
  execution_status = running;
  execution_user_id = user_id;
  cancel_requested = false;
  execution_result = none;
  execution_error = none;
  progress = record {
    processed_items = 0;
    total_items = total;
    current_item_source_path = none;
    started_at = some now;
    finished_at = none;
  };
}

-- the plan as an execution ends
unfoldable pub ended :
    Option ExecutionResult → Option ExecutionFailure → ℕ → StoredPlan → StoredPlan
ended result err now sp =
    let progress = record sp.progress { finished_at = some now; current_item_source_path = none } in
    let sp' = record sp {
      execution_result = result;
      execution_user_id = "";
      cancel_requested = false;
      progress = progress;
    } in
    elim err [
      | some import_canceled ↦ record sp' { execution_status = canceled; execution_error = none }
      | some (execution_failed m) ↦ record sp' {
        execution_status = failed;
        execution_error = some m;
      }
      | none ↦ record sp' {
        execution_status = completed;
        execution_error = none;
        progress = record progress { processed_items = sp.progress.total_items };
      }
    ]

abbrev pub or_keep {ℓ} : {A : Type ℓ} → Option A → Option A → Option A
or_keep none old = old
or_keep (some new) old = some new

-- the plan with the new progress
unfoldable pub advanced : ExecutionProgress → Option ExecutionResult → StoredPlan → StoredPlan
advanced p partial sp = record sp {
  execution_result = or_keep partial sp.execution_result;
  progress = record {
    processed_items = p.processed_items;
    total_items = p.total_items;
    current_item_source_path = p.current_item_source_path;
    started_at = or_keep p.started_at sp.progress.started_at;
    finished_at = or_keep p.finished_at sp.progress.finished_at;
  };
}

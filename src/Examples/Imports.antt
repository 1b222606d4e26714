-- ===== src/Examples/Imports.antt =====
-- An import that is started and canceled while the disk fills up.
use leafwiki.Base.{
  ℕ, zero, suc, ◌≡◌, refl, String, true, false, [], ◌∷◌, List, Option, none, some, arith,
}
use leafwiki.Importer.Plan.{PlanResult, ExecutionProgress}
use leafwiki.Importer.StoredPlan.{StoredPlan, planned, begun, import_canceled}
use leafwiki.Importer.StateFile.{StateFile, coded, removed}
use leafwiki.Importer.PlanStore.{
  PlanStore, Call, sets, starts, finishes, cancels, persist, write_plan, save, load, new_plan_store,
  set, try_start_execution, change_plan, finish_execution, request_cancel, get, is_cancel_requested,
  apply, run,
}
use leafwiki.Importer.PlanStore.Files.{IsFileSystem, read_as}
use leafwiki.Importer.PlanStore.Durable.{last_saved, reopened}
use leafwiki.Importer.PlanStore.Coherent.{IsCoherent, CoherentPlan, run-IsCoherent}

-- A disk with the two files, on which `room` more files can be written. The bytes of a file are
-- the plan itself.
record Disk : Type 0 where
  pub state : Option StoredPlan
  pub temporary : Option StoredPlan
  pub room : ℕ

abbrev write_if_room : StoredPlan → Disk → Disk × Option String
write_if_room sp d = elim d.room [
  | zero ↦ (d, some "no space left on device")
  | suc n ↦ (record { state = d.state; temporary = some sp; room = n }, none)
]

abbrev file : StateFile Disk StoredPlan
file = record {
  make_dir = λ d. (d, none);
  remove = λ d. (record d { state = none }, removed);
  write_temporary = write_if_room;
  rename_temporary = λ d. (record d { state = d.temporary; temporary = none }, none);
  read = λ d. read_as d.state;
  encode = coded;
  decode = coded;
}

abbrev state_of : Disk → Option StoredPlan
state_of d = d.state

abbrev temporary_of : Disk → Option StoredPlan
temporary_of d = d.temporary

file-IsFileSystem : IsFileSystem file state_of temporary_of
file-IsFileSystem = record {
  reads = λ d. refl;
  make_dir_keeps = λ d. refl;
  removes = λ d. refl;
  write_keeps = λ sp d. ground arith;
  writes = λ sp d e. ground arith;
  renames = λ d. refl;
  round_trip = λ sp raw e. ground arith;
}

abbrev empty_plan : PlanResult
empty_plan = record { id = "p1"; tree_hash = "h"; items = []; errors = [] }

abbrev no_progress : ExecutionProgress
no_progress = record {
  processed_items = 0;
  total_items = 0;
  current_item_source_path = none;
  started_at = none;
  finished_at = none;
}

abbrev fresh : StoredPlan
fresh = record {
  plan = some empty_plan;
  plan_options = record { source_base_path = ""; target_base_path = "docs" };
  workspace_root = "w";
  created_at = 3;
  execution_status = planned;
  execution_user_id = "";
  cancel_requested = false;
  execution_result = none;
  execution_error = none;
  progress = no_progress;
}

fresh-IsCoherent : IsCoherent fresh
fresh-IsCoherent = record {
  cancel_running = λ e. cc;
  idle_user = λ e. refl;
  error_failed = λ m e. cc;
  failed_error = λ e. cc;
}

abbrev small_disk : Disk
small_disk = record { state = none; temporary = none; room = 2 }

abbrev calls : List Call
calls = sets fresh ∷ starts "ann" 5 ∷ cancels ∷ finishes "p1" none (some import_canceled) 9 ∷ []

abbrev opened_store : PlanStore Disk
opened_store = new_plan_store file true small_disk

-- The cancel did not get to the disk, so it is not there after a restart.
imports_tests :
    (last_saved file opened_store calls ≡ some (begun "ann" 5 0 fresh))
    × (is_cancel_requested "p1" (run file opened_store calls) ≡ true)
    × (get (new_plan_store file true (run file opened_store calls).disk)
        ≡ (some (begun "ann" 5 0 fresh), none))
unfolding last_saved is_cancel_requested run get new_plan_store apply set try_start_execution
    request_cancel finish_execution change_plan save persist write_plan load begun
imports_tests = (refl, refl, refl)

reopened_example : new_plan_store file true (run file opened_store calls).disk ≡ record {
  plan = last_saved file opened_store calls;
  has_file = true;
  state_err = none;
  disk = (run file opened_store calls).disk;
}
reopened_example =
    reopened file state_of temporary_of file-IsFileSystem small_disk none calls
      (unfold load in refl)

run-IsCoherent_example : CoherentPlan (run file opened_store calls).plan
run-IsCoherent_example =
    run-IsCoherent file calls opened_store (fresh-IsCoherent, tt) (unfold new_plan_store load in tt)

-- ===== src/Importer/PlanStore.antt =====
-- plan_store.go: the store of the one import plan, in memory and in a state file. Every method
-- holds the store's lock, so it is one step. The plans that go in and out are values: neither the
-- callers nor the store change a plan that they have handed over.
pub mod Files
pub mod Durable
pub mod Coherent
use leafwiki.Base.{
  ℕ, String, Bool, true, false, not, ◌&&◌, ◌||◌, List, [], ◌∷◌, Option, none, some, if◌then◌else◌,
  str_eq, length,
}
use leafwiki.Importer.Plan.{ExecutionResult, ExecutionProgress}
use leafwiki.Importer.StoredPlan.{
  StoredPlan, ExecutionFailure, is_running, is_completed, has_id, begun, ended, advanced,
}
use leafwiki.Importer.StateFile.{
  StateFile, removed, not_exist, remove_failed, Coded, coded, not_coded, absent, read_failed,
  contents,
}

-- `ErrNoPlan`; `ErrImportStateUnavailable` as it is, and wrapped around another error
pub data StoreError : Type 0 where
  no_plan state_unavailable : StoreError
  unavailable : String → StoreError

-- `has_file` tells whether `stateFile` is set, and `disk` is what the files hold.
pub record PlanStore (F : Type 0) : Type 0 where
  pub plan : Option StoredPlan
  pub has_file : Bool
  pub state_err : Option StoreError
  pub disk : F

-- What a method returns: a copy of the plan, a flag, and an error.
abbrev pub Reply : Type 0
Reply = Option StoredPlan × Bool × Option StoreError

module _ {F R : Type 0} (file : StateFile F R) where
  -- the case of `persistLocked` that writes the plan
  unfoldable pub write_plan : StoredPlan → F → F × Option String
  write_plan sp d = elim (file.encode sp) [
    | not_coded e ↦ (d, some e)
    | coded raw ↦
        let (d1, e1) = file.write_temporary raw d in
        elim e1 [ some e ↦ (d1, some e) | none ↦ file.rename_temporary d1 ]
  ]

  -- the case that removes the file
  unfoldable pub remove_plan : F → F × Option String
  remove_plan d =
      let (d1, r) = file.remove d in
      elim r [ removed ↦ (d1, none) | not_exist ↦ (d1, none) | remove_failed e ↦ (d1, some e) ]

  -- `persistLocked`
  unfoldable pub persist : PlanStore F → F × Option String
  persist ps =
      if not ps.has_file
      then (ps.disk, none)
      else (let (d1, e1) = file.make_dir ps.disk in
          elim e1 [
            | some e ↦ (d1, some e)
            | none ↦ elim ps.plan [ none ↦ remove_plan d1 | some sp ↦ write_plan sp d1 ]
          ])

  -- the lines around each call of `persistLocked`: a failure stays in `stateErr`
  unfoldable pub save : PlanStore F → PlanStore F × Option StoreError
  save ps =
      let (d, e) = persist ps in
      elim e [
        | none ↦ (record ps { disk = d }, none)
        | some m ↦ (record ps { disk = d; state_err = some (unavailable m) }, some (unavailable m))
      ]

  -- `load`: the plan or an error
  unfoldable pub load : F → Coded (Option StoredPlan)
  load d = elim (file.read d) [
    | absent ↦ coded none
    | read_failed e ↦ not_coded e
    | contents raw ↦ elim (file.decode raw) [
      | coded sp ↦ coded (some sp)
      | not_coded e ↦ not_coded e
    ]
  ]

  -- `NewPlanStore` with a state file; the empty name is as good as none
  unfoldable pub new_plan_store : Bool → F → PlanStore F
  new_plan_store has_file d =
      let ps : PlanStore F = record {
        plan = none;
        has_file = has_file;
        state_err = none;
        disk = d;
      } in
      if not has_file then ps else elim (load d) [
        | coded plan ↦ record ps { plan = plan }
        | not_coded e ↦ record ps { state_err = some (unavailable e) }
      ]

  -- `Set`
  unfoldable pub set : StoredPlan → PlanStore F → PlanStore F × Option StoreError
  set sp ps = elim ps.state_err [
    | some e ↦ (ps, some e)
    | none ↦ save (record ps { plan = some sp })
  ]

  -- `Clear`, which also returns the plan that it drops
  unfoldable pub clear : PlanStore F → PlanStore F × Option StoredPlan × Option StoreError
  clear ps = elim ps.state_err [
    | some e ↦ (ps, none, some e)
    | none ↦ let (ps', e) = save (record ps { plan = none }) in (ps', ps.plan, e)
  ]

  abbrev answer : StoredPlan → PlanStore F × Option StoreError → PlanStore F × Reply
  answer sp (ps, none) = (ps, (some sp, true, none))
  answer sp (ps, some e) = (ps, (none, false, some e))

  -- `TryStartExecution`
  unfoldable pub try_start_execution : String → ℕ → PlanStore F → PlanStore F × Reply
  try_start_execution user_id now ps = elim ps.state_err [
    | some e ↦ (ps, (none, false, some e))
    | none ↦ elim ps.plan [
      | none ↦ (ps, (none, false, some no_plan))
      | some sp ↦ elim sp.plan [
        | none ↦ (ps, (none, false, some state_unavailable))
        | some p ↦
            if is_running sp.execution_status || is_completed sp.execution_status
            then (ps, (some sp, false, none))
            else (let sp' = begun user_id now (length p.items) sp in
                answer sp' (save (record ps { plan = some sp' })))
      ]
    ]
  ]

  -- the guard of `FinishExecution` and `UpdateExecutionProgress`: only the plan of this id changes
  unfoldable pub change_plan :
      String → (StoredPlan → StoredPlan) → PlanStore F → PlanStore F × Option StoreError
  change_plan plan_id f ps = elim ps.state_err [
    | some e ↦ (ps, some e)
    | none ↦ elim ps.plan [
      | none ↦ (ps, none)
      | some sp ↦ if has_id plan_id sp then save (record ps { plan = some (f sp) }) else (ps, none)
    ]
  ]

  -- `FinishExecution`
  unfoldable pub finish_execution :
      String
      → Option ExecutionResult
      → Option ExecutionFailure
      → ℕ
      → PlanStore F
      → PlanStore F × Option StoreError
  finish_execution plan_id result err now = change_plan plan_id (ended result err now)

  -- `UpdateExecutionProgress`
  unfoldable pub update_execution_progress :
      String
      → ExecutionProgress
      → Option ExecutionResult
      → PlanStore F
      → PlanStore F × Option StoreError
  update_execution_progress plan_id p partial = change_plan plan_id (advanced p partial)

  -- `RequestCancel`
  unfoldable pub request_cancel : PlanStore F → PlanStore F × Reply
  request_cancel ps = elim ps.state_err [
    | some e ↦ (ps, (none, false, some e))
    | none ↦ elim ps.plan [
      | none ↦ (ps, (none, false, some no_plan))
      | some sp ↦
          if not (is_running sp.execution_status) || sp.cancel_requested
          then (ps, (some sp, false, none))
          else (let sp' = record sp { cancel_requested = true } in
              answer sp' (save (record ps { plan = some sp' })))
    ]
  ]

module _ {F : Type 0} where
  -- `Get`
  unfoldable pub get : PlanStore F → Option StoredPlan × Option StoreError
  get ps = elim ps.state_err [
    | some e ↦ (none, some e)
    | none ↦ elim ps.plan [ none ↦ (none, some no_plan) | some sp ↦ (some sp, none) ]
  ]

  -- `IsCancelRequested`
  unfoldable pub is_cancel_requested : String → PlanStore F → Bool
  is_cancel_requested plan_id ps = elim ps.plan [
    | none ↦ false
    | some sp ↦ has_id plan_id sp && sp.cancel_requested
  ]

-- A call of one of the methods that change the store.
pub data Call : Type 0 where
  sets : StoredPlan → Call
  clears : Call
  starts : String → ℕ → Call
  finishes : String → Option ExecutionResult → Option ExecutionFailure → ℕ → Call
  updates : String → ExecutionProgress → Option ExecutionResult → Call
  cancels : Call

module _ {F R : Type 0} (file : StateFile F R) where
  unfoldable pub apply : Call → PlanStore F → PlanStore F
  apply (sets sp) ps = (set file sp ps).0
  apply clears ps = (clear file ps).0
  apply (starts user_id now) ps = (try_start_execution file user_id now ps).0
  apply (finishes id result err now) ps = (finish_execution file id result err now ps).0
  apply (updates id p partial) ps = (update_execution_progress file id p partial ps).0
  apply cancels ps = (request_cancel file ps).0

  unfoldable pub run : PlanStore F → List Call → PlanStore F
  run ps [] = ps
  run ps (c ∷ cs) = run (apply c ps) cs

-- ===== src/Importer/PlanStore/Coherent.antt =====
-- The fields of the stored plan agree with its status.
use leafwiki.Base.{
  ℕ, String, true, ◌≡◌, ◌≢◌, refl, List, [], ◌∷◌, Option, none, some, arith, Option-cases, inl, inr,
  length, subst, sym, Bool-cases, not, ◌||◌,
}
use leafwiki.Importer.Plan.{ExecutionResult, ExecutionProgress}
use leafwiki.Importer.StoredPlan.{
  StoredPlan, ExecutionFailure, import_canceled, execution_failed, running, failed, begun, ended,
  advanced, has_id, is_running, is_completed,
}
use leafwiki.Importer.StateFile.{StateFile}
use leafwiki.Importer.PlanStore.{
  PlanStore, Call, sets, clears, starts, finishes, updates, cancels, save, set, clear,
  try_start_execution, change_plan, finish_execution, update_execution_progress, request_cancel,
  apply, run,
}

-- A cancel is requested only while the import runs, a plan that does not run has no user, and it
-- has an error exactly if it failed.
pub record IsCoherent (sp : StoredPlan) : Type 0 where
  pub cancel_running : sp.cancel_requested ≡ true → sp.execution_status ≡ running
  pub idle_user : sp.execution_status ≢ running → sp.execution_user_id ≡ ""
  pub error_failed : (m : String) → sp.execution_error ≡ some m → sp.execution_status ≡ failed
  pub failed_error : sp.execution_status ≡ failed → sp.execution_error ≢ none

abbrev pub CoherentPlan : Option StoredPlan → Type 0
CoherentPlan none = Unit
CoherentPlan (some sp) = IsCoherent sp

-- The plans that the calls set are coherent, as a new plan is.
abbrev pub SetsCoherent : List Call → Type 0
SetsCoherent [] = Unit
SetsCoherent (sets sp ∷ cs) = IsCoherent sp × SetsCoherent cs
SetsCoherent (c ∷ cs) = SetsCoherent cs

begun-IsCoherent : (u : String) (now n : ℕ) (sp : StoredPlan) → IsCoherent (begun u now n sp)
unfolding begun
begun-IsCoherent u now n sp = record {
  cancel_running = λ e. refl;
  idle_user = λ e. absurd (e refl);
  error_failed = λ m e. cc;
  failed_error = λ e. cc;
}

ended-IsCoherent :
    (r : Option ExecutionResult) (err : Option ExecutionFailure) (now : ℕ) (sp : StoredPlan)
    → IsCoherent (ended r err now sp)
unfolding ended
ended-IsCoherent r none now sp = record {
  cancel_running = λ e. cc;
  idle_user = λ e. refl;
  error_failed = λ m e. cc;
  failed_error = λ e. cc;
}
ended-IsCoherent r (some import_canceled) now sp = record {
  cancel_running = λ e. cc;
  idle_user = λ e. refl;
  error_failed = λ m e. cc;
  failed_error = λ e. cc;
}
ended-IsCoherent r (some (execution_failed t)) now sp = record {
  cancel_running = λ e. cc;
  idle_user = λ e. refl;
  error_failed = λ m e. refl;
  failed_error = λ e p. cc;
}

advanced-IsCoherent :
    (p : ExecutionProgress) (r : Option ExecutionResult) (sp : StoredPlan)
    → IsCoherent sp
    → IsCoherent (advanced p r sp)
unfolding advanced
advanced-IsCoherent p r sp c = record {
  cancel_running = c.cancel_running;
  idle_user = c.idle_user;
  error_failed = c.error_failed;
  failed_error = c.failed_error;
}

module _ {F R : Type 0} (file : StateFile F R) where
  plan-save : (ps : PlanStore F) → (save file ps).0.plan ≡ ps.plan
  unfolding save
  plan-save ps = ground arith

  -- How a call changes the plan: not at all, or it drops it, or it puts one in its place.
  become :
      (ps ps' : PlanStore F) → ps'.plan ≡ ps.plan → CoherentPlan ps.plan → CoherentPlan ps'.plan
  become ps ps' e c = subst CoherentPlan (sym e) c

  turn :
      (ps : PlanStore F) (sp : StoredPlan)
      → ps.plan ≡ some sp
      → IsCoherent sp
      → CoherentPlan ps.plan
  turn ps sp e c = subst CoherentPlan (sym e) c

  saved_plan :
      (ps : PlanStore F) (sp : StoredPlan)
      → (save file (record ps { plan = some sp })).0.plan ≡ some sp
  saved_plan ps sp = plan-save (record ps { plan = some sp })

  change_plan-IsCoherent :
      (id : String) (f : StoredPlan → StoredPlan) (ps : PlanStore F)
      → ((sp : StoredPlan) → IsCoherent sp → IsCoherent (f sp))
      → CoherentPlan ps.plan
      → CoherentPlan (change_plan file id f ps).0.plan
  change_plan-IsCoherent id f ps keeps c =
      let ps' = (change_plan file id f ps).0 in
      elim (Option-cases ps.state_err) [
        | inr (e, p) ↦ become ps ps' (unfold change_plan in ground (arith, p)) c
        | inl p ↦ elim (Option-cases ps.plan) [
          | inl q ↦ become ps ps' (unfold change_plan in ground (arith, p, q)) c
          | inr (sp, q) ↦ elim (Bool-cases (has_id id sp)) [
            | inl h ↦
                turn ps' (f sp)
                  (unfold change_plan in ground (arith, p, q, h, saved_plan ps (f sp)))
                  (keeps sp (subst CoherentPlan q c))
            | inr h ↦ become ps ps' (unfold change_plan in ground (arith, p, q, h)) c
          ]
        ]
      ]

  try_start-IsCoherent :
      (u : String) (now : ℕ) (ps : PlanStore F)
      → CoherentPlan ps.plan
      → CoherentPlan (try_start_execution file u now ps).0.plan
  try_start-IsCoherent u now ps c =
      let ps' = (try_start_execution file u now ps).0 in
      elim (Option-cases ps.state_err) [
        | inr (e, p) ↦ become ps ps' (unfold try_start_execution in ground (arith, p)) c
        | inl p ↦ elim (Option-cases ps.plan) [
          | inl q ↦ become ps ps' (unfold try_start_execution in ground (arith, p, q)) c
          | inr (sp, q) ↦ elim (Option-cases sp.plan) [
            | inl r ↦ become ps ps' (unfold try_start_execution in ground (arith, p, q, r)) c
            | inr (w, r) ↦
                elim (Bool-cases
                  (is_running sp.execution_status || is_completed sp.execution_status)) [
                    | inl h ↦
                        become ps ps' (unfold try_start_execution in ground (arith, p, q, r, h)) c
                    | inr h ↦
                        let sp' = begun u now (length w.items) sp in
                        turn ps' sp'
                          (unfold try_start_execution in
                            ground (arith, p, q, r, h, saved_plan ps sp'))
                          (begun-IsCoherent u now (length w.items) sp)
                  ]
          ]
        ]
      ]

  asked-IsCoherent :
      (sp : StoredPlan)
      → sp.execution_status ≡ running
      → IsCoherent sp
      → IsCoherent (record sp { cancel_requested = true })
  asked-IsCoherent sp e c = record {
    cancel_running = λ _. e;
    idle_user = c.idle_user;
    error_failed = c.error_failed;
    failed_error = c.failed_error;
  }

  request_cancel-IsCoherent :
      (ps : PlanStore F) → CoherentPlan ps.plan → CoherentPlan (request_cancel file ps).0.plan
  request_cancel-IsCoherent ps c =
      let ps' = (request_cancel file ps).0 in
      elim (Option-cases ps.state_err) [
        | inr (e, p) ↦ become ps ps' (unfold request_cancel in ground (arith, p)) c
        | inl p ↦ elim (Option-cases ps.plan) [
          | inl q ↦ become ps ps' (unfold request_cancel in ground (arith, p, q)) c
          | inr (sp, q) ↦
              elim (Bool-cases (not (is_running sp.execution_status) || sp.cancel_requested)) [
                | inl h ↦ become ps ps' (unfold request_cancel in ground (arith, p, q, h)) c
                | inr h ↦
                    let sp' = record sp { cancel_requested = true } in
                    turn ps' sp'
                      (unfold request_cancel in ground (arith, p, q, h, saved_plan ps sp'))
                      (asked-IsCoherent sp (ground arith) (subst CoherentPlan q c))
              ]
        ]
      ]

  set-IsCoherent :
      (sp : StoredPlan) (ps : PlanStore F)
      → IsCoherent sp
      → CoherentPlan ps.plan
      → CoherentPlan (set file sp ps).0.plan
  set-IsCoherent sp ps i c =
      let ps' = (set file sp ps).0 in
      elim (Option-cases ps.state_err) [
        | inr (e, p) ↦ become ps ps' (unfold set in ground (arith, p)) c
        | inl p ↦ turn ps' sp (unfold set in ground (arith, p, saved_plan ps sp)) i
      ]

  clear-IsCoherent : (ps : PlanStore F) → CoherentPlan ps.plan → CoherentPlan (clear file ps).0.plan
  clear-IsCoherent ps c =
      let ps' = (clear file ps).0 in
      let dropped = record ps { plan = none } in
      elim (Option-cases ps.state_err) [
        | inr (e, p) ↦ become ps ps' (unfold clear in ground (arith, p)) c
        | inl p ↦
            let gone : ps'.plan ≡ none = unfold clear in ground (arith, p, plan-save dropped) in
            subst CoherentPlan (sym gone) tt
      ]

  -- From a store whose plan is coherent, after any calls that set only coherent plans, the plan is
  -- coherent, whatever the files do.
  pub run-IsCoherent :
      (cs : List Call) (ps : PlanStore F)
      → SetsCoherent cs
      → CoherentPlan ps.plan
      → CoherentPlan (run file ps cs).plan
  unfolding run apply
  run-IsCoherent [] ps s c = c
  run-IsCoherent (sets sp ∷ cs) ps (i, s) c = run-IsCoherent cs _ s (set-IsCoherent sp ps i c)
  run-IsCoherent (clears ∷ cs) ps s c = run-IsCoherent cs _ s (clear-IsCoherent ps c)
  run-IsCoherent (starts u now ∷ cs) ps s c =
      run-IsCoherent cs _ s (try_start-IsCoherent u now ps c)
  run-IsCoherent (finishes id r err now ∷ cs) ps s c = run-IsCoherent cs _ s (
      unfold finish_execution in
      change_plan-IsCoherent id (ended r err now) ps (λ sp _. ended-IsCoherent r err now sp) c)
  run-IsCoherent (updates id p r ∷ cs) ps s c = run-IsCoherent cs _ s (
      unfold update_execution_progress in
      change_plan-IsCoherent id (advanced p r) ps (advanced-IsCoherent p r) c)
  run-IsCoherent (cancels ∷ cs) ps s c = run-IsCoherent cs _ s (request_cancel-IsCoherent ps c)

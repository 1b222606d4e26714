-- ===== src/Importer/PlanStore/Durable.antt =====
-- The plan that a restart of the server finds in the state file.
use leafwiki.Base.{
  ℕ, String, true, ◌≡◌, refl, List, [], ◌∷◌, Option, none, some, arith, Option-cases, inl, inr,
  length,
}
use leafwiki.Importer.StoredPlan.{StoredPlan, begun}
use leafwiki.Importer.StateFile.{StateFile, coded}
use leafwiki.Importer.PlanStore.{
  PlanStore, StoreError, Call, sets, clears, starts, finishes, updates, cancels, persist, save,
  load, new_plan_store, set, clear, try_start_execution, change_plan, finish_execution,
  update_execution_progress, request_cancel, apply, run,
}
use leafwiki.Importer.PlanStore.Files.{IsFileSystem, load-persist}

abbrev if_unavailable {ℓ} : {A : Type ℓ} → Option StoreError → A → A → A
if_unavailable none new old = new
if_unavailable (some e) new old = old

module _ {F R : Type 0} (file : StateFile F R) where
  -- A store without a state error, whose file holds its plan.
  pub record IsSaved (ps : PlanStore F) : Type 0 where
    pub on_file : ps.has_file ≡ true
    pub healthy : ps.state_err ≡ none
    pub stored : load file ps.disk ≡ coded ps.plan

  -- The plan that the last call left without a state error.
  unfoldable pub last_saved : PlanStore F → List Call → Option StoredPlan
  last_saved ps [] = ps.plan
  last_saved ps (c ∷ cs) =
      let rest = last_saved (apply file c ps) cs in
      if_unavailable (apply file c ps).state_err rest ps.plan

  -- A store with a state error changes no more.
  apply_unavailable :
      (c : Call) (ps : PlanStore F) (e : StoreError) → ps.state_err ≡ some e → apply file c ps ≡ ps
  unfolding apply set clear try_start_execution change_plan finish_execution
      update_execution_progress request_cancel
  apply_unavailable (sets sp) ps e h = ground (arith, h)
  apply_unavailable clears ps e h = ground (arith, h)
  apply_unavailable (starts u n) ps e h = ground (arith, h)
  apply_unavailable (finishes i r x n) ps e h = ground (arith, h)
  apply_unavailable (updates i p r) ps e h = ground (arith, h)
  apply_unavailable cancels ps e h = ground (arith, h)

  run_unavailable :
      (cs : List Call) (ps : PlanStore F) (e : StoreError)
      → ps.state_err ≡ some e
      → run file ps cs ≡ ps
  unfolding run
  run_unavailable [] ps e h = refl
  run_unavailable (c ∷ cs) ps e h =
      ground (arith, apply_unavailable c ps e h, run_unavailable cs ps e h)

  module _ (content temporary : F → Option R) (fs : IsFileSystem file content temporary) where
    -- What a call leaves, if the file held `old`.
    abbrev Leaves : Option StoredPlan → PlanStore F → Type 0
    Leaves old ps =
        (ps.has_file ≡ true) × (load file ps.disk ≡ coded (if_unavailable ps.state_err ps.plan old))

    save-Leaves :
        (ps : PlanStore F) (old : Option StoredPlan)
        → ps.has_file ≡ true
        → ps.state_err ≡ none
        → load file ps.disk ≡ coded old
        → Leaves old (save file ps).0
    unfolding save
    save-Leaves ps old h e l = elim (Option-cases (persist file ps).1) [
      | inl p ↦ ground (arith, p, h, e, load-persist file content temporary fs ps old h l)
      | inr (m, p) ↦ ground (arith, p, h, e, load-persist file content temporary fs ps old h l)
    ]

    abbrev with_plan : Option StoredPlan → PlanStore F → PlanStore F
    with_plan p ps = record ps { plan = p }

    saved-Leaves :
        (plan : Option StoredPlan) (ps : PlanStore F)
        → IsSaved ps
        → Leaves ps.plan (save file (with_plan plan ps)).0
    saved-Leaves plan ps s = save-Leaves (with_plan plan ps) ps.plan s.on_file s.healthy s.stored

    change_plan-Leaves :
        (id : String) (f : StoredPlan → StoredPlan) (ps : PlanStore F)
        → IsSaved ps
        → Leaves ps.plan (change_plan file id f ps).0
    unfolding change_plan
    change_plan-Leaves id f ps s = elim (Option-cases ps.plan) [
      | inl p ↦ ground (arith, p, s.on_file, s.healthy, s.stored)
      | inr (sp, p) ↦
          ground (arith, p, s.on_file, s.healthy, s.stored, saved-Leaves (some (f sp)) ps s)
    ]

    try_start-Leaves :
        (user_id : String) (now : ℕ) (ps : PlanStore F)
        → IsSaved ps
        → Leaves ps.plan (try_start_execution file user_id now ps).0
    unfolding try_start_execution
    try_start-Leaves user_id now ps s = elim (Option-cases ps.plan) [
      | inl p ↦ ground (arith, p, s.on_file, s.healthy, s.stored)
      | inr (sp, p) ↦ elim (Option-cases sp.plan) [
        | inl q ↦ ground (arith, p, q, s.on_file, s.healthy, s.stored)
        | inr (r, q) ↦ ground (
          arith,
          p,
          q,
          s.on_file,
          s.healthy,
          s.stored,
          saved-Leaves (some (begun user_id now (length r.items) sp)) ps s,
        )
      ]
    ]

    request_cancel-Leaves :
        (ps : PlanStore F) → IsSaved ps → Leaves ps.plan (request_cancel file ps).0
    unfolding request_cancel
    request_cancel-Leaves ps s = elim (Option-cases ps.plan) [
      | inl p ↦ ground (arith, p, s.on_file, s.healthy, s.stored)
      | inr (sp, p) ↦ ground (
        arith,
        p,
        s.on_file,
        s.healthy,
        s.stored,
        saved-Leaves (some (record sp { cancel_requested = true })) ps s,
      )
    ]

    apply-Leaves : (c : Call) (ps : PlanStore F) → IsSaved ps → Leaves ps.plan (apply file c ps)
    unfolding apply
    apply-Leaves (sets sp) ps s =
        unfold set in ground (arith, s.healthy, saved-Leaves (some sp) ps s)
    apply-Leaves clears ps s = unfold clear in ground (arith, s.healthy, saved-Leaves none ps s)
    apply-Leaves (starts user_id now) ps s = try_start-Leaves user_id now ps s
    apply-Leaves (finishes i r x n) ps s = unfold finish_execution in change_plan-Leaves i _ ps s
    apply-Leaves (updates i p r) ps s =
        unfold update_execution_progress in change_plan-Leaves i _ ps s
    apply-Leaves cancels ps s = request_cancel-Leaves ps s

    run-stored :
        (cs : List Call) (ps : PlanStore F)
        → IsSaved ps
        → load file (run file ps cs).disk ≡ coded (last_saved ps cs)
    unfolding run last_saved
    run-stored [] ps s = s.stored
    run-stored (c ∷ cs) ps s =
        let (on_file, stored) = apply-Leaves c ps s in
        elim (Option-cases (apply file c ps).state_err) [
          | inl p ↦
              let next : IsSaved (apply file c ps) = record {
                on_file = on_file;
                healthy = p;
                stored = ground (arith, p, stored);
              } in
              ground (arith, p, run-stored cs (apply file c ps) next)
          | inr (e, p) ↦ ground (arith, p, stored, run_unavailable cs (apply file c ps) e p)
        ]

    opened :
        (d : F) (plan : Option StoredPlan)
        → load file d ≡ coded plan
        → new_plan_store file true d
          ≡ record { plan = plan; has_file = true; state_err = none; disk = d }
    unfolding new_plan_store
    opened d plan l = ground (arith, l)

    opened-IsSaved :
        (d : F) (plan : Option StoredPlan)
        → load file d ≡ coded plan
        → IsSaved (new_plan_store file true d)
    opened-IsSaved d plan l =
        rw (opened d plan l) (record { on_file = refl; healthy = refl; stored = l })

    -- On files that do what their documentation says, whose reads do not fail and whose failed renames
    -- change nothing, take a store that was opened on a state file that it can read, and make any
    -- calls. A store that is opened on the file then, be it after a crash between two calls or after
    -- failures of the files, has no error, and its plan is the one that the last call before the first
    -- failure left.
    pub reopened :
        (d : F) (plan : Option StoredPlan) (cs : List Call)
        → load file d ≡ coded plan
        → let ps = new_plan_store file true d in
          new_plan_store file true (run file ps cs).disk ≡ record {
            plan = last_saved ps cs;
            has_file = true;
            state_err = none;
            disk = (run file ps cs).disk;
          }
    reopened d plan cs l =
        let ps = new_plan_store file true d in
        opened (run file ps cs).disk (last_saved ps cs) (run-stored cs ps (opened-IsSaved d plan l))

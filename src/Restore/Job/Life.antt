-- ===== src/Restore/Job/Life.antt =====
-- What holds of a job after any calls, in any order.
use leafwiki.Base.{
  ℕ, suc, ◌+◌, ◌≤◌, ◌≡◌, String, Bool, true, false, List, [], ◌∷◌, some, arith, if◌then◌else◌,
}
use leafwiki.Restore.Job.{
  Job, Call, starts, phases, warns, finishes, gives_up, new_job, start, apply, run, status,
}

-- What a reader of `Status` relies on.
pub record IsConsistent (j : Job) : Type 0 where
  pub not_both : j.running ≡ true → (status j).done ≡ false
  pub error_done : (e : String) → (status j).error ≡ some e → (status j).done ≡ true
  pub stuck_done : (status j).needs_intervention ≡ true → (status j).done ≡ true

-- How many of the calls were a `Start` that returned true.
unfoldable pub started : Job → List Call → ℕ
started j [] = 0
started j (starts ∷ cs) = (if (start j).1 then 1 else 0) + started (apply starts j) cs
started j (c ∷ cs) = started (apply c j) cs

unfoldable pub finished : List Call → ℕ
finished [] = 0
finished (finishes e ∷ cs) = suc (finished cs)
finished (gives_up e ∷ cs) = suc (finished cs)
finished (c ∷ cs) = finished cs

abbrev one_if : Bool → ℕ
one_if b = if b then 1 else 0

started-le :
    (j : Job) (cs : List Call)
    → one_if j.running + started j cs ≤ one_if (run j cs).running + finished cs
unfolding run started finished
started-le j [] = omega arith
started-le j (starts ∷ cs) = unfold apply start in ground (arith, started-le (apply starts j) cs)
started-le j (phases p ∷ cs) = unfold apply in started-le (apply (phases p) j) cs
started-le j (warns m ∷ cs) = unfold apply in started-le (apply (warns m) j) cs
started-le j (finishes e ∷ cs) =
    unfold apply in ground (arith, started-le (apply (finishes e) j) cs)
started-le j (gives_up e ∷ cs) =
    unfold apply in ground (arith, started-le (apply (gives_up e) j) cs)

-- Restores never overlap: in any run of a new job, the starts that were granted exceed the calls
-- that finish by at most one, and by none if the job is not running at the end.
pub starts_alone :
    (cs : List Call)
    → started new_job cs ≤ finished cs + (if (run new_job cs).running then 1 else 0)
unfolding new_job
starts_alone cs = ground (arith, started-le new_job cs)

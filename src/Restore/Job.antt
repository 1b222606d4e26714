-- ===== src/Restore/Job.antt =====
-- job.go: the life of one background restore. Every method holds the job's lock, so it is one
-- step; an `error` is its text, and the empty phase is `none`.
pub mod Life
use leafwiki.Base.{ℕ, String, Bool, true, false, List, [], ◌∷◌, Option, none, some, if◌then◌else◌}

pub data Phase : Type 0 where
  validating swapping reopening_auth invalidating_sessions reloading_branding : Phase

pub record JobStatus : Type 0 where
  pub running : Bool
  pub phase : Option Phase
  pub done : Bool
  pub error : Option String
  pub version_warning : String
  pub needs_intervention : Bool

pub record Job : Type 0 where
  pub running : Bool
  pub phase : Option Phase
  pub done : Bool
  pub err : Option String
  pub version_warning : String
  pub needs_intervention : Bool

unfoldable pub new_job : Job
new_job = record {
  running = false;
  phase = none;
  done = false;
  err = none;
  version_warning = "";
  needs_intervention = false;
}

unfoldable pub start : Job → Job × Bool
start j = if j.running then (j, false) else (
  record j {
    running = true;
    done = false;
    phase = none;
    err = none;
    version_warning = "";
    needs_intervention = false;
  },
  true,
)

unfoldable pub set_phase : Phase → Job → Job
set_phase p j = record j { phase = some p }

unfoldable pub set_version_warning : String → Job → Job
set_version_warning msg j = record j { version_warning = msg }

unfoldable pub finish : Option String → Job → Job
finish e j = record j { running = false; done = true; err = e }

unfoldable pub finish_needs_intervention : Option String → Job → Job
finish_needs_intervention e j = record j {
  running = false;
  done = true;
  err = e;
  needs_intervention = true;
}

unfoldable pub status : Job → JobStatus
status j = record {
  running = j.running;
  phase = j.phase;
  done = j.done;
  error = j.err;
  version_warning = j.version_warning;
  needs_intervention = j.needs_intervention;
}

-- A call of one of the methods that write.
pub data Call : Type 0 where
  starts : Call
  phases : Phase → Call
  warns : String → Call
  finishes gives_up : Option String → Call

unfoldable pub apply : Call → Job → Job
unfolding start set_phase set_version_warning finish finish_needs_intervention
apply starts j = (start j).0
apply (phases p) j = set_phase p j
apply (warns m) j = set_version_warning m j
apply (finishes e) j = finish e j
apply (gives_up e) j = finish_needs_intervention e j

unfoldable pub run : Job → List Call → Job
unfolding apply
run j [] = j
run j (c ∷ cs) = run (apply c j) cs

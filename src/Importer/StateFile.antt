-- ===== src/Importer/StateFile.antt =====
-- plan_store.go: what the store calls of the packages os and encoding/json.
use leafwiki.Base.{String, Option, ◌≡◌, refl, ◌⊎◌, inl, inr}
use leafwiki.Importer.StoredPlan.{StoredPlan}

pub data Removed : Type 0 where
  removed not_exist : Removed
  remove_failed : String → Removed

pub data ReadFile (R : Type 0) : Type 0 where
  absent : ReadFile R
  read_failed : String → ReadFile R
  contents : R → ReadFile R

pub data Coded (A : Type 0) : Type 0 where
  coded : A → Coded A
  not_coded : String → Coded A

-- The state file, the temporary file beside it, and their encoding; `R` are the bytes of a file.
pub record StateFile (F R : Type 0) : Type 0 where
  pub make_dir : F → F × Option String
  pub remove : F → F × Removed
  pub write_temporary : R → F → F × Option String
  pub rename_temporary : F → F × Option String
  pub read : F → ReadFile R
  pub encode : StoredPlan → Coded R
  pub decode : R → Coded StoredPlan

pub Coded-cases :
    {A : Type 0} (c : Coded A) → ((a : A) × (c ≡ coded a)) ⊎ ((e : String) × (c ≡ not_coded e))
Coded-cases (coded a) = inl (a, refl)
Coded-cases (not_coded e) = inr (e, refl)

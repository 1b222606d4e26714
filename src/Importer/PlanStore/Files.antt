-- ===== src/Importer/PlanStore/Files.antt =====
-- What the state file holds after a save.
use leafwiki.Base.{String, true, ◌≡◌, Option, none, some, arith, Option-cases, inl, inr}
use leafwiki.Importer.StoredPlan.{StoredPlan}
use leafwiki.Importer.StateFile.{
  StateFile, Removed, remove_failed, ReadFile, absent, contents, coded, Coded-cases,
}
use leafwiki.Importer.PlanStore.{PlanStore, persist, write_plan, remove_plan, load}

-- An absent file stays absent, and one that was removed is absent.
abbrev pub after_removal {ℓ} : {A : Type ℓ} → Removed → Option A → Option A
after_removal (remove_failed e) old = old
after_removal _ old = none

abbrev pub read_as : {R : Type 0} → Option R → ReadFile R
read_as none = absent
read_as (some raw) = contents raw

abbrev pub if_failed {ℓ} : {A : Type ℓ} → Option String → A → A → A
if_failed none new old = new
if_failed (some e) new old = old

-- What the documentation of os and encoding/json says of files that nobody else writes and that
-- can be read: a rename replaces the file in one step or not at all, the other calls leave it alone,
-- and decoding inverts encoding.
pub record IsFileSystem {F R : Type 0} (file : StateFile F R) (content temporary : F → Option R)
    : Type 0 where
  pub reads : (d : F) → file.read d ≡ read_as (content d)
  pub make_dir_keeps : (d : F) → content (file.make_dir d).0 ≡ content d
  pub removes : (d : F) → content (file.remove d).0 ≡ after_removal (file.remove d).1 (content d)
  pub write_keeps : (raw : R) (d : F) → content (file.write_temporary raw d).0 ≡ content d
  pub writes :
      (raw : R) (d : F)
      → (file.write_temporary raw d).1 ≡ none
      → temporary (file.write_temporary raw d).0 ≡ some raw
  pub renames :
      (d : F)
      → content (file.rename_temporary d).0
        ≡ if_failed (file.rename_temporary d).1 (temporary d) (content d)
  pub round_trip :
      (sp : StoredPlan) (raw : R) → file.encode sp ≡ coded raw → file.decode raw ≡ coded sp

module _ {F R : Type 0} (file : StateFile F R) (content temporary : F → Option R)
    (fs : IsFileSystem file content temporary) where
  load-content : (d d' : F) → content d ≡ content d' → load file d ≡ load file d'
  unfolding load
  load-content d d' e = cc (fs.reads d, fs.reads d', e)

  load_absent : (d : F) → content d ≡ none → load file d ≡ coded none
  unfolding load
  load_absent d e = ground (arith, fs.reads d, e)

  load_contents :
      (d : F) (sp : StoredPlan) (raw : R)
      → file.encode sp ≡ coded raw
      → content d ≡ some raw
      → load file d ≡ coded (some sp)
  unfolding load
  load_contents d sp raw e c = ground (arith, fs.reads d, fs.round_trip sp raw e, c)

  load-write_plan :
      (sp : StoredPlan) (d : F) (old : Option StoredPlan)
      → load file d ≡ coded old
      → load file (write_plan file sp d).0
        ≡ coded (if_failed (write_plan file sp d).1 (some sp) old)
  unfolding write_plan
  load-write_plan sp d old l = elim (Coded-cases (file.encode sp)) [
    | inr (e, p) ↦ ground (arith, p, l)
    | inl (raw, p) ↦
        let (d1, e1) = file.write_temporary raw d in
        let d2 = (file.rename_temporary d1).0 in
        let kept = fs.write_keeps raw d in
        ground (
          arith,
          p,
          l,
          fs.writes raw d,
          kept,
          load-content d1 d,
          fs.renames d1,
          load-content d2 d,
          load_contents d2 sp raw p,
        )
  ]

  load-remove_plan :
      (d : F) (old : Option StoredPlan)
      → load file d ≡ coded old
      → load file (remove_plan file d).0 ≡ coded (if_failed (remove_plan file d).1 none old)
  unfolding remove_plan
  load-remove_plan d old l =
      ground (arith, fs.removes d, load_absent (file.remove d).0, load-content (file.remove d).0 d)

  pub load-persist :
      (ps : PlanStore F) (old : Option StoredPlan)
      → ps.has_file ≡ true
      → load file ps.disk ≡ coded old
      → load file (persist file ps).0 ≡ coded (if_failed (persist file ps).1 ps.plan old)
  unfolding persist
  load-persist ps old h l =
      let d1 = (file.make_dir ps.disk).0 in
      let l1 = load-content d1 ps.disk (fs.make_dir_keeps ps.disk) in
      elim (Option-cases ps.plan) [
        | inl e ↦ ground (arith, h, e, l, l1, load-remove_plan d1 old)
        | inr (sp, e) ↦ ground (arith, h, e, l, l1, load-write_plan sp d1 old)
      ]

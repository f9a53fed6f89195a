-- ===== src/Init/Plan.antt =====
-- execute_plan_with_hook as a whole, where it fails.
use graphloom.Base.{
  ℕ, ◌≡◌, ◌∙◌, sym, ap, refl, subst, Option, List, [], Text, Result, ok, err, arith, inl, inr,
  Result-cases, lookup, length, reverse,
}
use graphloom.Init.Disk.{path_eq, FilePath, Disk}
use graphloom.Init.Transaction.{
  CliError, Action, PublishedManagedFile, InitPlan, then_do, remove_empty_directories, publish_each,
  execute_staged, create_and_stage, execute_plan_with_hook, stage_each, missing_directories,
  create_directories, remove_backups,
}
use graphloom.Init.Views.{view}
use graphloom.Init.Rollback.{undo_all}
use graphloom.Init.Moves.{then_do-cases}
use graphloom.Init.Agree.{NotTemporary}
use graphloom.Init.Leaves.{files-remove_empty_directories}
use graphloom.Init.Staging.{IsStaging-Leaves, IsStaging-staged, ArePlain, stage_each-IsStaging}
use graphloom.Init.Leaves.{files-missing_directories, files-create_directories}
use graphloom.Init.Undoing.{IsRollbackFailed, IsRecovered}
use graphloom.Init.Recovery.{publish_each-IsRecovered}

module _ (uuid : ℕ → Text) (width : (n m : ℕ) → length (uuid n) ≡ length (uuid m))
    (unique : (n m : ℕ) → uuid n ≡ uuid m → n ≡ m) (before_publish : ℕ → Result CliError (Unit {0}))
    (start : FilePath → Option Text) where
  abbrev Starts : Disk → Type 0
  Starts d = (p : FilePath) → NotTemporary uuid p → view d p ≡ start p

  Starts-files : (d d' : Disk) → d'.files ≡ d.files → Starts d → Starts d'
  Starts-files d d' e h p plain = ap (λ files. lookup p files) e ∙ h p plain

  Starts-remove_empty_directories :
      (created : List FilePath) (d : Disk) → Starts d → Starts (remove_empty_directories created d)
  Starts-remove_empty_directories created d =
      Starts-files d (remove_empty_directories created d) (files-remove_empty_directories created d)

  commit-IsRecovered :
      (first : Action (List PublishedManagedFile)) (d : Disk)
      → IsRecovered uuid start (first d)
      → IsRecovered uuid start
          (then_do first (λ published d'. (ok tt, remove_backups published d')) d)
  commit-IsRecovered first d h =
      elim (then_do-cases first (λ published d'. (ok tt, remove_backups published d')) d) [
        | inl (a, e, same) ↦ subst (IsRecovered uuid start) (sym same) tt
        | inr (k, e, same) ↦
            subst (IsRecovered uuid start) (sym same)
              (subst (λ r. IsRecovered uuid start (r, (first d).1)) e h)
      ]

  execute_staged-IsRecovered :
      (plan : InitPlan) (created : List FilePath) (d : Disk)
      → ArePlain uuid plan.files
      → Starts d
      → IsRecovered uuid start (execute_staged uuid before_publish plan created d)
  unfolding execute_staged undo_all reverse
  execute_staged-IsRecovered plan created d plain h =
      let stage = stage_each uuid plan.files [] d in
      let staging = stage_each-IsStaging uuid plan.files [] d plain tt in
      let now : Starts stage.1 = λ p np. IsStaging-Leaves uuid d stage staging p np ∙ h p np in
      elim (Result-cases stage.0) [
        | inr (k, e) ↦
            let same : execute_staged uuid before_publish plan created d
                ≡ (err k, remove_empty_directories created stage.1) =
              ground (arith, e) in
            subst (IsRecovered uuid start) (sym same)
              (inr (Starts-remove_empty_directories created stage.1 now))
        | inl (staged, e) ↦
            let all_staged = IsStaging-staged uuid d stage staged staging e in
            let publish = publish_each uuid before_publish created staged 0 staged [] in
            let same : execute_staged uuid before_publish plan created d
                ≡ then_do publish (λ published d'. (ok tt, remove_backups published d')) stage.1 =
              ground (arith, e) in
            subst (IsRecovered uuid start) (sym same) (
              commit-IsRecovered publish stage.1 (
                publish_each-IsRecovered uuid width unique start before_publish created staged
                  all_staged 0 staged [] stage.1 all_staged
                  (record { drawn = tt; original = now })))
      ]

  create_and_stage-IsRecovered :
      (plan : InitPlan) (created : List FilePath) (d : Disk)
      → ArePlain uuid plan.files
      → Starts d
      → IsRecovered uuid start (create_and_stage uuid before_publish plan created d)
  unfolding create_and_stage
  create_and_stage-IsRecovered plan created d plain h =
      let made = create_directories plan.directories d in
      let now = Starts-files d made.1 (files-create_directories plan.directories d) h in
      elim (Result-cases made.0) [
        | inr (k, e) ↦
            let same : create_and_stage uuid before_publish plan created d
                ≡ (err k, remove_empty_directories created made.1) =
              ground (arith, e) in
            subst (IsRecovered uuid start) (sym same)
              (inr (Starts-remove_empty_directories created made.1 now))
        | inl (a, e) ↦
            let same : create_and_stage uuid before_publish plan created d
                ≡ execute_staged uuid before_publish plan created made.1 =
              ground (arith, e) in
            subst (IsRecovered uuid start) (sym same)
              (execute_staged-IsRecovered plan created made.1 plain now)
      ]

  pub execute_plan-IsRecovered :
      (plan : InitPlan) (d : Disk)
      → ArePlain uuid plan.files
      → Starts d
      → IsRecovered uuid start (execute_plan_with_hook uuid before_publish plan d)
  unfolding execute_plan_with_hook
  execute_plan-IsRecovered plan d plain h =
      let missing = missing_directories plan.directories [] in
      let now = Starts-files d (missing d).1 (files-missing_directories plan.directories [] d) h in
      elim (then_do-cases missing (create_and_stage uuid before_publish plan) d) [
        | inr (k, e, same) ↦ subst (IsRecovered uuid start) (sym same) (inr now)
        | inl (created, e, same) ↦
            subst (IsRecovered uuid start) (sym same)
              (create_and_stage-IsRecovered plan created (missing d).1 plain now)
      ]

recovered :
    (uuid : ℕ → Text) (start : FilePath → Option Text) (e : CliError) (d : Disk) (p : FilePath)
    → IsRecovered uuid {A = Unit {0}} start (err e, d)
    → ¬ (IsRollbackFailed e)
    → NotTemporary uuid p
    → view d p ≡ start p
recovered uuid start e d p (inl failed) h plain = absurd (h failed)
recovered uuid start e d p (inr same) h plain = same p plain

-- Where UUIDs have one length and do not repeat, and no file of the plan has the name of a temporary
-- file: when execute_plan_with_hook returns an error that is no failure of the rollback itself, at
-- whichever call of the file system or of the hook, every file but the temporary ones has the content
-- that it had before, or is missing as before.
pub execute_plan_with_hook-restores :
    (uuid : ℕ → Text) (width : (n m : ℕ) → length (uuid n) ≡ length (uuid m))
    (unique : (n m : ℕ) → uuid n ≡ uuid m → n ≡ m) (before_publish : ℕ → Result CliError (Unit {0}))
    (plan : InitPlan) (d d' : Disk) (e : CliError) (p : FilePath)
    → ArePlain uuid plan.files
    → execute_plan_with_hook uuid before_publish plan d ≡ (err e, d')
    → ¬ (IsRollbackFailed e)
    → NotTemporary uuid p
    → view d' p ≡ view d p
execute_plan_with_hook-restores uuid width unique before_publish plan d d' e p files run h plain =
    recovered uuid (view d) e d' p
      (subst (IsRecovered uuid (view d)) run (
        execute_plan-IsRecovered uuid width unique before_publish (view d) plan d files
          (λ _ _. refl)))
      h plain

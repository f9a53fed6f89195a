-- ===== src/Init/Committed.antt =====
-- execute_plan_with_hook where it succeeds: every file of the plan is published.
use graphloom.Base.{
  ℕ, ◌≡◌, ◌∙◌, sym, ap, refl, List, [], Text, Result, ok, arith, inl, inr, Result-cases, lookup,
  length,
}
use graphloom.Init.Disk.{FilePath, Disk, path_eq}
use graphloom.Init.Transaction.{
  CliError, InitPlan, then_do, stage_each, publish_each, remove_backups, execute_staged,
  create_and_stage, execute_plan_with_hook, create_directories, missing_directories,
}
use graphloom.Init.Views.{view}
use graphloom.Init.Agree.{NotTemporary}
use graphloom.Init.Leaves.{files-create_directories, files-missing_directories}
use graphloom.Init.Staging.{ArePlain}
use graphloom.Init.Written.{then_do-ok}
use graphloom.Init.Jobs.{chosen, stage_each-AreWritten}
use graphloom.Init.Published.{
  content_after, content_after-cong, remove_backups-keeps, publish_each-content_after,
}

module _ (uuid : ℕ → Text) where
  module _ (width : (n m : ℕ) → length (uuid n) ≡ length (uuid m))
      (unique : (n m : ℕ) → uuid n ≡ uuid m → n ≡ m)
      (before_publish : ℕ → Result CliError (Unit {0})) where
    execute_staged-content_after :
        (plan : InitPlan) (created : List FilePath) (d : Disk)
        → ArePlain uuid plan.files
        → (execute_staged uuid before_publish plan created d).0 ≡ ok tt
        → (p : FilePath) → NotTemporary uuid p
        → view (execute_staged uuid before_publish plan created d).1 p
          ≡ content_after (chosen d plan.files) (view d) p
    unfolding execute_staged
    execute_staged-content_after plan created d plain h p np =
        let stage = stage_each uuid plan.files [] d in
        elim (Result-cases stage.0) [
          | inr (k, e) ↦ ground (arith, e, h)
          | inl (staged, e) ↦
              let publish = publish_each uuid before_publish created staged 0 staged [] in
              let same : execute_staged uuid before_publish plan created d
                  ≡ then_do publish (λ published d'. (ok tt, remove_backups published d')) stage.1 =
                ground (arith, e) in
              let (published, f, at_end, _) =
                then_do-ok publish (λ published d'. (ok tt, remove_backups published d')) stage.1 tt
                  (ap (λ r. r.0) (sym same) ∙ h) in
              let (written, old) =
                stage_each-AreWritten uuid width unique d 0 plan.files [] staged [] d plain
                  (λ _ _. refl) refl (omega arith) e in
              let (backups, content) =
                publish_each-content_after uuid width unique before_publish created staged 0 0
                  stage.1.next_uuid staged (chosen d plan.files) [] published stage.1 written tt
                  f in
              ap (λ r. view r.1 p) (same ∙ at_end)
              ∙ remove_backups-keeps uuid published (publish stage.1).1 p backups np
              ∙ content p np
              ∙ content_after-cong uuid (chosen d plan.files) (view stage.1) (view d) p np old
        ]

-- Where UUIDs have one length and do not repeat, and no file of the plan has the name of a temporary
-- file: when execute_plan_with_hook succeeds, every file but the temporary ones has the content that it
-- had before, overwritten by the files of the plan, the later ones over the earlier, of which those are
-- left out that were there once the directories had been made and that are not to be overwritten.
pub execute_plan_with_hook-content_after :
    (uuid : ℕ → Text) (width : (n m : ℕ) → length (uuid n) ≡ length (uuid m))
    (unique : (n m : ℕ) → uuid n ≡ uuid m → n ≡ m) (before_publish : ℕ → Result CliError (Unit {0}))
    (plan : InitPlan) (d d' : Disk) (p : FilePath)
    → ArePlain uuid plan.files
    → execute_plan_with_hook uuid before_publish plan d ≡ (ok tt, d')
    → NotTemporary uuid p
    → view d' p
      ≡ content_after
          (chosen
            (create_directories plan.directories (missing_directories plan.directories [] d).1).1
            plan.files)
          (view d)
          p
unfolding execute_plan_with_hook create_and_stage
execute_plan_with_hook-content_after uuid width unique before_publish plan d d' p plain run np =
    let missing = missing_directories plan.directories [] in
    let (created, e, same, h) =
      then_do-ok missing (create_and_stage uuid before_publish plan) d tt (ap (λ r. r.0) run) in
    let made = create_directories plan.directories (missing d).1 in
    let files : made.1.files ≡ d.files =
      files-create_directories plan.directories (missing d).1
      ∙ files-missing_directories plan.directories [] d in
    elim (Result-cases made.0) [
      | inr (k, f) ↦ ground (arith, f, h)
      | inl (_, f) ↦
          let go : create_and_stage uuid before_publish plan created (missing d).1
              ≡ execute_staged uuid before_publish plan created made.1 =
            ground (arith, f) in
          ap (λ r. view r.1 p) (sym run ∙ same ∙ go)
          ∙ execute_staged-content_after uuid width unique before_publish plan created made.1 plain
              (ap (λ r. r.0) (sym go) ∙ h) p np
          ∙ content_after-cong uuid (chosen made.1 plan.files) (view made.1) (view d) p np
              (λ q _. ap (λ l. lookup q l) files)
    ]

-- ===== src/Init/Examples.antt =====
-- A project with one file that is there already: the publication of the second file fails.
use graphloom.Base.{
  ℕ, zero, suc, ◌≡◌, ap, refl, true, false, [], ◌∷◌, Text, codes, Result, ok, err, lookup, insert,
  remove, text_beq, reverse, arith,
}
use graphloom.Init.Disk.{
  FilePath, Disk, path_beq, path_eq, split_last, try_exists, prefixes, create_each, create_dir_all,
  create_new, write_all, sync_all, rename, remove_file, remove_dir,
}
use graphloom.Init.Transaction.{
  CliError, other_error, InitPlan, with_rollback, missing_directories, create_directories,
  cleanup_tmp, cleanup_staged, remove_empty_directories, write_staged_file, restore_backup,
  rollback_each, rollback_published, remove_backups, temporary_sibling, stage_file, stage_each,
  move_target_to_backup, abort, publish_file, publish_each, execute_staged, create_and_stage,
  execute_plan_with_hook,
}
use graphloom.Init.Views.{view}
use graphloom.Init.Names.{not_temporary}
use graphloom.Init.Agree.{NotTemporary}
use graphloom.Init.Plan.{execute_plan_with_hook-restores}
use graphloom.Init.Jobs.{chosen}
use graphloom.Init.Published.{content_after}
use graphloom.Init.Committed.{execute_plan_with_hook-content_after}

program : Unit {0}
unfolding path_beq text_beq lookup insert remove reverse split_last try_exists prefixes create_each
    create_dir_all create_new write_all sync_all rename remove_file remove_dir with_rollback
    missing_directories create_directories cleanup_tmp cleanup_staged remove_empty_directories
    write_staged_file restore_backup rollback_each rollback_published remove_backups
    temporary_sibling stage_file stage_each move_target_to_backup abort publish_file publish_each
    execute_staged create_and_stage execute_plan_with_hook
program = tt

-- A UUID of the examples is one character.
abbrev uuid : ℕ → Text
uuid n = n ∷ []

abbrev settings : FilePath
settings = codes "p" ∷ codes "settings.yaml" ∷ []

abbrev dotenv : FilePath
dotenv = codes "p" ∷ codes ".env" ∷ []

abbrev plan : InitPlan
plan = record {
  root = codes "p" ∷ [];
  directories = (codes "p" ∷ []) ∷ (codes "p" ∷ codes "input" ∷ []) ∷ [];
  files =
      record { path = settings; content = codes "new"; overwrite = true }
      ∷ record { path = dotenv; content = codes "key"; overwrite = false }
      ∷ [];
}

abbrev disk : Disk
disk = record {
  files = (settings, codes "old") ∷ [];
  directories = (codes "p" ∷ []) ∷ [];
  faults = [];
  next_uuid = 200;
}

-- The hook fails for the second file, after the first is published.
abbrev refuse_second : ℕ → Result CliError (Unit {0})
refuse_second zero = ok tt
refuse_second (suc n) = err (other_error (codes "stop"))

abbrev after : Disk
after = record {
  files = (settings, codes "old") ∷ [];
  directories = (codes "p" ∷ []) ∷ [];
  faults = [];
  next_uuid = 203;
}

abbrev committed : Disk
committed = record {
  files = (settings, codes "new") ∷ (dotenv, codes "key") ∷ [];
  directories = (codes "p" ∷ []) ∷ (codes "p" ∷ codes "input" ∷ []) ∷ [];
  faults = [];
  next_uuid = 203;
}

published : execute_plan_with_hook uuid (λ _. ok tt) plan disk ≡ (ok tt, committed)
unfolding program
published = refl

rolled_back :
    execute_plan_with_hook uuid refuse_second plan disk ≡ (err (other_error (codes "stop")), after)
unfolding program
rolled_back = refl

abbrev first_byte : Text → ℕ
first_byte [] = 0
first_byte (c ∷ cs) = c

settings_plain : NotTemporary uuid settings
settings_plain =
    not_temporary uuid (codes "p" ∷ []) (codes "settings.y") (codes "aml") refl
      (λ e. omega (arith, ap first_byte e)) (λ e. omega (arith, ap first_byte e))

dotenv_plain : NotTemporary uuid dotenv
dotenv_plain =
    not_temporary uuid (codes "p" ∷ []) (codes ".") (codes "env") refl
      (λ e. omega (arith, ap first_byte e)) (λ e. omega (arith, ap first_byte e))

execute_plan_with_hook-restores_example : view after settings ≡ view disk settings
execute_plan_with_hook-restores_example =
    execute_plan_with_hook-restores uuid (λ n m. refl) (λ n m e. ap first_byte e) refuse_second plan
      disk after (other_error (codes "stop")) settings (settings_plain, (dotenv_plain, tt))
      rolled_back (λ h. h) settings_plain

execute_plan_with_hook-content_after_example :
    view committed dotenv
    ≡ content_after
        (chosen
          (create_directories plan.directories (missing_directories plan.directories [] disk).1).1
          plan.files)
        (view disk)
        dotenv
execute_plan_with_hook-content_after_example =
    execute_plan_with_hook-content_after uuid (λ n m. refl) (λ n m e. ap first_byte e) (λ _. ok tt)
      plan disk committed dotenv (settings_plain, (dotenv_plain, tt)) published dotenv_plain

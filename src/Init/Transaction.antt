-- ===== src/Init/Transaction.antt =====
-- cli/init/transaction.rs: the files of a plan are staged beside their targets, then each target is
-- moved to a backup and the staged file takes its place; a failure undoes it all. The text of a
-- UUID is a parameter, by the number of the UUIDs drawn before it.
use graphloom.Base.{
  ℕ, suc, Bool, true, false, not, ◌&&◌, Option, none, some, List, [], ◌∷◌, ◌++◌, Text, codes,
  Result, ok, err, reverse, if◌then◌else◌,
}
use graphloom.Init.Disk.{
  FilePath, split_last, Disk, Io, IoErrorKind, not_found, try_exists, create_dir_all, create_new,
  write_all, sync_all, rename, remove_file, remove_dir,
}
use Prim.Native.String.{String}

-- The variants of `CliError` that the file makes, and the others, which only a hook returns.
pub data CliError : Type 0 where
  io : (operation : String) → FilePath → IoErrorKind → CliError
  invalid_root : FilePath → String → CliError
  rollback_failed : (operation : String) → (source rollback : CliError) → CliError
  other_error : Text → CliError

pub record ManagedFilePlan : Type 0 where
  pub path : FilePath
  pub content : Text
  pub overwrite : Bool

pub record InitPlan : Type 0 where
  pub root : FilePath
  pub directories : List FilePath
  pub files : List ManagedFilePlan

pub record StagedManagedFile : Type 0 where
  pub target : FilePath
  pub staged : FilePath

pub record PublishedManagedFile : Type 0 where
  pub target : FilePath
  pub backup : Option FilePath

abbrev pub Action : Type 0 → Type 0
Action A = Disk → Result CliError A × Disk

-- `call.map_err(|source| CliError::Io { operation, path, source })`
abbrev pub map_io_err : {A : Type 0} → String → FilePath → Result IoErrorKind A → Result CliError A
map_io_err operation path (ok a) = ok a
map_io_err operation path (err kind) = err (io operation path kind)

abbrev pub io_call : {A : Type 0} → String → FilePath → Io A → Action A
io_call operation path call d = (map_io_err operation path (call d).0, (call d).1)

-- `first?; rest`
abbrev pub then_do : {A B : Type 0} → Action A → (A → Action B) → Action B
then_do first rest d = elim (first d).0 [ ok a ↦ rest a (first d).1 | err e ↦ (err e, (first d).1) ]

unfoldable pub with_rollback : String → CliError → Result CliError (Unit {0}) → CliError
with_rollback operation source (ok _) = source
with_rollback operation source (err rollback) = rollback_failed operation source rollback

-- The calls of missing_directories for the directories left.
unfoldable pub missing_directories : List FilePath → List FilePath → Action (List FilePath)
missing_directories [] missing = λ d. (ok missing, d)
missing_directories (directory ∷ directories) missing =
    then_do (io_call "check initialization directory" directory (try_exists directory)) λ found.
      missing_directories directories (if found then missing else missing ++ directory ∷ [])

unfoldable pub create_directories : List FilePath → Action (Unit {0})
create_directories [] = λ d. (ok tt, d)
create_directories (directory ∷ directories) =
    then_do (io_call "create directory" directory (create_dir_all directory))
      λ _. create_directories directories

-- A failure to remove a temporary file or a directory is only logged.
unfoldable pub cleanup_tmp : FilePath → Disk → Disk
cleanup_tmp path d = (remove_file path d).1

unfoldable pub cleanup_staged : List StagedManagedFile → Disk → Disk
cleanup_staged [] d = d
cleanup_staged (file ∷ files) d = cleanup_staged files (cleanup_tmp file.staged d)

abbrev pub remove_each_directory : List FilePath → Disk → Disk
remove_each_directory [] d = d
remove_each_directory (directory ∷ directories) d =
    remove_each_directory directories (remove_dir directory d).1

unfoldable pub remove_empty_directories : List FilePath → Disk → Disk
remove_empty_directories directories = remove_each_directory (reverse directories)

-- A step whose failure removes the file that it works on.
abbrev pub or_cleanup : FilePath → Action (Unit {0}) → Action (Unit {0})
or_cleanup path call d = elim (call d).0 [
  | ok _ ↦ (ok tt, (call d).1)
  | err e ↦ (err e, cleanup_tmp path (call d).1)
]

unfoldable pub write_staged_file : FilePath → Text → Action (Unit {0})
write_staged_file path content =
    then_do (io_call "create staged managed file" path (create_new path)) λ _.
      then_do (or_cleanup path (io_call "write staged managed file" path (write_all path content)))
        λ _. or_cleanup path (io_call "sync staged managed file" path (sync_all path))

unfoldable pub restore_backup : FilePath → Option FilePath → Action (Unit {0})
restore_backup target none = λ d. (ok tt, d)
restore_backup target (some backup) =
    io_call "restore managed file backup" target (rename backup target)

-- `if first_error.is_none() { first_error = Some(error) }`, where the call failed.
abbrev pub first_of : Option CliError → Result CliError (Unit {0}) → Option CliError
first_of none (err e) = some e
first_of first_error _ = first_error

abbrev pub unless_not_found : Result IoErrorKind (Unit {0}) → Result IoErrorKind (Unit {0})
unless_not_found (err not_found) = ok tt
unless_not_found r = r

abbrev pub first_result : Option CliError → Result CliError (Unit {0})
first_result none = ok tt
first_result (some e) = err e

abbrev pub remove_published : FilePath → Action (Unit {0})
remove_published target d = (
  map_io_err "remove published managed file during rollback" target
      (unless_not_found (remove_file target d).0),
  (remove_file target d).1,
)

unfoldable pub rollback_each : List PublishedManagedFile → Option CliError → Action (Unit {0})
rollback_each [] first_error d = (first_result first_error, d)
rollback_each (file ∷ files) first_error d =
    let removed = remove_published file.target d in
    let restored = restore_backup file.target file.backup removed.1 in
    rollback_each files (first_of (first_of first_error removed.0) restored.0) restored.1

unfoldable pub rollback_published : List PublishedManagedFile → Action (Unit {0})
rollback_published files = rollback_each (reverse files) none

unfoldable pub remove_backups : List PublishedManagedFile → Disk → Disk
remove_backups [] d = d
remove_backups (file ∷ files) d =
    remove_backups files (elim file.backup [ none ↦ d | some backup ↦ (remove_file backup d).1 ])

module _ (uuid : ℕ → Text) where
  -- `format!(".{}.{}.{}", name, Uuid::new_v4(), kind)`
  abbrev pub temporary_name : (name : Text) → ℕ → (kind : Text) → Text
  temporary_name name n kind = b'.' ∷ (name ++ (b'.' ∷ (uuid n ++ (b'.' ∷ kind))))

  unfoldable pub temporary_sibling : FilePath → (kind : Text) → Action FilePath
  temporary_sibling path kind d = elim (split_last path) [
    | none ↦ (err (invalid_root path "managed path has no parent"), d)
    | some (parent, name) ↦ (
      ok (parent ++ temporary_name name d.next_uuid kind ∷ []),
      record d { next_uuid = suc d.next_uuid },
    )
  ]

  abbrev pub write_new :
      ManagedFilePlan → List StagedManagedFile → FilePath → Action (List StagedManagedFile)
  write_new file staged staged_path d = elim (write_staged_file staged_path file.content d).0 [
    | err e ↦ (err e, cleanup_staged staged (write_staged_file staged_path file.content d).1)
    | ok _ ↦ (
      ok (staged ++ record { target = file.path; staged = staged_path } ∷ []),
      (write_staged_file staged_path file.content d).1,
    )
  ]

  abbrev pub keep_or_stage :
      ManagedFilePlan → List StagedManagedFile → (keep : Bool) → Action (List StagedManagedFile)
  keep_or_stage file staged true = λ d. (ok staged, d)
  keep_or_stage file staged false =
      then_do (temporary_sibling file.path (codes "tmp")) (write_new file staged)

  -- One round of the loop of stage_managed_files.
  unfoldable pub stage_file :
      ManagedFilePlan → List StagedManagedFile → Action (List StagedManagedFile)
  stage_file file staged =
      then_do (io_call "check managed file" file.path (try_exists file.path))
        λ found. keep_or_stage file staged (found && not file.overwrite)

  unfoldable pub stage_each :
      List ManagedFilePlan → List StagedManagedFile → Action (List StagedManagedFile)
  stage_each [] staged = λ d. (ok staged, d)
  stage_each (file ∷ files) staged = then_do (stage_file file staged) (stage_each files)

  unfoldable pub move_target_to_backup : FilePath → Action (Option FilePath)
  move_target_to_backup target =
      then_do (io_call "check managed file before publish" target (try_exists target)) λ found.
        elim found [
          | false ↦ λ d. (ok none, d)
          | true ↦ then_do (temporary_sibling target (codes "backup")) λ backup.
              then_do (io_call "backup managed file" target (rename target backup))
                λ _. λ d. (ok (some backup), d)
        ]

-- The error branches of the loop of execute_plan_with_hook.
module _ (created : List FilePath) (staged : List StagedManagedFile) where
  unfoldable pub abort : {A : Type 0} → CliError → Action (Unit {0}) → Action A
  abort error rollback d = (
    err (with_rollback "publish initialized project" error (rollback d).0),
    remove_empty_directories created (cleanup_staged staged (rollback d).1),
  )

-- `current_rollback.and(previous_rollback)`, after both were made.
abbrev pub both : Action (Unit {0}) → Action (Unit {0}) → Action (Unit {0})
both current previous d = elim (current d).0 [
  | ok _ ↦ previous (current d).1
  | err e ↦ (err e, (previous (current d).1).1)
]

module _ (uuid : ℕ → Text) (before_publish : ℕ → Result CliError (Unit {0})) where
  module _ (created : List FilePath) (staged : List StagedManagedFile) where
    -- One round of the loop over the staged files: the backup of the target.
    unfoldable pub publish_file :
        ℕ → StagedManagedFile → List PublishedManagedFile → Action (Option FilePath)
    publish_file index file published d = elim (move_target_to_backup uuid file.target d).0 [
      | err e ↦
          abort created staged e (rollback_published published)
            (move_target_to_backup uuid file.target d).1
      | ok backup ↦ elim (before_publish index) [
        | err e ↦
            abort created staged e
              (both (restore_backup file.target backup) (rollback_published published))
              (move_target_to_backup uuid file.target d).1
        | ok _ ↦
            let moved =
              rename file.staged file.target (move_target_to_backup uuid file.target d).1 in
            elim moved.0 [
              | err kind ↦
                  abort created staged (io "publish managed file" file.target kind)
                    (both (restore_backup file.target backup) (rollback_published published))
                    moved.1
              | ok _ ↦ (ok backup, moved.1)
            ]
      ]
    ]

    -- The loop, with the files published so far.
    unfoldable pub publish_each :
        ℕ → List StagedManagedFile → List PublishedManagedFile → Action (List PublishedManagedFile)
    publish_each index [] published = λ d. (ok published, d)
    publish_each index (file ∷ files) published =
        then_do (publish_file index file published) λ backup.
          publish_each (suc index) files
            (published ++ record { target = file.target; backup = backup } ∷ [])

  unfoldable pub execute_staged : InitPlan → (created : List FilePath) → Action (Unit {0})
  execute_staged plan created d = elim (stage_each uuid plan.files [] d).0 [
    | err e ↦ (err e, remove_empty_directories created (stage_each uuid plan.files [] d).1)
    | ok staged ↦
        then_do (publish_each created staged 0 staged [])
          (λ published d'. (ok tt, remove_backups published d')) (stage_each uuid plan.files [] d).1
  ]

  -- After the check of the directories.
  unfoldable pub create_and_stage : InitPlan → (created : List FilePath) → Action (Unit {0})
  create_and_stage plan created d = elim (create_directories plan.directories d).0 [
    | err e ↦ (err e, remove_empty_directories created (create_directories plan.directories d).1)
    | ok _ ↦ execute_staged plan created (create_directories plan.directories d).1
  ]

  unfoldable pub execute_plan_with_hook : InitPlan → Action (Unit {0})
  execute_plan_with_hook plan =
      then_do (missing_directories plan.directories []) (create_and_stage plan)

-- The hook of execute_plan does nothing.
unfoldable pub execute_plan : (ℕ → Text) → InitPlan → Action (Unit {0})
execute_plan uuid plan = execute_plan_with_hook uuid (λ _. ok tt) plan

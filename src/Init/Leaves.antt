-- ===== src/Init/Leaves.antt =====
-- The calls that leave alone every file but the temporary ones: clean-up, and the writing of a staged file.
use graphloom.Base.{
  ℕ, ◌≡◌, ◌≢◌, ◌∙◌, ap, refl, subst, List, [], ◌∷◌, ◌++◌, Text, codes, ok, if◌then◌else◌, arith,
  inl, inr, Result-cases, lookup, reverse,
}
use graphloom.Init.Disk.{
  path_eq, FilePath, Disk, try_exists, create_dir_all, write_all, create_new, sync_all, remove_dir,
}
use graphloom.Init.Transaction.{
  Action, StagedManagedFile, io_call, then_do, or_cleanup, cleanup_tmp, cleanup_staged,
  remove_each_directory, remove_empty_directories, write_staged_file, missing_directories,
  create_directories,
}
use graphloom.Init.Views.{
  view, view-create_new, view-write_all, view-remove_file, files-sync_all, files-try_exists,
  files-remove_dir, files-create_dir_all,
}
use graphloom.Init.Names.{IsSibling}
use graphloom.Init.Moves.{then_do-cases}
use graphloom.Init.Agree.{NotTemporary}

files-remove_each_directory :
    (directories : List FilePath) (d : Disk) → (remove_each_directory directories d).files ≡ d.files
files-remove_each_directory [] d = refl
files-remove_each_directory (directory ∷ directories) d =
    files-remove_each_directory directories (remove_dir directory d).1
    ∙ files-remove_dir directory d

pub files-remove_empty_directories :
    (directories : List FilePath) (d : Disk)
    → (remove_empty_directories directories d).files ≡ d.files
unfolding remove_empty_directories
files-remove_empty_directories directories d = files-remove_each_directory (reverse directories) d

files-then_do :
    {A B : Type 0} (first : Action A) (rest : A → Action B) (d : Disk)
    → (first d).1.files ≡ d.files
    → ((a : A) (d' : Disk) → (rest a d').1.files ≡ d'.files)
    → (then_do first rest d).1.files ≡ d.files
files-then_do first rest d h k = elim (then_do-cases first rest d) [
  | inl (a, _, same) ↦ ap (λ r. r.1.files) same ∙ k a (first d).1 ∙ h
  | inr (_, _, same) ↦ ap (λ r. r.1.files) same ∙ h
]

pub files-missing_directories :
    (directories missing : List FilePath) (d : Disk)
    → (missing_directories directories missing d).1.files ≡ d.files
unfolding missing_directories
files-missing_directories [] missing d = refl
files-missing_directories (directory ∷ directories) missing d =
    files-then_do (io_call "check initialization directory" directory (try_exists directory))
      (λ found.
        missing_directories directories (if found then missing else missing ++ directory ∷ []))
      d (files-try_exists directory d)
      (λ found.
        files-missing_directories directories
          (if found then missing else missing ++ directory ∷ []))

pub files-create_directories :
    (directories : List FilePath) (d : Disk) → (create_directories directories d).1.files ≡ d.files
unfolding create_directories
files-create_directories [] d = refl
files-create_directories (directory ∷ directories) d =
    files-then_do (io_call "create directory" directory (create_dir_all directory))
      (λ _. create_directories directories) d (files-create_dir_all directory d)
      (λ _. files-create_directories directories)

module _ (uuid : ℕ → Text) where
  -- The files that no temporary file can be are left alone.
  abbrev pub Leaves : (d d' : Disk) → Type 0
  Leaves d d' = (p : FilePath) → NotTemporary uuid p → view d' p ≡ view d p

  pub Leaves-files : (d d' : Disk) → d'.files ≡ d.files → Leaves d d'
  Leaves-files d d' e p plain = ap (λ files. lookup p files) e

  pub Leaves-trans : (d d' d'' : Disk) → Leaves d d' → Leaves d' d'' → Leaves d d''
  Leaves-trans d d' d'' a b p plain = b p plain ∙ a p plain

  abbrev pub AreStaged : List StagedManagedFile → Type 0
  AreStaged [] = Unit {0}
  AreStaged (file ∷ files) =
      NotTemporary uuid file.target
      × ((m : ℕ) × IsSibling uuid (codes "tmp") m file.staged)
      × AreStaged files

  pub AreStaged-snoc :
      (files : List StagedManagedFile) (file : StagedManagedFile)
      → AreStaged files
      → NotTemporary uuid file.target
      → ((m : ℕ) × IsSibling uuid (codes "tmp") m file.staged)
      → AreStaged (files ++ file ∷ [])
  AreStaged-snoc [] file h a b = (a, b, tt)
  AreStaged-snoc (x ∷ files) file (p, q, h) a b = (p, q, AreStaged-snoc files file h a b)

  sibling≢plain :
      (m : ℕ) (staged p : FilePath)
      → IsSibling uuid (codes "tmp") m staged
      → NotTemporary uuid p
      → staged ≢ p
  sibling≢plain m staged p s plain e = plain.0 m (subst (IsSibling uuid (codes "tmp") m) e s)

  Leaves-cleanup_tmp :
      (m : ℕ) (staged : FilePath) (d : Disk)
      → IsSibling uuid (codes "tmp") m staged
      → Leaves d (cleanup_tmp staged d)
  unfolding cleanup_tmp
  Leaves-cleanup_tmp m staged d s p plain =
      view-remove_file staged d p (sibling≢plain m staged p s plain)

  pub Leaves-cleanup_staged :
      (files : List StagedManagedFile) (d : Disk)
      → AreStaged files
      → Leaves d (cleanup_staged files d)
  unfolding cleanup_staged
  Leaves-cleanup_staged [] d h = λ p plain. refl
  Leaves-cleanup_staged (file ∷ files) d (_, (m, s), h) =
      Leaves-trans d (cleanup_tmp file.staged d) (cleanup_staged files (cleanup_tmp file.staged d))
        (Leaves-cleanup_tmp m file.staged d s)
        (Leaves-cleanup_staged files (cleanup_tmp file.staged d) h)

  module _ (m : ℕ) (staged : FilePath) (s : IsSibling uuid (codes "tmp") m staged) where
    Leaves-or_cleanup :
        (call : Action (Unit {0})) (d : Disk)
        → Leaves d (call d).1
        → Leaves d (or_cleanup staged call d).1
    Leaves-or_cleanup call d h = elim (Result-cases (call d).0) [
      | inl (a, e) ↦ λ p plain. ground (arith, e, h p plain)
      | inr (k, e) ↦
          λ p plain. ground (arith, e, h p plain, Leaves-cleanup_tmp m staged (call d).1 s p plain)
    ]

    pub Leaves-then_do :
        {A B : Type 0} (first : Action A) (rest : A → Action B) (d : Disk)
        → Leaves d (first d).1
        → ((a : A) → (first d).0 ≡ ok a → Leaves (first d).1 (rest a (first d).1).1)
        → Leaves d (then_do first rest d).1
    Leaves-then_do first rest d h k p plain = elim (then_do-cases first rest d) [
      | inl (a, e, same) ↦ ap (λ r. view r.1 p) same ∙ k a e p plain ∙ h p plain
      | inr (_, _, same) ↦ ap (λ r. view r.1 p) same ∙ h p plain
    ]

    pub Leaves-write_staged_file :
        (content : Text) (d : Disk) → Leaves d (write_staged_file staged content d).1
    unfolding write_staged_file
    Leaves-write_staged_file content d =
        Leaves-then_do (io_call "create staged managed file" staged (create_new staged))
          (λ _.
            then_do
              (or_cleanup staged
                (io_call "write staged managed file" staged (write_all staged content)))
              λ _. or_cleanup staged (io_call "sync staged managed file" staged (sync_all staged)))
          d (λ p plain. view-create_new staged d p (sibling≢plain m staged p s plain))
          (λ _ _.
            let created = (create_new staged d).1 in
            let write =
              or_cleanup staged
                (io_call "write staged managed file" staged (write_all staged content)) in
            Leaves-then_do write
              (λ _. or_cleanup staged (io_call "sync staged managed file" staged (sync_all staged)))
              created
              (Leaves-or_cleanup
                (io_call "write staged managed file" staged (write_all staged content)) created
                (λ p plain.
                  view-write_all staged content created p (sibling≢plain m staged p s plain)))
              (λ _ _.
                Leaves-or_cleanup (io_call "sync staged managed file" staged (sync_all staged))
                  (write created).1
                  (Leaves-files (write created).1 (sync_all staged (write created).1).1
                    (files-sync_all staged (write created).1))))

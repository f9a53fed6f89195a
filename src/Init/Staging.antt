-- ===== src/Init/Staging.antt =====
-- stage_managed_files leaves alone every file but the temporary ones.
use graphloom.Base.{
  ℕ, ◌≡◌, sym, refl, subst, Bool, true, false, not, ◌&&◌, List, [], ◌∷◌, ◌++◌, Text, codes, Result,
  ok, err, arith, inl, inr, Result-cases, ok-injective,
}
use graphloom.Init.Disk.{path_eq, FilePath, Disk, try_exists}
use graphloom.Init.Transaction.{
  CliError, Action, StagedManagedFile, ManagedFilePlan, io_call, then_do, cleanup_staged,
  temporary_sibling, write_staged_file, stage_each, stage_file, keep_or_stage, write_new,
}
use graphloom.Init.Views.{files-try_exists}
use graphloom.Init.Names.{IsSibling, IsSibling-temporary_sibling, files-temporary_sibling}
use graphloom.Init.Moves.{then_do-cases}
use graphloom.Init.Agree.{NotTemporary}
use graphloom.Init.Leaves.{
  Leaves, Leaves-files, Leaves-trans, AreStaged, AreStaged-snoc, Leaves-cleanup_staged,
  Leaves-write_staged_file,
}

module _ (uuid : ℕ → Text) where
  -- What stage_managed_files comes to.
  abbrev pub IsStaging : Disk → Result CliError (List StagedManagedFile) × Disk → Type 0
  IsStaging d (ok staged, d') = AreStaged uuid staged × Leaves uuid d d'
  IsStaging d (err e, d') = Leaves uuid d d'

  IsStaging-trans :
      (d d' : Disk) (r : Result CliError (List StagedManagedFile) × Disk)
      → Leaves uuid d d'
      → IsStaging d' r
      → IsStaging d r
  IsStaging-trans d d' (ok staged, d'') h (a, k) = (a, Leaves-trans uuid d d' d'' h k)
  IsStaging-trans d d' (err e, d'') h k = Leaves-trans uuid d d' d'' h k

  pub IsStaging-Leaves :
      (d : Disk) (r : Result CliError (List StagedManagedFile) × Disk)
      → IsStaging d r
      → Leaves uuid d r.1
  IsStaging-Leaves d (ok staged, d') (_, h) = h
  IsStaging-Leaves d (err e, d') h = h

  pub IsStaging-staged :
      (d : Disk) (r : Result CliError (List StagedManagedFile) × Disk)
      (staged : List StagedManagedFile)
      → IsStaging d r
      → r.0 ≡ ok staged
      → AreStaged uuid staged
  IsStaging-staged d (ok other, d') staged (h, _) e = subst (AreStaged uuid) (ok-injective e) h
  IsStaging-staged d (err failed, d') staged h e = cc

  abbrev pub ArePlain : List ManagedFilePlan → Type 0
  ArePlain [] = Unit {0}
  ArePlain (file ∷ files) = NotTemporary uuid file.path × ArePlain files

  IsStaging-then_do :
      {A : Type 0} (first : Action A) (rest : A → Action (List StagedManagedFile)) (d : Disk)
      → Leaves uuid d (first d).1
      → ((a : A) → (first d).0 ≡ ok a → IsStaging (first d).1 (rest a (first d).1))
      → IsStaging d (then_do first rest d)
  IsStaging-then_do first rest d h k = elim (then_do-cases first rest d) [
    | inl (a, e, same) ↦
        subst (IsStaging d) (sym same)
          (IsStaging-trans d (first d).1 (rest a (first d).1) h (k a e))
    | inr (_, _, same) ↦ subst (IsStaging d) (sym same) h
  ]

  module _ (file : ManagedFilePlan) (plain : NotTemporary uuid file.path)
      (staged : List StagedManagedFile) (k : AreStaged uuid staged) where
    write_new-IsStaging :
        (m : ℕ) (path : FilePath) (d : Disk)
        → IsSibling uuid (codes "tmp") m path
        → IsStaging d (write_new uuid file staged path d)
    write_new-IsStaging m path d s =
        let written = Leaves-write_staged_file uuid m path s file.content d in
        elim (Result-cases (write_staged_file path file.content d).0) [
          | inl (a, e) ↦
              let same : write_new uuid file staged path d ≡ (
                ok (staged ++ record { target = file.path; staged = path } ∷ []),
                (write_staged_file path file.content d).1,
              ) =
                ground (arith, e) in
              subst (IsStaging d) (sym same) (
                AreStaged-snoc uuid staged (record { target = file.path; staged = path }) k plain
                    (m, s),
                written,
              )
          | inr (failed, e) ↦
              let same : write_new uuid file staged path d
                  ≡ (err failed, cleanup_staged staged (write_staged_file path file.content d).1) =
                ground (arith, e) in
              subst (IsStaging d) (sym same) (
                Leaves-trans uuid d (write_staged_file path file.content d).1
                  (cleanup_staged staged (write_staged_file path file.content d).1) written
                  (Leaves-cleanup_staged uuid staged (write_staged_file path file.content d).1 k))
        ]

    keep_or_stage-IsStaging :
        (keep : Bool) (d : Disk) → IsStaging d (keep_or_stage uuid file staged keep d)
    keep_or_stage-IsStaging true d = (k, λ p _. refl)
    keep_or_stage-IsStaging false d =
        IsStaging-then_do (temporary_sibling uuid file.path (codes "tmp"))
          (write_new uuid file staged) d
          (Leaves-files uuid d (temporary_sibling uuid file.path (codes "tmp") d).1
            (files-temporary_sibling uuid file.path (codes "tmp") d))
          (λ path drawn.
            write_new-IsStaging d.next_uuid path
              (temporary_sibling uuid file.path (codes "tmp") d).1
              (IsSibling-temporary_sibling uuid file.path (codes "tmp") d path drawn).0)

    stage_file-IsStaging : (d : Disk) → IsStaging d (stage_file uuid file staged d)
    unfolding stage_file
    stage_file-IsStaging d =
        IsStaging-then_do (io_call "check managed file" file.path (try_exists file.path))
          (λ found. keep_or_stage uuid file staged (found && not file.overwrite)) d
          (Leaves-files uuid d (try_exists file.path d).1 (files-try_exists file.path d))
          (λ found _.
            keep_or_stage-IsStaging (found && not file.overwrite) (try_exists file.path d).1)

  pub stage_each-IsStaging :
      (files : List ManagedFilePlan) (staged : List StagedManagedFile) (d : Disk)
      → ArePlain files
      → AreStaged uuid staged
      → IsStaging d (stage_each uuid files staged d)
  unfolding stage_each
  stage_each-IsStaging [] staged d h k = (k, λ p plain. refl)
  stage_each-IsStaging (file ∷ files) staged d (plain, h) k =
      let one = stage_file-IsStaging file plain staged k d in
      IsStaging-then_do (stage_file uuid file staged) (stage_each uuid files) d
        (IsStaging-Leaves d (stage_file uuid file staged d) one)
        (λ staged' e.
          stage_each-IsStaging files staged' (stage_file uuid file staged d).1 h
            (IsStaging-staged d (stage_file uuid file staged d) staged' one e))

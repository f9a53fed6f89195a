-- ===== src/Init/Undoing.antt =====
-- The error branches of execute_plan_with_hook: what they undo.
use graphloom.Base.{
  ℕ, ◌<◌, ◌≤◌, ◌≡◌, ◌∙◌, ◌⊎◌, sym, ap, subst, Option, none, some, List, [], ◌∷◌, Text, codes,
  Result, ok, err, arith, inl, inr, Result-cases, lookup, reverse,
}
use graphloom.Init.Disk.{path_eq, FilePath, Disk}
use graphloom.Init.Transaction.{
  CliError, Action, PublishedManagedFile, StagedManagedFile, with_rollback, cleanup_staged,
  rollback_published, rollback_each, rollback_failed, abort,
}
use graphloom.Init.Views.{view}
use graphloom.Init.Names.{IsSibling}
use graphloom.Init.Rollback.{undo, undo_all, view-rollback_each}
use graphloom.Init.Agree.{NotTemporary, Agree}
use graphloom.Init.Leaves.{AreStaged, Leaves-cleanup_staged, files-remove_empty_directories}

-- The rollback failed too.
abbrev pub IsRollbackFailed : CliError → Type 0
IsRollbackFailed (rollback_failed operation source rollback) = Unit {0}
IsRollbackFailed _ = ⊥

module _ (uuid : ℕ → Text) where
  -- The backups of the published files were drawn before now.
  abbrev pub IsDrawn : ℕ → Option FilePath → Type 0
  IsDrawn next none = Unit {0}
  IsDrawn next (some backup) = (m : ℕ) × (m < next) × IsSibling uuid (codes "backup") m backup

  abbrev pub AreDrawn : ℕ → List PublishedManagedFile → Type 0
  AreDrawn next [] = Unit {0}
  AreDrawn next (file ∷ files) = IsDrawn next file.backup × AreDrawn next files

  pub IsDrawn-le :
      (n m : ℕ) (backup : Option FilePath) → n ≤ m → IsDrawn n backup → IsDrawn m backup
  IsDrawn-le n m none l h = tt
  IsDrawn-le n m (some backup) l (k, below, s) = (k, omega arith, s)

  pub AreDrawn-le :
      (n m : ℕ) (files : List PublishedManagedFile) → n ≤ m → AreDrawn n files → AreDrawn m files
  AreDrawn-le n m [] l h = tt
  AreDrawn-le n m (file ∷ files) l (h, k) =
      (IsDrawn-le n m file.backup l h, AreDrawn-le n m files l k)

  undo-keeps :
      (next : ℕ) (target : FilePath) (backup : Option FilePath) (f g : FilePath → Option Text)
      → IsDrawn next backup
      → Agree uuid next f g
      → Agree uuid next
          (undo (record { target = target; backup = backup }) f)
          (undo (record { target = target; backup = backup }) g)
  unfolding undo
  undo-keeps next target none f g d h p kept = ground (arith, h p kept)
  undo-keeps next target (some backup) f g d h p kept = ground (arith, h p kept, h backup (inr d))

  pub undo_all-keeps :
      (next : ℕ) (files : List PublishedManagedFile) (f g : FilePath → Option Text)
      → AreDrawn next files
      → Agree uuid next f g
      → Agree uuid next (undo_all files f) (undo_all files g)
  unfolding undo_all
  undo_all-keeps next [] f g d h = h
  undo_all-keeps next (file ∷ files) f g (d, ds) h =
      undo_all-keeps next files (undo file f) (undo file g) ds
        (undo-keeps next file.target file.backup f g d h)

  -- What the error of a run allows: the contents are those of `start`, or the rollback failed.
  abbrev pub IsRecovered :
      {A : Type 0} → (FilePath → Option Text) → Result CliError A × Disk → Type 0
  IsRecovered start (ok a, d) = Unit {0}
  IsRecovered start (err e, d) =
      IsRollbackFailed e ⊎ ((p : FilePath) → NotTemporary uuid p → view d p ≡ start p)

  module _ (start : FilePath → Option Text) where
    abbrev pub Restores : Result CliError (Unit {0}) × Disk → Type 0
    Restores (ok _, d) = (p : FilePath) → NotTemporary uuid p → view d p ≡ start p
    Restores (err e, d) = Unit {0}

    pub Restores-intro :
        (r : Result CliError (Unit {0}) × Disk)
        → ((p : FilePath) → NotTemporary uuid p → view r.1 p ≡ start p)
        → Restores r
    Restores-intro (ok _, d) h = h
    Restores-intro (err failed, d) h = tt

    pub Restores-err :
        (r : Result CliError (Unit {0}) × Disk) (e : CliError) → r.0 ≡ err e → Restores r
    Restores-err (ok _, d) e h = cc
    Restores-err (err failed, d) e h = tt

    Restores-ok :
        (r : Result CliError (Unit {0}) × Disk)
        → r.0 ≡ ok tt
        → Restores r
        → (p : FilePath) → NotTemporary uuid p
        → view r.1 p ≡ start p
    Restores-ok (ok _, d) e h = h
    Restores-ok (err failed, d) e h = cc

    pub abort-IsRecovered :
        (created : List FilePath) (staged : List StagedManagedFile) (error : CliError)
        (rollback : Action (Unit {0})) (d : Disk)
        → AreStaged uuid staged
        → Restores (rollback d)
        → IsRecovered {A = Option FilePath} start (abort created staged error rollback d)
    unfolding abort with_rollback
    abort-IsRecovered created staged error rollback d h k = elim (Result-cases (rollback d).0) [
      | inl (a, e) ↦
          let cleaned = cleanup_staged staged (rollback d).1 in
          inr (λ p plain.
            ap (λ files. lookup p files) (files-remove_empty_directories created cleaned)
            ∙ Leaves-cleanup_staged uuid staged (rollback d).1 h p plain
            ∙ Restores-ok (rollback d) e k p plain)
      | inr (failed, e) ↦
          let same : with_rollback "publish initialized project" error (rollback d).0
              ≡ rollback_failed "publish initialized project" error failed =
            rw (with_rollback, e) in
          inl (subst IsRollbackFailed (sym same) tt)
    ]

    -- The loop's invariant: undoing what is published gives the contents of the start.
    pub record Undoes (published : List PublishedManagedFile) (d : Disk) : Type 0 where
      pub drawn : AreDrawn d.next_uuid (reverse published)
      pub original :
          (p : FilePath) → NotTemporary uuid p → undo_all (reverse published) (view d) p ≡ start p

    -- A rollback from a disk that agrees with the invariant's.
    pub rollback_published-Restores :
        (published : List PublishedManagedFile) (d d' : Disk)
        → Undoes published d
        → Agree uuid d.next_uuid (view d') (view d)
        → Restores (rollback_published published d')
    unfolding rollback_published
    rollback_published-Restores published d d' u h =
        elim (Result-cases (rollback_each (reverse published) none d').0) [
          | inl (a, e) ↦
              let (_, undone) = view-rollback_each (reverse published) none d' e in
              Restores-intro (rollback_each (reverse published) none d') (λ p plain.
                undone p
                ∙ undo_all-keeps d.next_uuid (reverse published) (view d') (view d) u.drawn h p
                    (inl plain)
                ∙ u.original p plain)
          | inr (failed, e) ↦ Restores-err (rollback_each (reverse published) none d') failed e
        ]

-- ===== src/Init/Recovery.antt =====
-- execute_plan_with_hook where it fails: the files are as they were before.
use graphloom.Base.{
  ℕ, suc, ◌≤◌, ◌≡◌, ◌∙◌, sym, ap, subst, Option, none, some, List, [], ◌∷◌, ◌++◌, Text, codes,
  Result, ok, err, arith, inl, inr, Result-cases, lookup, length, reverse, reverse_snoc,
}
use graphloom.Init.Disk.{path_eq, FilePath, Disk, rename}
use graphloom.Init.Transaction.{
  CliError, PublishedManagedFile, StagedManagedFile, restore_backup, move_target_to_backup,
  rollback_published, io, abort, both, publish_each, publish_file,
}
use graphloom.Init.Views.{view, files-rename_err, next_uuid-rename}
use graphloom.Init.Names.{IsSibling}
use graphloom.Init.Rollback.{undo, undo_all}
use graphloom.Init.Moves.{then_do-cases, IsMove, IsMove-files, move_target_to_backup-IsMove}
use graphloom.Init.Agree.{NotTemporary, restore_backup-Agree, undo-Agree}
use graphloom.Init.Leaves.{AreStaged}
use graphloom.Init.Undoing.{
  IsDrawn, AreDrawn-le, undo_all-keeps, IsRecovered, Restores, Restores-err, abort-IsRecovered,
  Undoes, rollback_published-Restores,
}

module _ (uuid : ℕ → Text) where
  IsMove-at :
      (target : FilePath) (d : Disk) (r : Result CliError (Option FilePath) × Disk)
      (x : Result CliError (Option FilePath))
      → r.0 ≡ x
      → IsMove uuid target d r
      → IsMove uuid target d (x, r.1)
  IsMove-at target d r x e h = subst (λ y. IsMove uuid target d (y, r.1)) e h

  IsMove-next :
      (target : FilePath) (backup : Option FilePath) (d d1 : Disk)
      → IsMove uuid target d (ok backup, d1)
      → (d.next_uuid ≤ d1.next_uuid) × ((next : ℕ) → d1.next_uuid ≤ next → IsDrawn uuid next backup)
  IsMove-next target none d d1 (_, _, n) = (omega arith, λ next l. tt)
  IsMove-next target (some backup) d d1 (_, _, s, _, n) =
      (omega arith, λ next l. (d.next_uuid, omega arith, s))

  module _ (width : (n m : ℕ) → length (uuid n) ≡ length (uuid m))
      (unique : (n m : ℕ) → uuid n ≡ uuid m → n ≡ m) (start : FilePath → Option Text) where
    -- The rollback after a target has moved to its backup.
    both-Restores :
        (target : FilePath) (backup : Option FilePath) (published : List PublishedManagedFile)
        (d d1 : Disk)
        → IsMove uuid target d (ok backup, d1)
        → Undoes uuid start published d
        → Restores uuid start
            (both (restore_backup target backup) (rollback_published published) d1)
    both-Restores target backup published d d1 mv u =
        elim (Result-cases (restore_backup target backup d1).0) [
          | inl (a, e) ↦
              let same : both (restore_backup target backup) (rollback_published published) d1
                  ≡ rollback_published published (restore_backup target backup d1).1 =
                ground (arith, e) in
              subst (Restores uuid start) (sym same) (
                rollback_published-Restores uuid start published d
                  (restore_backup target backup d1).1 u
                  (restore_backup-Agree uuid width unique target backup d d1 mv e))
          | inr (k, e) ↦
              Restores-err uuid start
                (both (restore_backup target backup) (rollback_published published) d1) k
                (ground (arith, e))
        ]

    Undoes-snoc :
        (target staged : FilePath) (backup : Option FilePath)
        (published : List PublishedManagedFile) (d d1 : Disk) (m : ℕ)
        → NotTemporary uuid target
        → IsSibling uuid (codes "tmp") m staged
        → IsMove uuid target d (ok backup, d1)
        → Undoes uuid start published d
        → (rename staged target d1).0 ≡ ok tt
        → Undoes uuid start
            (published ++ record { target = target; backup = backup } ∷ [])
            (rename staged target d1).1
    unfolding undo_all
    Undoes-snoc target staged backup published d d1 m plain s mv u e =
        let next = IsMove-next target backup d d1 mv in
        let after = rename staged target d1 in
        record {
          drawn = rw (reverse_snoc published (record { target = target; backup = backup })) (
            next.1 after.1.next_uuid (omega (arith, next_uuid-rename staged target d1)),
            AreDrawn-le uuid d.next_uuid after.1.next_uuid (reverse published)
                (omega (arith, next_uuid-rename staged target d1)) u.drawn,
          );
          original = λ p np.
              ap (λ files. undo_all files (view after.1) p)
                (reverse_snoc published (record { target = target; backup = backup }))
              ∙ undo_all-keeps uuid d.next_uuid (reverse published)
                  (undo (record { target = target; backup = backup }) (view after.1)) (view d)
                  u.drawn (undo-Agree uuid width unique target staged backup d d1 m plain s mv e) p
                  (inl np)
              ∙ u.original p np;
        }

    module _ (before_publish : ℕ → Result CliError (Unit {0})) (created : List FilePath)
        (staged : List StagedManagedFile) (all_staged : AreStaged uuid staged) where
      -- What a round comes to.
      abbrev IsRound :
          FilePath → List PublishedManagedFile → Result CliError (Option FilePath) × Disk → Type 0
      IsRound target published (ok backup, d) =
          Undoes uuid start (published ++ record { target = target; backup = backup } ∷ []) d
      IsRound target published (err e, d) = IsRecovered uuid {A = Option FilePath} start (err e, d)

      publish_moved-IsRound :
          (index : ℕ) (file : StagedManagedFile) (published : List PublishedManagedFile) (d : Disk)
          (m : ℕ) (backup : Option FilePath)
          → NotTemporary uuid file.target
          → IsSibling uuid (codes "tmp") m file.staged
          → Undoes uuid start published d
          → (move_target_to_backup uuid file.target d).0 ≡ ok backup
          → IsRound file.target published
              (publish_file uuid before_publish created staged index file published d)
      unfolding publish_file abort
      publish_moved-IsRound index file published d m backup plain s u e =
          let move = move_target_to_backup uuid file.target d in
          let moved = rename file.staged file.target move.1 in
          let mv =
            IsMove-at file.target d move (ok backup) e
              (move_target_to_backup-IsMove uuid file.target d) in
          let both_of = both (restore_backup file.target backup) (rollback_published published) in
          let round = publish_file uuid before_publish created staged index file published d in
          elim (Result-cases (before_publish index)) [
            | inr (k, e2) ↦
                let same : round ≡ abort created staged k both_of move.1 = ground (arith, e, e2) in
                subst (IsRound file.target published) (sym same) (
                  abort-IsRecovered uuid start created staged k both_of move.1 all_staged
                    (both-Restores file.target backup published d move.1 mv u))
            | inl (a, e2) ↦ elim (Result-cases moved.0) [
              | inr (kind, e3) ↦
                  let failed = io "publish managed file" file.target kind in
                  let same : round ≡ abort created staged failed both_of moved.1 =
                    ground (arith, e, e2, e3) in
                  subst (IsRound file.target published) (sym same) (
                    abort-IsRecovered uuid start created staged failed both_of moved.1 all_staged (
                      both-Restores file.target backup published d moved.1
                        (IsMove-files uuid file.target d backup move.1 moved.1
                          (files-rename_err file.staged file.target move.1 kind e3)
                          (next_uuid-rename file.staged file.target move.1) mv)
                        u))
              | inl (b, e3) ↦
                  let same : round ≡ (ok backup, moved.1) = ground (arith, e, e2, e3) in
                  subst (IsRound file.target published) (sym same) (
                    Undoes-snoc file.target file.staged backup published d move.1 m plain s mv u e3)
            ]
          ]

      publish_file-IsRound :
          (index : ℕ) (file : StagedManagedFile) (published : List PublishedManagedFile) (d : Disk)
          (m : ℕ)
          → NotTemporary uuid file.target
          → IsSibling uuid (codes "tmp") m file.staged
          → Undoes uuid start published d
          → IsRound file.target published
              (publish_file uuid before_publish created staged index file published d)
      unfolding publish_file abort
      publish_file-IsRound index file published d m plain s u =
          let move = move_target_to_backup uuid file.target d in
          elim (Result-cases move.0) [
            | inl (backup, e) ↦ publish_moved-IsRound index file published d m backup plain s u e
            | inr (k, e) ↦
                let same : publish_file uuid before_publish created staged index file published d
                    ≡ abort created staged k (rollback_published published) move.1 =
                  ground (arith, e) in
                let mv =
                  IsMove-at file.target d move (err k) e
                    (move_target_to_backup-IsMove uuid file.target d) in
                subst (IsRound file.target published) (sym same) (
                  abort-IsRecovered uuid start created staged k (rollback_published published)
                    move.1 all_staged
                    (rollback_published-Restores uuid start published d move.1 u
                      (λ p _. ap (λ files. lookup p files) mv)))
          ]

      IsRound-ok :
          (target : FilePath) (published : List PublishedManagedFile)
          (r : Result CliError (Option FilePath) × Disk) (backup : Option FilePath)
          → r.0 ≡ ok backup
          → IsRound target published r
          → Undoes uuid start (published ++ record { target = target; backup = backup } ∷ []) r.1
      IsRound-ok target published r backup e h = subst (λ x. IsRound target published (x, r.1)) e h

      IsRound-err :
          (target : FilePath) (published : List PublishedManagedFile)
          (r : Result CliError (Option FilePath) × Disk) (k : CliError)
          → r.0 ≡ err k
          → IsRound target published r
          → IsRecovered uuid {A = List PublishedManagedFile} start (err k, r.1)
      IsRound-err target published r k e h = subst (λ x. IsRound target published (x, r.1)) e h

      pub publish_each-IsRecovered :
          (index : ℕ) (files : List StagedManagedFile) (published : List PublishedManagedFile)
          (d : Disk)
          → AreStaged uuid files
          → Undoes uuid start published d
          → IsRecovered uuid start
              (publish_each uuid before_publish created staged index files published d)
      unfolding publish_each
      publish_each-IsRecovered index [] published d h u = tt
      publish_each-IsRecovered index (file ∷ files) published d (plain, (m, s), h) u =
          let first = publish_file uuid before_publish created staged index file published in
          let rest = λ (backup : Option FilePath).
            publish_each uuid before_publish created staged (suc index) files
              (published ++ record { target = file.target; backup = backup } ∷ []) in
          let round = publish_file-IsRound index file published d m plain s u in
          elim (then_do-cases first rest d) [
            | inl (backup, e, same) ↦ subst (IsRecovered uuid start) (sym same) (
                publish_each-IsRecovered (suc index) files
                  (published ++ record { target = file.target; backup = backup } ∷ []) (first d).1 h
                  (IsRound-ok file.target published (first d) backup e round))
            | inr (k, e, same) ↦
                subst (IsRecovered uuid start) (sym same)
                  (IsRound-err file.target published (first d) k e round)
          ]

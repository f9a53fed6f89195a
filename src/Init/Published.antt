-- ===== src/Init/Published.antt =====
-- The loop of execute_plan_with_hook where it succeeds: the staged files take the places of the targets.
use graphloom.Base.{
  ℕ, suc, ◌≡◌, ◌∙◌, sym, ap, refl, subst, false, Option, none, some, List, [], ◌∷◌, ◌++◌, Text,
  codes, Result, ok, if◌then◌else◌, ◌==◌, arith, inl, inr, Result-cases, lookup, length,
  ok-injective, some-injective,
}
use graphloom.Init.Disk.{FilePath, Disk, path_eq, path_beq_iff, rename, remove_file}
use graphloom.Init.Transaction.{
  CliError, ManagedFilePlan, StagedManagedFile, PublishedManagedFile, abort, publish_file,
  publish_each, move_target_to_backup, remove_backups,
}
use graphloom.Init.Views.{view, view-rename, view-remove_file}
use graphloom.Init.Names.{IsSibling, staged≢backup}
use graphloom.Init.Moves.{IsMove, move_target_to_backup-IsMove}
use graphloom.Init.Agree.{NotTemporary}
use graphloom.Init.Written.{then_do-ok}
use graphloom.Init.Jobs.{AreWritten, AreWritten-frame, tmp≢tmp}

-- The content of a path after these files are written over others.
abbrev pub content_after : List ManagedFilePlan → (FilePath → Option Text) → FilePath → Option Text
content_after [] old p = old p
content_after (file ∷ files) old p =
    content_after files (λ q. if file.path == q then some file.content else old q) p

module _ (uuid : ℕ → Text) where
  pub content_after-cong :
      (files : List ManagedFilePlan) (f g : FilePath → Option Text) (p : FilePath)
      → NotTemporary uuid p
      → ((q : FilePath) → NotTemporary uuid q → f q ≡ g q)
      → content_after files f p ≡ content_after files g p
  content_after-cong [] f g p np h = h p np
  content_after-cong (file ∷ files) f g p np h =
      content_after-cong files (λ q. if file.path == q then some file.content else f q)
        (λ q. if file.path == q then some file.content else g q) p np
        (λ q nq. ap (λ o. if file.path == q then some file.content else o) (h q nq))

  abbrev pub IsBackup : Option FilePath → Type 0
  IsBackup none = Unit {0}
  IsBackup (some backup) = (m : ℕ) × IsSibling uuid (codes "backup") m backup

  abbrev pub AreBackups : List PublishedManagedFile → Type 0
  AreBackups [] = Unit {0}
  AreBackups (file ∷ files) = IsBackup file.backup × AreBackups files

  AreBackups-snoc :
      (files : List PublishedManagedFile) (file : PublishedManagedFile)
      → AreBackups files
      → IsBackup file.backup
      → AreBackups (files ++ file ∷ [])
  AreBackups-snoc [] file h b = (b, tt)
  AreBackups-snoc (x ∷ files) file (a, h) b = (a, AreBackups-snoc files file h b)

  remove_backup-keeps :
      (backup : Option FilePath) (d : Disk) (p : FilePath)
      → IsBackup backup
      → NotTemporary uuid p
      → view (elim backup [ none ↦ d | some path ↦ (remove_file path d).1 ]) p ≡ view d p
  remove_backup-keeps none d p h np = refl
  remove_backup-keeps (some path) d p (m, s) np =
      view-remove_file path d p (λ e. np.1 m (subst (IsSibling uuid (codes "backup") m) e s))

  pub remove_backups-keeps :
      (files : List PublishedManagedFile) (d : Disk) (p : FilePath)
      → AreBackups files
      → NotTemporary uuid p
      → view (remove_backups files d) p ≡ view d p
  unfolding remove_backups
  remove_backups-keeps [] d p h np = refl
  remove_backups-keeps (file ∷ files) d p (b, h) np =
      remove_backups-keeps files
        (elim file.backup [ none ↦ d | some backup ↦ (remove_file backup d).1 ]) p h np
      ∙ remove_backup-keeps file.backup d p b np

  abbrev pub NotBackup : FilePath → Type 0
  NotBackup q = (n : ℕ) → ¬ (IsSibling uuid (codes "backup") n q)

  -- The target is gone after the move, whether it had been there or not.
  IsMove-seen :
      (target : FilePath) (backup : Option FilePath) (d d1 : Disk) (q : FilePath)
      → IsMove uuid target d (ok backup, d1)
      → NotBackup q
      → view d1 q ≡ (if target == q then none else view d q)
  IsMove-seen target none d d1 q (missing, e, _) nb =
      ground (arith, ap (λ l. lookup q l) e, missing, path_beq_iff target q)
  IsMove-seen target (some backup) d d1 q (content, there, drawn, moved, _) nb = ground (
    arith,
    moved q,
    path_beq_iff backup q,
    (λ (e : backup ≡ q).
        nb d.next_uuid (subst (IsSibling uuid (codes "backup") d.next_uuid) e drawn)),
  )

  IsMove-IsBackup :
      (target : FilePath) (backup : Option FilePath) (d d1 : Disk)
      → IsMove uuid target d (ok backup, d1)
      → IsBackup backup
  IsMove-IsBackup target none d d1 h = tt
  IsMove-IsBackup target (some backup) d d1 (content, there, drawn, _, _) = (d.next_uuid, drawn)

  module _ (before_publish : ℕ → Result CliError (Unit {0})) (created : List FilePath)
      (all : List StagedManagedFile) where
    publish_file-ok :
        (index : ℕ) (file : StagedManagedFile) (published : List PublishedManagedFile) (d : Disk)
        (backup : Option FilePath)
        → (publish_file uuid before_publish created all index file published d).0 ≡ ok backup
        → ((move_target_to_backup uuid file.target d).0 ≡ ok backup)
          × ((rename file.staged file.target (move_target_to_backup uuid file.target d).1).0
              ≡ ok tt)
          × ((publish_file uuid before_publish created all index file published d).1
              ≡ (rename file.staged file.target (move_target_to_backup uuid file.target d).1).1)
    unfolding publish_file abort
    publish_file-ok index file published d backup h =
        let move = move_target_to_backup uuid file.target d in
        elim (Result-cases move.0) [
          | inr (e, k) ↦ ground (arith, k, h)
          | inl (b, k) ↦ elim (Result-cases (before_publish index)) [
            | inr (e, l) ↦ ground (arith, k, l, h)
            | inl (_, l) ↦ elim (Result-cases (rename file.staged file.target move.1).0) [
              | inr (e, m) ↦ ground (arith, k, l, m, h)
              | inl (_, m) ↦ (ground (arith, k, l, m, h), m, ground (arith, k, l, m))
            ]
          ]
        ]

    -- One file is published.
    publish_file-seen :
        (index : ℕ) (file : StagedManagedFile) (published : List PublishedManagedFile) (d : Disk)
        (backup : Option FilePath) (content : Text) (q : FilePath)
        → (publish_file uuid before_publish created all index file published d).0 ≡ ok backup
        → view d file.staged ≡ some content
        → NotBackup file.staged
        → (file.target == file.staged) ≡ false
        → NotBackup q
        → (file.staged == q) ≡ false
        → view (publish_file uuid before_publish created all index file published d).1 q
          ≡ (if file.target == q then some content else view d q)
    publish_file-seen index file published d backup content q h there ns apart nq other =
        let move = move_target_to_backup uuid file.target d in
        let (e, r, at_end) = publish_file-ok index file published d backup h in
        let mv =
          subst (λ x. IsMove uuid file.target d (x, move.1)) e
            (move_target_to_backup-IsMove uuid file.target d) in
        let (c, from, after) = view-rename file.staged file.target move.1 r in
        let same : some c ≡ some content =
          sym from
          ∙ ground
              (arith, IsMove-seen file.target backup d move.1 file.staged mv ns, apart, there) in
        ap (λ x. view x q) at_end
        ∙ ground (
          arith,
          after q,
          other,
          some-injective same,
          IsMove-seen file.target backup d move.1 q mv nq,
        )

  module _ (width : (n m : ℕ) → length (uuid n) ≡ length (uuid m))
      (unique : (n m : ℕ) → uuid n ≡ uuid m → n ≡ m)
      (before_publish : ℕ → Result CliError (Unit {0})) (created : List FilePath)
      (all : List StagedManagedFile) where
    -- All files are published, and what is left are backups.
    pub publish_each-content_after :
        (index low next : ℕ) (files : List StagedManagedFile) (jobs : List ManagedFilePlan)
        (published now : List PublishedManagedFile) (d : Disk)
        → AreWritten uuid low next d files jobs
        → AreBackups published
        → (publish_each uuid before_publish created all index files published d).0 ≡ ok now
        → AreBackups now
          × ((p : FilePath)
              → NotTemporary uuid p
              → view (publish_each uuid before_publish created all index files published d).1 p
                ≡ content_after jobs (view d) p)
    unfolding publish_each
    publish_each-content_after index low next [] [] published now d w b h =
        (subst AreBackups (ok-injective h) b, λ p np. refl)
    publish_each-content_after index low next [] (job ∷ jobs) published now d w b h = elim w [ ]
    publish_each-content_after index low next (file ∷ files) [] published now d w b h = elim w [ ]
    publish_each-content_after index low next (file ∷ files) (job ∷ jobs) published now d
          (at_path, there, plain, (m, l, s, w)) b h =
        let one = publish_file uuid before_publish created all index file published in
        let (backup, e, same, rest) =
          then_do-ok one
            (λ backup.
              publish_each uuid before_publish created all (suc index) files
                (published ++ record { target = file.target; backup = backup } ∷ []))
            d now h in
        let (moved, _, _) =
          publish_file-ok before_publish created all index file published d backup e in
        let mv =
          subst (λ x. IsMove uuid file.target d (x, (move_target_to_backup uuid file.target d).1))
            moved (move_target_to_backup-IsMove uuid file.target d) in
        let target_plain = subst (NotTemporary uuid) (sym at_path) plain in
        let no_tmp =
          λ (n : ℕ) (q : FilePath) (sib : IsSibling uuid (codes "tmp") n q)
              (same_path : file.target ≡ q).
            target_plain.0 n (subst (IsSibling uuid (codes "tmp") n) (sym same_path) sib) in
        let seen =
          λ (q : FilePath) (nb : (n : ℕ) → ¬ (IsSibling uuid (codes "backup") n q))
              (other : (file.staged == q) ≡ false).
            publish_file-seen before_publish created all index file published d backup job.content q
              e there (λ n. staged≢backup uuid m n file.staged s)
              (ground (arith, no_tmp m file.staged s, path_beq_iff file.target file.staged)) nb
              other in
        let left =
          AreWritten-frame uuid (suc m) next d (one d).1 files jobs
            (λ n q k _ sib. ground (
              arith,
              seen q (λ x. staged≢backup uuid n x q sib)
                  (ground (
                    arith,
                    tmp≢tmp uuid width unique m n file.staged q (omega (arith, k)) s sib,
                    path_beq_iff file.staged q,
                    path_beq_iff q file.staged,
                  )),
              no_tmp n q sib,
              path_beq_iff file.target q,
            ))
            w in
        let (backups, content) =
          publish_each-content_after (suc index) (suc m) next files jobs
            (published ++ record { target = file.target; backup = backup } ∷ []) now (one d).1 left
            (AreBackups-snoc published (record { target = file.target; backup = backup }) b
              (IsMove-IsBackup file.target backup d (move_target_to_backup uuid file.target d).1
                mv))
            rest in
        (
          backups,
          λ p np.
              ap (λ r. view r.1 p) same
              ∙ content p np
              ∙ content_after-cong jobs (view (one d).1)
                  (λ q. if job.path == q then some job.content else view d q) p np
                  (λ q nq.
                    seen q nq.1 (
                      ground (
                        arith,
                        path_beq_iff file.staged q,
                        (λ (x : file.staged ≡ q).
                            nq.0 m (subst (IsSibling uuid (codes "tmp") m) x s)),
                      ))
                    ∙ ap (λ t. if t == q then some job.content else view d q) at_path),
        )

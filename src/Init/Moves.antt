-- ===== src/Init/Moves.antt =====
-- One file of the loop of execute_plan_with_hook: its target moves to a backup, and either the
-- backup moves back or the staged file takes its place.
use graphloom.Base.{
  ℕ, suc, ◌≡◌, ◌∙◌, ◌⊎◌, sym, ap, subst, true, false, Option, none, some, Text, codes, Result, ok,
  err, if◌then◌else◌, ◌==◌, arith, inl, inr, Result-cases, lookup,
}
use Prim.Native.String.{String}
use graphloom.Init.Disk.{FilePath, Disk, Io, path_eq, rename, try_exists, IoErrorKind}
use graphloom.Init.Transaction.{
  CliError, Action, move_target_to_backup, io_call, then_do, temporary_sibling,
}
use graphloom.Init.Views.{
  view, view-rename, files-rename_err, files-try_exists, view-try_exists, next_uuid-rename,
  next_uuid-try_exists,
}
use graphloom.Init.Names.{IsSibling, IsSibling-temporary_sibling, files-temporary_sibling}

-- The two ends of `first?; rest`.
pub then_do-cases :
    {A B : Type 0} (first : Action A) (rest : A → Action B) (d : Disk)
    → ((a : A) × ((first d).0 ≡ ok a) × (then_do first rest d ≡ rest a (first d).1))
      ⊎ ((e : CliError) × ((first d).0 ≡ err e) × (then_do first rest d ≡ (err e, (first d).1)))
then_do-cases first rest d = elim (Result-cases (first d).0) [
  | inl (a, e) ↦ inl (a, e, ground (arith, e))
  | inr (k, e) ↦ inr (k, e, ground (arith, e))
]

pub io_call-ok :
    {A : Type 0} (operation : String) (path : FilePath) (call : Io A) (d : Disk) (a : A)
    → (io_call operation path call d).0 ≡ ok a
    → (call d).0 ≡ ok a
io_call-ok operation path call d a h = ground arith

pub io_call-err :
    {A : Type 0} (operation : String) (path : FilePath) (call : Io A) (d : Disk) (e : CliError)
    → (io_call operation path call d).0 ≡ err e
    → (kind : IoErrorKind) × ((call d).0 ≡ err kind)
io_call-err operation path call d e h = elim (Result-cases (call d).0) [
  | inl (a, k) ↦ ground (arith, k)
  | inr (kind, k) ↦ (kind, k)
]

module _ (uuid : ℕ → Text) where
  -- What move_target_to_backup does to the files.
  abbrev pub IsMove : FilePath → Disk → Result CliError (Option FilePath) × Disk → Type 0
  IsMove target d (ok none, d1) =
      (view d target ≡ none) × (d1.files ≡ d.files) × (d1.next_uuid ≡ d.next_uuid)
  IsMove target d (ok (some backup), d1) =
      (content : Text) × (view d target ≡ some content)
      × IsSibling uuid (codes "backup") d.next_uuid backup
      × ((p : FilePath)
          → view d1 p
            ≡ (if backup == p then some content else if target == p then none else view d p))
      × (d1.next_uuid ≡ suc d.next_uuid)
  IsMove target d (err e, d1) = d1.files ≡ d.files

  pub IsMove-files :
      (target : FilePath) (d : Disk) (backup : Option FilePath) (d1 d2 : Disk)
      → d2.files ≡ d1.files
      → d2.next_uuid ≡ d1.next_uuid
      → IsMove target d (ok backup, d1)
      → IsMove target d (ok backup, d2)
  IsMove-files target d none d1 d2 e n (a, b, c) = (a, e ∙ b, n ∙ c)
  IsMove-files target d (some backup) d1 d2 e n (content, a, b, c, f) =
      (content, a, b, λ p. ap (λ files. lookup p files) e ∙ c p, n ∙ f)

  abbrev backup_call : FilePath → FilePath → Action (Option FilePath)
  backup_call target backup =
      then_do (io_call "backup managed file" target (rename target backup))
        λ _. λ d'. (ok (some backup), d')

  backup_call-IsMove :
      (target backup : FilePath) (d d1 : Disk)
      → d1.files ≡ d.files
      → d1.next_uuid ≡ suc d.next_uuid
      → IsSibling uuid (codes "backup") d.next_uuid backup
      → IsMove target d (backup_call target backup d1)
  backup_call-IsMove target backup d d1 e n drawn =
      let call = io_call "backup managed file" target (rename target backup) in
      elim (then_do-cases call (λ _. λ d'. (ok (some backup), d')) d1) [
        | inr (k, failed, same) ↦
            let (kind, f) =
              io_call-err "backup managed file" target (rename target backup) d1 k failed in
            subst (IsMove target d) (sym same) (files-rename_err target backup d1 kind f ∙ e)
        | inl (a, moved, same) ↦
            let (content, there, after) =
              view-rename target backup d1
                (io_call-ok "backup managed file" target (rename target backup) d1 a moved) in
            let old = λ (p : FilePath). ap (λ files. lookup p files) e in
            subst (IsMove target d) (sym same) (
              content,
              sym (old target) ∙ there,
              drawn,
              λ p.
                  after p
                  ∙ ap (λ o. if backup == p then some content else if target == p then none else o)
                      (old p),
              next_uuid-rename target backup d1 ∙ n,
            )
      ]

  -- The last two calls, once the target exists.
  existing_target-IsMove :
      (target : FilePath) (d d0 : Disk)
      → d0.files ≡ d.files
      → d0.next_uuid ≡ d.next_uuid
      → IsMove target d
          (then_do (temporary_sibling uuid target (codes "backup")) (backup_call target) d0)
  existing_target-IsMove target d d0 e n =
      elim (then_do-cases (temporary_sibling uuid target (codes "backup")) (backup_call target)
        d0) [
          | inr (k, _, same) ↦
              subst (IsMove target d) (sym same)
                (files-temporary_sibling uuid target (codes "backup") d0 ∙ e)
          | inl (backup, drawn, same) ↦
              let (sibling, files, next) =
                IsSibling-temporary_sibling uuid target (codes "backup") d0 backup drawn in
              subst (IsMove target d) (sym same) (
                backup_call-IsMove target backup d
                  (temporary_sibling uuid target (codes "backup") d0).1 (files ∙ e)
                  (next ∙ ap suc n)
                  (subst (λ m. IsSibling uuid (codes "backup") m backup) n sibling))
        ]

  pub move_target_to_backup-IsMove :
      (target : FilePath) (d : Disk) → IsMove target d (move_target_to_backup uuid target d)
  unfolding move_target_to_backup
  move_target_to_backup-IsMove target d =
      let call = io_call "check managed file before publish" target (try_exists target) in
      let files = files-try_exists target d in
      let next = next_uuid-try_exists target d in
      elim (then_do-cases call
        (λ found. elim found [
          | false ↦ λ d'. (ok none, d')
          | true ↦ then_do (temporary_sibling uuid target (codes "backup")) (backup_call target)
        ])
        d) [
          | inr (k, _, same) ↦ subst (IsMove target d) (sym same) files
          | inl (true, found, same) ↦
              subst (IsMove target d) (sym same)
                (existing_target-IsMove target d (try_exists target d).1 files next)
          | inl (false, found, same) ↦ subst (IsMove target d) (sym same) (
            view-try_exists target d (
                io_call-ok "check managed file before publish" target (try_exists target) d false
                  found),
            files,
            next,
          )
        ]

-- ===== src/Init/Rollback.antt =====
-- What rollback_published makes of a disk: each published file, the last first, is removed and its
-- backup moved back.
use graphloom.Base.{
  ◌≡◌, ◌∙◌, ap, refl, fun_ext, Option, none, some, List, [], ◌∷◌, Text, Result, ok, if◌then◌else◌,
  ◌==◌, arith, inl, inr, Result-cases,
}
use Prim.Native.String.{String}
use graphloom.Init.Disk.{FilePath, Disk, path_eq, rename, remove_file, IoErrorKind}
use graphloom.Init.Transaction.{
  CliError, PublishedManagedFile, restore_backup, rollback_each, first_of, first_result, map_io_err,
  remove_published,
}
use graphloom.Init.Views.{view, view-rename, view-remove_file_ok, view-remove_file_missing}

-- The contents after one published file is undone, from those before.
unfoldable pub undo : PublishedManagedFile → (FilePath → Option Text) → FilePath → Option Text
undo file f p = elim file.backup [
  | none ↦ if file.target == p then none else f p
  | some backup ↦
      if file.target == p
      then (if file.target == backup then none else f backup)
      else if backup == p
      then none
      else f p
]

unfoldable pub undo_all :
    List PublishedManagedFile → (FilePath → Option Text) → FilePath → Option Text
undo_all [] f = f
undo_all (file ∷ files) f = undo_all files (undo file f)

pub first-ok :
    (first : Option CliError) (r : Result CliError (Unit {0}))
    → first_result (first_of first r) ≡ ok tt
    → (first ≡ none) × (r ≡ ok tt)
first-ok first r h = ground arith

view-remove_published :
    (target : FilePath) (d : Disk) (p : FilePath)
    → (remove_published target d).0 ≡ ok tt
    → view (remove_published target d).1 p ≡ (if target == p then none else view d p)
view-remove_published target d p h = elim (Result-cases (remove_file target d).0) [
  | inl (a, e) ↦ ground (arith, e, view-remove_file_ok target d p)
  | inr (k, e) ↦ ground (arith, e, view-remove_file_missing target d p)
]

pub map_io_err-ok :
    (operation : String) (path : FilePath) (r : Result IoErrorKind (Unit {0}))
    → map_io_err operation path r ≡ ok tt
    → r ≡ ok tt
map_io_err-ok operation path r h = ground arith

view-undo :
    (target : FilePath) (backup : Option FilePath) (d : Disk)
    → (remove_published target d).0 ≡ ok tt
    → (restore_backup target backup (remove_published target d).1).0 ≡ ok tt
    → (p : FilePath)
    → view (restore_backup target backup (remove_published target d).1).1 p
      ≡ undo (record { target = target; backup = backup }) (view d) p
unfolding undo restore_backup
view-undo target none d h k p = view-remove_published target d p h
view-undo target (some backup) d h k p =
    let d1 = (remove_published target d).1 in
    let (content, e, moved) =
      view-rename backup target d1
        (map_io_err-ok "restore managed file backup" target (rename backup target d1).0 k) in
    ground (
      arith,
      e,
      moved p,
      view-remove_published target d p h,
      view-remove_published target d backup h,
    )

undo_all-ext :
    (files : List PublishedManagedFile) (f g : FilePath → Option Text)
    → ((p : FilePath) → f p ≡ g p)
    → (p : FilePath) → undo_all files f p ≡ undo_all files g p
undo_all-ext files f g h p = ap (λ f. undo_all files f p) (fun_ext h)

-- A rollback that reports no error has undone all the files.
pub view-rollback_each :
    (files : List PublishedManagedFile) (first : Option CliError) (d : Disk)
    → (rollback_each files first d).0 ≡ ok tt
    → (first ≡ none)
      × ((p : FilePath) → view (rollback_each files first d).1 p ≡ undo_all files (view d) p)
unfolding rollback_each undo_all
view-rollback_each [] first d h = (ground arith, λ p. refl)
view-rollback_each (file ∷ files) first d h =
    let removed = remove_published file.target d in
    let restored = restore_backup file.target file.backup removed.1 in
    let (none_left, rest) =
      view-rollback_each files (first_of (first_of first removed.0) restored.0) restored.1 h in
    let (before, ok_restored) =
      first-ok (first_of first removed.0) restored.0 (ground (arith, none_left)) in
    let (clean, ok_removed) = first-ok first removed.0 (ground (arith, before)) in
    (
      clean,
      λ p.
          rest p
          ∙ undo_all-ext files (view restored.1) (undo file (view d))
              (view-undo file.target file.backup d ok_removed ok_restored) p,
    )

-- ===== src/Init/Views.antt =====
-- What the calls on a disk do to the content of the files.
use graphloom.Base.{
  ◌≡◌, ◌≢◌, refl, false, Option, none, some, List, [], ◌∷◌, ◌++◌, take, Text, ok, err, lookup,
  lookup-insert, lookup-remove, remove, Option-cases, inl, inr, if◌then◌else◌, ◌==◌, arith,
}
use graphloom.Init.Disk.{
  FilePath, Disk, IoErrorKind, not_found, path_eq, path_beq_iff, rename, remove_file, create_new,
  write_all, sync_all, try_exists, create_dir_all, create_each, remove_dir, prefixes, next_fault,
  later_faults,
}

program : Unit {0}
unfolding rename remove_file create_new write_all sync_all try_exists create_dir_all remove_dir
program = tt

-- The content of the files of a disk.
abbrev pub view : Disk → FilePath → Option Text
view d p = lookup p d.files

-- A call on one path leaves all others as they are.
pub view-create_new :
    (path : FilePath) (d : Disk) (p : FilePath) → path ≢ p → view (create_new path d).1 p ≡ view d p
unfolding program
view-create_new path d p h = ground (arith, lookup-insert path p [] d.files, path_beq_iff path p)

pub view-write_all :
    (path : FilePath) (content : Text) (d : Disk) (p : FilePath)
    → path ≢ p
    → view (write_all path content d).1 p ≡ view d p
unfolding program
view-write_all path content d p h = elim (Option-cases (next_fault d.faults)) [
  | inl e ↦ ground (arith, e, lookup-insert path p content d.files, path_beq_iff path p)
  | inr (kept, e) ↦
      ground (arith, e, lookup-insert path p (take kept content) d.files, path_beq_iff path p)
]

pub view-remove_file :
    (path : FilePath) (d : Disk) (p : FilePath)
    → path ≢ p
    → view (remove_file path d).1 p ≡ view d p
unfolding program
view-remove_file path d p h = ground (arith, lookup-remove path p d.files, path_beq_iff path p)

pub files-sync_all : (path : FilePath) (d : Disk) → (sync_all path d).1.files ≡ d.files
unfolding program
files-sync_all path d = ground arith

pub files-try_exists : (path : FilePath) (d : Disk) → (try_exists path d).1.files ≡ d.files
unfolding program
files-try_exists path d = ground arith

pub files-remove_dir : (path : FilePath) (d : Disk) → (remove_dir path d).1.files ≡ d.files
unfolding program
files-remove_dir path d = ground arith

pub files-create_each : (paths : List FilePath) (d : Disk) → (create_each paths d).1.files ≡ d.files
unfolding create_each
files-create_each [] d = refl
files-create_each (path ∷ paths) d = ground (
  arith,
  files-create_each paths d,
  files-create_each paths (record d { directories = d.directories ++ path ∷ [] }),
)

pub files-create_dir_all : (path : FilePath) (d : Disk) → (create_dir_all path d).1.files ≡ d.files
unfolding program
files-create_dir_all path d = elim (Option-cases (next_fault d.faults)) [
  | inl e ↦
      ground
        (arith, e, files-create_each (prefixes path) (record d { faults = later_faults d.faults }))
  | inr (kept, e) ↦ ground (
    arith,
    e,
    files-create_each (take kept (prefixes path)) (record d { faults = later_faults d.faults }),
  )
]

-- A rename moves the content, and one that fails changes no file.
pub view-rename :
    (from to : FilePath) (d : Disk)
    → (rename from to d).0 ≡ ok tt
    → (content : Text) × (view d from ≡ some content)
      × ((p : FilePath)
          → view (rename from to d).1 p
            ≡ (if to == p then some content else if from == p then none else view d p))
unfolding program
view-rename from to d h = elim (Option-cases (view d from)) [
  | inl e ↦ ground (arith, e)
  | inr (content, e) ↦ (
    content,
    e,
    λ p.
        ground
          (arith, lookup-insert to p content (remove from d.files), lookup-remove from p d.files),
  )
]

pub files-rename_err :
    (from to : FilePath) (d : Disk) (kind : IoErrorKind)
    → (rename from to d).0 ≡ err kind
    → (rename from to d).1.files ≡ d.files
unfolding program
files-rename_err from to d kind h = ground arith

-- A file is gone after a removal that succeeds or that does not find it.
pub view-remove_file_ok :
    (path : FilePath) (d : Disk) (p : FilePath)
    → (remove_file path d).0 ≡ ok tt
    → view (remove_file path d).1 p ≡ (if path == p then none else view d p)
unfolding program
view-remove_file_ok path d p h = ground (arith, lookup-remove path p d.files)

pub view-remove_file_missing :
    (path : FilePath) (d : Disk) (p : FilePath)
    → (remove_file path d).0 ≡ err not_found
    → view (remove_file path d).1 p ≡ (if path == p then none else view d p)
unfolding program
view-remove_file_missing path d p h = ground (arith, path_beq_iff path p)

-- What does not exist is no file.
pub view-try_exists :
    (path : FilePath) (d : Disk) → (try_exists path d).0 ≡ ok false → view d path ≡ none
unfolding program
view-try_exists path d h = ground arith

pub next_uuid-rename :
    (from to : FilePath) (d : Disk) → (rename from to d).1.next_uuid ≡ d.next_uuid
unfolding program
next_uuid-rename from to d = ground arith

pub next_uuid-try_exists :
    (path : FilePath) (d : Disk) → (try_exists path d).1.next_uuid ≡ d.next_uuid
unfolding program
next_uuid-try_exists path d = ground arith

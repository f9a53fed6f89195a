-- ===== src/Init/Disk.antt =====
-- The calls of `tokio::fs` and `uuid` that cli/init/transaction.rs makes, on a disk that is a map of
-- files and a list of directories. Every call takes an entry of `faults`: where there is a number in
-- it, the call fails, and a call that can stop half-way stops after that number of its parts.
use graphloom.Base.{
  ℕ, ◌≡◌, ◌↔◌, Bool, true, false, not, ◌&&◌, ◌||◌, Option, none, some, List, [], ◌∷◌, ◌++◌, Text,
  text_beq, text_beq_iff, PartialEq, ◌==◌, Result, ok, err, take, any, filter, lookup, insert,
  remove, contains_key, map, if◌then◌else◌, arith,
}

-- The components of a normal path; that of the root has none.
abbrev pub FilePath : Type 0
FilePath = List Text

unfoldable pub path_beq : FilePath → FilePath → Bool
path_beq [] [] = true
path_beq (a ∷ s) (b ∷ t) = text_beq a b && path_beq s t
path_beq _ _ = false

pub path_beq_iff : (s t : FilePath) → (path_beq s t ≡ true) ↔ (s ≡ t)
unfolding path_beq
path_beq_iff [] [] = ground arith
path_beq_iff [] (b ∷ t) = ground arith
path_beq_iff (a ∷ s) [] = ground arith
path_beq_iff (a ∷ s) (b ∷ t) = ground (arith, text_beq_iff a b, path_beq_iff s t)

instance abbrev pub path_eq : PartialEq FilePath
path_eq = record { eq_test = path_beq; eq_test_iff = path_beq_iff }

-- `Path::parent` and `Path::file_name`
unfoldable pub split_last : FilePath → Option (FilePath × Text)
split_last [] = none
split_last (x ∷ xs) = elim (split_last xs) [
  | none ↦ some ([], x)
  | some (parent, name) ↦ some (x ∷ parent, name)
]

pub data IoErrorKind : Type 0 where
  not_found already_exists other : IoErrorKind

pub record Disk : Type 0 where
  pub files : List (FilePath × Text)
  pub directories : List FilePath
  pub faults : List (Option ℕ)
  pub next_uuid : ℕ

abbrev pub Io : Type 0 → Type 0
Io A = Disk → Result IoErrorKind A × Disk

abbrev pub next_fault : List (Option ℕ) → Option ℕ
next_fault [] = none
next_fault (fault ∷ faults) = fault

abbrev pub later_faults : List (Option ℕ) → List (Option ℕ)
later_faults [] = []
later_faults (fault ∷ faults) = faults

-- A call: what it does, and what is left of it where it fails.
abbrev pub attempt : {A : Type 0} → Io A → (ℕ → Disk → Disk) → Io A
attempt whole part d = elim (next_fault d.faults) [
  | none ↦ whole (record d { faults = later_faults d.faults })
  | some kept ↦ (err other, part kept (record d { faults = later_faults d.faults }))
]

abbrev pub untouched : ℕ → Disk → Disk
untouched kept d = d

abbrev pub is_dir : FilePath → Disk → Bool
is_dir path d = path == [] || any (λ q. q == path) d.directories

abbrev pub exists : FilePath → Disk → Bool
exists path d = contains_key path d.files || is_dir path d

abbrev pub has_parent : FilePath → Disk → Bool
has_parent path d = elim (split_last path) [ none ↦ false | some (parent, _) ↦ is_dir parent d ]

unfoldable pub try_exists : FilePath → Io Bool
try_exists path = attempt (λ d. (ok (exists path d), d)) untouched

-- The paths from the root down to a path, the root left out.
unfoldable pub prefixes : FilePath → List FilePath
prefixes [] = []
prefixes (x ∷ xs) = (x ∷ []) ∷ map (λ p. x ∷ p) (prefixes xs)

unfoldable pub create_each : List FilePath → Io (Unit {0})
create_each [] d = (ok tt, d)
create_each (path ∷ paths) d =
    let rest = λ (d' : Disk). create_each paths d' in
    if is_dir path d
    then rest d
    else if contains_key path d.files
    then (err already_exists, d)
    else rest (record d { directories = d.directories ++ path ∷ [] })

unfoldable pub create_dir_all : FilePath → Io (Unit {0})
create_dir_all path =
    attempt (create_each (prefixes path)) (λ kept d. (create_each (take kept (prefixes path)) d).1)

-- `OpenOptions::new().create_new(true).write(true).open(path)`
unfoldable pub create_new : FilePath → Io (Unit {0})
create_new path =
    attempt
      (λ d.
        if exists path d
        then (err already_exists, d)
        else if has_parent path d
        then (ok tt, record d { files = insert path [] d.files })
        else (err not_found, d))
      untouched

-- `write_all` to the file that create_new opened.
unfoldable pub write_all : FilePath → Text → Io (Unit {0})
write_all path content =
    attempt (λ d. (ok tt, record d { files = insert path content d.files }))
      (λ kept d. record d { files = insert path (take kept content) d.files })

unfoldable pub sync_all : FilePath → Io (Unit {0})
sync_all path = attempt (λ d. (ok tt, d)) untouched

-- `rename` of a file. A directory is not moved.
unfoldable pub rename : (from to : FilePath) → Io (Unit {0})
rename from to =
    attempt
      (λ d. elim (lookup from d.files) [
        | none ↦ (err not_found, d)
        | some content ↦
            if is_dir to d
            then (err other, d)
            else if has_parent to d
            then (ok tt, record d { files = insert to content (remove from d.files) })
            else (err not_found, d)
      ])
      untouched

unfoldable pub remove_file : FilePath → Io (Unit {0})
remove_file path =
    attempt
      (λ d. elim (lookup path d.files) [
        | none ↦ if is_dir path d then (err other, d) else (err not_found, d)
        | some content ↦ (ok tt, record d { files = remove path d.files })
      ])
      untouched

abbrev pub lies_in : (directory path : FilePath) → Bool
lies_in directory path = elim (split_last path) [
  | none ↦ false
  | some (parent, _) ↦ parent == directory
]

unfoldable pub remove_dir : FilePath → Io (Unit {0})
remove_dir path =
    attempt
      (λ d.
        if is_dir path d
        then (if any (λ entry. lies_in path entry.0) d.files || any (lies_in path) d.directories
            then (err other, d)
            else (ok tt, record d { directories = filter (λ q. not (q == path)) d.directories }))
        else (err not_found, d))
      untouched

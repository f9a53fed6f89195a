-- ===== src/Storage/Examples.antt =====
-- A small storage, with and without a namespace, and the theorems there.
use graphloom.Base.{
  ◌≡◌, refl, List, [], ◌∷◌, none, some, ◌||◌, Text, text_eq, Result, ok, err, ◌>>=◌, codes, lookup,
  insert, remove, text_beq, text_cmp, ◌==◌, if◌then◌else◌, map,
}
use graphloom.Base.Preds.{All}
use graphloom.Base.Sorting.{sort_by, insert_by}
use graphloom.Storage.Path.{
  StorageError, invalid_path, split, later_components, components, is_safe_path_component,
  normalize, validate_logical_path, path_to_logical, strip_prefix, strip_namespace,
  validate_table_name,
}
use graphloom.Storage.Path.Components.{IsSafe, validate_logical_path_again}
use graphloom.Storage.Memory.{
  MemoryStorage, new, key, get, set, delete, clear, has, list, keys, find_names, child,
  in_namespace,
}
use graphloom.Storage.Memory.Laws.{path_eq, get-set-delete}
use graphloom.Storage.Memory.Clear.{get-clear}

program : Unit {0}
unfolding split later_components components is_safe_path_component normalize validate_logical_path
    path_to_logical strip_prefix strip_namespace validate_table_name key get set delete clear has
    list keys find_names child sort_by insert_by lookup insert remove text_beq text_cmp
program = tt

abbrev name : Text
name = codes "a//b/./c/"

abbrev parts : List Text
parts = codes "a" ∷ codes "b" ∷ codes "c" ∷ []

name_valid : validate_logical_path name ≡ ok parts
unfolding program
name_valid = refl

parent_refused :
    validate_logical_path (codes "a/../b")
    ≡ err (invalid_path (codes "a/../b") "path traversal and special components are not allowed")
unfolding program
parent_refused = refl

root_refused :
    validate_logical_path (codes "/a")
    ≡ err (invalid_path (codes "/a") "absolute paths are not allowed")
unfolding program
root_refused = refl

table_names :
    map {B = Result StorageError Text} validate_table_name (codes "t_1-A" ∷ codes "a.b" ∷ [])
    ≡ ok (codes "t_1-A")
      ∷ err (invalid_path (codes "a.b") "table names must match [A-Za-z0-9_-]{1,128}")
      ∷ []
unfolding program
table_names = refl

validate_logical_path_again_example :
    All IsSafe parts × (validate_logical_path (path_to_logical parts) ≡ ok parts)
validate_logical_path_again_example = validate_logical_path_again name parts name_valid

abbrev store : MemoryStorage
store = record {
  storage = (codes "ns/a", 1 ∷ []) ∷ (codes "ns", 2 ∷ []) ∷ (codes "nsx", 3 ∷ []) ∷ [];
  namespace = codes "ns";
}

names_listed : list (codes "a") (set (codes "ab/x") [] store).1 ≡ ok (codes "a" ∷ codes "ab/x" ∷ [])
unfolding program
names_listed = refl

keys_listed : keys store ≡ ok (codes "a" ∷ codes "ns" ∷ codes "nsx" ∷ [])
unfolding program
keys_listed = refl

store_cleared : clear store ≡ (ok tt, record store { storage = (codes "nsx", 3 ∷ []) ∷ [] })
unfolding program
store_cleared = refl

child_empty : child (some (codes "ns")) store ≡ ok new
unfolding program
child_empty = refl

abbrev other : Text
other = codes "a/b"

other_valid : validate_logical_path other ≡ ok (codes "a" ∷ codes "b" ∷ [])
unfolding program
other_valid = refl

get-set-delete_example :
    (get other (set name (7 ∷ []) store).1 ≡ (
      get other store >>= λ old.
      ok (if parts == codes "a" ∷ codes "b" ∷ [] then some (7 ∷ []) else old)))
    × (get other (delete name store).1 ≡ (
        get other store >>= λ old. ok (if parts == codes "a" ∷ codes "b" ∷ [] then none else old)))
get-set-delete_example =
    get-set-delete store name other parts (codes "a" ∷ codes "b" ∷ []) (7 ∷ []) name_valid
      other_valid

get-clear_example :
    (lookup (codes "nsx") (clear store).1.storage ≡ (
      if (store.namespace == []) || in_namespace store.namespace (codes "nsx")
      then none
      else lookup (codes "nsx") store.storage))
    × (get name (clear store).1 ≡ ok none)
get-clear_example = get-clear store (codes "nsx") name parts name_valid

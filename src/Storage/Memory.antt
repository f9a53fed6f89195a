-- ===== src/Storage/Memory.antt =====
-- storage/memory.rs: MemoryStorage, whose shared map is the state and whose namespace is fixed.
-- `find` compiles a pattern with the regex crate: what that gives is the parameter `compile`.
pub mod Laws
pub mod Clear
use graphloom.Base.{
  ℕ, Bool, true, false, ◌&&◌, ◌||◌, not, Option, none, some, List, [], ◌∷◌, ◌++◌, map, Text,
  text_eq, ◌==◌, nat_eq, Result, ok, err, ◌>>=◌, lookup, insert, remove, contains_key, filter, any,
  if◌then◌else◌, text_cmp,
}
use graphloom.Base.Sorting.{sort_by}
use graphloom.Storage.Path.{
  StorageError, validate_logical_path, path_to_logical, strip_namespace, starts_with, strip_prefix,
}

abbrev pub Bytes : Type 0
Bytes = List ℕ

pub record MemoryStorage : Type 0 where
  pub storage : List (Text × Bytes)
  pub namespace : Text

abbrev pub new : MemoryStorage
new = record { storage = []; namespace = [] }

-- `format!("{}/{}", self.namespace, name)` and the two cases before it.
abbrev pub joined_key : Text → Text → Text
joined_key [] name = name
joined_key (n ∷ ns) [] = n ∷ ns
joined_key (n ∷ ns) (c ∷ cs) = (n ∷ ns) ++ b'/' ∷ c ∷ cs

unfoldable pub key : MemoryStorage → Text → Result StorageError Text
key s name =
    validate_logical_path name >>= λ parts. ok (joined_key s.namespace (path_to_logical parts))

unfoldable pub get : Text → MemoryStorage → Result StorageError (Option Bytes)
get name s = key s name >>= λ k. ok (lookup k s.storage)

-- A write: the result, and the state after it.
abbrev pub written :
    Result StorageError Text
    → (Text → MemoryStorage)
    → MemoryStorage
    → Result StorageError (Unit {0}) × MemoryStorage
written (err e) next s = (err e, s)
written (ok k) next s = (ok tt, next k)

unfoldable pub set : Text → Bytes → MemoryStorage → Result StorageError (Unit {0}) × MemoryStorage
set name bytes s = written (key s name) (λ k. record s { storage = insert k bytes s.storage }) s

unfoldable pub delete : Text → MemoryStorage → Result StorageError (Unit {0}) × MemoryStorage
delete name s = written (key s name) (λ k. record s { storage = remove k s.storage }) s

abbrev pub in_namespace : Text → Text → Bool
in_namespace namespace k = (k == namespace) || starts_with (namespace ++ b'/' ∷ []) k

abbrev pub remove_all : List Text → List (Text × Bytes) → List (Text × Bytes)
remove_all [] m = m
remove_all (k ∷ ks) m = remove_all ks (remove k m)

unfoldable pub clear : MemoryStorage → Result StorageError (Unit {0}) × MemoryStorage
clear s = elim s.namespace [
  | [] ↦ (ok tt, record s { storage = [] })
  | n ∷ ns ↦ (
    ok tt,
    record s {
      storage = remove_all (filter (in_namespace (n ∷ ns)) (map (λ e. e.0) s.storage)) s.storage;
    },
  )
]

unfoldable pub has : Text → MemoryStorage → Result StorageError Bool
has name s = key s name >>= λ k. ok (contains_key k s.storage)

unfoldable pub list : Text → MemoryStorage → Result StorageError (List Text)
list prefix s = key s prefix >>= λ from. ok (
    sort_by text_cmp (
      map (λ k. strip_namespace k s.namespace)
        (filter (starts_with from) (map (λ e. e.0) s.storage))))

unfoldable pub keys : MemoryStorage → Result StorageError (List Text)
keys s = ok (
    sort_by text_cmp (
      filter (λ k. not (any (λ c. c == b'/') k))
        (map (λ e. strip_namespace e.0 s.namespace) s.storage)))

-- The names behind the namespace that a compiled pattern matches.
unfoldable pub find_names :
    (Text → Result StorageError (Text → Bool))
    → Text
    → MemoryStorage
    → Result StorageError (List Text)
find_names compile pattern s = compile pattern >>= λ is_match. ok (
    sort_by text_cmp (
      filter is_match (
        map (λ k. strip_namespace k s.namespace)
          (filter (λ k. (s.namespace == []) || starts_with (s.namespace ++ b'/' ∷ []) k)
            (map (λ e. e.0) s.storage)))))

unfoldable pub child : Option Text → MemoryStorage → Result StorageError MemoryStorage
child none s = ok s
child (some namespace) s = validate_logical_path namespace >>= λ _. ok new

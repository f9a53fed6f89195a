-- ===== src/Storage/Path.antt =====
-- path.rs: logical names, table names and the prefix of a namespace. A `PathBuf` that
-- validate_logical_path builds holds normal components only, so that it is their list here.
pub mod Components
use graphloom.Base.{
  ℕ, ◌≡◌, Bool, true, false, not, ◌&&◌, ◌||◌, Option, none, some, List, [], ◌∷◌, ◌++◌, Text,
  text_eq, ◌==◌, nat_eq, codes, Result, ok, err, any, all, leb, ltb, length, if◌then◌else◌, ◌>>=◌,
}
use Prim.Native.String.{String}

-- The two variants that these files make.
pub data StorageError : Type 0 where
  invalid_path : (path : Text) (reason : String) → StorageError
  regex : (pattern : Text) → StorageError

-- `std::path::Component` on Unix.
pub data Component : Type 0 where
  root_dir cur_dir parent_dir : Component
  normal : Text → Component

-- The parts between the slashes of a text, of which there is one more than slashes.
abbrev pub to_head : ℕ → List Text → List Text
to_head c [] = (c ∷ []) ∷ []
to_head c (part ∷ parts) = (c ∷ part) ∷ parts

unfoldable pub split : Text → List Text
split [] = [] ∷ []
split (c ∷ cs) = let parts = split cs in if c == b'/' then [] ∷ parts else to_head c parts

-- `Path::components`: behind the first part, an empty part and `.` are no components.
abbrev pub later_component : Text → List Component → List Component
later_component part rest =
    if part == []
    then rest
    else if part == codes "."
    then rest
    else if part == codes ".."
    then parent_dir ∷ rest
    else normal part ∷ rest

unfoldable pub later_components : List Text → List Component
later_components [] = []
later_components (part ∷ parts) = later_component part (later_components parts)

abbrev pub first_component : Text → List Component → List Component
first_component part rest =
    if part == []
    then root_dir ∷ rest
    else if part == codes "."
    then cur_dir ∷ rest
    else later_component part rest

unfoldable pub components : Text → List Component
components [] = []
components (c ∷ cs) = elim (split (c ∷ cs)) [
  | [] ↦ []
  | part ∷ parts ↦ first_component part (later_components parts)
]

-- `Path::is_relative`
abbrev pub is_relative : Text → Bool
is_relative [] = true
is_relative (c ∷ cs) = not (c == b'/')

unfoldable pub is_safe_path_component : Text → Bool
is_safe_path_component component =
    not (component == [])
    && not (component == codes ".")
    && not (component == codes "..")
    && not (any (λ c. c == 0) component)
    && not (any (λ c. c == b'/') component)
    && not (any (λ c. c == b'\\') component)

-- `byte.is_ascii_alphanumeric() || byte == b'_' || byte == b'-'`
abbrev pub is_table_byte : ℕ → Bool
is_table_byte byte =
    (leb b'a' byte && leb byte b'z')
    || (leb b'A' byte && leb byte b'Z')
    || (leb b'0' byte && leb byte b'9')
    || (byte == b'_')
    || (byte == b'-')

unfoldable pub validate_table_name : Text → Result StorageError Text
validate_table_name table_name =
    if (table_name == []) || ltb 128 (length table_name) || not (all is_table_byte table_name)
    then err (invalid_path table_name "table names must match [A-Za-z0-9_-]{1,128}")
    else ok table_name

-- The loop of validate_logical_path over the components of `path`.
unfoldable pub normalize : Text → List Component → List Text → Result StorageError (List Text)
normalize path [] normalized = ok normalized
normalize path (root_dir ∷ rest) normalized =
    err (invalid_path path "path traversal and special components are not allowed")
normalize path (cur_dir ∷ rest) normalized =
    err (invalid_path path "path traversal and special components are not allowed")
normalize path (parent_dir ∷ rest) normalized =
    err (invalid_path path "path traversal and special components are not allowed")
normalize path (normal name ∷ rest) normalized = elim (is_safe_path_component name) [
  | true ↦ normalize path rest (normalized ++ name ∷ [])
  | false ↦ err (invalid_path path "path traversal and special components are not allowed")
]

unfoldable pub validate_logical_path : Text → Result StorageError (List Text)
validate_logical_path [] = ok []
validate_logical_path (c ∷ cs) =
    if is_relative (c ∷ cs)
    then normalize (c ∷ cs) (components (c ∷ cs)) []
    else err (invalid_path (c ∷ cs) "absolute paths are not allowed")

-- The components joined by slashes.
unfoldable pub path_to_logical : List Text → Text
path_to_logical [] = []
path_to_logical (part ∷ []) = part
path_to_logical (part ∷ next ∷ parts) = part ++ b'/' ∷ path_to_logical (next ∷ parts)

-- `value.strip_prefix(prefix)`
unfoldable pub strip_prefix : Text → Text → Option Text
strip_prefix [] value = some value
strip_prefix (p ∷ ps) [] = none
strip_prefix (p ∷ ps) (c ∷ cs) = if p == c then strip_prefix ps cs else none

abbrev pub starts_with : Text → Text → Bool
starts_with prefix value = elim (strip_prefix prefix value) [ none ↦ false | some _ ↦ true ]

unfoldable pub strip_namespace : Text → Text → Text
strip_namespace key [] = key
strip_namespace key (n ∷ ns) = elim (strip_prefix (n ∷ ns) key) [
  | none ↦ key
  | some rest ↦ elim (strip_prefix (codes "/") rest) [ none ↦ key | some name ↦ name ]
]

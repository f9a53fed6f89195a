-- ===== src/Update.antt =====
-- crates/graphloom/src/operations/update.rs: the merge of the entities of an index with those of an
-- update. The rows that read_entities takes from the Polars frames are the arguments. Their
-- human_readable_id is the number of a row, so that it is not negative, and the next one is 0 for an
-- empty table.
pub mod Groups
pub mod Entities
mod Examples
use Prim.Native.Nat.{Ordering}
use graphloom.Base.{
  ℕ, suc, ◌+◌, Bool, Option, none, some, List, [], ◌∷◌, ◌++◌, map, Text, text_eq, text_cmp, length,
  lookup, insert, max, leb, i64_max, if◌then◌else◌, Result, ok, err, ◌>>=◌, try_map, usize_max,
}

pub record EntityTableRow : Type 0 where
  pub id : Text
  pub human_readable_id : ℕ
  pub title : Text
  pub entity_type : Text
  pub descriptions : List Text
  pub text_unit_ids : List Text
  pub degree : ℕ

pub record MergedEntityRow : Type 0 where
  pub id : Text
  pub human_readable_id : ℕ
  pub title : Text
  pub entity_type : Text
  pub descriptions : List Text
  pub text_unit_ids : List Text
  pub frequency : ℕ
  pub degree : ℕ

-- `GraphLoomError::InvalidData`, which each of these makes.
pub data UpdateError : Type 0 where
  id_overflow empty_group frequency_overflow : UpdateError

-- `BTreeMap::insert`, for the entries in the order of their keys.
unfoldable pub insert_ordered : {V : Type 0} → Text → V → List (Text × V) → List (Text × V)
insert_ordered key value [] = (key, value) ∷ []
insert_ordered key value (entry ∷ rest) = elim (text_cmp key entry.0) [
  | Ordering.lt ↦ (key, value) ∷ entry ∷ rest
  | Ordering.eq ↦ (key, value) ∷ rest
  | Ordering.gt ↦ entry ∷ insert_ordered key value rest
]

abbrev pub values_of : {V : Type 0} → Text → List (Text × List V) → List V
values_of key m = elim (lookup key m) [ none ↦ [] | some values ↦ values ]

-- `entry(title).or_default().push(value)`
abbrev pub push_value : {V : Type 0} → Text → V → List (Text × List V) → List (Text × List V)
push_value key value m = insert_ordered key (values_of key m ++ value ∷ []) m

-- The numbers that max_human_readable_id and its successor give, and offset_id.
unfoldable pub next_human_readable_id : List EntityTableRow → ℕ
next_human_readable_id [] = 0
next_human_readable_id (row ∷ rows) = max (suc row.human_readable_id) (next_human_readable_id rows)

abbrev pub checked_id : ℕ → Result UpdateError ℕ
checked_id id = if leb id i64_max then ok id else err id_overflow

-- `for (index, row) in delta_rows.iter_mut().enumerate()`, with `id` the number of the next row.
unfoldable pub renumber : ℕ → List EntityTableRow → Result UpdateError (List EntityTableRow)
renumber id [] = ok []
renumber id (row ∷ rows) = checked_id id >>= λ checked.
    renumber (suc id) rows >>= λ rest. ok (record row { human_readable_id = checked } ∷ rest)

unfoldable pub previous_ids :
    List EntityTableRow → List (Text × List Text) → List (Text × List Text)
previous_ids [] m = m
previous_ids (row ∷ rows) m = previous_ids rows (push_value row.title row.id m)

-- `for id in ids { id_mapping.insert(row.id.clone(), id.clone()); }`
unfoldable pub insert_ids : Text → List Text → List (Text × Text) → List (Text × Text)
insert_ids delta_id [] mapping = mapping
insert_ids delta_id (id ∷ ids) mapping =
    insert_ids delta_id ids (insert_ordered delta_id id mapping)

unfoldable pub map_ids :
    List EntityTableRow → List (Text × List Text) → List (Text × Text) → List (Text × Text)
map_ids [] ids mapping = mapping
map_ids (row ∷ rows) ids mapping =
    map_ids rows ids (insert_ids row.id (values_of row.title ids) mapping)

unfoldable pub group_rows :
    List EntityTableRow → List (Text × List EntityTableRow) → List (Text × List EntityTableRow)
group_rows [] m = m
group_rows (row ∷ rows) m = group_rows rows (push_value row.title row m)

abbrev pub concat_map : {A B : Type 0} → (A → List B) → List A → List B
concat_map f [] = []
concat_map f (x ∷ xs) = f x ++ concat_map f xs

unfoldable pub merged_entity_row : Text × List EntityTableRow → Result UpdateError MergedEntityRow
merged_entity_row (title, []) = err empty_group
merged_entity_row (title, first ∷ rest) =
    let text_unit_ids = concat_map (λ r. r.text_unit_ids) (first ∷ rest) in
    if leb (length text_unit_ids) i64_max
    then ok (record {
      id = first.id;
      human_readable_id = first.human_readable_id;
      title = title;
      entity_type = first.entity_type;
      descriptions = concat_map (λ r. r.descriptions) (first ∷ rest);
      text_unit_ids = text_unit_ids;
      frequency = length text_unit_ids;
      degree = first.degree;
    })
    else err frequency_overflow

unfoldable pub merge_update_entities :
    List EntityTableRow
    → List EntityTableRow
    → Result UpdateError (List MergedEntityRow × List (Text × Text))
merge_update_entities previous delta =
    checked_id (next_human_readable_id previous) >>= λ initial_id.
    renumber initial_id delta >>= λ delta_rows.
    try_map merged_entity_row (group_rows (previous ++ delta_rows) []) >>= λ resolved.
    ok (resolved, map_ids delta (previous_ids previous []) [])

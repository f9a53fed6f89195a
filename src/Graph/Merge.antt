-- ===== src/Graph/Merge.antt =====
-- operations/graph/merge.rs: the rows that were extracted from the text units, merged by their key,
-- and the relationships without an entity at both ends dropped.
pub mod Entities
pub mod Relationships
use graphloom.Base.{
  ℕ, suc, ◌+◌, ◌-◌, ◌^◌, ◌≤◌, min, ◌≡◌, refl, ap, ◌∙◌, Bool, ◌&&◌, Option, none, some, List, [],
  ◌∷◌, ◌++◌, map, length, Text, ◌==◌, find, filter, any, arith, i64_max, pair_eq, text_eq,
  append-nil, append_assoc,
}
use graphloom.Graph.Rows.{RawEntityRow, RawRelationshipRow, EntityRow, RelationshipRow}
use graphloom.Graph.Group.{group_loop, grow, group_of, first_seen_from, loop-keys, loop-group}

abbrev pub raw_entity_key : RawEntityRow → Text × Text
raw_entity_key row = (row.title, row.entity_type)

abbrev pub entity_key : EntityRow → Text × Text
entity_key row = (row.title, row.entity_type)

abbrev pub new_entity : RawEntityRow → EntityRow
new_entity row = record {
  title = row.title;
  entity_type = row.entity_type;
  description = row.description ∷ [];
  text_unit_ids = row.source_id ∷ [];
  frequency = 1;
}

abbrev pub add_entity : RawEntityRow → EntityRow → EntityRow
add_entity row entry = record {
  title = entry.title;
  entity_type = entry.entity_type;
  description = entry.description ++ row.description ∷ [];
  text_unit_ids = entry.text_unit_ids ++ row.source_id ∷ [];
  frequency = min (entry.frequency + 1) i64_max;
}

unfoldable pub merge_entities : List RawEntityRow → List EntityRow
merge_entities rows = (group_loop raw_entity_key new_entity add_entity rows ([], [])).1

abbrev pub raw_relationship_key : {Weight : Type 0} → RawRelationshipRow Weight → Text × Text
raw_relationship_key row = (row.source, row.target)

abbrev pub relationship_key : {Weight : Type 0} → RelationshipRow Weight → Text × Text
relationship_key row = (row.source, row.target)

abbrev pub new_relationship : {Weight : Type 0} → RawRelationshipRow Weight → RelationshipRow Weight
new_relationship row = record {
  source = row.source;
  target = row.target;
  description = row.description ∷ [];
  text_unit_ids = row.source_id ∷ [];
  weight = row.weight;
}

-- `add` is the sum of two weights, which the source has as `f64`.
module _ {Weight : Type 0} (add : Weight → Weight → Weight) where
  abbrev pub add_relationship :
      RawRelationshipRow Weight → RelationshipRow Weight → RelationshipRow Weight
  add_relationship row entry = record {
    source = entry.source;
    target = entry.target;
    description = entry.description ++ row.description ∷ [];
    text_unit_ids = entry.text_unit_ids ++ row.source_id ∷ [];
    weight = add entry.weight row.weight;
  }

  unfoldable pub merge_relationships :
      List (RawRelationshipRow Weight) → List (RelationshipRow Weight)
  merge_relationships rows =
      (group_loop raw_relationship_key new_relationship add_relationship rows ([], [])).1

unfoldable pub filter_orphan_relationships :
    {Weight : Type 0}
    → List (RelationshipRow Weight)
    → List EntityRow
    → List (RelationshipRow Weight)
filter_orphan_relationships relationships entities =
    let titles = map (λ e. e.title) entities in
    let known = λ (title : Text). any (λ t. t == title) titles in
    filter (λ r. known r.source && known r.target) relationships

-- ===== src/Graph/Merge/Entities.antt =====
-- What merge_entities of operations/graph/merge.rs returns.
use graphloom.Base.{
  suc, ◌+◌, ◌≤◌, min, ◌≡◌, refl, ◌∙◌, Option, none, some, List, [], ◌∷◌, ◌++◌, map, length, Text,
  ◌==◌, find, filter, arith, i64_max, pair_eq, text_eq, append-nil, append_assoc, lookup,
}
use graphloom.Graph.Rows.{RawEntityRow, EntityRow}
use graphloom.Graph.Group.{grow, first_seen_from, loop-keys, loop-group}
use graphloom.Graph.Merge.{raw_entity_key, entity_key, new_entity, add_entity, merge_entities}

-- What the rows of one key make, without the loop.
unfoldable pub merged_entity : List RawEntityRow → Option EntityRow
merged_entity [] = none
merged_entity (row ∷ rows) = some (record {
  title = row.title;
  entity_type = row.entity_type;
  description = row.description ∷ map (λ r. r.description) rows;
  text_unit_ids = row.source_id ∷ map (λ r. r.source_id) rows;
  frequency = min (suc (length rows)) i64_max;
})

unfoldable extended : EntityRow → List RawEntityRow → EntityRow
extended g rows = record {
  title = g.title;
  entity_type = g.entity_type;
  description = g.description ++ map (λ r. r.description) rows;
  text_unit_ids = g.text_unit_ids ++ map (λ r. r.source_id) rows;
  frequency = min (g.frequency + length rows) i64_max;
}

-- Both sides of the loop over the rows of one key.
grow-extended :
    (g : EntityRow) (rows : List RawEntityRow)
    → g.frequency ≤ i64_max
    → grow raw_entity_key new_entity add_entity (some g) rows ≡ some (extended g rows)
unfolding extended
grow-extended g [] h = ground (arith, append-nil g.description, append-nil g.text_unit_ids)
grow-extended g (row ∷ rows) h =
    grow-extended (add_entity row g) rows (omega arith)
    ∙ ground (
      arith,
      append_assoc g.description (row.description ∷ []) (map (λ r. r.description) rows),
      append_assoc g.text_unit_ids (row.source_id ∷ []) (map (λ r. r.source_id) rows),
    )

grow-merged_entity :
    (rows : List RawEntityRow)
    → grow raw_entity_key new_entity add_entity none rows ≡ merged_entity rows
unfolding merged_entity extended
grow-merged_entity [] = refl
grow-merged_entity (row ∷ rows) = grow-extended (new_entity row) rows (omega arith) ∙ ground arith

merge_entities-keys :
    (rows : List RawEntityRow)
    → map entity_key (merge_entities rows) ≡ first_seen_from [] (map raw_entity_key rows)
unfolding merge_entities lookup
merge_entities-keys rows =
    loop-keys raw_entity_key new_entity add_entity entity_key (λ r. refl) (λ r g. refl) rows
      ([], []) (λ k. refl)

merge_entities-groups :
    (k : Text × Text) (rows : List RawEntityRow)
    → find (λ e. entity_key e == k) (merge_entities rows)
      ≡ merged_entity (filter (λ r. raw_entity_key r == k) rows)
unfolding merge_entities find lookup
merge_entities-groups k rows =
    loop-group raw_entity_key new_entity add_entity entity_key (λ r. refl) (λ r g. refl) k rows
      ([], []) (λ k. refl)
    ∙ grow-merged_entity (filter (λ r. raw_entity_key r == k) rows)

-- For all extracted entity rows and any title and type `k`: the merged rows have each pair of a title
-- and a type once, in the order of the first row that has it; and the one of `k` has the descriptions
-- and the text units of all rows of `k` in their order, and as its frequency their number, cut off
-- at the largest i64.
pub merge_entities-IsGrouping :
    (rows : List RawEntityRow) (k : Text × Text)
    → (map entity_key (merge_entities rows) ≡ first_seen_from [] (map raw_entity_key rows))
      × (find (λ e. entity_key e == k) (merge_entities rows)
          ≡ merged_entity (filter (λ r. raw_entity_key r == k) rows))
merge_entities-IsGrouping rows k = (merge_entities-keys rows, merge_entities-groups k rows)

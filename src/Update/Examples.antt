-- ===== src/Update/Examples.antt =====
-- The merge of two small entity tables, and the theorems there.
use graphloom.Base.{
  ℕ, ◌≡◌, ◌<◌, refl, List, [], ◌∷◌, ◌++◌, map, Text, text_eq, codes, lookup, insert, text_beq,
  text_cmp, ok, find, filter, ◌==◌,
}
use graphloom.Base.Preds.{All}
use graphloom.Update.{
  EntityTableRow, MergedEntityRow, insert_ordered, next_human_readable_id, renumber, previous_ids,
  insert_ids, map_ids, group_rows, merged_entity_row, merge_update_entities,
}
use graphloom.Update.Entities.{
  combined, IsIncreasing, count_from, merge_update_entities-IsIncreasing,
  renumber-next_human_readable_id,
}

program : Unit {0}
unfolding insert_ordered next_human_readable_id renumber previous_ids insert_ids map_ids group_rows
    merged_entity_row merge_update_entities lookup insert text_beq text_cmp
program = tt

abbrev row : Text → ℕ → Text → Text → EntityTableRow
row id n title unit = record {
  id = id;
  human_readable_id = n;
  title = title;
  entity_type = codes "person";
  descriptions = codes "d" ∷ [];
  text_unit_ids = unit ∷ [];
  degree = 1;
}

abbrev previous : List EntityTableRow
previous =
    row (codes "p0") 0 (codes "BOB") (codes "t1")
    ∷ row (codes "p1") 4 (codes "ALICE") (codes "t1")
    ∷ []

abbrev delta : List EntityTableRow
delta =
    row (codes "d0") 0 (codes "BOB") (codes "t2")
    ∷ row (codes "d1") 1 (codes "CAROL") (codes "t2")
    ∷ []

abbrev numbered : List EntityTableRow
numbered =
    row (codes "d0") 5 (codes "BOB") (codes "t2")
    ∷ row (codes "d1") 6 (codes "CAROL") (codes "t2")
    ∷ []

delta_renumbered : renumber (next_human_readable_id previous) delta ≡ ok numbered
unfolding program
delta_renumbered = refl

renumber-next_human_readable_id_example :
    (map (λ r. r.human_readable_id) numbered ≡ count_from (next_human_readable_id previous) delta)
    × (map (λ r. r.id) numbered ≡ map (λ r. r.id) delta)
    × All (λ r. r.human_readable_id < next_human_readable_id previous) previous
renumber-next_human_readable_id_example =
    renumber-next_human_readable_id previous delta numbered delta_renumbered

abbrev merged_row : Text → ℕ → Text → List Text → List Text → ℕ → MergedEntityRow
merged_row id n title descriptions text_unit_ids frequency = record {
  id = id;
  human_readable_id = n;
  title = title;
  entity_type = codes "person";
  descriptions = descriptions;
  text_unit_ids = text_unit_ids;
  frequency = frequency;
  degree = 1;
}

abbrev merged : List MergedEntityRow
merged =
    merged_row (codes "p1") 4 (codes "ALICE") (codes "d" ∷ []) (codes "t1" ∷ []) 1
    ∷ merged_row (codes "p0") 0 (codes "BOB") (codes "d" ∷ codes "d" ∷ [])
        (codes "t1" ∷ codes "t2" ∷ []) 2
    ∷ merged_row (codes "d1") 6 (codes "CAROL") (codes "d" ∷ []) (codes "t2" ∷ []) 1
    ∷ []

entities_merged : merge_update_entities previous delta ≡ ok (merged, (codes "d0", codes "p0") ∷ [])
unfolding program
entities_merged = refl

merge_update_entities-IsIncreasing_example :
    (delta_rows : List EntityTableRow) × (renumber (next_human_readable_id previous) delta
      ≡ ok delta_rows)
    × IsIncreasing (map (λ r. r.title) merged)
    × (find (λ r. r.title == codes "BOB") merged
        ≡ combined (codes "BOB") (filter (λ r. r.title == codes "BOB") (previous ++ delta_rows)))
merge_update_entities-IsIncreasing_example =
    merge_update_entities-IsIncreasing previous delta merged ((codes "d0", codes "p0") ∷ [])
      (codes "BOB") entities_merged

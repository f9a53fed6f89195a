-- ===== src/Graph/Examples.antt =====
-- The merge and the final tables of a small graph, and the theorems there.
use graphloom.Base.{
  ℕ, ◌+◌, ◌≡◌, ◌↔◌, ◌⊎◌, refl, List, [], ◌∷◌, Text, codes, map, lookup, insert, find, filter, ◌==◌,
  pair_eq, text_eq, text_cmp, text_beq,
}
use graphloom.Graph.Rows.{
  RawEntityRow, RawRelationshipRow, EntityRow, SummarizedEntityRow, SummarizedRelationshipRow,
}
use graphloom.Graph.Group.{group_step, group_loop, modify, first_seen_from}
use graphloom.Graph.Merge.{
  merge_entities, merge_relationships, filter_orphan_relationships, entity_key, raw_entity_key,
  relationship_key, raw_relationship_key,
}
use graphloom.Graph.Merge.Entities.{merged_entity, merge_entities-IsGrouping}
use graphloom.Graph.Merge.Relationships.{merged_relationship, merge_relationships-IsGrouping}
use graphloom.Graph.Finalize.{
  sorted_pair, degree_map, degree_of, degree_loop, degree_step, count_end, finalize_graph,
  finalize_entities, finalize_relationships, final_loop, usize_to_i64,
}
use graphloom.Graph.Finalize.Degrees.{incidences, row_pair, degree_map-degree_of, sorted_pair_iff}
use graphloom.Graph.Finalize.Numbered.{final_relationships}

program : Unit {0}
unfolding group_step group_loop modify merge_entities merge_relationships
    filter_orphan_relationships merged_entity merged_relationship sorted_pair degree_map degree_loop
    degree_step count_end finalize_graph finalize_entities finalize_relationships final_loop
    usize_to_i64 lookup insert find text_cmp text_beq
program = tt

abbrev alice : Text
alice = codes "ALICE"

abbrev bob : Text
bob = codes "BOB"

abbrev raw : Text → Text → Text → RawEntityRow
raw title description source_id = record {
  title = title;
  entity_type = codes "person";
  description = description;
  source_id = source_id;
}

abbrev raw_entities : List RawEntityRow
raw_entities =
    raw alice (codes "engineer") (codes "t1")
    ∷ raw bob (codes "researcher") (codes "t1")
    ∷ raw alice (codes "mentor") (codes "t2")
    ∷ []

abbrev entity : Text → List Text → List Text → ℕ → EntityRow
entity title description text_unit_ids frequency = record {
  title = title;
  entity_type = codes "person";
  description = description;
  text_unit_ids = text_unit_ids;
  frequency = frequency;
}

abbrev entities : List EntityRow
entities =
    entity alice (codes "engineer" ∷ codes "mentor" ∷ []) (codes "t1" ∷ codes "t2" ∷ []) 2
    ∷ entity bob (codes "researcher" ∷ []) (codes "t1" ∷ []) 1
    ∷ []

entities_merged : merge_entities raw_entities ≡ entities
unfolding program
entities_merged = refl

abbrev alice_key : Text × Text
alice_key = (alice, codes "person")

merge_entities-IsGrouping_example :
    (map entity_key (merge_entities raw_entities)
      ≡ first_seen_from [] (map raw_entity_key raw_entities))
    × (find (λ e. entity_key e == alice_key) (merge_entities raw_entities)
        ≡ merged_entity (filter (λ r. raw_entity_key r == alice_key) raw_entities))
merge_entities-IsGrouping_example = merge_entities-IsGrouping raw_entities alice_key

abbrev raw_edge : Text → Text → ℕ → RawRelationshipRow ℕ
raw_edge source target weight = record {
  source = source;
  target = target;
  description = codes "knows";
  source_id = codes "t1";
  weight = weight;
}

abbrev raw_edges : List (RawRelationshipRow ℕ)
raw_edges =
    raw_edge alice bob 2
    ∷ raw_edge bob alice 3
    ∷ raw_edge alice bob 5
    ∷ raw_edge alice (codes "EVE") 1
    ∷ []

abbrev add : ℕ → ℕ → ℕ
add a b = a + b

weights_merged :
    map (λ r. r.weight) (filter_orphan_relationships (merge_relationships add raw_edges) entities)
    ≡ 7 ∷ 3 ∷ []
unfolding program
weights_merged = refl

merge_relationships-IsGrouping_example :
    (map relationship_key (merge_relationships add raw_edges)
      ≡ first_seen_from [] (map raw_relationship_key raw_edges))
    × (find (λ e. relationship_key e == (alice, bob)) (merge_relationships add raw_edges)
        ≡ merged_relationship add (filter (λ r. raw_relationship_key r == (alice, bob)) raw_edges))
merge_relationships-IsGrouping_example = merge_relationships-IsGrouping add raw_edges (alice, bob)

abbrev edge : Text → Text → SummarizedRelationshipRow ℕ
edge source target = record {
  source = source;
  target = target;
  description = codes "knows";
  text_unit_ids = [];
  weight = 1;
}

abbrev edges : List (SummarizedRelationshipRow ℕ)
edges = edge alice bob ∷ edge bob alice ∷ edge bob bob ∷ []

degrees_counted :
    map (λ title. degree_of title (degree_map edges)) (alice ∷ bob ∷ codes "EVE" ∷ [])
    ≡ 1 ∷ 3 ∷ 0 ∷ []
unfolding program
degrees_counted = refl

degree_map-degree_of_example :
    degree_of bob (degree_map edges) ≡ incidences bob (first_seen_from [] (map row_pair edges))
degree_map-degree_of_example = degree_map-degree_of edges bob

sorted_pair_iff_example :
    (sorted_pair alice bob ≡ sorted_pair bob alice)
    ↔ (((alice ≡ bob) × (bob ≡ alice)) ⊎ ((alice ≡ alice) × (bob ≡ bob)))
sorted_pair_iff_example = sorted_pair_iff alice bob bob alice

abbrev uuid : ℕ → Text
uuid n = n ∷ []

abbrev summarized : Text → SummarizedEntityRow
summarized title = record {
  title = title;
  entity_type = codes "person";
  description = [];
  text_unit_ids = [];
  frequency = 1;
}

abbrev nodes : List SummarizedEntityRow
nodes = summarized alice ∷ summarized bob ∷ summarized bob ∷ []

ids_given :
    map {B = ℕ × Text}
      (λ r. (r.human_readable_id, r.id))
      (final_relationships (λ n. uuid (2 + n)) (degree_map edges) edges)
    ≡ (0, 2 ∷ []) ∷ (1, 3 ∷ []) ∷ (2, 4 ∷ []) ∷ []
unfolding program
ids_given = refl

-- ===== src/Graph/Merge/Relationships.antt =====
-- What merge_relationships and filter_orphan_relationships of operations/graph/merge.rs return.
use graphloom.Base.{
  ◌≡◌, refl, ◌∙◌, Option, none, some, List, [], ◌∷◌, ◌++◌, map, Text, ◌==◌, find, filter, arith,
  pair_eq, text_eq, append-nil, append_assoc, lookup, foldl,
}
use graphloom.Graph.Rows.{RawRelationshipRow, RelationshipRow}
use graphloom.Graph.Group.{grow, first_seen_from, loop-keys, loop-group}
use graphloom.Graph.Merge.{
  raw_relationship_key, relationship_key, new_relationship, add_relationship, merge_relationships,
}

module _ {Weight : Type 0} (add : Weight → Weight → Weight) where
  -- What the rows of one key make, without the loop.
  unfoldable pub merged_relationship :
      List (RawRelationshipRow Weight) → Option (RelationshipRow Weight)
  merged_relationship [] = none
  merged_relationship (row ∷ rows) = some (record {
    source = row.source;
    target = row.target;
    description = row.description ∷ map (λ r. r.description) rows;
    text_unit_ids = row.source_id ∷ map (λ r. r.source_id) rows;
    weight = foldl add row.weight (map (λ r. r.weight) rows);
  })

  unfoldable extended :
      RelationshipRow Weight → List (RawRelationshipRow Weight) → RelationshipRow Weight
  extended g rows = record {
    source = g.source;
    target = g.target;
    description = g.description ++ map (λ r. r.description) rows;
    text_unit_ids = g.text_unit_ids ++ map (λ r. r.source_id) rows;
    weight = foldl add g.weight (map (λ r. r.weight) rows);
  }

  grow-extended :
      (g : RelationshipRow Weight) (rows : List (RawRelationshipRow Weight))
      → grow raw_relationship_key new_relationship (add_relationship add) (some g) rows
        ≡ some (extended g rows)
  unfolding extended
  grow-extended g [] = ground (arith, append-nil g.description, append-nil g.text_unit_ids)
  grow-extended g (row ∷ rows) =
      grow-extended (add_relationship add row g) rows
      ∙ ground (
        arith,
        append_assoc g.description (row.description ∷ []) (map (λ r. r.description) rows),
        append_assoc g.text_unit_ids (row.source_id ∷ []) (map (λ r. r.source_id) rows),
      )

  grow-merged_relationship :
      (rows : List (RawRelationshipRow Weight))
      → grow raw_relationship_key new_relationship (add_relationship add) none rows
        ≡ merged_relationship rows
  unfolding merged_relationship extended
  grow-merged_relationship [] = refl
  grow-merged_relationship (row ∷ rows) = grow-extended (new_relationship row) rows

  -- For all extracted relationship rows, any source and target `k` and any sum of weights: the merged
  -- rows have each pair of a source and a target once, in the order of the first row that has it; and
  -- the one of `k` has the descriptions and the text units of all rows of `k` in their order, and as
  -- its weight the sum of their weights from the first row on.
  pub merge_relationships-IsGrouping :
      (rows : List (RawRelationshipRow Weight)) (k : Text × Text)
      → (map relationship_key (merge_relationships add rows)
          ≡ first_seen_from [] (map raw_relationship_key rows))
        × (find (λ e. relationship_key e == k) (merge_relationships add rows)
            ≡ merged_relationship (filter (λ r. raw_relationship_key r == k) rows))
  unfolding merge_relationships find lookup
  merge_relationships-IsGrouping rows k = (
    loop-keys raw_relationship_key new_relationship (add_relationship add) relationship_key
        (λ r. refl) (λ r g. refl) rows ([], []) (λ k. refl),
    loop-group raw_relationship_key new_relationship (add_relationship add) relationship_key
          (λ r. refl) (λ r g. refl) k rows ([], []) (λ k. refl)
        ∙ grow-merged_relationship (filter (λ r. raw_relationship_key r == k) rows),
  )

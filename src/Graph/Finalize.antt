-- ===== src/Graph/Finalize.antt =====
-- operations/graph/finalize.rs: the rows of the final tables, with their degrees. The identifiers of
-- `Uuid::new_v4` are a stream `uuid`, read from left to right. A degree is at most twice the number
-- of rows, which a Vec keeps below 2 ^ 63, so that a sum of one more does not leave i64.
pub mod Degrees
pub mod Numbered
use Prim.Native.Nat.{Ordering}
use graphloom.Base.{
  ℕ, zero, suc, ◌+◌, ◌-◌, ◌^◌, ◌≤◌, min, ◌≡◌, refl, ap, ◌∙◌, Bool, ◌&&◌, Option, none, some, List,
  [], ◌∷◌, ◌++◌, map, length, Text, text_cmp, ◌==◌, find, filter, any, arith, i64_max, pair_eq,
  text_eq, lookup, insert, PartialEq, if◌then◌else◌, leb, Result, ok, err, ◌>>=◌,
}
use graphloom.Graph.Rows.{
  SummarizedEntityRow, SummarizedRelationshipRow, FinalEntityRow, FinalRelationshipRow,
  FinalizedGraph,
}

unfoldable pub sorted_pair : Text → Text → Text × Text
sorted_pair left right = elim (text_cmp left right) [
  | Ordering.gt ↦ (right, left)
  | _ ↦ (left, right)
]

-- `*degree.entry(title).or_insert(0) += 1`
unfoldable pub count_end : Text → List (Text × ℕ) → List (Text × ℕ)
count_end title degree = elim (lookup title degree) [
  | none ↦ insert title 1 degree
  | some d ↦ insert title (d + 1) degree
]

-- `degree_map.get(title).copied().map_or(0, |degree| degree)`
abbrev pub degree_of : Text → List (Text × ℕ) → ℕ
degree_of title degree = elim (lookup title degree) [ none ↦ 0 | some d ↦ d ]

module _ {Weight : Type 0} where
  unfoldable pub degree_step :
      SummarizedRelationshipRow Weight
      → List (Text × Text) × List (Text × ℕ)
      → List (Text × Text) × List (Text × ℕ)
  degree_step row (seen, degree) =
      let pair = sorted_pair row.source row.target in
      if any (λ p. p == pair) seen
      then (seen, degree)
      else (seen ++ pair ∷ [], count_end pair.1 (count_end pair.0 degree))

  unfoldable pub degree_loop :
      List (SummarizedRelationshipRow Weight)
      → List (Text × Text) × List (Text × ℕ)
      → List (Text × Text) × List (Text × ℕ)
  degree_loop [] s = s
  degree_loop (row ∷ rows) s = degree_loop rows (degree_step row s)

  unfoldable pub degree_map : List (SummarizedRelationshipRow Weight) → List (Text × ℕ)
  degree_map rows = (degree_loop rows ([], [])).1

-- Why a final table is refused: `human_readable_id` beyond the signed 64-bit range.
pub data GraphError : Type 0 where
  invalid_data : ℕ → GraphError

unfoldable pub usize_to_i64 : ℕ → Result GraphError ℕ
usize_to_i64 value = if leb value i64_max then ok value else err (invalid_data value)

-- The loop of finalize_entities and of finalize_relationships: a row whose key was seen is skipped,
-- any other becomes the next final row.
module _ {K R F : Type 0} ⦃test : PartialEq K⦄ (key : R → K) (make : ℕ → ℕ → R → F) where
  unfoldable pub final_loop : List R → List K → List F → Result GraphError (List F)
  final_loop [] seen final_rows = ok final_rows
  final_loop (row ∷ rows) seen final_rows = elim (any (λ k. k == key row) seen) [
    | Bool.true ↦ final_loop rows seen final_rows
    | Bool.false ↦ usize_to_i64 (length final_rows) >>= λ human_readable_id.
        final_loop rows (seen ++ key row ∷ [])
          (final_rows ++ make (length final_rows) human_readable_id row ∷ [])
  ]

module _ (uuid : ℕ → Text) (degree_map : List (Text × ℕ)) where
  abbrev pub final_entity : ℕ → ℕ → SummarizedEntityRow → FinalEntityRow
  final_entity n human_readable_id row = record {
    id = uuid n;
    human_readable_id = human_readable_id;
    title = row.title;
    entity_type = row.entity_type;
    description = row.description;
    text_unit_ids = row.text_unit_ids;
    frequency = row.frequency;
    degree = degree_of row.title degree_map;
  }

  unfoldable pub finalize_entities :
      List SummarizedEntityRow → Result GraphError (List FinalEntityRow)
  finalize_entities rows = final_loop (λ row. row.title) final_entity rows [] []

  abbrev pub final_relationship :
      {Weight : Type 0} → ℕ → ℕ → SummarizedRelationshipRow Weight → FinalRelationshipRow Weight
  final_relationship n human_readable_id row = record {
    id = uuid n;
    human_readable_id = human_readable_id;
    source = row.source;
    target = row.target;
    description = row.description;
    weight = row.weight;
    combined_degree =
        min (degree_of row.source degree_map + degree_of row.target degree_map) i64_max;
    text_unit_ids = row.text_unit_ids;
  }

  unfoldable pub finalize_relationships :
      {Weight : Type 0}
      → List (SummarizedRelationshipRow Weight)
      → Result GraphError (List (FinalRelationshipRow Weight))
  finalize_relationships rows =
      final_loop {K = Text × Text} (λ row. (row.source, row.target)) final_relationship rows [] []

unfoldable pub finalize_graph :
    {Weight : Type 0}
    → (uuid : ℕ → Text) → List SummarizedEntityRow
    → List (SummarizedRelationshipRow Weight)
    → Result GraphError (FinalizedGraph Weight)
finalize_graph uuid entities relationships =
    let degree = degree_map relationships in
    finalize_entities uuid degree entities >>= λ final_entities.
    finalize_relationships (λ n. uuid (length final_entities + n)) degree relationships
    >>= λ final_relationships.
        ok (record { entities = final_entities; relationships = final_relationships })

-- ===== src/Graph/Finalize/Numbered.antt =====
-- What finalize_entities, finalize_relationships and finalize_graph of operations/graph/finalize.rs
-- return.
use graphloom.Base.{
  ℕ, suc, ap, List, [], ◌∷◌, ◌++◌, Text, ◌==◌, any, pair_eq, text_eq, PartialEq, if◌then◌else◌,
}
use graphloom.Graph.Rows.{
  SummarizedEntityRow, SummarizedRelationshipRow, FinalEntityRow, FinalRelationshipRow,
}
use graphloom.Base.{ap}
use graphloom.Graph.Finalize.{final_entity, final_relationship}

module _ {K R : Type 0} ⦃test : PartialEq K⦄ (key : R → K) where
  -- The rows whose key no earlier row and no key of `seen` has.
  abbrev pub distinct_from : List K → List R → List R
  distinct_from seen [] = []
  distinct_from seen (row ∷ rows) =
      if any (λ k. k == key row) seen
      then distinct_from seen rows
      else row ∷ distinct_from (seen ++ key row ∷ []) rows

module _ {R F : Type 0} (make : ℕ → ℕ → R → F) where
  -- The rows numbered from `n` on.
  abbrev pub numbered : ℕ → List R → List F
  numbered n [] = []
  numbered n (row ∷ rows) = make n n row ∷ numbered (suc n) rows

-- The final tables without the loops and the errors.
abbrev pub final_entities :
    (ℕ → Text) → List (Text × ℕ) → List SummarizedEntityRow → List FinalEntityRow
final_entities uuid degree rows =
    numbered (final_entity uuid degree) 0 (distinct_from (λ row. row.title) [] rows)

abbrev pub final_relationships :
    {Weight : Type 0}
    → (ℕ → Text)
    → List (Text × ℕ)
    → List (SummarizedRelationshipRow Weight)
    → List (FinalRelationshipRow Weight)
final_relationships uuid degree rows =
    numbered (final_relationship uuid degree) 0
      (distinct_from {K = Text × Text} (λ row. (row.source, row.target)) [] rows)

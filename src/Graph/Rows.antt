-- ===== src/Graph/Rows.antt =====
-- operations/graph/types.rs
use graphloom.Base.{ℕ, List, Text}

pub record RawEntityRow : Type 0 where
  pub title : Text
  pub entity_type : Text
  pub description : Text
  pub source_id : Text

pub record RawRelationshipRow (Weight : Type 0) : Type 0 where
  pub source : Text
  pub target : Text
  pub description : Text
  pub source_id : Text
  pub weight : Weight

pub record EntityRow : Type 0 where
  pub title : Text
  pub entity_type : Text
  pub description : List Text
  pub text_unit_ids : List Text
  pub frequency : ℕ

pub record RelationshipRow (Weight : Type 0) : Type 0 where
  pub source : Text
  pub target : Text
  pub description : List Text
  pub text_unit_ids : List Text
  pub weight : Weight

pub record SummarizedEntityRow : Type 0 where
  pub title : Text
  pub entity_type : Text
  pub description : Text
  pub text_unit_ids : List Text
  pub frequency : ℕ

pub record SummarizedRelationshipRow (Weight : Type 0) : Type 0 where
  pub source : Text
  pub target : Text
  pub description : Text
  pub text_unit_ids : List Text
  pub weight : Weight

pub record FinalEntityRow : Type 0 where
  pub id : Text
  pub human_readable_id : ℕ
  pub title : Text
  pub entity_type : Text
  pub description : Text
  pub text_unit_ids : List Text
  pub frequency : ℕ
  pub degree : ℕ

pub record FinalRelationshipRow (Weight : Type 0) : Type 0 where
  pub id : Text
  pub human_readable_id : ℕ
  pub source : Text
  pub target : Text
  pub description : Text
  pub weight : Weight
  pub combined_degree : ℕ
  pub text_unit_ids : List Text

pub record FinalizedGraph (Weight : Type 0) : Type 0 where
  pub entities : List FinalEntityRow
  pub relationships : List (FinalRelationshipRow Weight)

-- ===== src/Communities.antt =====
-- crates/graphloom/src/operations/communities.rs: the edges that clustering starts from, up to the
-- choice of a component. The floating-point weight of an edge is a type parameter.
pub mod Slots
pub mod Dedupe
pub mod Sorted
pub mod Component
mod Examples
use Prim.Native.Nat.{Ordering}
use graphloom.Base.{
  ℕ, Option, none, some, List, [], ◌∷◌, ◌++◌, map, Text, text_eq, pair_eq, text_cmp, length, lookup,
  insert, set,
}
use graphloom.Base.Sorting.{sort_by}
use graphloom.Graph.Finalize.{sorted_pair}

pub record ClusterRelationship (Weight : Type 0) : Type 0 where
  pub source : Text
  pub target : Text
  pub weight : Weight

pub record ClusterEdge (Weight : Type 0) : Type 0 where
  pub source : Text
  pub target : Text
  pub weight : Weight

module _ {Weight : Type 0} where
  abbrev pub cluster_edge : ClusterRelationship Weight → ClusterEdge Weight
  cluster_edge relationship =
      let (source, target) = sorted_pair relationship.source relationship.target in
      record { source = source; target = target; weight = relationship.weight }

  abbrev pub edge_pair : ClusterEdge Weight → Text × Text
  edge_pair edge = (edge.source, edge.target)

  -- One round of the loop: the indexes of the pairs, and the edges, of which replaced ones are gone.
  unfoldable pub dedupe_step :
      ClusterRelationship Weight
      → List ((Text × Text) × ℕ) × List (Option (ClusterEdge Weight))
      → List ((Text × Text) × ℕ) × List (Option (ClusterEdge Weight))
  dedupe_step relationship (pair_indexes, deduped) =
      let edge = cluster_edge relationship in
      let kept : List (Option (ClusterEdge Weight)) = elim (lookup (edge_pair edge) pair_indexes) [
        | none ↦ deduped
        | some previous_index ↦ set deduped previous_index none
      ] in
      (insert (edge_pair edge) (length deduped) pair_indexes, kept ++ some edge ∷ [])

  unfoldable pub dedupe_loop :
      List (ClusterRelationship Weight)
      → List ((Text × Text) × ℕ) × List (Option (ClusterEdge Weight))
      → List ((Text × Text) × ℕ) × List (Option (ClusterEdge Weight))
  dedupe_loop [] s = s
  dedupe_loop (relationship ∷ rest) s = dedupe_loop rest (dedupe_step relationship s)

  -- `into_iter().flatten()`
  abbrev pub flatten : List (Option (ClusterEdge Weight)) → List (ClusterEdge Weight)
  flatten [] = []
  flatten (none ∷ rest) = flatten rest
  flatten (some edge ∷ rest) = edge ∷ flatten rest

  unfoldable pub deduped_edges : List (ClusterRelationship Weight) → List (ClusterEdge Weight)
  deduped_edges relationships = flatten (dedupe_loop relationships ([], [])).1

  abbrev pub cluster_edge_cmp : ClusterEdge Weight → ClusterEdge Weight → Ordering
  cluster_edge_cmp left right = elim (text_cmp left.source right.source) [
    | Ordering.lt ↦ Ordering.lt
    | Ordering.gt ↦ Ordering.gt
    | Ordering.eq ↦ text_cmp left.target right.target
  ]

  unfoldable pub sort_edges : List (ClusterEdge Weight) → List (ClusterEdge Weight)
  sort_edges edges = sort_by cluster_edge_cmp edges

  -- prepare_cluster_edges without `use_lcc`.
  unfoldable pub prepare_all_edges : List (ClusterRelationship Weight) → List (Text × Text × Weight)
  prepare_all_edges relationships =
      map (λ e. (e.source, e.target, e.weight)) (sort_edges (deduped_edges relationships))

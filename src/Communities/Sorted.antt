-- ===== src/Communities/Sorted.antt =====
-- The edges that prepare_cluster_edges of operations/communities.rs hands to the clustering when it is
-- not to choose a component.
use mathlib.Core.List.{Perm}
use graphloom.Base.{◌≡◌, refl, subst, List, map, text_cmp_eq, text_cmp_swap, text_cmp_refl, arith}
use graphloom.Base.Sorting.{
  sort_by, sort_by-perm, sort_by-IsSorted, IsSorted, IsOrder, text_cmp-IsOrder,
}
use graphloom.Communities.{
  ClusterRelationship, ClusterEdge, cluster_edge, deduped_edges, cluster_edge_cmp, sort_edges,
  prepare_all_edges,
}
use graphloom.Communities.Slots.{keep_last}
use graphloom.Communities.Dedupe.{deduped_edges-keep_last}

module _ {Weight : Type 0} where
  cluster_edge_cmp-IsOrder : IsOrder {A = ClusterEdge Weight} cluster_edge_cmp
  cluster_edge_cmp-IsOrder = record {
    le_total = λ a b h. ground (
      arith,
      text_cmp_swap a.source b.source,
      text_cmp_swap a.target b.target,
      text_cmp_eq a.source b.source,
      text_cmp_refl a.source,
    );
    le_trans = λ a b c h k. ground (
      arith,
      text_cmp_eq a.source b.source,
      text_cmp_eq b.source c.source,
      text_cmp_eq a.source c.source,
      text_cmp_swap a.source b.source,
      text_cmp_swap b.source c.source,
      text_cmp_swap b.source a.source,
      text_cmp_swap c.source b.source,
      text_cmp_swap a.source c.source,
      text_cmp_refl a.source,
      text_cmp-IsOrder.le_trans a.source b.source c.source,
      text_cmp-IsOrder.le_trans a.target b.target c.target,
      text_cmp-IsOrder.le_trans b.source c.source a.source,
      text_cmp-IsOrder.le_trans c.source a.source b.source,
    );
  }

  -- For all relationships: what is handed to the clustering are the edges of a list that is in order of
  -- source and target, and that has for each unordered pair of names, whatever its direction, just the
  -- last of its edges.
  pub prepare_all_edges-IsSorted :
      (relationships : List (ClusterRelationship Weight))
      → (edges : List (ClusterEdge Weight)) × (prepare_all_edges relationships
          ≡ map (λ e. (e.source, e.target, e.weight)) edges)
        × IsSorted cluster_edge_cmp edges
        × Perm edges (keep_last (map cluster_edge relationships))
  unfolding prepare_all_edges sort_edges
  prepare_all_edges-IsSorted relationships =
      let edges = deduped_edges relationships in
      (
        sort_by cluster_edge_cmp edges,
        refl,
        sort_by-IsSorted cluster_edge_cmp cluster_edge_cmp-IsOrder edges,
        subst (Perm (sort_by cluster_edge_cmp edges)) (deduped_edges-keep_last relationships)
            (sort_by-perm cluster_edge_cmp edges),
      )

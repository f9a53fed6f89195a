-- ===== src/Communities/Examples.antt =====
-- The edges of three relationships, two of which join the same names, and the theorem there.
use mathlib.Core.List.{Perm}
use graphloom.Base.{
  ℕ, ◌≡◌, refl, List, [], ◌∷◌, map, Text, codes, lookup, insert, text_beq, text_cmp,
}
use graphloom.Base.Sorting.{sort_by, insert_by, IsSorted}
use graphloom.Graph.Finalize.{sorted_pair}
use graphloom.Communities.{
  ClusterRelationship, ClusterEdge, cluster_edge, dedupe_step, dedupe_loop, deduped_edges,
  cluster_edge_cmp, sort_edges, prepare_all_edges,
}
use graphloom.Communities.Slots.{keep_last}
use graphloom.Communities.Sorted.{prepare_all_edges-IsSorted}

program : Unit {0}
unfolding dedupe_step dedupe_loop deduped_edges sort_edges prepare_all_edges sorted_pair sort_by
    insert_by lookup insert text_beq text_cmp
program = tt

abbrev relationship : Text → Text → ℕ → ClusterRelationship ℕ
relationship source target weight = record { source = source; target = target; weight = weight }

abbrev relationships : List (ClusterRelationship ℕ)
relationships =
    relationship (codes "BOB") (codes "ALICE") 1
    ∷ relationship (codes "CAROL") (codes "BOB") 5
    ∷ relationship (codes "ALICE") (codes "BOB") 2
    ∷ []

edges_prepared :
    prepare_all_edges relationships
    ≡ (codes "ALICE", codes "BOB", 2) ∷ (codes "BOB", codes "CAROL", 5) ∷ []
unfolding program
edges_prepared = refl

prepare_all_edges-IsSorted_example :
    (edges : List (ClusterEdge ℕ)) × (prepare_all_edges relationships
      ≡ map (λ e. (e.source, e.target, e.weight)) edges)
    × IsSorted cluster_edge_cmp edges
    × Perm edges (keep_last (map cluster_edge relationships))
prepare_all_edges-IsSorted_example = prepare_all_edges-IsSorted relationships

-- ===== src/Communities/Component/Examples.antt =====
-- Two components of edges, and the theorem at them.
use graphloom.Base.{
  ℕ, ◌≡◌, ◌≤◌, refl, subst, true, some, List, [], ◌∷◌, length, Text, text_eq, text_beq,
  text_beq_iff, text_cmp, codes, ◌==◌, lookup, insert, arith, Bool-cases, inl, inr,
}
use graphloom.Graph.Finalize.{sorted_pair}
use graphloom.Communities.{
  ClusterEdge, ClusterRelationship, dedupe_step, dedupe_loop, deduped_edges,
}
use graphloom.Communities.Component.{
  contains, tree_insert, put, add_neighbor, visit, explore, search_nodes, adjacency_of,
  largest_connected_component, by_pair, stable_lcc, prepare_cluster_edges,
}
use graphloom.Communities.Component.Frontier.{Reaches, start, onward}
use graphloom.Communities.Component.Largest.{IsWhole}
use graphloom.Communities.Component.Edges.{joins, largest_connected_component-IsLargest}

program : Unit {0}
unfolding dedupe_step dedupe_loop deduped_edges sorted_pair lookup insert text_beq text_cmp
    tree_insert put add_neighbor visit explore search_nodes adjacency_of largest_connected_component
    by_pair stable_lcc prepare_cluster_edges
program = tt

abbrev relationship : Text → Text → ℕ → ClusterRelationship ℕ
relationship source target weight = record { source = source; target = target; weight = weight }

abbrev edge : Text → Text → ℕ → ClusterEdge ℕ
edge source target weight = record { source = source; target = target; weight = weight }

abbrev relationships : List (ClusterRelationship ℕ)
relationships =
    relationship (codes "A") (codes "B") 1
    ∷ relationship (codes "D") (codes "C") 5
    ∷ relationship (codes "E") (codes "D") 2
    ∷ []

abbrev edges : List (ClusterEdge ℕ)
edges =
    edge (codes "A") (codes "B") 1
    ∷ edge (codes "C") (codes "D") 5
    ∷ edge (codes "D") (codes "E") 2
    ∷ []

edges_prepared :
    prepare_cluster_edges (λ name. name) relationships true
    ≡ some ((codes "C", codes "D", 5) ∷ (codes "D", codes "E", 2) ∷ [])
unfolding program
edges_prepared = refl

abbrev others : List Text
others = codes "C" ∷ codes "E" ∷ []

others_reached : (z : Text) → contains z others ≡ true → Reaches (joins edges) (codes "C") z
unfolding text_beq
others_reached z h = elim (Bool-cases (codes "C" == z)) [
  | inl here ↦ subst (Reaches (joins edges) (codes "C")) ((text_beq_iff (codes "C") z).0 here) start
  | inr other ↦
      let last : codes "E" ≡ z = (text_beq_iff (codes "E") z).0 (ground (arith, h, other)) in
      subst (Reaches (joins edges) (codes "C")) last
        (onward (onward {y = codes "C"} {z = codes "D"} start refl) refl)
]

largest_connected_component-IsLargest_example :
    (root : Text) × (nodes : List Text) × (largest_connected_component edges ≡ some nodes)
    × IsWhole (joins edges) root nodes
    × (2 ≤ length nodes)
unfolding text_beq
largest_connected_component-IsLargest_example =
    largest_connected_component-IsLargest edges (codes "C") (codes "D") others refl
      (refl, (refl, tt)) others_reached

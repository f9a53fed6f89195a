-- ===== src/Communities/Component.antt =====
-- operations/communities.rs: stable_lcc and largest_connected_component. A BTreeSet is the list of its
-- elements in their order, and a BTreeMap that of its entries. The while loop runs on fuel.
pub mod Trees
pub mod Visit
pub mod Frontier
pub mod Largest
pub mod Edges
mod Examples
use Prim.Native.Nat.{Ordering}
use graphloom.Base.{
  ℕ, zero, suc, Bool, true, false, ◌&&◌, Option, none, some, List, [], ◌∷◌, ◌++◌, map, length, Text,
  text_eq, text_cmp, ◌==◌, ltb, any, lookup, if◌then◌else◌, contains_key, pair_eq, filter,
}
use graphloom.Graph.Finalize.{sorted_pair}
use graphloom.Communities.{ClusterEdge, ClusterRelationship, deduped_edges, prepare_all_edges}

abbrev pub contains : Text → List Text → Bool
contains x xs = any (λ y. y == x) xs

abbrev place : Text → List Text → List Text
place x [] = x ∷ []
place x (y ∷ ys) = elim (text_cmp x y) [ Ordering.gt ↦ y ∷ place x ys | _ ↦ x ∷ y ∷ ys ]

-- `BTreeSet::insert`
unfoldable pub tree_insert : Text → List Text → List Text
tree_insert x xs = if contains x xs then xs else place x xs

-- `BTreeMap::insert`
unfoldable pub put {ℓ κ} :
    {K : Type ℓ} {V : Type κ} → (K → K → Ordering) → K → V → List (K × V) → List (K × V)
put cmp k v [] = (k, v) ∷ []
put cmp k v ((j, w) ∷ m) = elim (cmp k j) [
  | Ordering.lt ↦ (k, v) ∷ (j, w) ∷ m
  | Ordering.eq ↦ (k, v) ∷ m
  | Ordering.gt ↦ (j, w) ∷ put cmp k v m
]

abbrev pub Adjacency : Type 0
Adjacency = List (Text × List Text)

-- `adjacency.get(&node)`, with the missing entry read as no neighbours.
abbrev pub neighbors_of : Text → Adjacency → List Text
neighbors_of node adjacency = elim (lookup node adjacency) [
  | none ↦ []
  | some neighbors ↦ neighbors
]

-- `adjacency.entry(node).or_default().insert(neighbor)`
unfoldable pub add_neighbor : Text → Text → Adjacency → Adjacency
add_neighbor node neighbor adjacency =
    put text_cmp node (tree_insert neighbor (neighbors_of node adjacency)) adjacency

-- The loop over the neighbours of a node: the queue and the visited nodes.
unfoldable pub visit : List Text → List Text × List Text → List Text × List Text
visit [] s = s
visit (neighbor ∷ neighbors) (queue, visited) = visit neighbors (
    if contains neighbor visited
    then (queue, visited)
    else (queue ++ neighbor ∷ [], tree_insert neighbor visited))

-- The while loop: the component and the visited nodes, unless the fuel ends first.
unfoldable pub explore :
    ℕ → Adjacency → (queue visited component : List Text) → Option (List Text × List Text)
explore fuel adjacency [] visited component = some (component, visited)
explore zero adjacency (current ∷ queue) visited component = none
explore (suc fuel) adjacency (current ∷ queue) visited component =
    let (waiting, seen) = visit (neighbors_of current adjacency) (queue, visited) in
    explore fuel adjacency waiting seen (tree_insert current component)

-- The loop over the nodes.
unfoldable pub search_nodes :
    ℕ → Adjacency → (nodes visited largest : List Text) → Option (List Text)
search_nodes fuel adjacency [] visited largest = some largest
search_nodes fuel adjacency (node ∷ nodes) visited largest = elim (contains node visited) [
  | true ↦ search_nodes fuel adjacency nodes visited largest
  | false ↦ elim (explore fuel adjacency (node ∷ []) (tree_insert node visited) []) [
    | none ↦ none
    | some (component, seen) ↦
        search_nodes fuel adjacency nodes seen
          (if ltb (length largest) (length component) then component else largest)
  ]
]

abbrev pub keys_of : Adjacency → List Text
keys_of adjacency = map (λ e. e.0) adjacency

abbrev pair_cmp : Text × Text → Text × Text → Ordering
pair_cmp (source, target) (other, last) = elim (text_cmp source other) [
  | Ordering.eq ↦ text_cmp target last
  | order ↦ order
]

module _ {Weight : Type 0} where
  unfoldable pub adjacency_of : List (ClusterEdge Weight) → Adjacency → Adjacency
  adjacency_of [] adjacency = adjacency
  adjacency_of (edge ∷ edges) adjacency =
      adjacency_of edges
        (add_neighbor edge.target edge.source (add_neighbor edge.source edge.target adjacency))

  unfoldable pub largest_connected_component : List (ClusterEdge Weight) → Option (List Text)
  largest_connected_component edges =
      let adjacency = adjacency_of edges [] in
      search_nodes (suc (length (keys_of adjacency))) adjacency (keys_of adjacency) [] []

  abbrev normalized : (Text → Text) → ClusterEdge Weight → ClusterEdge Weight
  normalized normalize_node_name edge = record edge {
    source = normalize_node_name edge.source;
    target = normalize_node_name edge.target;
  }

  abbrev within : List Text → ClusterEdge Weight → Bool
  within nodes edge = contains edge.source nodes && contains edge.target nodes

  -- `by_pair.entry((source, target)).or_insert(edge.weight)`, for each edge
  unfoldable pub by_pair :
      List (ClusterEdge Weight) → List ((Text × Text) × Weight) → List ((Text × Text) × Weight)
  by_pair [] weights = weights
  by_pair (edge ∷ edges) weights =
      let pair = sorted_pair edge.source edge.target in
      by_pair edges
        (if contains_key pair weights then weights else put pair_cmp pair edge.weight weights)

  abbrev pair_edge : (Text × Text) × Weight → ClusterEdge Weight
  pair_edge ((source, target), weight) = record {
    source = source;
    target = target;
    weight = weight;
  }

  -- `normalize_node_name` decodes HTML entities, trims and puts into upper case: a parameter.
  unfoldable pub stable_lcc :
      (Text → Text) → List (ClusterEdge Weight) → Option (List (ClusterEdge Weight))
  stable_lcc normalize_node_name [] = some []
  stable_lcc normalize_node_name (first ∷ rest) =
      let edges : List (ClusterEdge Weight) = map (normalized normalize_node_name) (first ∷ rest) in
      elim (largest_connected_component edges) [
        | none ↦ none
        | some nodes ↦ some (map pair_edge (by_pair (filter (within nodes) edges) []))
      ]

  unfoldable pub prepare_cluster_edges :
      (Text → Text)
      → List (ClusterRelationship Weight)
      → Bool
      → Option (List (Text × Text × Weight))
  prepare_cluster_edges normalize_node_name relationships use_lcc =
      if use_lcc
      then elim (stable_lcc normalize_node_name (deduped_edges relationships)) [
        | none ↦ none
        | some edges ↦ some (map (λ e. (e.source, e.target, e.weight)) edges)
      ]
      else some (prepare_all_edges relationships)

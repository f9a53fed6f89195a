-- ===== src/Communities/Component/Edges.antt =====
-- largest_connected_component in terms of the edges.
use graphloom.Base.{
  ◌≡◌, ◌≤◌, refl, sym, subst, Bool, true, ◌&&◌, ◌||◌, some, List, [], ◌∷◌, length, Text, text_eq,
  text_beq_iff, ◌==◌, any, arith, inl, inr, lookup, fun_ext,
}
use graphloom.Communities.{ClusterEdge}
use graphloom.Communities.Component.{
  contains, Adjacency, add_neighbor, adjacency_of, keys_of, largest_connected_component,
}
use graphloom.Communities.Component.Trees.{NoDup, neighbors_of-add_neighbor, neighbor-IsKey}
use graphloom.Communities.Component.Frontier.{Reaches, start, near, IsSymmetric}
use graphloom.Communities.Component.Largest.{IsWhole, search_nodes-IsSearched}

module _ {Weight : Type 0} where
  -- An edge between the two nodes.
  abbrev pub joins : List (ClusterEdge Weight) → Text → Text → Bool
  joins edges x y =
      any (λ e. ((e.source == x) && (e.target == y)) || ((e.target == x) && (e.source == y))) edges

  near-adjacency_of :
      (edges : List (ClusterEdge Weight)) (adjacency : Adjacency) (x y : Text)
      → near (adjacency_of edges adjacency) x y ≡ (joins edges x y || near adjacency x y)
  unfolding adjacency_of
  near-adjacency_of [] adjacency x y = refl
  near-adjacency_of (edge ∷ edges) adjacency x y =
      let once = add_neighbor edge.source edge.target adjacency in
      ground (
        arith,
        near-adjacency_of edges (add_neighbor edge.target edge.source once) x y,
        neighbors_of-add_neighbor x y edge.target edge.source once,
        neighbors_of-add_neighbor x y edge.source edge.target adjacency,
      )

  joins_swap : (edges : List (ClusterEdge Weight)) (x y : Text) → joins edges x y ≡ joins edges y x
  joins_swap [] x y = refl
  joins_swap (edge ∷ edges) x y = ground (arith, joins_swap edges x y)

  near-joins :
      (edges : List (ClusterEdge Weight)) (x y : Text)
      → near (adjacency_of edges []) x y ≡ joins edges x y
  unfolding lookup
  near-joins edges x y = ground (arith, near-adjacency_of edges [] x y)

  -- `others` are different nodes that can be reached by edges from an end of some edge. Then the
  -- search for the largest component ends, and what it returns are exactly the nodes that can be
  -- reached by edges from one root, each once, and they are no fewer than `others`.
  pub largest_connected_component-IsLargest :
      (edges : List (ClusterEdge Weight)) (x y : Text) (others : List Text)
      → joins edges x y ≡ true
      → NoDup others
      → ((z : Text) → contains z others ≡ true → Reaches (joins edges) x z)
      → (root : Text) × (nodes : List Text) × (largest_connected_component edges ≡ some nodes)
        × IsWhole (joins edges) root nodes
        × (length others ≤ length nodes)
  unfolding largest_connected_component
  largest_connected_component-IsLargest edges x y others edge distinct reach =
      let adjacency = adjacency_of edges [] in
      let same : near adjacency ≡ joins edges =
        fun_ext (λ a. fun_ext (λ b. near-joins edges a b)) in
      let both : IsSymmetric adjacency = λ a b e.
        ground (arith, e, near-joins edges a b, near-joins edges b a, joins_swap edges a b) in
      let (nodes, visited, done, s) =
        search_nodes-IsSearched adjacency both (keys_of adjacency) [] [] (record {
          closed = λ a b h e. cc;
          rest = λ a h. ground (arith, h);
          best = λ a l h. cc;
          whole = inl refl;
        }) in
      let known : contains x (keys_of adjacency) ≡ true =
        neighbor-IsKey x y adjacency (ground (arith, edge, near-joins edges x y)) in
      let at_x : contains x visited ≡ true = ground (arith, s.rest x known) in
      let size : length others ≤ length nodes =
        s.best x others at_x distinct (λ z h. subst (λ r. Reaches r x z) (sym same) (reach z h)) in
      let self : 1 ≤ length nodes =
        s.best x (x ∷ []) at_x (refl, tt)
          (λ z h. subst (Reaches (near adjacency) x) (ground (arith, h, text_beq_iff x z)) start) in
      elim s.whole [
        | inl empty ↦ absurd (ground (arith, self, empty))
        | inr (root, whole) ↦
            (root, nodes, done, subst (λ r. IsWhole r root nodes) same whole, size)
      ]

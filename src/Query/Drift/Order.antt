-- ===== src/Query/Drift/Order.antt =====
-- edges_in_graph_order of query/drift/state.rs: by source node, and by insertion for one node.
use graphloom.Base.{
  ℕ, suc, ◌<◌, ◌≤◌, ◌≡◌, refl, ◌∙◌, List, [], ◌∷◌, map, filter, ◌==◌, nat_eq, arith,
}
use graphloom.Base.Preds.{All}
use graphloom.Base.Sorting.{
  insert_by, sort_by, sort_by-IsSorted, IsSorted, IsOrder, All-sort_by, Le,
}
use graphloom.Query.Drift.{DriftEdge, DriftQueryState, enumerate, edge_cmp, edges_in_graph_order}

module _ {Score : Type 0} where
  abbrev pub from : ℕ → List (DriftEdge Score) → List (DriftEdge Score)
  from source = filter (λ e. e.source == source)

  abbrev After : ℕ → ℕ × DriftEdge Score → Type 0
  After n e = n < e.0

  All-enumerate : (m n : ℕ) (es : List (DriftEdge Score)) → m < n → All (After m) (enumerate n es)
  All-enumerate m n [] h = tt
  All-enumerate m n (e ∷ es) h = (h, All-enumerate m (suc n) es (omega arith))

  -- The edges of one source after the insertion of an edge that came before all the others.
  insert_by-from :
      (source n : ℕ) (e : DriftEdge Score) (es : List (ℕ × DriftEdge Score))
      → All (After n) es
      → from source (map (λ p. p.1) (insert_by edge_cmp (n, e) es))
        ≡ from source (e ∷ map (λ p. p.1) es)
  unfolding insert_by
  insert_by-from source n e [] h = refl
  insert_by-from source n e (x ∷ xs) h = ground (arith, insert_by-from source n e xs h.1)

  sort_by-from :
      (source n : ℕ) (es : List (DriftEdge Score))
      → from source (map (λ p. p.1) (sort_by edge_cmp (enumerate n es))) ≡ from source es
  unfolding sort_by
  sort_by-from source n [] = refl
  sort_by-from source n (e ∷ es) =
      insert_by-from source n e (sort_by edge_cmp (enumerate (suc n) es)) (
        All-sort_by edge_cmp (After n) (enumerate (suc n) es)
          (All-enumerate n (suc n) es (omega arith)))
      ∙ ground (arith, sort_by-from source (suc n) es)

  edge_cmp-IsOrder : IsOrder {A = ℕ × DriftEdge Score} edge_cmp
  edge_cmp-IsOrder = record {
    le_total = λ a b h. ground arith;
    le_trans = λ a b c h k. ground arith;
  }

  -- Sources do not decrease along a list.
  abbrev pub IsAscending : List (DriftEdge Score) → Type 0
  IsAscending [] = Unit
  IsAscending (e ∷ es) = All (λ d. e.source ≤ d.source) es × IsAscending es

  All-Le-source :
      (p : ℕ × DriftEdge Score) (ps : List (ℕ × DriftEdge Score))
      → All (Le edge_cmp p) ps
      → All (λ d. p.1.source ≤ d.source) (map (λ q. q.1) ps)
  All-Le-source p [] h = tt
  All-Le-source p (q ∷ qs) h = ((let l = h.0 in ground arith), All-Le-source p qs h.1)

  IsSorted-source :
      (ps : List (ℕ × DriftEdge Score)) → IsSorted edge_cmp ps → IsAscending (map (λ q. q.1) ps)
  IsSorted-source [] h = tt
  IsSorted-source (p ∷ ps) h = (All-Le-source p ps h.0, IsSorted-source ps h.1)

-- For any state and any node `source`: the edges come in an order in which the source nodes do not
-- decrease, and those from `source` are the edges from it that were added, in the order of their
-- addition.
pub edges_in_graph_order-IsAscending :
    {Score Metadata : Type 0} (s : DriftQueryState Score Metadata) (source : ℕ)
    → IsAscending (edges_in_graph_order s)
      × (from source (edges_in_graph_order s) ≡ from source s.edges)
unfolding edges_in_graph_order
edges_in_graph_order-IsAscending s source = (
  IsSorted-source (sort_by edge_cmp (enumerate 0 s.edges))
      (sort_by-IsSorted edge_cmp edge_cmp-IsOrder (enumerate 0 s.edges)),
  sort_by-from source 0 s.edges,
)

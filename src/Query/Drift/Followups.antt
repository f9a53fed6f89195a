-- ===== src/Query/Drift/Followups.antt =====
-- add_root and apply of query/drift/state.rs: the node that is answered and the edges to its
-- follow-up queries.
use graphloom.Base.{
  ℕ, ◌<◌, ◌≡◌, refl, ap, sym, ◌∙◌, some, List, [], ◌∷◌, ◌++◌, map, Text, length, get_elem?, arith,
  get_elem?-lt, Option-cases, inl, inr, append-nil, append_assoc,
}
use graphloom.Base.Preds.{All-append}
use graphloom.Query.Drift.{DriftEdge, DriftQueryState, add_or_get, add_followups, query_of}
use graphloom.Query.Drift.Identity.{
  IsWellFormed, IsInside, Extends, Extends-refl, Extends-trans, Extends-length, Extends-get_elem?,
  add_or_get-IsAdded,
}

module _ {Score Metadata : Type 0} where
  query_of-Extends :
      (i : ℕ) (query : Text) (s t : DriftQueryState Score Metadata)
      → Extends s t
      → query_of i s ≡ some query
      → query_of i t ≡ some query
  unfolding query_of
  query_of-Extends i query s t h k = elim (Option-cases (get_elem? s.nodes i)) [
    | inl e ↦ ground arith
    | inr (a, e) ↦
        (let inside = get_elem?-lt s.nodes i e in ground (arith, Extends-get_elem? s t i h inside))
  ]

  query_of-lt :
      (i : ℕ) (query : Text) (s : DriftQueryState Score Metadata)
      → query_of i s ≡ some query
      → i < length s.nodes
  unfolding query_of
  query_of-lt i query s h = elim (Option-cases (get_elem? s.nodes i)) [
    | inl e ↦ ground arith
    | inr (a, e) ↦ get_elem?-lt s.nodes i e
  ]

  module _ (neg_infinity : Score) (no_metadata : Metadata) (one : Score) where
    abbrev pub edges_to : ℕ → List ℕ → List (DriftEdge Score)
    edges_to source targets =
        map (λ i. record { source = source; target = i; weight = one }) targets

    -- What the loop over the follow-up queries `rest` of the action `source` does: it appends one edge
    -- for each, in their order, to the node of that query.
    pub record IsFollowed (source : ℕ) (rest : List Text) (s t : DriftQueryState Score Metadata)
        : Type 0 where
      pub well_formed : IsWellFormed t
      pub extends : Extends s t
      pub targets : List ℕ
      pub edges : t.edges ≡ s.edges ++ edges_to source targets
      pub queries : map (λ i. query_of i t) targets ≡ map some rest

    abbrev with_edge : ℕ → ℕ → DriftQueryState Score Metadata → DriftQueryState Score Metadata
    with_edge source target t = record t {
      edges = t.edges ++ record { source = source; target = target; weight = one } ∷ [];
    }

    with_edge-query_of :
        (source target i : ℕ) (t : DriftQueryState Score Metadata)
        → query_of i (with_edge source target t) ≡ query_of i t
    unfolding query_of
    with_edge-query_of source target i t = refl

    with_edge-IsWellFormed :
        (source target : ℕ) (t : DriftQueryState Score Metadata)
        → IsWellFormed t
        → source < length t.nodes
        → target < length t.nodes
        → IsWellFormed (with_edge source target t)
    with_edge-IsWellFormed source target t h k l = record {
      indexed = h.indexed;
      numbered = h.numbered;
      unique = h.unique;
      inside =
          All-append (IsInside (length t.nodes)) t.edges
            (record { source = source; target = target; weight = one } ∷ []) h.inside ((k, l), tt);
    }

    pub add_followups-IsFollowed :
        (source : ℕ) (rest : List Text) (s : DriftQueryState Score Metadata)
        → IsWellFormed s
        → source < length s.nodes
        → IsFollowed source rest s (add_followups neg_infinity no_metadata one source rest s)
    unfolding add_followups
    add_followups-IsFollowed source [] s h l = record {
      well_formed = h;
      extends = Extends-refl s;
      targets = [];
      edges = sym (append-nil s.edges);
      queries = refl;
    }
    add_followups-IsFollowed source (followup ∷ rest) s h l =
        let (target, t) = add_or_get neg_infinity no_metadata followup s in
        let added = add_or_get-IsAdded neg_infinity no_metadata followup s h in
        let inside = query_of-lt target followup t added.found in
        let longer = Extends-length s t added.extends in
        let u = with_edge source target t in
        let later =
          add_followups-IsFollowed source rest u
            (with_edge-IsWellFormed source target t added.well_formed (omega arith) inside)
            (omega arith) in
        let from : Extends s u = record {
          added = added.extends.added;
          nodes_grown = added.extends.nodes_grown;
        } in
        let end = add_followups neg_infinity no_metadata one source rest u in
        let kept : query_of target end ≡ some followup =
          query_of-Extends target followup u end later.extends
            (with_edge-query_of source target target t ∙ added.found) in
        record {
          well_formed = later.well_formed;
          extends = Extends-trans s u end from later.extends;
          targets = target ∷ later.targets;
          edges =
              later.edges
              ∙ ap
                  (λ l.
                    (l ++ record { source = source; target = target; weight = one } ∷ [])
                    ++ edges_to source later.targets)
                  added.same_edges
              ∙ append_assoc s.edges
                  (record { source = source; target = target; weight = one } ∷ [])
                  (edges_to source later.targets);
          queries = cc;
        }

-- ===== src/Query/Drift/Identity.antt =====
-- The invariant of DriftQueryState in query/drift/state.rs, kept by its methods.
use graphloom.Base.{
  get_elem?-snoc, get_elem?-set, ℕ, zero, suc, ◌<◌, ◌≤◌, ◌≡◌, refl, ap, Option, none, some, List,
  [], ◌∷◌, ◌++◌, Text, length, lookup, insert, get_elem?, set, text_eq, arith, position,
  position_snoc, lookup-insert, length-append, length-set, get_elem?-append_lt,
  get_elem?-append_length, Option-cases, inl, inr, ◌⊎◌,
}
use graphloom.Base.Preds.{All}
use graphloom.Base.{sym, ◌∙◌, subst, position-get_elem?, append-nil, append_assoc}
use graphloom.Query.Drift.{
  query_of, DriftEdge, DriftAction, DriftQueryState, incomplete, add_or_get, empty,
}

module _ {Score : Type 0} where
  abbrev pub IsInside : ℕ → DriftEdge Score → Type 0
  IsInside n e = (e.source < n) × (e.target < n)

  pub All-IsInside_mono :
      (m n : ℕ) (es : List (DriftEdge Score)) → m ≤ n → All (IsInside m) es → All (IsInside n) es
  All-IsInside_mono m n [] h k = tt
  All-IsInside_mono m n (e ∷ es) h k = ((omega arith, omega arith), All-IsInside_mono m n es h k.1)

module _ {Score Metadata : Type 0} where
  abbrev pub query_position : Text → List (DriftAction Score Metadata) → Option ℕ
  query_position = position (λ a. a.query)

  -- The map has exactly the position of the one node of each query text, a node's id is its
  -- position, and edges join nodes that are there.
  pub record IsWellFormed (s : DriftQueryState Score Metadata) : Type 0 where
    pub indexed : (query : Text) → lookup query s.ids_by_query ≡ query_position query s.nodes
    pub numbered :
        (i : ℕ) (a : DriftAction Score Metadata) → get_elem? s.nodes i ≡ some a → a.id ≡ i
    pub unique :
        (i : ℕ) (a : DriftAction Score Metadata)
        → get_elem? s.nodes i ≡ some a
        → lookup a.query s.ids_by_query ≡ some i
    pub inside : All (IsInside (length s.nodes)) s.edges

  pub empty-IsWellFormed : IsWellFormed empty
  unfolding lookup
  empty-IsWellFormed = record {
    indexed = λ query. refl;
    numbered = λ i a h. ground arith;
    unique = λ i a h. ground arith;
    inside = tt;
  }

  position_set :
      (query : Text) (nodes : List (DriftAction Score Metadata)) (i : ℕ)
      (a b : DriftAction Score Metadata)
      → get_elem? nodes i ≡ some a
      → b.query ≡ a.query
      → query_position query (set nodes i b) ≡ query_position query nodes
  position_set query [] i a b h k = refl
  position_set query (n ∷ nodes) zero a b h k = ground arith
  position_set query (n ∷ nodes) (suc i) a b h k =
      ground (arith, position_set query nodes i a b h k)

  -- What has happened to the nodes between two states: some may be new, at the end.
  pub record Extends (s t : DriftQueryState Score Metadata) : Type 0 where
    pub added : List (DriftAction Score Metadata)
    pub nodes_grown : t.nodes ≡ s.nodes ++ added

  pub Extends-refl : (s : DriftQueryState Score Metadata) → Extends s s
  Extends-refl s = record { added = []; nodes_grown = sym (append-nil s.nodes) }

  pub Extends-trans :
      (s t u : DriftQueryState Score Metadata) → Extends s t → Extends t u → Extends s u
  Extends-trans s t u h k = record {
    added = h.added ++ k.added;
    nodes_grown =
        k.nodes_grown ∙ ap (λ l. l ++ k.added) h.nodes_grown ∙ append_assoc s.nodes h.added k.added;
  }

  pub Extends-length :
      (s t : DriftQueryState Score Metadata) → Extends s t → length s.nodes ≤ length t.nodes
  Extends-length s t h = ground (arith, ap length h.nodes_grown, length-append s.nodes h.added)

  pub Extends-get_elem? :
      (s t : DriftQueryState Score Metadata) (i : ℕ)
      → Extends s t
      → i < length s.nodes
      → get_elem? t.nodes i ≡ get_elem? s.nodes i
  Extends-get_elem? s t i h l =
      ap (λ nodes. get_elem? nodes i) h.nodes_grown ∙ get_elem?-append_lt s.nodes h.added i l

  -- A node gets another answer, score and metadata.
  pub set-IsWellFormed :
      (s : DriftQueryState Score Metadata) (i : ℕ) (a b : DriftAction Score Metadata)
      → IsWellFormed s
      → get_elem? s.nodes i ≡ some a
      → b.id ≡ a.id
      → b.query ≡ a.query
      → IsWellFormed (record s { nodes = set s.nodes i b })
  set-IsWellFormed s i a b h there id query = record {
    indexed = λ q. h.indexed q ∙ sym (position_set q s.nodes i a b there query);
    numbered = λ j c found. elim (get_elem?-set s.nodes i b j c found) [
      | inl (k, _) ↦ h.numbered j c k
      | inr (k, l) ↦ ap (λ x. x.id) (sym l) ∙ id ∙ h.numbered i a there ∙ sym k
    ];
    unique = λ j c found. elim (get_elem?-set s.nodes i b j c found) [
      | inl (k, _) ↦ h.unique j c k
      | inr (k, l) ↦
          ap (λ q. lookup q s.ids_by_query) (ap (λ x. x.query) (sym l) ∙ query)
          ∙ h.unique i a there
          ∙ ap some (sym k)
    ];
    inside = subst (λ n. All (IsInside n) s.edges) (sym (length-set s.nodes i b)) h.inside;
  }

  module _ (neg_infinity : Score) (no_metadata : Metadata) where
    abbrev added_node : Text → DriftQueryState Score Metadata → DriftQueryState Score Metadata
    added_node query s = record s {
      ids_by_query = insert query (length s.nodes) s.ids_by_query;
      nodes = s.nodes ++ incomplete neg_infinity no_metadata (length s.nodes) query ∷ [];
    }

    add_or_get-cases :
        (query : Text) (s : DriftQueryState Score Metadata)
        → ((id : ℕ) × (lookup query s.ids_by_query ≡ some id)
            × (add_or_get neg_infinity no_metadata query s ≡ (id, s)))
          ⊎ ((lookup query s.ids_by_query ≡ none)
              × (add_or_get neg_infinity no_metadata query s
                  ≡ (length s.nodes, added_node query s)))
    unfolding add_or_get
    add_or_get-cases query s = elim (Option-cases (lookup query s.ids_by_query)) [
      | inr (id, e) ↦ inl (id, e, rw (e, add_or_get) refl)
      | inl e ↦ inr (e, rw (e, add_or_get) refl)
    ]

    added_node-IsWellFormed :
        (query : Text) (s : DriftQueryState Score Metadata)
        → IsWellFormed s
        → lookup query s.ids_by_query ≡ none
        → IsWellFormed (added_node query s)
    added_node-IsWellFormed query s h e =
        let new = incomplete neg_infinity no_metadata (length s.nodes) query in
        let longer = length-append s.nodes (new ∷ []) in
        record {
          indexed = λ q. ground (
            arith,
            h.indexed q,
            h.indexed query,
            lookup-insert query q (length s.nodes) s.ids_by_query,
            position_snoc (λ a. a.query) q s.nodes new,
            text_eq.eq_test_iff query q,
          );
          numbered = λ i a found. elim (get_elem?-snoc s.nodes new i a found) [
            | inl k ↦ h.numbered i a k
            | inr (k, l) ↦ ap (λ x. x.id) (sym l) ∙ sym k
          ];
          unique = λ i a found. elim (get_elem?-snoc s.nodes new i a found) [
            | inl k ↦ ground (
              arith,
              h.unique i a k,
              lookup-insert query a.query (length s.nodes) s.ids_by_query,
              text_eq.eq_test_iff query a.query,
            )
            | inr (k, l) ↦
                ap (λ q. lookup q (insert query (length s.nodes) s.ids_by_query))
                  (ap (λ x. x.query) (sym l))
                ∙ ground (
                  arith,
                  lookup-insert query query (length s.nodes) s.ids_by_query,
                  text_eq.eq_test_iff query query,
                  k,
                )
          ];
          inside =
              All-IsInside_mono (length s.nodes) (length (s.nodes ++ new ∷ [])) s.edges
                (omega arith) h.inside;
        }

    -- What add_or_get gives: a state with a node for the query, at the place it returns.
    pub record IsAdded (query : Text) (s : DriftQueryState Score Metadata)
        (r : ℕ × DriftQueryState Score Metadata) : Type 0 where
      pub well_formed : IsWellFormed r.1
      pub extends : Extends s r.1
      pub found : query_of r.0 r.1 ≡ some query
      pub same_edges : r.1.edges ≡ s.edges

    pub add_or_get-IsAdded :
        (query : Text) (s : DriftQueryState Score Metadata)
        → IsWellFormed s
        → IsAdded query s (add_or_get neg_infinity no_metadata query s)
    unfolding query_of
    add_or_get-IsAdded query s h = elim (add_or_get-cases query s) [
      | inl (id, e, result) ↦
          (let (a, there, same) =
              position-get_elem? (λ a. a.query) query id s.nodes (sym (h.indexed query) ∙ e) in
            subst (IsAdded query s) (sym result) (record {
              well_formed = h;
              extends = Extends-refl s;
              found = ground arith;
              same_edges = refl;
            }))
      | inr (e, result) ↦
          (let new = incomplete neg_infinity no_metadata (length s.nodes) query in
            subst (IsAdded query s) (sym result) (record {
              well_formed = added_node-IsWellFormed query s h e;
              extends = record { added = new ∷ []; nodes_grown = refl };
              found = ground (arith, get_elem?-append_length s.nodes new);
              same_edges = refl;
            }))
    ]

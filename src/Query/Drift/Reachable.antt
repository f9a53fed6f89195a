-- ===== src/Query/Drift/Reachable.antt =====
-- The states that the methods of query/drift/state.rs lead to, and what apply does in them.
use graphloom.Base.{
  ℕ, ◌≡◌, refl, ap, subst, some, List, ◌++◌, map, Text, ok, get_elem?, set, arith, length-set,
  get_elem?-lt, Option-cases, inl, inr,
}
use graphloom.Query.Drift.{
  DriftAction, DriftActionResponse, DriftQueryState, add_or_get, add_root, apply, empty, query_of,
}
use graphloom.Query.Drift.Identity.{
  IsWellFormed, IsAdded, add_or_get-IsAdded, set-IsWellFormed, empty-IsWellFormed,
}
use graphloom.Query.Drift.Followups.{IsFollowed, add_followups-IsFollowed, edges_to}

module _ {Score Metadata : Type 0} where
  module _ (neg_infinity : Score) (no_metadata : Metadata) (one : Score) where
    -- A state that some sequence of calls of the methods leads to, from the default state.
    pub data Reachable : DriftQueryState Score Metadata → Type 0 where
      started : Reachable empty
      rooted :
          {s : DriftQueryState Score Metadata}
          → Reachable s
          → (query answer : Text) (score : Score) (followups : List Text)
          → Reachable (add_root neg_infinity no_metadata one query answer score followups s)
      applied :
          {s : DriftQueryState Score Metadata}
          → Reachable s
          → (id : ℕ) (response : DriftActionResponse Score) (metadata : Metadata)
          → Reachable (apply neg_infinity no_metadata one id response metadata s).1

    -- add_root and apply once the node they are for is known.
    add_root-IsFollowed :
        (query answer : Text) (score : Score) (followups : List Text)
        (s : DriftQueryState Score Metadata)
        → IsWellFormed s
        → (root : ℕ) × (t : DriftQueryState Score Metadata) × IsAdded neg_infinity no_metadata query
            s
            (root, t)
          × (action : DriftAction Score Metadata) × (get_elem? t.nodes root ≡ some action)
          × IsFollowed neg_infinity no_metadata one root followups
              (record t {
                nodes = set t.nodes root (record action { answer = some answer; score = score });
              })
              (add_root neg_infinity no_metadata one query answer score followups s)
    unfolding add_root query_of
    add_root-IsFollowed query answer score followups s h =
        let (root, t) = add_or_get neg_infinity no_metadata query s in
        let added = add_or_get-IsAdded neg_infinity no_metadata query s h in
        elim (Option-cases (get_elem? t.nodes root)) [
          | inl e ↦ (let found = added.found in ground arith)
          | inr (action, e) ↦
              (let b : DriftAction Score Metadata = record action {
                answer = some answer;
                score = score;
              } in
                let u : DriftQueryState Score Metadata = record t { nodes = set t.nodes root b } in
                let inside = get_elem?-lt t.nodes root e in
                let same = length-set t.nodes root b in
                let followed =
                  add_followups-IsFollowed neg_infinity no_metadata one root followups u
                    (set-IsWellFormed t root action b added.well_formed e refl refl)
                    (omega arith) in
                (
                  root,
                  t,
                  added,
                  action,
                  e,
                  subst (IsFollowed neg_infinity no_metadata one root followups u)
                      (rw (e, add_root) refl) followed,
                ))
        ]

    apply-IsFollowed :
        (id : ℕ) (response : DriftActionResponse Score) (metadata : Metadata)
        (s : DriftQueryState Score Metadata) (action : DriftAction Score Metadata)
        → IsWellFormed s
        → get_elem? s.nodes id ≡ some action
        → ((apply neg_infinity no_metadata one id response metadata s).0 ≡ ok tt)
          × IsFollowed neg_infinity no_metadata one id response.follow_up_queries
              (record s {
                nodes = set s.nodes id (record action {
                  answer = response.answer;
                  score = response.score;
                  metadata = metadata;
                });
              })
              (apply neg_infinity no_metadata one id response metadata s).1
    unfolding apply
    apply-IsFollowed id response metadata s action h e =
        let b : DriftAction Score Metadata = record action {
          answer = response.answer;
          score = response.score;
          metadata = metadata;
        } in
        let u : DriftQueryState Score Metadata = record s { nodes = set s.nodes id b } in
        let inside = get_elem?-lt s.nodes id e in
        let same = length-set s.nodes id b in
        let followed =
          add_followups-IsFollowed neg_infinity no_metadata one id response.follow_up_queries u
            (set-IsWellFormed s id action b h e refl refl) (omega arith) in
        (
          rw (e, apply) refl,
          subst (IsFollowed neg_infinity no_metadata one id response.follow_up_queries u)
              (rw (e, apply) refl) followed,
        )

    -- In every state that calls of add_root and apply, in any order and with any arguments, lead to
    -- from the default state: the map has exactly the position of the one node of each query text, no
    -- text has two nodes, the id of a node is its position, and every edge joins two nodes that are
    -- there.
    pub Reachable-IsWellFormed : (s : DriftQueryState Score Metadata) → Reachable s → IsWellFormed s
    unfolding apply
    Reachable-IsWellFormed _ started = empty-IsWellFormed
    Reachable-IsWellFormed _ (rooted {s} r query answer score followups) =
        let (root, t, added, action, e, followed) =
          add_root-IsFollowed query answer score followups s (Reachable-IsWellFormed s r) in
        followed.well_formed
    Reachable-IsWellFormed _ (applied {s} r id response metadata) =
        elim (Option-cases (get_elem? s.nodes id)) [
          | inl e ↦ subst IsWellFormed (rw (e, apply) refl) (Reachable-IsWellFormed s r)
          | inr (action, e) ↦
              ((apply-IsFollowed id response metadata s action (Reachable-IsWellFormed s r) e).1
              ).well_formed
        ]

    -- In a reachable state, for an action that is there: apply succeeds; it sets the answer, score and
    -- metadata of this action only, and appends nodes; and it appends one edge from it for each
    -- follow-up query of the response, in their order, to the node with that query.
    pub apply-followups :
        (s : DriftQueryState Score Metadata) (action : DriftAction Score Metadata) (id : ℕ)
        (response : DriftActionResponse Score) (metadata : Metadata)
        → Reachable s
        → get_elem? s.nodes id ≡ some action
        → (t : DriftQueryState Score Metadata) × (added : List (DriftAction Score Metadata))
          × (targets : List ℕ) × (apply neg_infinity no_metadata one id response metadata s
              ≡ (ok tt, t))
          × (t.nodes
              ≡ set s.nodes id (record action {
                answer = response.answer;
                score = response.score;
                metadata = metadata;
              })
                ++ added)
          × (t.edges
              ≡ s.edges ++ edges_to {Metadata = Metadata} neg_infinity no_metadata one id targets)
          × (map (λ i. query_of i t) targets ≡ map some response.follow_up_queries)
    apply-followups s action id response metadata r e =
        let (done, followed) =
          apply-IsFollowed id response metadata s action (Reachable-IsWellFormed s r) e in
        let t = (apply neg_infinity no_metadata one id response metadata s).1 in
        (
          t,
          followed.extends.added,
          followed.targets,
          ap (λ r. (r, t)) done,
          followed.extends.nodes_grown,
          followed.edges,
          followed.queries,
        )

-- ===== src/Query/Drift.antt =====
-- query/drift/state.rs and action.rs: the graph of DRIFT actions, with one node for each query text.
-- A score or a weight is an `f64`, of which the code only uses two constants here, so that its type,
-- and that of the metadata of an action, are parameters.
pub mod Identity
pub mod Followups
pub mod Reachable
pub mod Order
mod Examples
use Prim.Native.Nat.{Ordering, compare}
use graphloom.Base.{
  ℕ, zero, suc, Bool, true, false, not, Option, none, some, List, [], ◌∷◌, ◌++◌, map, Text, Result,
  ok, err, length, lookup, insert, get_elem?, set, filter, if◌then◌else◌, text_eq,
}
use graphloom.Base.Sorting.{sort_by}

pub record DriftEdge (Score : Type 0) : Type 0 where
  pub source : ℕ
  pub target : ℕ
  pub weight : Score

pub record DriftActionResponse (Score : Type 0) : Type 0 where
  pub answer : Option Text
  pub score : Score
  pub follow_up_queries : List Text

pub record DriftAction (Score Metadata : Type 0) : Type 0 where
  pub id : ℕ
  pub query : Text
  pub answer : Option Text
  pub score : Score
  pub metadata : Metadata

pub record DriftQueryState (Score Metadata : Type 0) : Type 0 where
  pub nodes : List (DriftAction Score Metadata)
  pub ids_by_query : List (Text × ℕ)
  pub edges : List (DriftEdge Score)

-- `QueryError::QueryContext`: the action that apply was called for is absent.
pub data DriftError : Type 0 where
  absent_action : ℕ → DriftError

-- `DriftActionResponse::fallback`
abbrev pub fallback : {Score : Type 0} → Score → DriftActionResponse Score
fallback neg_infinity = record { answer = none; score = neg_infinity; follow_up_queries = [] }

-- `f64::NEG_INFINITY`, `DriftActionMetadata::default()` and `1.0`
module _ {Score Metadata : Type 0} (neg_infinity : Score) (no_metadata : Metadata) where
  abbrev pub incomplete : ℕ → Text → DriftAction Score Metadata
  incomplete id query = record {
    id = id;
    query = query;
    answer = none;
    score = neg_infinity;
    metadata = no_metadata;
  }

  unfoldable pub add_or_get :
      Text → DriftQueryState Score Metadata → ℕ × DriftQueryState Score Metadata
  add_or_get query s = elim (lookup query s.ids_by_query) [
    | some id ↦ (id, s)
    | none ↦ (
      length s.nodes,
      record s {
        ids_by_query = insert query (length s.nodes) s.ids_by_query;
        nodes = s.nodes ++ incomplete (length s.nodes) query ∷ [];
      },
    )
  ]

  module _ (one : Score) where
    -- The loop over the follow-up queries of the action `source`, in add_root and in apply.
    unfoldable pub add_followups :
        ℕ → List Text → DriftQueryState Score Metadata → DriftQueryState Score Metadata
    add_followups source [] s = s
    add_followups source (followup ∷ rest) s =
        let (target, t) = add_or_get followup s in
        add_followups source rest (record t {
          edges = t.edges ++ record { source = source; target = target; weight = one } ∷ [];
        })

    unfoldable pub add_root :
        (query answer : Text)
        → Score
        → (followups : List Text) → DriftQueryState Score Metadata
        → DriftQueryState Score Metadata
    add_root query answer score followups s =
        let (root, t) = add_or_get query s in
        let answered : DriftQueryState Score Metadata = elim (get_elem? t.nodes root) [
          | none ↦ t
          | some action ↦ record t {
            nodes = set t.nodes root (record action { answer = some answer; score = score });
          }
        ] in
        add_followups root followups answered

    unfoldable pub apply :
        ℕ
        → DriftActionResponse Score
        → Metadata
        → DriftQueryState Score Metadata
        → Result DriftError (Unit {0}) × DriftQueryState Score Metadata
    apply id response metadata s = elim (get_elem? s.nodes id) [
      | none ↦ (err (absent_action id), s)
      | some action ↦ (
        ok tt,
        add_followups id response.follow_up_queries (record s {
          nodes = set s.nodes id (record action {
            answer = response.answer;
            score = response.score;
            metadata = metadata;
          });
        }),
      )
    ]

-- `filter_map(|action| action.answer.as_deref()).filter(|answer| !answer.is_empty())`
abbrev pub kept_answer : Option Text → List Text → List Text
kept_answer none rest = rest
kept_answer (some []) rest = rest
kept_answer (some (c ∷ cs)) rest = (c ∷ cs) ∷ rest

module _ {Score Metadata : Type 0} where
  abbrev pub empty : DriftQueryState Score Metadata
  empty = record { nodes = []; ids_by_query = []; edges = [] }

  abbrev pub is_incomplete : DriftAction Score Metadata → Bool
  is_incomplete action = elim action.answer [ none ↦ true | some _ ↦ false ]

  unfoldable pub incomplete_ids : DriftQueryState Score Metadata → List ℕ
  incomplete_ids s = map (λ a. a.id) (filter is_incomplete s.nodes)

  unfoldable pub query_of : ℕ → DriftQueryState Score Metadata → Option Text
  query_of id s = elim (get_elem? s.nodes id) [ none ↦ none | some action ↦ some action.query ]

  abbrev pub answers : List (DriftAction Score Metadata) → List Text
  answers [] = []
  answers (action ∷ actions) = kept_answer action.answer (answers actions)

  unfoldable pub reduce_answers : DriftQueryState Score Metadata → List Text
  reduce_answers s = answers s.nodes

-- `iter().enumerate()`, from position `n` on.
abbrev pub enumerate {ℓ} : {A : Type ℓ} → ℕ → List A → List (ℕ × A)
enumerate n [] = []
enumerate n (x ∷ xs) = (n, x) ∷ enumerate (suc n) xs

-- The order of the keys `(edge.source, *position)`.
abbrev pub edge_cmp : {Score : Type 0} → ℕ × DriftEdge Score → ℕ × DriftEdge Score → Ordering
edge_cmp a b = elim (compare a.1.source b.1.source) [
  | Ordering.lt ↦ Ordering.lt
  | Ordering.gt ↦ Ordering.gt
  | Ordering.eq ↦ compare a.0 b.0
]

unfoldable pub edges_in_graph_order :
    {Score Metadata : Type 0} → DriftQueryState Score Metadata → List (DriftEdge Score)
edges_in_graph_order s = map (λ e. e.1) (sort_by edge_cmp (enumerate 0 s.edges))

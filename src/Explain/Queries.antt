-- ===== src/Explain/Queries.antt =====
-- explainability/store.rs: errors, completions, queries, limits, and the order of the run history.
use Prim.Native.String.{String}
use Prim.Native.Nat.{compare, Ordering}
use graphloom.Base.{
  ℕ, Bool, true, false, ◌&&◌, ◌||◌, not, Option, none, some, List, ◌==◌, leb, ltb, Result, ok, ◌>>◌,
  guard, take, text_cmp, text_eq, nat_eq,
}
use graphloom.Base.Sorting.{sort_by}
use graphloom.Explain.Types.{
  ExplainabilityRunKind, ExplainabilityRunStatus, ExplainabilityQueryMethod, ExplainabilityRunId,
  ExplainabilityRun, completed, failed, cancelled, kind_eq, status_eq, method_eq,
}

abbrev pub max_run_query_limit : ℕ
max_run_query_limit = 200

abbrev pub max_event_query_limit : ℕ
max_event_query_limit = 1000

pub data StoreError : Type 0 where
  run_already_exists : ExplainabilityRunId → StoreError
  run_not_found : ExplainabilityRunId → StoreError
  invalid_run_metadata : ExplainabilityRunId → (reason : String) → StoreError
  invalid_run_state : ExplainabilityRunId → ExplainabilityRunStatus → StoreError
  run_already_terminal : ExplainabilityRunId → StoreError
  mixed_run_batch : (first second : ExplainabilityRunId) → StoreError
  sequence_conflict : ExplainabilityRunId → (expected actual : ℕ) → StoreError
  sequence_overflow : ExplainabilityRunId → StoreError
  invalid_completion_status : ExplainabilityRunStatus → StoreError
  invalid_completion_time : ExplainabilityRunId → (completed_at started_at : ℕ) → StoreError
  completion_conflict : ExplainabilityRunId → StoreError
  invalid_limit : String → (limit min max : ℕ) → StoreError

unfoldable pub is_terminal : ExplainabilityRunStatus → Bool
is_terminal completed = true
is_terminal failed = true
is_terminal cancelled = true
is_terminal _ = false

unfoldable pub is_some {ℓ} : {A : Type ℓ} → Option A → Bool
is_some none = false
is_some (some _) = true

pub record RunCompletion : Type 0 where
  pub run_id : ExplainabilityRunId
  pub status : ExplainabilityRunStatus
  pub completed_at : ℕ

-- `RunCompletion::new`
unfoldable pub run_completion_new :
    ExplainabilityRunId → ExplainabilityRunStatus → ℕ → Result StoreError RunCompletion
run_completion_new run_id status completed_at = do
  guard (is_terminal status) (invalid_completion_status status)
  ok (record { run_id = run_id; status = status; completed_at = completed_at })

pub record RunListCursor : Type 0 where
  pub started_at : ℕ
  pub run_id : ExplainabilityRunId

pub record RunQuery : Type 0 where
  pub kind : Option ExplainabilityRunKind
  pub status : Option ExplainabilityRunStatus
  pub query_method : Option ExplainabilityQueryMethod
  pub before : Option RunListCursor
  pub limit : ℕ

pub record EventQuery : Type 0 where
  pub after_sequence : Option ℕ
  pub limit : ℕ

unfoldable pub validate_limit : (limit min max : ℕ) → String → Result StoreError (Unit {0})
validate_limit limit min max kind =
    guard (leb min limit && leb limit max) (invalid_limit kind limit min max)

-- `RunQuery::with_limit` and `EventQuery::with_limit`
unfoldable pub run_query_with_limit : RunQuery → ℕ → Result StoreError RunQuery
run_query_with_limit q limit = do
  validate_limit limit 1 max_run_query_limit "run history"
  ok (record q { limit = limit })

unfoldable pub event_query_with_limit : EventQuery → ℕ → Result StoreError EventQuery
event_query_with_limit q limit = do
  validate_limit limit 1 max_event_query_limit "event replay"
  ok (record q { limit = limit })

unfoldable pub validate_create_run : ExplainabilityRun → Result StoreError (Unit {0})
unfolding is_some
validate_create_run run = do
  guard (run.event_count == 0) (invalid_run_metadata run.run_id "initial event_count must be 0")
  guard (not (is_some run.completed_at))
      (invalid_run_metadata run.run_id "a new run cannot already be completed")
  guard (not (is_terminal run.status)) (invalid_run_state run.run_id run.status)
  guard (run.kind == ExplainabilityRunKind.query || not (is_some run.query_method))
      (invalid_run_metadata run.run_id "query_method is only valid for query runs")

unfoldable pub is_strictly_older_than : ExplainabilityRun → RunListCursor → Bool
is_strictly_older_than run cursor =
    ltb run.started_at cursor.started_at
    || (run.started_at == cursor.started_at
        && elim (text_cmp run.run_id cursor.run_id) [ Ordering.lt ↦ true | _ ↦ false ])

-- `Option::is_none_or`
abbrev pub is_none_or {ℓ} : {A : Type ℓ} → Option A → (A → Bool) → Bool
is_none_or none p = true
is_none_or (some a) p = p a

unfoldable pub matches_query : RunQuery → ExplainabilityRun → Bool
matches_query q run =
    is_none_or q.kind (λ kind. run.kind == kind)
    && is_none_or q.status (λ status. run.status == status)
    && is_none_or q.query_method
        (λ method. elim run.query_method [ none ↦ false | some m ↦ m == method ])
    && is_none_or q.before (λ cursor. is_strictly_older_than run cursor)

-- `right.started_at.cmp(&left.started_at).then_with(|| right.run_id.cmp(left.run_id))`
unfoldable pub history_cmp : ExplainabilityRun → ExplainabilityRun → Ordering
history_cmp left right = elim (compare right.started_at left.started_at) [
  | Ordering.eq ↦ text_cmp right.run_id left.run_id
  | other ↦ other
]

unfoldable pub order_and_limit_runs : List ExplainabilityRun → ℕ → List ExplainabilityRun
order_and_limit_runs runs limit = take limit (sort_by history_cmp runs)

-- `run.completed_at == Some(t)`
abbrev pub same_time : Option ℕ → ℕ → Bool
same_time none t = false
same_time (some u) t = u == t

-- ===== src/Explain/Store.antt =====
-- explainability/store.rs: `InMemoryExplainabilityStore`. Its write lock makes each operation one
-- step, so an operation takes the locked state and returns its result with the state that it leaves.
pub mod Invariant
pub mod Append
pub mod Atomic
pub mod Complete
pub mod Lifecycle
pub mod Reading
mod Examples
use graphloom.Base.{
  ℕ, Bool, true, false, ◌&&◌, ◌||◌, not, Option, none, some, List, [], ◌∷◌, ◌++◌, ◌==◌, leb, ltb,
  if◌then◌else◌, Result, ok, err, ◌>>=◌, ◌>>◌, guard, lookup, insert, remove, contains_key, filter,
  find, take, checked_add, map, text_eq, nat_eq,
}
use graphloom.Explain.Types.{
  ExplainabilityRunId, ExplainabilityRun, ExplainabilityEnvelope, status_eq,
}
use graphloom.Explain.Queries.{
  max_run_query_limit, max_event_query_limit, StoreError, run_already_exists, run_not_found,
  run_already_terminal, mixed_run_batch, sequence_conflict, sequence_overflow,
  invalid_completion_status, invalid_completion_time, completion_conflict, is_terminal, is_some,
  RunCompletion, RunQuery, EventQuery, validate_limit, validate_create_run, matches_query,
  order_and_limit_runs, same_time,
}

pub record MemoryState (Event : Type 0) : Type 0 where
  pub runs : List (ExplainabilityRunId × ExplainabilityRun)
  pub events : List (ExplainabilityRunId × List (ExplainabilityEnvelope Event))

module _ {Event : Type 0} where
  -- `state.events.get(id)`, with the missing entry read as no envelopes.
  abbrev pub log_of : ExplainabilityRunId → MemoryState Event → List (ExplainabilityEnvelope Event)
  log_of id s = elim (lookup id s.events) [ none ↦ [] | some log ↦ log ]

  unfoldable pub create_run :
      ExplainabilityRun → MemoryState Event → Result StoreError (Unit {0}) × MemoryState Event
  create_run run s = elim (validate_create_run run) [
    | err e ↦ (err e, s)
    | ok _ ↦
        if contains_key run.run_id s.runs
        then (err (run_already_exists run.run_id), s)
        else (ok tt, record s { runs = insert run.run_id run s.runs })
  ]

  -- The loop over the batch: the next sequence and the envelopes to store.
  unfoldable pub append_loop :
      ExplainabilityRunId
      → List (ExplainabilityEnvelope Event)
      → ℕ
      → List (ExplainabilityEnvelope Event)
      → Result StoreError (ℕ × List (ExplainabilityEnvelope Event))
  append_loop id [] next_sequence acc = ok (next_sequence, acc)
  append_loop id (e ∷ es) next_sequence acc = elim (checked_add next_sequence 1) [
    | none ↦ err (sequence_overflow id)
    | some expected ↦ elim (e.sequence == expected) [
      | true ↦ append_loop id es expected (acc ++ e ∷ [])
      | false ↦ err (sequence_conflict id expected e.sequence)
    ]
  ]

  abbrev pub other_run : ExplainabilityRunId → ExplainabilityEnvelope Event → Bool
  other_run id e = not (e.record_part.run_id == id)

  unfoldable pub append_events :
      List (ExplainabilityEnvelope Event)
      → MemoryState Event
      → Result StoreError (Unit {0}) × MemoryState Event
  append_events [] s = (ok tt, s)
  append_events (first ∷ rest) s =
      let id = first.record_part.run_id in
      elim (find (other_run id) (first ∷ rest)) [
        | some mixed ↦ (err (mixed_run_batch id mixed.record_part.run_id), s)
        | none ↦ elim (lookup id s.runs) [
          | none ↦ (err (run_not_found id), s)
          | some run ↦
              if is_terminal run.status
              then (err (run_already_terminal id), s)
              else elim (append_loop id (first ∷ rest) run.event_count []) [
                | err e ↦ (err e, s)
                | ok (next_sequence, acc) ↦ (
                  ok tt,
                  record s {
                    runs = insert id (record run { event_count = next_sequence }) s.runs;
                    events = insert id (log_of id s ++ acc) s.events;
                  },
                )
              ]
        ]
      ]

  unfoldable pub complete_run :
      RunCompletion → MemoryState Event → Result StoreError (Unit {0}) × MemoryState Event
  unfolding is_some
  complete_run c s =
      if is_terminal c.status
      then elim (lookup c.run_id s.runs) [
        | none ↦ (err (run_not_found c.run_id), s)
        | some run ↦
            if ltb c.completed_at run.started_at
            then (err (invalid_completion_time run.run_id c.completed_at run.started_at), s)
            else if is_some run.completed_at || is_terminal run.status
            then (if run.status == c.status && same_time run.completed_at c.completed_at
                then (ok tt, s)
                else (err (completion_conflict run.run_id), s))
            else (
              ok tt,
              record s {
                runs =
                    insert c.run_id
                      (record run { status = c.status; completed_at = some c.completed_at }) s.runs;
              },
            )
      ]
      else (err (invalid_completion_status c.status), s)

  unfoldable pub get_run :
      ExplainabilityRunId → MemoryState Event → Result StoreError (Option ExplainabilityRun)
  get_run id s = ok (lookup id s.runs)

  unfoldable pub collect_matching_runs : RunQuery → MemoryState Event → List ExplainabilityRun
  collect_matching_runs q s = filter (matches_query q) (map (λ e. e.1) s.runs)

  unfoldable pub list_runs :
      RunQuery → MemoryState Event → Result StoreError (List ExplainabilityRun)
  list_runs q s = do
    validate_limit q.limit 1 max_run_query_limit "run history"
    ok (order_and_limit_runs (collect_matching_runs q s) q.limit)

  unfoldable pub load_events :
      ExplainabilityRunId
      → EventQuery
      → MemoryState Event
      → Result StoreError (List (ExplainabilityEnvelope Event))
  load_events id q s = do
    validate_limit q.limit 1 max_event_query_limit "event replay"
    guard (contains_key id s.runs) (run_not_found id)
    let after : ℕ = elim q.after_sequence [ none ↦ 0 | some k ↦ k ]
    ok (take q.limit (filter (λ e. ltb after e.sequence) (log_of id s)))

  unfoldable pub delete_run :
      ExplainabilityRunId → MemoryState Event → Result StoreError (Unit {0}) × MemoryState Event
  delete_run id s = (ok tt, record s { runs = remove id s.runs; events = remove id s.events })

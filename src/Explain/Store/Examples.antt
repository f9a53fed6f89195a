-- ===== src/Explain/Store/Examples.antt =====
-- Runs of the store on small inputs, and the theorems at them.
use graphloom.Base.{
  ℕ, ◌+◌, ◌≤◌, ◌≡◌, ◌↔◌, ◌⊎◌, refl, true, false, none, some, List, [], ◌∷◌, ◌++◌, ok, err, lookup,
  insert, remove, length, take, drop, find, text_beq, text_cmp, codes, arith, u64_max, Text,
  text_eq,
}
use graphloom.Base.Sorting.{sort_by}
use graphloom.Explain.Types.{
  ExplainabilityRun, ExplainabilityEnvelope, ExplainabilityRunStatus, ExplainabilityRunKind,
}
use graphloom.Explain.Queries.{
  StoreError, RunCompletion, RunQuery, EventQuery, is_terminal, is_some, validate_limit,
  validate_create_run, is_strictly_older_than, matches_query, history_cmp, order_and_limit_runs,
  sequence_conflict,
}
use graphloom.Explain.Store.{
  MemoryState, log_of, create_run, append_loop, append_events, complete_run, collect_matching_runs,
  list_runs, load_events, delete_run,
}
use graphloom.Explain.Store.Invariant.{IsLog, IsConsistent, empty_state}
use graphloom.Explain.Store.Atomic.{own, append_events_atomic, append_events-ok_iff}
use graphloom.Explain.Store.Complete.{complete_run_once}
use graphloom.Explain.Store.Lifecycle.{
  Op, create, append, complete, steps, step, steps-IsConsistent, step_frozen,
}
use graphloom.Explain.Store.Reading.{load_events_page}

abbrev id_a : Text
id_a = codes "run-a"

abbrev id_b : Text
id_b = codes "run-b"

abbrev run_of : Text → ℕ → ExplainabilityRun
run_of id start = record {
  run_id = id;
  kind = ExplainabilityRunKind.query;
  status = ExplainabilityRunStatus.running;
  query = none;
  query_method = none;
  started_at = start;
  completed_at = none;
  compatibility_profile = none;
  event_count = 0;
}

abbrev event : Text → ℕ → ExplainabilityEnvelope ℕ
event id n = record {
  schema_version = 1;
  sequence = n;
  record_part = record {
    run_id = id;
    timestamp = 10 + n;
    span_id = codes "span";
    parent_span_id = none;
    event = n;
  };
}

abbrev done : RunCompletion
done = record { run_id = id_b; status = ExplainabilityRunStatus.completed; completed_at = 9 }

abbrev calls : List (Op ℕ)
calls =
    create (run_of id_a 5)
    ∷ create (run_of id_b 7)
    ∷ append (event id_a 1 ∷ event id_a 2 ∷ [])
    ∷ append (event id_b 1 ∷ [])
    ∷ append (event id_a 4 ∷ [])
    ∷ complete done
    ∷ append (event id_b 2 ∷ [])
    ∷ []

abbrev sample : MemoryState ℕ
sample = steps calls empty_state

program : Unit {0}
unfolding create_run append_loop append_events complete_run collect_matching_runs list_runs
    load_events delete_run lookup insert remove find text_beq text_cmp is_terminal is_some
    validate_limit validate_create_run is_strictly_older_than matches_query history_cmp
    order_and_limit_runs sort_by
program = tt

abbrev run_a : ExplainabilityRun
run_a = record (run_of id_a 5) { event_count = 2 }

abbrev run_b : ExplainabilityRun
run_b = record (run_of id_b 7) {
  event_count = 1;
  status = ExplainabilityRunStatus.completed;
  completed_at = some 9;
}

run_a_stored : lookup id_a sample.runs ≡ some run_a
unfolding program
run_a_stored = refl

run_b_stored : lookup id_b sample.runs ≡ some run_b
unfolding program
run_b_stored = refl

gap_refused : (append_events (event id_a 4 ∷ []) sample).0 ≡ err (sequence_conflict id_a 3 4)
unfolding program
gap_refused = refl

steps-IsConsistent_example : IsConsistent sample
steps-IsConsistent_example = steps-IsConsistent calls

consistent : IsConsistent sample
consistent = steps-IsConsistent_example

append_events_atomic_example :
    ((e : StoreError) × (append_events (event id_a 3 ∷ []) sample ≡ (err e, sample)))
    ⊎ ((append_events (event id_a 3 ∷ []) sample).0 ≡ ok tt)
      × ((j : Text)
          → log_of j (append_events (event id_a 3 ∷ []) sample).1
            ≡ log_of j sample ++ own j (event id_a 3 ∷ []))
append_events_atomic_example = append_events_atomic (event id_a 3 ∷ []) sample consistent

append_events-ok_iff_example : ((append_events (event id_a 3 ∷ []) sample).0 ≡ ok tt) ↔ (
    (is_terminal run_a.status ≡ false)
    × IsLog id_a (length (log_of id_a sample)) (event id_a 3 ∷ [])
    × (length (log_of id_a sample) + 1 ≤ u64_max))
append_events-ok_iff_example =
    append_events-ok_iff (event id_a 3) [] run_a sample consistent run_a_stored

done_once : (complete_run done sample).0 ≡ ok tt
unfolding program
done_once = refl

done_terminal : is_terminal done.status ≡ true
unfolding program
done_terminal = refl

complete_run_once_example :
    ((complete_run done (complete_run done sample).1).1 ≡ (complete_run done sample).1)
    × (((complete_run done (complete_run done sample).1).0 ≡ ok tt)
        ↔ ((done.status ≡ done.status) × (done.completed_at ≡ done.completed_at)))
complete_run_once_example = complete_run_once done done sample done_once refl done_terminal

step_frozen_example :
    (lookup id_b (step (append (event id_b 2 ∷ [])) sample).runs ≡ some run_b)
    × (log_of id_b (step (append (event id_b 2 ∷ [])) sample) ≡ log_of id_b sample)
step_frozen_example =
    step_frozen id_b run_b (append (event id_b 2 ∷ [])) sample consistent run_b_stored done_terminal
      (λ d. d)

abbrev second_page : EventQuery
second_page = record { after_sequence = some 1; limit = 500 }

load_events_page_example :
    load_events id_a second_page sample ≡ ok (take 500 (drop 1 (log_of id_a sample)))
load_events_page_example =
    load_events_page id_a run_a second_page sample consistent run_a_stored (omega arith)
      (omega arith)

abbrev all_runs : RunQuery
all_runs = record { kind = none; status = none; query_method = none; before = none; limit = 1 }

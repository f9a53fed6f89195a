-- ===== src/Explain/Store/Complete.antt =====
-- `complete_run` and `delete_run`: a run ends once.
use graphloom.Base.{
  ℕ, ◌≤◌, ◌≡◌, refl, sym, true, false, some, ◌==◌, ◌||◌, ok, lookup, insert, lookup-insert,
  lookup-remove, ◌⊎◌, subst, arith, Bool-cases, inl, inr, text_eq, text_beq_iff, Option-cases, ◌↔◌,
}
use graphloom.Explain.Types.{ExplainabilityRunId, ExplainabilityRun, status_eq, status_beq_iff}
use graphloom.Explain.Queries.{is_terminal, is_some, RunCompletion}
use graphloom.Explain.Store.{MemoryState, log_of, complete_run, delete_run}
use graphloom.Explain.Store.Invariant.{IsConsistent, write_run}

-- The run that a first completion leaves.
abbrev pub finish : RunCompletion → ExplainabilityRun → ExplainabilityRun
finish c run = record run { status = c.status; completed_at = some c.completed_at }

module _ {Event : Type 0} where
  pub complete_run_cases :
      (c : RunCompletion) (s : MemoryState Event)
      → ((complete_run c s).1 ≡ s)
        ⊎ ((run : ExplainabilityRun) × (lookup c.run_id s.runs ≡ some run)
            × (is_terminal c.status ≡ true)
            × (is_terminal run.status ≡ false)
            × (run.started_at ≤ c.completed_at)
            × (complete_run c s
                ≡ (ok tt, record s { runs = insert c.run_id (finish c run) s.runs })))
  unfolding complete_run
  complete_run_cases c s = ground arith

  pub complete_run-IsConsistent :
      (c : RunCompletion) (s : MemoryState Event)
      → IsConsistent s
      → IsConsistent (complete_run c s).1
  unfolding is_some
  complete_run-IsConsistent c s h = elim (complete_run_cases c s) [
    | inl same ↦ rw same h
    | inr (run, found, ends, live, time, stored) ↦
        let r = h.runs_at c.run_id run found in
        rw stored (
          write_run c.run_id (finish c run) s h (record {
            same_id = r.same_id;
            counted = r.counted;
            bounded = r.bounded;
            contiguous = r.contiguous;
            closed = sym ends;
            ordered = λ t e. ground arith;
          }))
  ]

  pub delete_run-IsConsistent :
      (id : ExplainabilityRunId) (s : MemoryState Event)
      → IsConsistent s
      → IsConsistent (delete_run id s).1
  unfolding delete_run
  delete_run-IsConsistent id s h = record {
    runs_at = λ j run e. elim (Bool-cases (id == j)) [
      | inl same ↦ cc (lookup-remove id j s.runs, same, e)
      | inr other ↦
          rw (lookup-remove id j s.events, other, log_of)
            (h.runs_at j run (cc (lookup-remove id j s.runs, other, e)))
    ];
    no_orphan = λ j e.
        ground (arith, lookup-remove id j s.runs, lookup-remove id j s.events, h.no_orphan j);
  }

  complete_run-ok :
      (c : RunCompletion) (s : MemoryState Event)
      → (complete_run c s).0 ≡ ok tt
      → (run : ExplainabilityRun) × (lookup c.run_id (complete_run c s).1.runs ≡ some run)
        × (run.status ≡ c.status)
        × (run.completed_at ≡ some c.completed_at)
        × (run.started_at ≤ c.completed_at)
        × (is_terminal c.status ≡ true)
  unfolding complete_run is_some
  complete_run-ok c s h = elim (Option-cases (lookup c.run_id s.runs)) [
    | inl absent ↦ ground arith
    | inr (run, found) ↦ elim (Bool-cases (is_some run.completed_at || is_terminal run.status)) [
      | inl ended ↦ (
        run,
        ground arith,
        ground (arith, status_beq_iff run.status c.status),
        ground arith,
        ground arith,
        ground arith,
      )
      | inr open_run ↦ (
        finish c run,
        ground (
          arith,
          lookup-insert c.run_id c.run_id (finish c run) s.runs,
          text_beq_iff c.run_id c.run_id,
        ),
        refl,
        refl,
        ground arith,
        ground arith,
      )
    ]
  ]

  complete_run_ended :
      (d : RunCompletion) (s : MemoryState Event) (run : ExplainabilityRun) (t : ℕ)
      → lookup d.run_id s.runs ≡ some run
      → run.completed_at ≡ some t
      → is_terminal d.status ≡ true
      → run.started_at ≤ t
      → ((complete_run d s).1 ≡ s)
        × (((complete_run d s).0 ≡ ok tt) ↔ ((d.status ≡ run.status) × (d.completed_at ≡ t)))
  unfolding complete_run is_some
  complete_run_ended d s run t found ended ends time = (
    ground arith,
    (
      (λ h. ground (arith, status_beq_iff run.status d.status)),
      (λ h. ground (arith, status_beq_iff run.status d.status)),
    ),
  )

  -- A run ends once. After a completion that succeeded, another one for the same run changes
  -- nothing, and it succeeds exactly if it repeats the status and the time of the first.
  pub complete_run_once :
      (c d : RunCompletion) (s : MemoryState Event)
      → (complete_run c s).0 ≡ ok tt
      → d.run_id ≡ c.run_id
      → is_terminal d.status ≡ true
      → ((complete_run d (complete_run c s).1).1 ≡ (complete_run c s).1)
        × (((complete_run d (complete_run c s).1).0 ≡ ok tt)
            ↔ ((d.status ≡ c.status) × (d.completed_at ≡ c.completed_at)))
  complete_run_once c d s h same ends =
      let (run, found, status, time, started, _) = complete_run-ok c s h in
      subst
        (λ x.
          ((complete_run d (complete_run c s).1).1 ≡ (complete_run c s).1)
          × (((complete_run d (complete_run c s).1).0 ≡ ok tt)
              ↔ ((d.status ≡ x) × (d.completed_at ≡ c.completed_at))))
        status
        (complete_run_ended d (complete_run c s).1 run c.completed_at (rw same found) time ends
          started)

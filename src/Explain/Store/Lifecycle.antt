-- ===== src/Explain/Store/Lifecycle.antt =====
-- Every sequence of operations on the store, from the empty one.
use graphloom.Base.{
  ◌≡◌, ◌≢◌, refl, true, false, some, List, [], ◌∷◌, lookup, insert, lookup-insert, lookup-remove,
  arith, Bool-cases, inl, inr, ◌==◌, text_eq, text_beq_iff, subst, sym, ap,
}
use graphloom.Explain.Types.{ExplainabilityRunId, ExplainabilityRun, ExplainabilityEnvelope}
use graphloom.Explain.Queries.{RunCompletion, is_terminal}
use graphloom.Explain.Store.{
  MemoryState, log_of, create_run, append_events, complete_run, delete_run,
}
use graphloom.Explain.Store.Invariant.{
  IsConsistent, empty_state, empty-IsConsistent, create_run-IsConsistent, create_run_cases,
}
use graphloom.Explain.Store.Append.{append_events-IsConsistent, append_events_cases}
use graphloom.Explain.Store.Complete.{
  complete_run-IsConsistent, delete_run-IsConsistent, complete_run_cases, finish,
}

-- A call of one of the mutating methods of the store.
pub data Op (Event : Type 0) : Type 0 where
  create : ExplainabilityRun → Op Event
  append : List (ExplainabilityEnvelope Event) → Op Event
  complete : RunCompletion → Op Event
  delete : ExplainabilityRunId → Op Event

module _ {Event : Type 0} where
  abbrev pub step : Op Event → MemoryState Event → MemoryState Event
  step (create run) s = (create_run run s).1
  step (append batch) s = (append_events batch s).1
  step (complete c) s = (complete_run c s).1
  step (delete id) s = (delete_run id s).1

  abbrev pub steps : List (Op Event) → MemoryState Event → MemoryState Event
  steps [] s = s
  steps (op ∷ ops) s = steps ops (step op s)

  pub step-IsConsistent :
      (op : Op Event) (s : MemoryState Event) → IsConsistent s → IsConsistent (step op s)
  step-IsConsistent (create run) s c = create_run-IsConsistent run s c
  step-IsConsistent (append batch) s c = append_events-IsConsistent batch s c
  step-IsConsistent (complete d) s c = complete_run-IsConsistent d s c
  step-IsConsistent (delete id) s c = delete_run-IsConsistent id s c

  steps_keep :
      (ops : List (Op Event)) (s : MemoryState Event) → IsConsistent s → IsConsistent (steps ops s)
  steps_keep [] s c = c
  steps_keep (op ∷ ops) s c = steps_keep ops (step op s) (step-IsConsistent op s c)

  -- Whatever mutating calls are made, and with whatever arguments, the store that started empty stays
  -- consistent: the count of each run is the number of its stored envelopes, they belong to it and
  -- carry the sequences 1, 2, 3 and so on, a run has a completion time exactly when its status is
  -- terminal, that time is not before its start, and no envelopes are stored without their run.
  pub steps-IsConsistent : (ops : List (Op Event)) → IsConsistent (steps ops empty_state)
  steps-IsConsistent ops = steps_keep ops empty_state empty-IsConsistent

  abbrev pub Deletes : ExplainabilityRunId → Op Event → Type 0
  Deletes id (delete j) = j ≡ id
  Deletes id _ = ⊥

  abbrev Frozen : ExplainabilityRunId → ExplainabilityRun → (s after : MemoryState Event) → Type 0
  Frozen id run s after = (lookup id after.runs ≡ some run) × (log_of id after ≡ log_of id s)

  other_key :
      (j id : ExplainabilityRunId) (s : MemoryState Event)
      → lookup j s.runs ≢ lookup id s.runs
      → (j == id) ≡ false
  other_key j id s h = elim (Bool-cases (j == id)) [
    | inl same ↦ absurd (h (ap (λ x. lookup x s.runs) ((text_beq_iff j id).0 same)))
    | inr other ↦ other
  ]

  module _ (id : ExplainabilityRunId) (run : ExplainabilityRun) (s : MemoryState Event)
      (found : lookup id s.runs ≡ some run) where
    write_other :
        (j : ExplainabilityRunId) (r : ExplainabilityRun)
        → (j == id) ≡ false
        → Frozen id run s (record s { runs = insert j r s.runs })
    write_other j r other = (rw (lookup-insert j id r s.runs, other) found, refl)

    write_both_other :
        (j : ExplainabilityRunId) (r : ExplainabilityRun)
        (log : List (ExplainabilityEnvelope Event))
        → (j == id) ≡ false
        → Frozen id run s (record s { runs = insert j r s.runs; events = insert j log s.events })
    write_both_other j r log other = (
      rw (lookup-insert j id r s.runs, other) found,
      rw (lookup-insert j id log s.events, other, log_of),
    )

    delete_other :
        (j : ExplainabilityRunId) → (j == id) ≡ false → Frozen id run s (delete_run j s).1
    unfolding delete_run
    delete_other j other = (
      rw (lookup-remove j id s.runs, other) found,
      rw (lookup-remove j id s.events, other, log_of),
    )

  -- A terminal run is frozen: until it is deleted, no call changes its metadata or its envelopes.
  pub step_frozen :
      (id : ExplainabilityRunId) (run : ExplainabilityRun) (op : Op Event) (s : MemoryState Event)
      → IsConsistent s
      → lookup id s.runs ≡ some run
      → is_terminal run.status ≡ true
      → ¬ Deletes id op
      → (lookup id (step op s).runs ≡ some run) × (log_of id (step op s) ≡ log_of id s)
  step_frozen id run (create new) s c found dead keep = elim (create_run_cases new s) [
    | inl same ↦ subst (Frozen id run s) (sym same) (found, refl)
    | inr (absent, _, _, _, made) ↦
        subst (Frozen id run s) (sym made)
          (write_other id run s found new.run_id new (other_key new.run_id id s (λ e. cc)))
  ]
  step_frozen id run (append batch) s c found dead keep = elim (append_events_cases batch s c) [
    | inl (e, same) ↦ subst (Frozen id run s) (sym (ap (λ r. r.1) same)) (found, refl)
    | inr (inl (_, same)) ↦ subst (Frozen id run s) (sym (ap (λ r. r.1) same)) (found, refl)
    | inr (inr a) ↦ subst (Frozen id run s) (sym (ap (λ r. r.1) a.stored)) (
        write_both_other id run s found a.id _ _
          (other_key a.id id s (λ e. ground (arith, a.found, a.live))))
  ]
  step_frozen id run (complete d) s c found dead keep = elim (complete_run_cases d s) [
    | inl same ↦ subst (Frozen id run s) (sym same) (found, refl)
    | inr (old, here, ends, live, time, stored) ↦
        subst (Frozen id run s) (sym (ap (λ r. r.1) stored)) (
          write_other id run s found d.run_id (finish d old)
            (other_key d.run_id id s (λ e. ground arith)))
  ]
  step_frozen id run (delete j) s c found dead keep =
      delete_other id run s found j (elim (Bool-cases (j == id)) [
        | inl same ↦ absurd (keep ((text_beq_iff j id).0 same))
        | inr other ↦ other
      ])

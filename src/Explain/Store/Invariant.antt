-- ===== src/Explain/Store/Invariant.antt =====
-- The invariant that joins runs and stored envelopes, and the operations that keep it.
use graphloom.Base.{
  ℕ, suc, ◌+◌, ◌≤◌, ◌≡◌, refl, sym, false, none, some, List, [], ◌∷◌, ◌++◌, ◌==◌, lookup, insert,
  lookup-insert, length, arith, Bool-cases, inl, inr, text_eq, text_beq_iff, u64_max, ◌⊎◌, ap,
  subst,
}
use mathlib.Core.Path.{transport}
use graphloom.Explain.Types.{ExplainabilityRunId, ExplainabilityRun, ExplainabilityEnvelope}
use graphloom.Explain.Queries.{is_terminal, is_some, validate_create_run}
use graphloom.Explain.Store.{MemoryState, log_of, create_run}

module _ {Event : Type 0} where
  -- The envelopes of run `id` with the sequences that follow `k`, none left out.
  abbrev pub IsLog : ExplainabilityRunId → ℕ → List (ExplainabilityEnvelope Event) → Type 0
  IsLog id k [] = Unit
  IsLog id k (e ∷ es) = (e.sequence ≡ suc k) × (e.record_part.run_id ≡ id) × IsLog id (suc k) es

  pub record IsConsistentRun (id : ExplainabilityRunId) (run : ExplainabilityRun)
      (log : List (ExplainabilityEnvelope Event)) : Type 0 where
    pub same_id : run.run_id ≡ id
    pub counted : run.event_count ≡ length log
    pub bounded : length log ≤ u64_max
    pub contiguous : IsLog id 0 log
    pub closed : is_some run.completed_at ≡ is_terminal run.status
    pub ordered : (t : ℕ) → run.completed_at ≡ some t → run.started_at ≤ t

  pub record IsConsistent (s : MemoryState Event) : Type 0 where
    pub runs_at :
        (id : ExplainabilityRunId) (run : ExplainabilityRun)
        → lookup id s.runs ≡ some run
        → IsConsistentRun id run (log_of id s)
    pub no_orphan : (id : ExplainabilityRunId) → lookup id s.runs ≡ none → lookup id s.events ≡ none

  pub IsLog-append :
      (id : ExplainabilityRunId) (k : ℕ) (xs ys : List (ExplainabilityEnvelope Event))
      → IsLog id k xs
      → IsLog id (k + length xs) ys
      → IsLog id k (xs ++ ys)
  IsLog-append id k [] ys h g = subst (λ n. IsLog id n ys) (omega arith) g
  IsLog-append id k (x ∷ xs) ys h g =
      (h.0, h.1, IsLog-append id (suc k) xs ys h.2 (subst (λ n. IsLog id n ys) (omega arith) g))

  log_of-none :
      (id : ExplainabilityRunId) (s : MemoryState Event)
      → IsConsistent s
      → lookup id s.runs ≡ none
      → log_of id s ≡ []
  log_of-none id s c e = rw (c.no_orphan id e, log_of)

  IsConsistentRun-cast :
      {i j : ExplainabilityRunId} {a b : ExplainabilityRun}
      {xs ys : List (ExplainabilityEnvelope Event)}
      → i ≡ j
      → a ≡ b
      → xs ≡ ys
      → IsConsistentRun i a xs
      → IsConsistentRun j b ys
  IsConsistentRun-cast p q r = transport (λ t. IsConsistentRun (p t) (q t) (r t))

  -- A run is written, and its envelopes stay.
  pub write_run :
      (id : ExplainabilityRunId) (run : ExplainabilityRun) (s : MemoryState Event)
      → IsConsistent s
      → IsConsistentRun id run (log_of id s)
      → IsConsistent (record s { runs = insert id run s.runs })
  write_run id run s c h = record {
    runs_at = λ j r e. elim (Bool-cases (id == j)) [
      | inl same ↦
          let p = (text_beq_iff id j).0 same in
          IsConsistentRun-cast p (cc (lookup-insert id j run s.runs, same, e))
            (ap (λ x. log_of x s) p) h
      | inr other ↦ c.runs_at j r (cc (lookup-insert id j run s.runs, other, e))
    ];
    no_orphan = λ j e. c.no_orphan j (ground (arith, lookup-insert id j run s.runs));
  }

  -- A run is written together with its envelopes.
  pub write_both :
      (id : ExplainabilityRunId) (run : ExplainabilityRun)
      (log : List (ExplainabilityEnvelope Event)) (s : MemoryState Event)
      → IsConsistent s
      → IsConsistentRun id run log
      → IsConsistent (record s { runs = insert id run s.runs; events = insert id log s.events })
  write_both id run log s c h = record {
    runs_at = λ j r e. elim (Bool-cases (id == j)) [
      | inl same ↦
          IsConsistentRun-cast ((text_beq_iff id j).0 same)
            (cc (lookup-insert id j run s.runs, same, e))
            (rw (lookup-insert id j log s.events, same, log_of)) h
      | inr other ↦
          IsConsistentRun-cast refl refl (rw (lookup-insert id j log s.events, other, log_of))
            (c.runs_at j r (cc (lookup-insert id j run s.runs, other, e)))
    ];
    no_orphan = λ j e.
        ground
          (arith, lookup-insert id j run s.runs, lookup-insert id j log s.events, c.no_orphan j);
  }

  abbrev pub empty_state : MemoryState Event
  empty_state = record { runs = []; events = [] }

  pub empty-IsConsistent : IsConsistent empty_state
  unfolding lookup
  empty-IsConsistent = record { runs_at = λ id run e. cc; no_orphan = λ id e. refl }

  pub create_run_cases :
      (run : ExplainabilityRun) (s : MemoryState Event)
      → ((create_run run s).1 ≡ s)
        ⊎ (lookup run.run_id s.runs ≡ none)
          × (run.event_count ≡ 0)
          × (run.completed_at ≡ none)
          × (is_terminal run.status ≡ false)
          × ((create_run run s).1 ≡ record s { runs = insert run.run_id run s.runs })
  unfolding create_run validate_create_run is_some
  create_run_cases run s = ground arith

  pub create_run-IsConsistent :
      (run : ExplainabilityRun) (s : MemoryState Event)
      → IsConsistent s
      → IsConsistent (create_run run s).1
  unfolding is_some
  create_run-IsConsistent run s c = elim (create_run_cases run s) [
    | inl same ↦ rw same c
    | inr (absent, zero_count, open_run, live, made) ↦
        let fresh : IsConsistentRun run.run_id run [] = record {
          same_id = refl;
          counted = zero_count;
          bounded = omega arith;
          contiguous = tt;
          closed = rw (open_run, live, is_some) refl;
          ordered = λ t e. cc;
        } in
        rw made (
          write_run run.run_id run s c
            (IsConsistentRun-cast refl refl (sym (log_of-none run.run_id s c absent)) fresh))
  ]

-- ===== src/Explain/Store/Atomic.antt =====
-- `append_events`: a batch is stored whole or not at all, and when it is accepted.
use graphloom.Base.{
  ◌+◌, ◌≤◌, ◌≡◌, refl, sym, ◌∙◌, false, some, List, [], ◌∷◌, ◌++◌, ◌==◌, ok, err, lookup,
  lookup-insert, length, ◌⊎◌, ap, subst, arith, Bool-cases, inl, inr, ok≢err, text_eq, text_beq_iff,
  u64_max, filter, ◌↔◌,
}
use mathlib.Core.Path.{subst₂}
use mathlib.Core.List.{append-nil}
use graphloom.Explain.Types.{ExplainabilityRunId, ExplainabilityRun, ExplainabilityEnvelope}
use graphloom.Explain.Queries.{StoreError, is_terminal}
use graphloom.Explain.Store.{MemoryState, log_of, append_events}
use graphloom.Explain.Store.Invariant.{IsLog, IsConsistentRun, IsConsistent}
use graphloom.Explain.Store.Append.{
  OneRun, OneRun-head, OneRun-of_IsLog, append_loop_of_IsLog, Accepted, append_events_cases,
}

module _ {Event : Type 0} where
  -- The envelopes of the batch that belong to run `id`.
  abbrev pub own :
      ExplainabilityRunId
      → List (ExplainabilityEnvelope Event)
      → List (ExplainabilityEnvelope Event)
  own id = filter (λ e. e.record_part.run_id == id)

  own_all :
      (id : ExplainabilityRunId) (es : List (ExplainabilityEnvelope Event))
      → OneRun id es
      → own id es ≡ es
  own_all id [] o = refl
  own_all id (e ∷ es) o =
      let (here, rest) = OneRun-head id e es o in
      rw ((text_beq_iff e.record_part.run_id id).1 here) (ap (λ l. e ∷ l) (own_all id es rest))

  own_none :
      (id j : ExplainabilityRunId) (es : List (ExplainabilityEnvelope Event))
      → OneRun id es
      → (id == j) ≡ false
      → own j es ≡ []
  own_none id j [] o d = refl
  own_none id j (e ∷ es) o d =
      let (here, rest) = OneRun-head id e es o in rw here (rw d (own_none id j es rest d))

  -- A batch is appended whole or not at all. If it is refused, the store is as it was. If it is
  -- accepted, the log of every run grows by exactly the envelopes of the batch that belong to it, in
  -- their order.
  pub append_events_atomic :
      (batch : List (ExplainabilityEnvelope Event)) (s : MemoryState Event)
      → IsConsistent s
      → ((e : StoreError) × (append_events batch s ≡ (err e, s)))
        ⊎ ((append_events batch s).0 ≡ ok tt)
          × ((j : ExplainabilityRunId)
              → log_of j (append_events batch s).1 ≡ log_of j s ++ own j batch)
  append_events_atomic batch s c = elim (append_events_cases batch s c) [
    | inl refused ↦ inl refused
    | inr (inl (empty, same)) ↦
        inr (ap (λ r. r.0) same, λ j. rw (same, empty) (sym (append-nil (log_of j s))))
    | inr (inr a) ↦ inr (
      ap (λ r. r.0) a.stored,
      λ j. rw a.stored (elim (Bool-cases (a.id == j)) [
        | inl same ↦
            rw (lookup-insert a.id j (log_of a.id s ++ batch) s.events, same, log_of)
              (subst (λ x. log_of a.id s ++ batch ≡ log_of x s ++ own x batch)
                ((text_beq_iff a.id j).0 same)
                (ap (λ l. log_of a.id s ++ l) (sym (own_all a.id batch a.one_run))))
        | inr other ↦
            rw (lookup-insert a.id j (log_of a.id s ++ batch) s.events, other, log_of)
              (rw (own_none a.id j batch a.one_run other) (sym (append-nil (log_of j s))))
      ]),
    )
  ]

  append_events_of_IsLog :
      (e : ExplainabilityEnvelope Event) (es : List (ExplainabilityEnvelope Event))
      (run : ExplainabilityRun) (s : MemoryState Event)
      → lookup e.record_part.run_id s.runs ≡ some run
      → is_terminal run.status ≡ false
      → IsLog e.record_part.run_id run.event_count (e ∷ es)
      → run.event_count + length (e ∷ es) ≤ u64_max
      → (append_events (e ∷ es) s).0 ≡ ok tt
  unfolding append_events
  append_events_of_IsLog e es run s found live log fits =
      let id = e.record_part.run_id in
      rw (OneRun-of_IsLog id run.event_count (e ∷ es) log, append_events)
        (rw found (rw live (rw (append_loop_of_IsLog id (e ∷ es) run.event_count [] log fits))))

  -- A batch for an existing run is accepted exactly when all of it belongs to that run, the run is
  -- not terminal, the sequences follow the last stored one without a gap, and they fit in a `u64`.
  pub append_events-ok_iff :
      (e : ExplainabilityEnvelope Event) (es : List (ExplainabilityEnvelope Event))
      (run : ExplainabilityRun) (s : MemoryState Event)
      → IsConsistent s
      → lookup e.record_part.run_id s.runs ≡ some run
      → ((append_events (e ∷ es) s).0 ≡ ok tt) ↔ (
          (is_terminal run.status ≡ false)
          × IsLog e.record_part.run_id (length (log_of e.record_part.run_id s)) (e ∷ es)
          × (length (log_of e.record_part.run_id s) + length (e ∷ es) ≤ u64_max))
  append_events-ok_iff e es run s c found = (
    (λ accepted. accepted_facts accepted (append_events_cases (e ∷ es) s c)),
    (λ (live, log, fits).
        append_events_of_IsLog e es run s found live
          (subst (λ k. IsLog e.record_part.run_id k (e ∷ es)) (sym count.counted) log)
          (omega (arith, count.counted, fits))),
  )
    where
      count : IsConsistentRun e.record_part.run_id run (log_of e.record_part.run_id s)
      count = c.runs_at e.record_part.run_id run found

      accepted_facts :
          (append_events (e ∷ es) s).0 ≡ ok tt
          → ((x : StoreError) × (append_events (e ∷ es) s ≡ (err x, s)))
            ⊎ (((e ∷ es) ≡ []) × (append_events (e ∷ es) s ≡ (ok tt, s)))
            ⊎ Accepted (e ∷ es) s
          → (is_terminal run.status ≡ false)
            × IsLog e.record_part.run_id (length (log_of e.record_part.run_id s)) (e ∷ es)
            × (length (log_of e.record_part.run_id s) + length (e ∷ es) ≤ u64_max)
      accepted_facts h (inl (x, same)) = absurd (ok≢err tt x (sym h ∙ ap (λ r. r.0) same))
      accepted_facts h (inr (inl (empty, _))) = cc
      accepted_facts h (inr (inr a)) =
          let p = (OneRun-head a.id e es a.one_run).0 in
          let q : a.run ≡ run = cc (a.found, found, p) in
          (
            subst (λ r. is_terminal r.status ≡ false) q a.live,
            subst₂ (λ i k. IsLog i k (e ∷ es)) (sym p) (ap (λ r. r.event_count) q ∙ count.counted)
                a.log,
            omega (arith, a.fits, ap (λ (r : ExplainabilityRun). r.event_count) q, count.counted),
          )

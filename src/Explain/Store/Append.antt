-- ===== src/Explain/Store/Append.antt =====
-- `append_events`: what an accepted batch leaves behind, and when a batch is accepted.
use graphloom.Base.{
  ℕ, suc, ◌+◌, ◌≤◌, ◌≡◌, refl, ◌∙◌, false, none, some, List, [], ◌∷◌, ◌++◌, ok, err, lookup, insert,
  length, length-append, ◌⊎◌, subst, arith, Bool-cases, inl, inr, Option-cases, Result-cases,
  text_eq, text_beq_iff, u64_max, find,
}
use mathlib.Core.List.{append-nil, append_assoc}
use graphloom.Explain.Types.{ExplainabilityRunId, ExplainabilityRun, ExplainabilityEnvelope}
use graphloom.Explain.Queries.{
  mixed_run_batch, run_not_found, run_already_terminal, StoreError, is_terminal,
}
use graphloom.Explain.Store.{MemoryState, log_of, append_loop, append_events, other_run}
use graphloom.Explain.Store.Invariant.{IsLog, IsConsistent, IsLog-append, write_both}

module _ {Event : Type 0} where
  -- Every envelope of the batch belongs to run `id`.
  abbrev pub OneRun : ExplainabilityRunId → List (ExplainabilityEnvelope Event) → Type 0
  OneRun id es = find (other_run id) es ≡ none

  pub OneRun-head :
      (id : ExplainabilityRunId) (e : ExplainabilityEnvelope Event)
      (es : List (ExplainabilityEnvelope Event))
      → OneRun id (e ∷ es)
      → (e.record_part.run_id ≡ id) × OneRun id es
  unfolding find
  OneRun-head id e es h = ground (arith, text_beq_iff e.record_part.run_id id)

  pub OneRun-of_IsLog :
      (id : ExplainabilityRunId) (k : ℕ) (es : List (ExplainabilityEnvelope Event))
      → IsLog id k es
      → OneRun id es
  unfolding find
  OneRun-of_IsLog id k [] h = refl
  OneRun-of_IsLog id k (e ∷ es) h =
      ground (arith, text_beq_iff e.record_part.run_id id, OneRun-of_IsLog id (suc k) es h.2)

  append_loop_head :
      (id : ExplainabilityRunId) (e : ExplainabilityEnvelope Event)
      (es : List (ExplainabilityEnvelope Event)) (k : ℕ) (acc : List (ExplainabilityEnvelope Event))
      {n : ℕ} {out : List (ExplainabilityEnvelope Event)}
      → append_loop id (e ∷ es) k acc ≡ ok (n, out)
      → (k + 1 ≤ u64_max)
        × (e.sequence ≡ k + 1)
        × (append_loop id es (k + 1) (acc ++ e ∷ []) ≡ ok (n, out))
  unfolding append_loop
  append_loop_head id e es k acc h = ground arith

  append_loop-ok :
      (id : ExplainabilityRunId) (es : List (ExplainabilityEnvelope Event)) (k : ℕ)
      (acc : List (ExplainabilityEnvelope Event)) {n : ℕ}
      {out : List (ExplainabilityEnvelope Event)}
      → append_loop id es k acc ≡ ok (n, out)
      → OneRun id es
      → k ≤ u64_max
      → (n ≡ k + length es) × (n ≤ u64_max) × (out ≡ acc ++ es) × IsLog id k es
  unfolding append_loop
  append_loop-ok id [] k acc h o b = ground (arith, append-nil acc)
  append_loop-ok id (e ∷ es) k acc {n} {out} h o b =
      let (here, rest_one) = OneRun-head id e es o in
      let (bound, seq, rest) = append_loop_head id e es k acc h in
      let (count, fits, joined, log) =
        append_loop-ok id es (k + 1) (acc ++ e ∷ []) rest rest_one bound in
      (
        omega arith,
        fits,
        joined ∙ append_assoc acc (e ∷ []) es,
        (seq ∙ omega arith, here, subst (λ m. IsLog id m es) (omega arith) log),
      )

  -- A batch that continues the log within `u64` passes the loop.
  pub append_loop_of_IsLog :
      (id : ExplainabilityRunId) (es : List (ExplainabilityEnvelope Event)) (k : ℕ)
      (acc : List (ExplainabilityEnvelope Event))
      → IsLog id k es
      → k + length es ≤ u64_max
      → append_loop id es k acc ≡ ok (k + length es, acc ++ es)
  unfolding append_loop
  append_loop_of_IsLog id [] k acc l b = ground (arith, append-nil acc)
  append_loop_of_IsLog id (e ∷ es) k acc l b = ground (
    arith,
    append_loop_of_IsLog id es (k + 1) (acc ++ e ∷ [])
        (subst (λ m. IsLog id m es) (omega arith) l.2) (omega arith),
    append_assoc acc (e ∷ []) es,
  )

  -- What `append_events` does with a batch that it accepts.
  pub record Accepted (batch : List (ExplainabilityEnvelope Event)) (s : MemoryState Event)
      : Type 0 where
    pub id : ExplainabilityRunId
    pub run : ExplainabilityRun
    pub one_run : OneRun id batch
    pub found : lookup id s.runs ≡ some run
    pub live : is_terminal run.status ≡ false
    pub log : IsLog id run.event_count batch
    pub fits : run.event_count + length batch ≤ u64_max
    pub stored : append_events batch s ≡ (
      ok tt,
      record s {
        runs = insert id (record run { event_count = run.event_count + length batch }) s.runs;
        events = insert id (log_of id s ++ batch) s.events;
      },
    )

  count_bound :
      (id : ExplainabilityRunId) (run : ExplainabilityRun) (s : MemoryState Event)
      → IsConsistent s
      → lookup id s.runs ≡ some run
      → run.event_count ≤ u64_max
  count_bound id run s c e = let r = c.runs_at id run e in omega (arith, r.counted, r.bounded)

  pub append_events_cases :
      (batch : List (ExplainabilityEnvelope Event)) (s : MemoryState Event)
      → IsConsistent s
      → ((e : StoreError) × (append_events batch s ≡ (err e, s)))
        ⊎ ((batch ≡ []) × (append_events batch s ≡ (ok tt, s)))
        ⊎ Accepted batch s
  unfolding append_events
  append_events_cases [] s c = inr (inl (refl, refl))
  append_events_cases (first ∷ rest) s c =
      let id = first.record_part.run_id in
      elim (Option-cases (find (other_run id) (first ∷ rest))) [
        | inr (m, mixed) ↦ inl (mixed_run_batch id m.record_part.run_id, rw (mixed, append_events))
        | inl one ↦ elim (Option-cases (lookup id s.runs)) [
          | inl absent ↦ inl (run_not_found id, rw (one, append_events) (rw absent))
          | inr (run, here) ↦ elim (Bool-cases (is_terminal run.status)) [
            | inl dead ↦ inl (run_already_terminal id, rw (one, append_events) (rw here (rw dead)))
            | inr live ↦ elim (Result-cases (append_loop id (first ∷ rest) run.event_count [])) [
              | inr (e, failed) ↦ inl (e, rw (one, append_events) (rw here (rw live (rw failed))))
              | inl ((n, out), looped) ↦
                  let (count, fits, whole, log) =
                    append_loop-ok id (first ∷ rest) run.event_count [] looped one
                      (count_bound id run s c here) in
                  inr (
                    inr (record {
                      id = id;
                      run = run;
                      one_run = one;
                      found = here;
                      live = live;
                      log = log;
                      fits = omega (arith, count, fits);
                      stored =
                          rw (one, append_events)
                            (rw here (rw live (rw looped (rw (count, whole)))));
                    }))
            ]
          ]
        ]
      ]

  -- `append_events` keeps the store consistent, whatever the batch.
  pub append_events-IsConsistent :
      (batch : List (ExplainabilityEnvelope Event)) (s : MemoryState Event)
      → IsConsistent s
      → IsConsistent (append_events batch s).1
  append_events-IsConsistent batch s c = elim (append_events_cases batch s c) [
    | inl (e, same) ↦ rw same c
    | inr (inl (empty, same)) ↦ rw same c
    | inr (inr a) ↦
        let r = c.runs_at a.id a.run a.found in
        rw a.stored (
          write_both a.id (record a.run { event_count = a.run.event_count + length batch })
            (log_of a.id s ++ batch) s c
            (record {
              same_id = r.same_id;
              counted = omega (arith, r.counted, length-append (log_of a.id s) batch);
              bounded = omega (arith, r.counted, a.fits, length-append (log_of a.id s) batch);
              contiguous =
                  IsLog-append a.id 0 (log_of a.id s) batch r.contiguous
                    (subst (λ k. IsLog a.id k batch) (omega (arith, r.counted)) a.log);
              closed = r.closed;
              ordered = r.ordered;
            }))
  ]

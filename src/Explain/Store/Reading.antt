-- ===== src/Explain/Store/Reading.antt =====
-- `load_events` and `list_runs`: what a page holds.
use graphloom.Base.{
  ℕ, suc, ◌-◌, ◌≤◌, ◌≡◌, sym, ◌∙◌, none, some, List, [], ◌∷◌, ltb, ok, lookup, ap, take, drop,
  drop_nil, filter, arith, text_eq, Bool-cases, inl, inr, tests, ltb→lt,
}
use graphloom.Explain.Types.{ExplainabilityRunId, ExplainabilityRun, ExplainabilityEnvelope}
use graphloom.Explain.Queries.{EventQuery, validate_limit, max_event_query_limit}
use graphloom.Explain.Store.{MemoryState, log_of, load_events}
use graphloom.Explain.Store.Invariant.{IsLog, IsConsistent}

-- The bound that a query without one stands for.
abbrev pub after_of : EventQuery → ℕ
after_of q = elim q.after_sequence [ none ↦ 0 | some k ↦ k ]

module _ {Event : Type 0} where
  filter_log :
      (id : ExplainabilityRunId) (k after : ℕ) (es : List (ExplainabilityEnvelope Event))
      → IsLog id k es
      → filter (λ e. ltb after e.sequence) es ≡ drop (after - k) es
  filter_log id k after [] h = sym (drop_nil (after - k))
  filter_log id k after (e ∷ es) h =
      let rest = filter_log id (suc k) after es h.2 in
      elim (Bool-cases (ltb after e.sequence)) [
        | inl newer ↦
            let below : after ≤ k = omega (tests, ltb→lt after e.sequence newer, h.0) in
            let here : after - k ≡ 0 = omega arith in
            let there : after - suc k ≡ 0 = omega arith in
            rw (newer, here) (ap (λ l. e ∷ l) (rest ∙ ap (λ n. drop n es) there))
        | inr older ↦
            let here : after - k ≡ suc (after - suc k) = ground (arith, h.0) in
            rw (older, here) rest
      ]

  -- For a stored run and a limit in range, `load_events` returns the page of at most `limit`
  -- envelopes that follow the first `after_sequence` of the run's log, in sequence order.
  pub load_events_page :
      (id : ExplainabilityRunId) (run : ExplainabilityRun) (q : EventQuery) (s : MemoryState Event)
      → IsConsistent s
      → lookup id s.runs ≡ some run
      → 1 ≤ q.limit
      → q.limit ≤ max_event_query_limit
      → load_events id q s ≡ ok (take q.limit (drop (after_of q) (log_of id s)))
  unfolding load_events validate_limit
  load_events_page id run q s c found low high =
      let page = filter_log id 0 (after_of q) (log_of id s) (c.runs_at id run found).contiguous in
      let whole : filter (λ e. ltb (after_of q) e.sequence) (log_of id s)
          ≡ drop (after_of q) (log_of id s) =
        page ∙ ap (λ n. drop n (log_of id s)) (omega arith) in
      ground (arith, ap (λ l. take q.limit l) whole)

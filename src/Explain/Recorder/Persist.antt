-- ===== src/Explain/Recorder/Persist.antt =====
-- persist_record on a registered run that is not finished: it appends the next envelope, unless the
-- sequences are exhausted.
use graphloom.Base.{
  ◌+◌, ◌≤◌, ◌≡◌, ◌∙◌, ◌⊎◌, sym, ap, refl, subst, true, false, some, [], ◌∷◌, ◌++◌, Result, ok, err,
  lookup, insert, text_eq, contains_key, arith, Bool-cases, inl, inr, u64_max, leb, leb→le, nat_eq,
  ok≢err, some-injective,
}
use graphloom.Explain.Types.{
  ExplainabilityRunId, ExplainabilityRun, ExplainabilityRecord, ExplainabilityEnvelope,
  envelope_new,
}
use graphloom.Explain.Queries.{StoreError}
use graphloom.Explain.Store.{MemoryState, log_of, append_events}
use graphloom.Explain.Store.Append.{append_events_cases, OneRun-head}
use graphloom.Explain.Store.Atomic.{append_events-ok_iff}
use graphloom.Explain.LiveHub.{publish}
use graphloom.Explain.RecorderState.{Recorder, sequence_overflow, member}
use graphloom.Explain.Recorder.{sequence_of, on_hub, persist_envelope, persist_record}
use graphloom.Explain.Recorder.Invariant.{IsSound, IsRegistered}

module _ {Event : Type 0} where
  -- The envelope that the record gets.
  abbrev pub next_envelope :
      ExplainabilityRecord Event → Recorder Event → ExplainabilityEnvelope Event
  next_envelope r s = record {
    schema_version = 1;
    sequence = sequence_of r.run_id s + 1;
    record_part = r;
  }

  abbrev pub appended :
      ExplainabilityRecord Event → ExplainabilityRun → Recorder Event → MemoryState Event
  appended r run s = record {
    runs = insert r.run_id (record run { event_count = run.event_count + 1 }) s.store.runs;
    events = insert r.run_id (log_of r.run_id s.store ++ next_envelope r s ∷ []) s.store.events;
  }

  abbrev pub persisted :
      ExplainabilityRecord Event → ExplainabilityRun → Recorder Event → Recorder Event
  persisted r run s = record s {
    store = appended r run s;
    sequences = insert r.run_id (sequence_of r.run_id s + 1) s.sequences;
    live_hub = on_hub (publish (next_envelope r s)) s.live_hub;
  }

  abbrev appended_at :
      ExplainabilityRecord Event
      → Recorder Event
      → ExplainabilityRunId
      → ExplainabilityRun
      → Result StoreError (Unit {0}) × MemoryState Event
  appended_at r s id run = (
    ok tt,
    record {
      runs = insert id (record run { event_count = run.event_count + 1 }) s.store.runs;
      events = insert id (log_of id s.store ++ next_envelope r s ∷ []) s.store.events;
    },
  )

  module _ (r : ExplainabilityRecord Event) (s : Recorder Event) (i : IsSound s) where
    pub append_next :
        (g : IsRegistered r.run_id s.store
          (sequence_of r.run_id s)
          (member r.run_id s.finished_runs))
        → member r.run_id s.finished_runs ≡ false
        → sequence_of r.run_id s + 1 ≤ u64_max
        → append_events (next_envelope r s ∷ []) s.store ≡ (ok tt, appended r g.run s)
    append_next g unfinished fits =
        let c = i.base.consistent.runs_at r.run_id g.run g.stored in
        let accepted =
          (append_events-ok_iff (next_envelope r s) [] g.run s.store i.base.consistent g.stored).1 (
            g.live unfinished,
            (omega (arith, c.counted, g.counted), refl, tt),
            omega (arith, c.counted, g.counted),
          ) in
        elim (append_events_cases (next_envelope r s ∷ []) s.store i.base.consistent) [
          | inl (e, refused) ↦ absurd (ok≢err tt e (sym accepted ∙ ap (λ p. p.0) refused))
          | inr (inl (empty, _)) ↦ (cc)
          | inr (inr a) ↦
              let same_id : a.id ≡ r.run_id =
                sym (OneRun-head a.id (next_envelope r s) [] a.one_run).0 in
              let same_run : a.run ≡ g.run = some-injective (
                sym (subst (λ x. lookup x s.store.runs ≡ some a.run) same_id a.found) ∙ g.stored) in
              a.stored
              ∙ ap (λ id. appended_at r s id a.run) same_id
              ∙ ap (appended_at r s r.run_id) same_run
        ]

    -- The two ends of persist_record.
    pub persist_record_cases :
        (g : IsRegistered r.run_id s.store
          (sequence_of r.run_id s)
          (member r.run_id s.finished_runs))
        → contains_key r.run_id s.gates ≡ true
        → member r.run_id s.finished_runs ≡ false
        → (persist_record r s ≡ (err sequence_overflow, s))
          ⊎ ((sequence_of r.run_id s + 1 ≤ u64_max)
              × (persist_record r s ≡ (ok tt, persisted r g.run s)))
    unfolding persist_record envelope_new persist_envelope
    persist_record_cases g known unfinished =
        elim (Bool-cases (leb (sequence_of r.run_id s + 1) u64_max)) [
          | inl fits ↦
              let bound = leb→le (sequence_of r.run_id s + 1) u64_max fits in
              inr (bound, ground (arith, known, unfinished, fits, append_next g unfinished bound))
          | inr exhausted ↦ inl (ground (arith, known, unfinished, exhausted))
        ]

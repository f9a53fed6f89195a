-- ===== src/Explain/Recorder/Registering.antt =====
-- create_run_for_writer: the invariant when a run is registered.
use graphloom.Base.{
  ◌≡◌, ◌⊎◌, sym, refl, subst, false, Option, none, some, List, [], ◌==◌, text_eq, text_beq_iff,
  lookup, insert, contains_key, lookup-insert, lookup-insert_same, arith, Bool-cases, Option-cases,
  inl, inr, some-injective,
}
use graphloom.Explain.Types.{ExplainabilityRunId, ExplainabilityRun}
use graphloom.Explain.Queries.{is_terminal, validate_create_run, is_some}
use graphloom.Explain.Store.{MemoryState, log_of, create_run}
use graphloom.Explain.Store.Invariant.{IsConsistent, create_run-IsConsistent}
use graphloom.Explain.LiveHub.{LiveHub, register_run}
use graphloom.Explain.RecorderState.{Recorder, active, member}
use graphloom.Explain.Recorder.{sequence_of, on_hub, create_run_for_writer}
use graphloom.Explain.Recorder.Invariant.{IsRegistered, IsReplayed, AreReplayed, IsSound}
use graphloom.Explain.Recorder.Admitted.{IsAdmitted-mono}

module _ {Event : Type 0} where
  -- A run is registered.
  abbrev pub created : ExplainabilityRun → Recorder Event → Recorder Event
  created run s = record s {
    store = record s.store { runs = insert run.run_id run s.store.runs };
    live_hub = on_hub (register_run run.run_id) s.live_hub;
    gates = insert run.run_id active s.gates;
  }

  pub create_run_for_writer_cases :
      (run : ExplainabilityRun) (s : Recorder Event)
      → ((create_run_for_writer run s).1 ≡ s)
        ⊎ (contains_key run.run_id s.gates ≡ false)
          × (lookup run.run_id s.store.runs ≡ none)
          × (run.event_count ≡ 0)
          × (is_terminal run.status ≡ false)
          × ((create_run run s.store).1
              ≡ record s.store { runs = insert run.run_id run s.store.runs })
          × ((create_run_for_writer run s).1 ≡ created run s)
  unfolding create_run_for_writer create_run validate_create_run is_some
  create_run_for_writer_cases run s = ground arith

  pub register_run-AreReplayed :
      (id : ExplainabilityRunId) (store : MemoryState Event)
      (runs : List (ExplainabilityRunId × ExplainabilityRun)) (hub : Option (LiveHub Event))
      → log_of id store ≡ []
      → AreReplayed hub store
      → AreReplayed (on_hub (register_run id) hub) (record store { runs = runs })
  unfolding register_run
  register_run-AreReplayed id store runs none empty h = tt
  register_run-AreReplayed id store runs (some hub) empty h = λ other channel e.
      elim (Option-cases (lookup id hub)) [
        | inr (old, here) ↦
            let before = h other channel (ground (arith, here, e)) in
            record { whole = before.whole; last = before.last }
        | inl gone ↦ elim (Bool-cases (id == other)) [
          | inr apart ↦
              let before = h other channel (
                ground (
                  arith,
                  gone,
                  e,
                  apart,
                  lookup-insert id other (record { sent = []; last_sequence = 0 }) hub,
                )) in
              record { whole = before.whole; last = before.last }
          | inl same ↦
              let now : some (record { sent = []; last_sequence = 0 }) ≡ some channel = ground (
                arith,
                gone,
                e,
                same,
                lookup-insert id other (record { sent = []; last_sequence = 0 }) hub,
              ) in
              subst (λ x. IsReplayed x channel (record store { runs = runs }))
                ((text_beq_iff id other).0 same)
                (subst (λ x. IsReplayed id x (record store { runs = runs })) (some-injective now)
                  (record { whole = sym empty; last = rw empty refl }))
        ]
      ]

  created-IsSound :
      (run : ExplainabilityRun) (s : Recorder Event)
      → contains_key run.run_id s.gates ≡ false
      → lookup run.run_id s.store.runs ≡ none
      → run.event_count ≡ 0
      → is_terminal run.status ≡ false
      → IsConsistent (record s.store { runs = insert run.run_id run s.store.runs })
      → IsSound s
      → IsSound (created run s)
  created-IsSound run s fresh absent empty live consistent i =
      let key = λ (other : ExplainabilityRunId). lookup-insert run.run_id other active s.gates in
      let row = λ (other : ExplainabilityRunId). lookup-insert run.run_id other run s.store.runs in
      let unfinished : member run.run_id s.finished_runs ≡ false =
        ground (arith, i.base.finished_gate run.run_id, fresh) in
      record {
        base = record {
          consistent = consistent;
          registered = λ other e. elim (Bool-cases (run.run_id == other)) [
            | inr apart ↦
                let g = i.base.registered other (ground (arith, e, apart, key other)) in
                record {
                  run = g.run;
                  stored = ground (arith, apart, row other, g.stored);
                  counted = g.counted;
                  live = g.live;
                }
            | inl same ↦
                subst
                  (λ x.
                    IsRegistered x (created run s).store (sequence_of x s)
                      (member x s.finished_runs))
                  ((text_beq_iff run.run_id other).0 same)
                  (record {
                    run = run;
                    stored = lookup-insert_same run.run_id run s.store.runs;
                    counted = ground (arith, empty, i.base.unregistered run.run_id fresh);
                    live = λ _. live;
                  })
          ];
          unregistered = λ other e. i.base.unregistered other (ground (arith, e, key other));
          finished_gate = λ other e. ground (
            arith,
            e,
            i.base.finished_gate other e,
            unfinished,
            key other,
            text_beq_iff run.run_id other,
          );
          finished_known = λ other e. i.base.finished_known other (ground (arith, e, key other));
        };
        queued = record {
          admitted =
              IsAdmitted-mono s.gates (insert run.run_id active s.gates) s.finished_runs
                s.finished_runs (λ other e. ground (arith, e, key other)) (λ other e. e) s.queue
                i.queued.admitted;
          open_gate = λ other e. elim (Bool-cases (run.run_id == other)) [
            | inl same ↦
                i.queued.no_gate other (ground (arith, same, fresh, text_beq_iff run.run_id other))
            | inr apart ↦ i.queued.open_gate other (ground (arith, e, apart, key other))
          ];
          no_gate = λ other e. i.queued.no_gate other (ground (arith, e, key other));
        };
        verdict = i.verdict;
        replayed =
            register_run-AreReplayed run.run_id s.store (insert run.run_id run s.store.runs)
              s.live_hub (ground (arith, i.base.consistent.no_orphan run.run_id absent)) i.replayed;
      }

  pub create_run_for_writer-IsSound :
      (run : ExplainabilityRun) (s : Recorder Event)
      → IsSound s
      → IsSound (create_run_for_writer run s).1
  create_run_for_writer-IsSound run s i = elim (create_run_for_writer_cases run s) [
    | inl same ↦ subst IsSound (sym same) i
    | inr (fresh, absent, empty, live, stored, made) ↦ subst IsSound (sym made) (
        created-IsSound run s fresh absent empty live
          (subst IsConsistent stored (create_run-IsConsistent run s.store i.base.consistent)) i)
  ]

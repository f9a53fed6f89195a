-- ===== src/Explain/Recorder/Ending.antt =====
-- finish_run_for_writer and complete_run_for_writer: the invariant when a run ends.
use graphloom.Base.{
  ◌≡◌, ◌∙◌, ◌⊎◌, sym, ap, subst, true, Option, none, some, List, ◌∷◌, ◌==◌, text_eq, text_beq_iff,
  lookup, insert, lookup-insert, arith, Bool-cases, inl, inr,
}
use graphloom.Explain.Types.{ExplainabilityRunId, ExplainabilityRun}
use graphloom.Explain.Queries.{RunCompletion}
use graphloom.Explain.Store.{MemoryState, complete_run}
use graphloom.Explain.Store.Invariant.{IsConsistent}
use graphloom.Explain.Store.Complete.{complete_run_cases, complete_run-IsConsistent, finish}
use graphloom.Explain.LiveHub.{LiveHub, close_run}
use graphloom.Explain.RecorderState.{Recorder, finishing, finished, member}
use graphloom.Explain.Recorder.{on_hub, finish_run_for_writer, complete_run_for_writer}
use graphloom.Explain.Recorder.Invariant.{IsAdmitted, AreReplayed, IsSound}
use graphloom.Explain.Recorder.Admitted.{IsAdmitted-mono}
use graphloom.Explain.Recorder.Gates.{on_hub_close}

module _ {Event : Type 0} where
  -- A run is finished: its end is received.
  abbrev pub ended : ExplainabilityRunId → Recorder Event → Recorder Event
  ended run_id s = record s {
    finished_runs = run_id ∷ s.finished_runs;
    gates = insert run_id finished s.gates;
    live_hub = on_hub (close_run run_id) s.live_hub;
  }

  pub finish_run_for_writer_cases :
      (run_id : ExplainabilityRunId) (s : Recorder Event)
      → ((finish_run_for_writer run_id s).1 ≡ s)
        ⊎ (lookup run_id s.gates ≡ some finishing)
          × ((finish_run_for_writer run_id s).1 ≡ ended run_id s)
  unfolding finish_run_for_writer
  finish_run_for_writer_cases run_id s = ground arith

  ended-IsSound :
      (run_id : ExplainabilityRunId) (s : Recorder Event)
      → lookup run_id s.gates ≡ some finishing
      → IsAdmitted s.gates (run_id ∷ s.finished_runs) s.queue
      → IsSound s
      → IsSound (ended run_id s)
  ended-IsSound run_id s found rest i =
      let key = λ (other : ExplainabilityRunId). lookup-insert run_id other finished s.gates in
      record {
        base = record {
          consistent = i.base.consistent;
          registered = λ other e.
              let g =
                i.base.registered other
                  (ground (arith, e, found, key other, text_beq_iff run_id other)) in
              record {
                run = g.run;
                stored = g.stored;
                counted = g.counted;
                live = λ unfinished. g.live (ground (arith, unfinished));
              };
          unregistered = λ other e. i.base.unregistered other (ground (arith, e, key other));
          finished_gate = λ other e.
              ground (arith, e, i.base.finished_gate other, key other, text_beq_iff run_id other);
          finished_known = λ other e.
              ground (arith, e, i.base.finished_known other, key other, text_beq_iff run_id other);
        };
        queued = record {
          admitted =
              IsAdmitted-mono s.gates (insert run_id finished s.gates) (run_id ∷ s.finished_runs)
                (run_id ∷ s.finished_runs) (λ other e. ground (arith, e, key other)) (λ other e. e)
                s.queue rest;
          open_gate = λ other e. i.queued.open_gate other (ground (arith, e, key other));
          no_gate = λ other e. i.queued.no_gate other (ground (arith, e, key other));
        };
        verdict = i.verdict;
        replayed = on_hub_close run_id s.live_hub s.store i.replayed;
      }

  pub finish_run_for_writer-IsSound :
      (run_id : ExplainabilityRunId) (s : Recorder Event)
      → IsAdmitted s.gates (run_id ∷ s.finished_runs) s.queue
      → IsSound s
      → IsSound (finish_run_for_writer run_id s).1
  finish_run_for_writer-IsSound run_id s rest i = elim (finish_run_for_writer_cases run_id s) [
    | inl same ↦ subst IsSound (sym same) i
    | inr (found, done) ↦ subst IsSound (sym done) (ended-IsSound run_id s found rest i)
  ]

  -- What is written to the runs leaves the logs.
  write_runs-AreReplayed :
      (store : MemoryState Event) (runs : List (ExplainabilityRunId × ExplainabilityRun))
      (hub : Option (LiveHub Event))
      → AreReplayed hub store
      → AreReplayed hub (record store { runs = runs })
  write_runs-AreReplayed store runs none h = tt
  write_runs-AreReplayed store runs (some hub) h = λ id channel e.
      let before = h id channel e in record { whole = before.whole; last = before.last }

  -- A run is completed in the store.
  abbrev completed : RunCompletion → ExplainabilityRun → Recorder Event → Recorder Event
  completed c run s = record s {
    store = record s.store { runs = insert c.run_id (finish c run) s.store.runs };
  }

  pub complete_run_for_writer_cases :
      (c : RunCompletion) (s : Recorder Event)
      → ((complete_run_for_writer c s).1 ≡ s)
        ⊎ (member c.run_id s.finished_runs ≡ true)
          × ((complete_run_for_writer c s).1 ≡ record s { store = (complete_run c s.store).1 })
  unfolding complete_run_for_writer
  complete_run_for_writer_cases c s = ground arith

  completed-IsSound :
      (c : RunCompletion) (run : ExplainabilityRun) (s : Recorder Event)
      → member c.run_id s.finished_runs ≡ true
      → lookup c.run_id s.store.runs ≡ some run
      → IsConsistent (completed c run s).store
      → IsSound s
      → IsSound (completed c run s)
  completed-IsSound c run s over found consistent i = record {
    base = record {
      consistent = consistent;
      registered = λ other e.
          let g = i.base.registered other e in
          elim (Bool-cases (c.run_id == other)) [
            | inr apart ↦ record {
              run = g.run;
              stored = ground (
                arith,
                apart,
                lookup-insert c.run_id other (finish c run) s.store.runs,
                g.stored,
              );
              counted = g.counted;
              live = g.live;
            }
            | inl same ↦ record {
              run = finish c run;
              stored =
                  ground (arith, same, lookup-insert c.run_id other (finish c run) s.store.runs);
              counted =
                  ground (arith, same, found, g.stored, g.counted, text_beq_iff c.run_id other);
              live =
                  λ unfinished. ground (arith, same, over, unfinished, text_beq_iff c.run_id other);
            }
          ];
      unregistered = i.base.unregistered;
      finished_gate = i.base.finished_gate;
      finished_known = i.base.finished_known;
    };
    queued = i.queued;
    verdict = i.verdict;
    replayed =
        write_runs-AreReplayed s.store (insert c.run_id (finish c run) s.store.runs) s.live_hub
          i.replayed;
  }

  pub complete_run_for_writer-IsSound :
      (c : RunCompletion) (s : Recorder Event) → IsSound s → IsSound (complete_run_for_writer c s).1
  complete_run_for_writer-IsSound c s i = elim (complete_run_for_writer_cases c s) [
    | inl same ↦ subst IsSound (sym same) i
    | inr (over, done) ↦ elim (complete_run_cases c s.store) [
      | inl kept ↦ subst IsSound (sym (done ∙ ap (λ x. record s { store = x }) kept)) i
      | inr (run, found, ends, open_run, time, stored) ↦
          let now : (complete_run c s.store).1 ≡ (completed c run s).store = ap (λ p. p.1) stored in
          subst IsSound (sym (done ∙ ap (λ x. record s { store = x }) now)) (
            completed-IsSound c run s over found
              (subst IsConsistent now (complete_run-IsConsistent c s.store i.base.consistent)) i)
    ]
  ]

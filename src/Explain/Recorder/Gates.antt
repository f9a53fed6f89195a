-- ===== src/Explain/Recorder/Gates.antt =====
-- A gate that leaves the active state, and the channels that are closed.
use graphloom.Base.{
  ◌≡◌, ◌≢◌, refl, Option, none, some, List, [], ◌∷◌, map, text_eq, text_beq_iff, lookup, insert,
  lookup-insert, lookup-remove, arith,
}
use graphloom.Explain.Types.{ExplainabilityRunId}
use graphloom.Explain.Store.{MemoryState}
use graphloom.Explain.LiveHub.{LiveHub, close_run}
use graphloom.Explain.RecorderState.{
  Recorder, RunState, active, finishing, finished, failed_writer, failed_closed, fail_finishing,
}
use graphloom.Explain.Recorder.{on_hub, close_each, close_live_runs}
use graphloom.Explain.Recorder.Invariant.{AreReplayed, IsSound}
use graphloom.Explain.Recorder.Admitted.{IsAdmitted-mono}

pub lookup-fail_finishing :
    (id : ExplainabilityRunId) (gates : List (ExplainabilityRunId × RunState))
    → lookup id (map fail_finishing gates)
      ≡ elim (lookup id gates) [ none ↦ none | some gate ↦ some (fail_finishing (id, gate)).1 ]
unfolding lookup
lookup-fail_finishing id [] = refl
lookup-fail_finishing id ((other, active) ∷ gates) = ground (arith, lookup-fail_finishing id gates)
lookup-fail_finishing id ((other, finishing) ∷ gates) =
    ground (arith, lookup-fail_finishing id gates)
lookup-fail_finishing id ((other, finished) ∷ gates) =
    ground (arith, lookup-fail_finishing id gates)
lookup-fail_finishing id ((other, failed_writer) ∷ gates) =
    ground (arith, lookup-fail_finishing id gates)
lookup-fail_finishing id ((other, failed_closed) ∷ gates) =
    ground (arith, lookup-fail_finishing id gates)

module _ {Event : Type 0} where
  pub close_run-AreReplayed :
      (id : ExplainabilityRunId) (hub : LiveHub Event) (store : MemoryState Event)
      → AreReplayed (some hub) store
      → AreReplayed (some (close_run id hub)) store
  unfolding close_run
  close_run-AreReplayed id hub store h =
      λ other channel e. h other channel (ground (arith, e, lookup-remove id other hub))

  close_each-AreReplayed :
      (gates : List (ExplainabilityRunId × RunState)) (hub : LiveHub Event)
      (store : MemoryState Event)
      → AreReplayed (some hub) store
      → AreReplayed (some (close_each gates hub)) store
  close_each-AreReplayed [] hub store h = h
  close_each-AreReplayed ((id, gate) ∷ gates) hub store h =
      close_each-AreReplayed gates (close_run id hub) store (close_run-AreReplayed id hub store h)

  pub on_hub_close :
      (id : ExplainabilityRunId) (hub : Option (LiveHub Event)) (store : MemoryState Event)
      → AreReplayed hub store
      → AreReplayed (on_hub (close_run id) hub) store
  on_hub_close id none store h = tt
  on_hub_close id (some hub) store h = close_run-AreReplayed id hub store h

  pub close_live_runs-AreReplayed :
      (s : Recorder Event) → IsSound s → AreReplayed (close_live_runs s) s.store
  unfolding close_live_runs
  close_live_runs-AreReplayed s i = close_hub s.live_hub i.replayed
    where
      close_hub :
          (hub : Option (LiveHub Event))
          → AreReplayed hub s.store
          → AreReplayed (on_hub (close_each s.gates) hub) s.store
      close_hub none h = tt
      close_hub (some hub) h = close_each-AreReplayed s.gates hub s.store h

  -- The gate of a run that has not finished takes another state than active.
  pub set_gate-IsSound :
      (id : ExplainabilityRunId) (was now : RunState) (s : Recorder Event)
      → lookup id s.gates ≡ some was
      → was ≢ finished
      → now ≢ active
      → now ≢ finished
      → IsSound s
      → IsSound (record s { gates = insert id now s.gates })
  set_gate-IsSound id was now s found unfinished inactive open_still i = record {
    base = record {
      consistent = i.base.consistent;
      registered = λ other e.
          i.base.registered other
            (ground (arith, e, found, lookup-insert id other now s.gates, text_beq_iff id other));
      unregistered = λ other e.
          i.base.unregistered other (ground (arith, e, lookup-insert id other now s.gates));
      finished_gate = λ other e. ground (
        arith,
        i.base.finished_gate other e,
        found,
        lookup-insert id other now s.gates,
        text_beq_iff id other,
      );
      finished_known = λ other e.
          i.base.finished_known other (ground (arith, e, lookup-insert id other now s.gates));
    };
    queued = record {
      admitted =
          IsAdmitted-mono s.gates (insert id now s.gates) s.finished_runs s.finished_runs
            (λ other e. ground (arith, e, lookup-insert id other now s.gates)) (λ other e. e)
            s.queue i.queued.admitted;
      open_gate = λ other e.
          i.queued.open_gate other (ground (arith, e, lookup-insert id other now s.gates));
      no_gate =
          λ other e. i.queued.no_gate other (ground (arith, e, lookup-insert id other now s.gates));
    };
    verdict = i.verdict;
    replayed = i.replayed;
  }

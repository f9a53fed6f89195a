-- ===== src/Explain/Recorder/Acts.antt =====
-- The interleavings of the calls with the rounds of the writer.
use graphloom.Base.{
  ◌≡◌, refl, Bool, true, false, ◌&&◌, Option, none, some, List, [], ◌∷◌, ◌++◌, map, ◌==◌, text_eq,
  lookup, if◌then◌else◌, is_ok, arith,
}
use graphloom.Explain.Types.{ExplainabilityRunId, ExplainabilityRun, ExplainabilityRecord}
use graphloom.Explain.Queries.{RunCompletion}
use graphloom.Explain.Store.{MemoryState, log_of}
use graphloom.Explain.Store.Invariant.{empty-IsConsistent}
use graphloom.Explain.LiveHub.{LiveHub}
use graphloom.Explain.RecorderState.{
  Recorder, WriterStatus, Command, record_command, RecorderError, sequence_overflow,
}
use graphloom.Explain.Recorder.{
  emit, finish_run, request_create, request_complete, shutdown, write_next, new_recorder,
}
use graphloom.Explain.Recorder.Invariant.{AreReplayed, IsSound, failure_of}
use graphloom.Explain.Recorder.Calls.{
  emit-IsSound, finish_run-IsSound, request_create-IsSound, request_complete-IsSound,
  shutdown-IsSound,
}
use graphloom.Explain.Recorder.Commands.{write_next-IsSound}

pub data Act (Event : Type 0) : Type 0 where
  emit_act : ExplainabilityRecord Event → Act Event
  finish_act : ExplainabilityRunId → Act Event
  create_act : ExplainabilityRun → Act Event
  complete_act : RunCompletion → Act Event
  shutdown_act writer_act : Act Event

pub failure_of-overflow :
    (w : WriterStatus) (e : RecorderError) → failure_of w ≡ some e → e ≡ sequence_overflow
failure_of-overflow w e h = ground (arith, h)

module _ {Event : Type 0} where
  abbrev pub act : Act Event → Recorder Event → Recorder Event
  act (emit_act r) s = (emit r s).1
  act (finish_act run_id) s = (finish_run run_id s).1
  act (create_act run) s = (request_create run s).1
  act (complete_act c) s = (request_complete c s).1
  act shutdown_act s = shutdown s
  act writer_act s = write_next s

  abbrev pub acts : List (Act Event) → Recorder Event → Recorder Event
  acts [] s = s
  acts (a ∷ calls) s = acts calls (act a s)

  -- The live hub of a new recorder, if it has one.
  abbrev pub hub_of : Bool → Option (LiveHub Event)
  hub_of true = some []
  hub_of false = none

  -- The records of a run that emit accepts.
  abbrev pub accepted_by :
      ExplainabilityRunId → Act Event → Recorder Event → List (ExplainabilityRecord Event)
  accepted_by id (emit_act r) s = if is_ok (emit r s).0 && r.run_id == id then r ∷ [] else []
  accepted_by id _ s = []

  abbrev pub accepted :
      ExplainabilityRunId → List (Act Event) → Recorder Event → List (ExplainabilityRecord Event)
  accepted id [] s = []
  accepted id (a ∷ calls) s = accepted_by id a s ++ accepted id calls (act a s)

  -- The records of a run that are sent to the writer and not yet received.
  abbrev pub waiting :
      ExplainabilityRunId → List (Command Event) → List (ExplainabilityRecord Event)
  waiting id [] = []
  waiting id (record_command r ∷ queue) =
      if r.run_id == id then r ∷ waiting id queue else waiting id queue
  waiting id (_ ∷ queue) = waiting id queue

  -- The records of a run that the store holds.
  abbrev pub persisted_records :
      ExplainabilityRunId → Recorder Event → List (ExplainabilityRecord Event)
  persisted_records id s = map (λ e. e.record_part) (log_of id s.store)

  pub act-IsSound : (a : Act Event) (s : Recorder Event) → IsSound s → IsSound (act a s)
  act-IsSound (emit_act r) s i = emit-IsSound r s i
  act-IsSound (finish_act run_id) s i = finish_run-IsSound run_id s i
  act-IsSound (create_act run) s i = request_create-IsSound run s i
  act-IsSound (complete_act c) s i = request_complete-IsSound c s i
  act-IsSound shutdown_act s i = shutdown-IsSound s i
  act-IsSound writer_act s i = write_next-IsSound s i

  pub acts-IsSound :
      (calls : List (Act Event)) (s : Recorder Event) → IsSound s → IsSound (acts calls s)
  acts-IsSound [] s i = i
  acts-IsSound (a ∷ calls) s i = acts-IsSound calls (act a s) (act-IsSound a s i)

  hub_of-AreReplayed : (live : Bool) (s : MemoryState Event) → AreReplayed (hub_of live) s
  unfolding lookup
  hub_of-AreReplayed true s = λ id channel e. cc
  hub_of-AreReplayed false s = tt

  pub new_recorder-IsSound : (live : Bool) → IsSound (new_recorder (hub_of live))
  unfolding lookup
  new_recorder-IsSound live = record {
    base = record {
      consistent = empty-IsConsistent;
      registered = λ id e. cc;
      unregistered = λ id e. refl;
      finished_gate = λ id e. cc;
      finished_known = λ id e. cc;
    };
    queued = record { admitted = tt; open_gate = λ id e. tt; no_gate = λ id e. tt };
    verdict = refl;
    replayed = hub_of-AreReplayed live (record { runs = []; events = [] });
  }

  pub writer_failure :
      (live : Bool) (calls : List (Act Event))
      → (acts calls (new_recorder (hub_of live))).failure
        ≡ failure_of (acts calls (new_recorder (hub_of live))).writer_status
  writer_failure live calls =
      (acts-IsSound calls (new_recorder (hub_of live)) (new_recorder-IsSound live)).verdict

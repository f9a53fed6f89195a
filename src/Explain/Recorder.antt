-- ===== src/Explain/Recorder.antt =====
-- explainability/store_recorder.rs over the in-memory store and the live hub. The semaphores make
-- each call of the sink and each command of the writer one step, so that a step is a function of the
-- recorder's state. The queue holds what is sent to the writer and not yet received; a call that waits
-- for room in it is a step that has not happened yet.
pub mod Invariant
pub mod Persist
pub mod Writer
pub mod Admitted
pub mod Gates
pub mod Registering
pub mod Ending
pub mod Commands
pub mod Calls
pub mod Acts
pub mod Delivery
pub mod Refinement
pub mod Barrier
pub mod Replay
pub mod Draining
pub mod Flush
mod Examples
use graphloom.Base.{
  ℕ, Bool, true, false, not, Option, none, some, List, [], ◌∷◌, ◌++◌, map, Result, ok, err, ◌==◌,
  text_eq, lookup, insert, contains_key, any, if◌then◌else◌, checked_add,
}
use graphloom.Explain.Types.{
  ExplainabilityRunId, ExplainabilityRun, ExplainabilityRecord, ExplainabilityEnvelope,
  ContractError, envelope_new,
}
use graphloom.Explain.Queries.{StoreError, RunCompletion}
use graphloom.Explain.Store.{MemoryState, create_run, append_events, complete_run}
use graphloom.Explain.LiveHub.{LiveHub, register_run, publish, close_run}
use graphloom.Explain.RecorderState.{
  Command, Recorder, RecorderError, RunState, SinkError, WriterStatus, active, append, closed,
  closing, complete, complete_command, create, create_command, envelope_failed, fail_finishing,
  failed, failed_closed, failed_state, failed_writer, finish_command, finished, finishing, is_alive,
  is_running, member, record_after_finish, record_command, record_not_accepted,
  run_already_registered, run_finalization_failed, run_not_finalized, run_not_registered, running,
  sequence_overflow, shutdown_command, sink_closed, store_failed, writer_failed,
}

module _ {Event : Type 0} where
  abbrev pub on_hub :
      (LiveHub Event → LiveHub Event) → Option (LiveHub Event) → Option (LiveHub Event)
  on_hub f none = none
  on_hub f (some hub) = some (f hub)

  unfoldable pub writer_error : Recorder Event → SinkError
  writer_error s = elim s.writer_status [ failed ↦ writer_failed | _ ↦ sink_closed ]

  abbrev pub send : Command Event → Recorder Event → Recorder Event
  send command s = record s { queue = s.queue ++ command ∷ [] }

  -- `ExplainabilitySink::emit`
  unfoldable pub emit :
      ExplainabilityRecord Event → Recorder Event → Result SinkError (Unit {0}) × Recorder Event
  emit r s = elim (lookup r.run_id s.gates) [
    | none ↦ (err record_not_accepted, s)
    | some gate ↦
        if is_running s.writer_status
        then elim gate [
          | active ↦ (ok tt, send (record_command r) s)
          | _ ↦ (err record_not_accepted, s)
        ]
        else (err (writer_error s), s)
  ]

  -- `ExplainabilitySink::finish_run` up to its answer, or up to its waiting for the writer.
  unfoldable pub finish_run :
      ExplainabilityRunId → Recorder Event → Option (Result SinkError (Unit {0})) × Recorder Event
  finish_run run_id s = elim (lookup run_id s.gates) [
    | none ↦ (some (err run_finalization_failed), s)
    | some active ↦
        if is_running s.writer_status
        then (
          none,
          send (finish_command run_id) (record s { gates = insert run_id finishing s.gates }),
        )
        else (
          some (err (writer_error s)),
          record s { gates = insert run_id (failed_state (writer_error s)) s.gates },
        )
    | some finishing ↦ (none, s)
    | some finished ↦ (some (ok tt), s)
    | some _ ↦ (some (err run_finalization_failed), s)
  ]

  -- The calls of the owner, up to their waiting for the writer.
  unfoldable pub request_create :
      ExplainabilityRun → Recorder Event → Result RecorderError (Unit {0}) × Recorder Event
  request_create run s =
      if is_running s.writer_status
      then (ok tt, send (create_command run) s)
      else (err RecorderError.shutdown_command, s)

  unfoldable pub request_complete :
      RunCompletion → Recorder Event → Result RecorderError (Unit {0}) × Recorder Event
  request_complete completion s = elim (lookup completion.run_id s.gates) [
    | none ↦ (err run_not_registered, s)
    | some finished ↦
        if is_running s.writer_status
        then (ok tt, send (complete_command completion) s)
        else (err RecorderError.shutdown_command, s)
    | some _ ↦ (err run_not_finalized, s)
  ]

  unfoldable pub shutdown : Recorder Event → Recorder Event
  shutdown s =
      if is_running s.writer_status
      then send Command.shutdown_command (record s { writer_status = closing })
      else s

  unfoldable pub create_run_for_writer :
      ExplainabilityRun → Recorder Event → Result RecorderError (Unit {0}) × Recorder Event
  create_run_for_writer run s =
      if contains_key run.run_id s.gates
      then (err run_already_registered, s)
      else elim (create_run run s.store).0 [
        | err e ↦ (err (store_failed create e), record s { store = (create_run run s.store).1 })
        | ok _ ↦ (
          ok tt,
          record s {
            store = (create_run run s.store).1;
            live_hub = on_hub (register_run run.run_id) s.live_hub;
            gates = insert run.run_id active s.gates;
          },
        )
      ]

  -- `state.sequences.get(&run_id).copied().unwrap_or(0)`
  abbrev pub sequence_of : ExplainabilityRunId → Recorder Event → ℕ
  sequence_of run_id s = elim (lookup run_id s.sequences) [ none ↦ 0 | some n ↦ n ]

  -- The append of one envelope, and what is committed after it.
  unfoldable pub persist_envelope :
      ExplainabilityEnvelope Event
      → Recorder Event
      → Result RecorderError (Unit {0}) × Recorder Event
  persist_envelope envelope s = elim (append_events (envelope ∷ []) s.store).0 [
    | err e ↦ (
      err (store_failed append e),
      record s { store = (append_events (envelope ∷ []) s.store).1 },
    )
    | ok _ ↦ (
      ok tt,
      record s {
        store = (append_events (envelope ∷ []) s.store).1;
        sequences = insert envelope.record_part.run_id envelope.sequence s.sequences;
        live_hub = on_hub (publish envelope) s.live_hub;
      },
    )
  ]

  unfoldable pub persist_record :
      ExplainabilityRecord Event → Recorder Event → Result RecorderError (Unit {0}) × Recorder Event
  persist_record r s =
      if not (contains_key r.run_id s.gates)
      then (err run_not_registered, s)
      else if member r.run_id s.finished_runs
      then (err record_after_finish, s)
      else elim (checked_add (sequence_of r.run_id s) 1) [
        | none ↦ (err sequence_overflow, s)
        | some sequence ↦ elim (envelope_new sequence r) [
          | err e ↦ (err (envelope_failed e), s)
          | ok envelope ↦ persist_envelope envelope s
        ]
      ]

  -- The gate that the command carries is the one of the run, since no gate is ever replaced.
  unfoldable pub finish_run_for_writer :
      ExplainabilityRunId → Recorder Event → Result SinkError (Unit {0}) × Recorder Event
  finish_run_for_writer run_id s = elim (lookup run_id s.gates) [
    | some finishing ↦ (
      ok tt,
      record s {
        finished_runs = run_id ∷ s.finished_runs;
        gates = insert run_id finished s.gates;
        live_hub = on_hub (close_run run_id) s.live_hub;
      },
    )
    | _ ↦ (err run_finalization_failed, s)
  ]

  unfoldable pub complete_run_for_writer :
      RunCompletion → Recorder Event → Result RecorderError (Unit {0}) × Recorder Event
  complete_run_for_writer completion s =
      if member completion.run_id s.finished_runs
      then elim (complete_run completion s.store).0 [
        | err e ↦ (
          err (store_failed complete e),
          record s { store = (complete_run completion s.store).1 },
        )
        | ok _ ↦ (ok tt, record s { store = (complete_run completion s.store).1 })
      ]
      else (err run_not_finalized, s)

  abbrev pub close_each : List (ExplainabilityRunId × RunState) → LiveHub Event → LiveHub Event
  close_each [] hub = hub
  close_each (gate ∷ gates) hub = close_each gates (close_run gate.0 hub)

  unfoldable pub close_live_runs : Recorder Event → Option (LiveHub Event)
  close_live_runs s = on_hub (close_each s.gates) s.live_hub

  -- The writer ends with an error, and its guard is dropped.
  unfoldable pub end_failed : RecorderError → Recorder Event → Recorder Event
  end_failed e s = record s {
    writer_status = failed;
    failure = some e;
    gates = map fail_finishing s.gates;
    live_hub = close_live_runs s;
  }

  unfoldable pub run_command : Command Event → Recorder Event → Recorder Event
  run_command (create_command run) s = (create_run_for_writer run s).1
  run_command (record_command r) s = elim (persist_record r s).0 [
    | ok _ ↦ (persist_record r s).1
    | err e ↦ end_failed e (persist_record r s).1
  ]
  run_command (finish_command run_id) s = (finish_run_for_writer run_id s).1
  run_command (complete_command completion) s = (complete_run_for_writer completion s).1
  run_command shutdown_command s = record s { writer_status = closed; live_hub = close_live_runs s }

  -- One round of the loop of run_writer, while the writer lives.
  unfoldable pub write_next : Recorder Event → Recorder Event
  write_next s = elim s.queue [
    | [] ↦ s
    | command ∷ queue ↦
        if is_alive s.writer_status then run_command command (record s { queue = queue }) else s
  ]

  -- A recorder on an empty store.
  abbrev pub new_recorder : Option (LiveHub Event) → Recorder Event
  new_recorder live_hub = record {
    queue = [];
    writer_status = running;
    gates = [];
    sequences = [];
    finished_runs = [];
    store = record { runs = []; events = [] };
    live_hub = live_hub;
    failure = none;
  }

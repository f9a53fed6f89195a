-- ===== src/Explain/RecorderState.antt =====
-- The state, the commands and the errors of explainability/store_recorder.rs.
use graphloom.Base.{ℕ, Bool, true, false, Option, List, ◌==◌, text_eq, any}
use graphloom.Explain.Types.{
  ExplainabilityRunId, ExplainabilityRun, ExplainabilityRecord, ContractError,
}
use graphloom.Explain.Queries.{StoreError, RunCompletion}
use graphloom.Explain.Store.{MemoryState}
use graphloom.Explain.LiveHub.{LiveHub}

pub data WriterStatus : Type 0 where
  running closing closed failed : WriterStatus

pub data RunState : Type 0 where
  active finishing finished failed_writer failed_closed : RunState

pub data StoreOperation : Type 0 where
  create append complete : StoreOperation

-- `StoreExplainabilityError`, less the failures of tokio tasks.
pub data RecorderError : Type 0 where
  run_already_registered run_not_registered run_not_finalized : RecorderError
  envelope_failed : ContractError → RecorderError
  store_failed : StoreOperation → StoreError → RecorderError
  sequence_overflow record_after_finish shutdown_command : RecorderError

-- The variants of `ExplainabilitySinkError` that this sink returns.
pub data SinkError : Type 0 where
  record_not_accepted sink_closed writer_failed run_finalization_failed : SinkError

pub data Command (Event : Type 0) : Type 0 where
  create_command : ExplainabilityRun → Command Event
  record_command : ExplainabilityRecord Event → Command Event
  finish_command : ExplainabilityRunId → Command Event
  complete_command : RunCompletion → Command Event
  shutdown_command : Command Event

-- The recorder with its writer: `failure` is the error that the writer task ended with.
pub record Recorder (Event : Type 0) : Type 0 where
  pub queue : List (Command Event)
  pub writer_status : WriterStatus
  pub gates : List (ExplainabilityRunId × RunState)
  pub sequences : List (ExplainabilityRunId × ℕ)
  pub finished_runs : List ExplainabilityRunId
  pub store : MemoryState Event
  pub live_hub : Option (LiveHub Event)
  pub failure : Option RecorderError

abbrev pub is_running : WriterStatus → Bool
is_running running = true
is_running _ = false

abbrev pub member : ExplainabilityRunId → List ExplainabilityRunId → Bool
member run_id ids = any (λ x. x == run_id) ids

-- The state of a gate after an error of `finish_run` or the end of the writer.
abbrev pub failed_state : SinkError → RunState
failed_state sink_closed = failed_closed
failed_state _ = failed_writer

-- `if gate.state() == RUN_FINISHING { gate.finish(&WriterFailed) }`
abbrev pub fail_finishing : ExplainabilityRunId × RunState → ExplainabilityRunId × RunState
fail_finishing (run_id, finishing) = (run_id, failed_writer)
fail_finishing (run_id, gate) = (run_id, gate)

abbrev pub is_alive : WriterStatus → Bool
is_alive running = true
is_alive closing = true
is_alive _ = false

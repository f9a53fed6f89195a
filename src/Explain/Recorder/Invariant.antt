-- ===== src/Explain/Recorder/Invariant.antt =====
-- The invariant of the recorder: what its gates, its sequences and its queue say of the store.
use graphloom.Base.{
  ℕ, ◌≡◌, Bool, true, false, Option, none, some, List, [], ◌∷◌, length, lookup, text_eq,
  contains_key, ◌==◌,
}
use graphloom.Explain.Types.{ExplainabilityRunId, ExplainabilityRun}
use graphloom.Explain.Queries.{is_terminal}
use graphloom.Explain.Store.{MemoryState, log_of}
use graphloom.Explain.Store.Invariant.{IsConsistent}
use graphloom.Explain.LiveHub.{LiveHub, LiveRunChannel}
use graphloom.Explain.RecorderState.{
  Recorder, WriterStatus, failed, RunState, active, finished, Command, create_command,
  record_command, finish_command, complete_command, shutdown_command, RecorderError,
  sequence_overflow, member,
}

-- The error that a writer of this status has ended with.
abbrev pub failure_of : WriterStatus → Option RecorderError
failure_of failed = some sequence_overflow
failure_of _ = none

module _ {Event : Type 0} where
  -- Every queued record belongs to a registered run that is not finished, and whose end is not queued
  -- before it. `ended` are the runs whose end the writer has seen by then.
  abbrev pub IsAdmitted :
      List (ExplainabilityRunId × RunState)
      → (ended : List ExplainabilityRunId) → List (Command Event)
      → Type 0
  IsAdmitted gates ended [] = Unit {0}
  IsAdmitted gates ended (record_command r ∷ queue) =
      (contains_key r.run_id gates ≡ true)
      × (member r.run_id ended ≡ false)
      × IsAdmitted gates ended queue
  IsAdmitted gates ended (finish_command run_id ∷ queue) = IsAdmitted gates (run_id ∷ ended) queue
  IsAdmitted gates ended (create_command run ∷ queue) = IsAdmitted gates ended queue
  IsAdmitted gates ended (complete_command completion ∷ queue) = IsAdmitted gates ended queue
  IsAdmitted gates ended (shutdown_command ∷ queue) = IsAdmitted gates ended queue

  -- No end of the run is queued.
  abbrev pub HasNoEnd : ExplainabilityRunId → List (Command Event) → Type 0
  HasNoEnd run_id [] = Unit {0}
  HasNoEnd run_id (finish_command other ∷ queue) =
      ((other == run_id) ≡ false) × HasNoEnd run_id queue
  HasNoEnd run_id (create_command run ∷ queue) = HasNoEnd run_id queue
  HasNoEnd run_id (record_command r ∷ queue) = HasNoEnd run_id queue
  HasNoEnd run_id (complete_command completion ∷ queue) = HasNoEnd run_id queue
  HasNoEnd run_id (shutdown_command ∷ queue) = HasNoEnd run_id queue

  -- A registered run is in the store with as many envelopes as the writer has counted, and it is not
  -- terminal before it is finished.
  pub record IsRegistered (id : ExplainabilityRunId) (store : MemoryState Event) (count : ℕ)
      (ended : Bool) : Type 0 where
    pub run : ExplainabilityRun
    pub stored : lookup id store.runs ≡ some run
    pub counted : run.event_count ≡ count
    pub live : ended ≡ false → is_terminal run.status ≡ false

  -- A channel holds the log of its run, and the sequence of its last envelope.
  pub record IsReplayed (id : ExplainabilityRunId) (channel : LiveRunChannel Event)
      (store : MemoryState Event) : Type 0 where
    pub whole : channel.sent ≡ log_of id store
    pub last : channel.last_sequence ≡ length (log_of id store)

  abbrev pub AreReplayed : Option (LiveHub Event) → MemoryState Event → Type 0
  AreReplayed none store = Unit {0}
  AreReplayed (some hub) store =
      (id : ExplainabilityRunId) (channel : LiveRunChannel Event)
      → lookup id hub ≡ some channel
      → IsReplayed id channel store

  -- What the gates and the sequences say of the store.
  pub record IsBase (store : MemoryState Event) (gates : List (ExplainabilityRunId × RunState))
      (sequences : List (ExplainabilityRunId × ℕ)) (finished_runs : List ExplainabilityRunId)
      : Type 0 where
    pub consistent : IsConsistent store
    pub registered :
        (id : ExplainabilityRunId)
        → contains_key id gates ≡ true
        → IsRegistered id store
            (elim (lookup id sequences) [ none ↦ 0 | some n ↦ n ])
            (member id finished_runs)
    pub unregistered :
        (id : ExplainabilityRunId) → contains_key id gates ≡ false → lookup id sequences ≡ none
    pub finished_gate :
        (id : ExplainabilityRunId)
        → member id finished_runs ≡ true
        → lookup id gates ≡ some finished
    pub finished_known :
        (id : ExplainabilityRunId)
        → lookup id gates ≡ some finished
        → member id finished_runs ≡ true

  -- What the gates say of the queue.
  pub record IsQueued (gates : List (ExplainabilityRunId × RunState))
      (finished_runs : List ExplainabilityRunId) (queue : List (Command Event)) : Type 0 where
    pub admitted : IsAdmitted gates finished_runs queue
    pub open_gate : (id : ExplainabilityRunId) → lookup id gates ≡ some active → HasNoEnd id queue
    pub no_gate : (id : ExplainabilityRunId) → lookup id gates ≡ none → HasNoEnd id queue

  pub record IsSound (s : Recorder Event) : Type 0 where
    pub base : IsBase s.store s.gates s.sequences s.finished_runs
    pub queued : IsQueued s.gates s.finished_runs s.queue
    pub verdict : s.failure ≡ failure_of s.writer_status
    pub replayed : AreReplayed s.live_hub s.store

-- ===== src/Explain/Recorder/Examples.antt =====
-- Runs of the recorder on small inputs, and the theorems at them.
use graphloom.Base.{
  ℕ, suc, ◌+◌, ◌≡◌, ◌⊎◌, refl, true, none, some, List, [], ◌∷◌, ◌++◌, length, drop, err, codes,
  lookup, insert, remove, text_beq, text_eq, find,
}
use graphloom.Explain.Types.{
  ExplainabilityRun, ExplainabilityRecord, ExplainabilityEnvelope, ExplainabilityRunStatus,
  ExplainabilityRunKind, envelope_new,
}
use graphloom.Explain.Queries.{RunCompletion, is_terminal, is_some, validate_create_run}
use graphloom.Explain.Store.{log_of, create_run, append_loop, append_events, complete_run}
use graphloom.Explain.LiveHub.{LiveRunChannel, register_run, publish, close_run, subscribe}
use graphloom.Explain.RecorderState.{Recorder, closed, record_not_accepted, sequence_overflow}
use graphloom.Explain.Recorder.{
  new_recorder, emit, finish_run, request_create, request_complete, shutdown, write_next,
  writer_error, create_run_for_writer, persist_envelope, persist_record, finish_run_for_writer,
  complete_run_for_writer, close_live_runs, run_command,
}
use graphloom.Explain.Recorder.Acts.{
  Act, emit_act, finish_act, create_act, complete_act, writer_act, acts, hub_of, accepted, waiting,
  persisted_records,
}
use graphloom.Explain.Recorder.Refinement.{accepted_stored}
use graphloom.Explain.Recorder.Barrier.{finished_stored}
use graphloom.Explain.Recorder.Replay.{subscribe_replay}
use graphloom.Explain.Recorder.Flush.{writes, shutdown_flushes}

abbrev run_a : ExplainabilityRun
run_a = record {
  run_id = codes "a";
  kind = ExplainabilityRunKind.query;
  status = ExplainabilityRunStatus.running;
  query = none;
  query_method = none;
  started_at = 5;
  completed_at = none;
  compatibility_profile = none;
  event_count = 0;
}

abbrev record_a : ℕ → ExplainabilityRecord ℕ
record_a n = record {
  run_id = codes "a";
  timestamp = 10 + n;
  span_id = codes "span";
  parent_span_id = none;
  event = n;
}

abbrev completion_a : RunCompletion
completion_a = record {
  run_id = codes "a";
  status = ExplainabilityRunStatus.completed;
  completed_at = 30;
}

-- A record comes too early, the run is registered and two records are emitted, one of which is written.
abbrev opening : List (Act ℕ)
opening =
    create_act run_a
    ∷ emit_act (record_a 0)
    ∷ writer_act
    ∷ emit_act (record_a 1)
    ∷ writer_act
    ∷ emit_act (record_a 2)
    ∷ []

-- Then the rest is written, the run ends, and a record comes too late.
abbrev ending : List (Act ℕ)
ending =
    writer_act
    ∷ finish_act (codes "a")
    ∷ emit_act (record_a 3)
    ∷ writer_act
    ∷ complete_act completion_a
    ∷ writer_act
    ∷ []

abbrev recorder_at : List (Act ℕ) → Recorder ℕ
recorder_at calls = acts calls (new_recorder (hub_of true))

opening_test : persisted_records (codes "a") (recorder_at opening) ≡ record_a 1 ∷ []
unfolding emit request_create request_complete finish_run shutdown write_next run_command
    create_run_for_writer persist_record persist_envelope finish_run_for_writer
    complete_run_for_writer close_live_runs create_run append_events append_loop complete_run
    validate_create_run envelope_new lookup insert remove text_beq is_terminal is_some register_run
    publish close_run subscribe writer_error find
opening_test = refl

late_test : (emit (record_a 3) (recorder_at (opening ++ ending))).0 ≡ err record_not_accepted
unfolding emit request_create request_complete finish_run shutdown write_next run_command
    create_run_for_writer persist_record persist_envelope finish_run_for_writer
    complete_run_for_writer close_live_runs create_run append_events append_loop complete_run
    validate_create_run envelope_new lookup insert remove text_beq is_terminal is_some register_run
    publish close_run subscribe writer_error find
late_test = refl

abbrev envelope_at : (sequence n : ℕ) → ExplainabilityEnvelope ℕ
envelope_at sequence n = record {
  schema_version = 1;
  sequence = sequence;
  record_part = record_a n;
}

abbrev channel_a : ℕ → List (ExplainabilityEnvelope ℕ) → LiveRunChannel ℕ
channel_a n sent = record { sent = sent; last_sequence = n }

accepted_stored_example :
    (lost : List (ExplainabilityRecord ℕ)) × (accepted
        (codes "a")
        opening
        (new_recorder (hub_of true))
      ≡ persisted_records (codes "a") (recorder_at opening)
        ++ (lost ++ waiting (codes "a") (recorder_at opening).queue))
    × ((lost ≡ []) ⊎ ((recorder_at opening).failure ≡ some sequence_overflow))
accepted_stored_example = accepted_stored true opening (codes "a")

accepted_test :
    accepted (codes "a") (opening ++ ending) (new_recorder (hub_of true))
    ≡ record_a 1 ∷ record_a 2 ∷ []
unfolding emit request_create request_complete finish_run shutdown write_next run_command
    create_run_for_writer persist_record persist_envelope finish_run_for_writer
    complete_run_for_writer close_live_runs create_run append_events append_loop complete_run
    validate_create_run envelope_new lookup insert remove text_beq is_terminal is_some register_run
    publish close_run subscribe writer_error find
accepted_test = refl

subscribe_replay_example :
    log_of (codes "a") (acts (writer_act ∷ []) (recorder_at opening)).store
    ≡ log_of (codes "a") (recorder_at opening).store
      ++ drop 1 (envelope_at 1 1 ∷ envelope_at 2 2 ∷ [])
unfolding emit request_create request_complete finish_run shutdown write_next run_command
    create_run_for_writer persist_record persist_envelope finish_run_for_writer
    complete_run_for_writer close_live_runs create_run append_events append_loop complete_run
    validate_create_run envelope_new lookup insert remove text_beq is_terminal is_some register_run
    publish close_run subscribe writer_error find
subscribe_replay_example =
    subscribe_replay opening (writer_act ∷ []) (codes "a")
      ((codes "a", channel_a 1 (envelope_at 1 1 ∷ [])) ∷ [])
      ((codes "a", channel_a 2 (envelope_at 1 1 ∷ envelope_at 2 2 ∷ [])) ∷ []) 1
      (channel_a 2 (envelope_at 1 1 ∷ envelope_at 2 2 ∷ [])) refl refl refl refl

shutdown_flushes_example :
    ((writes (suc (length (recorder_at opening).queue)) (shutdown (recorder_at opening))).failure
      ≡ some sequence_overflow)
    ⊎ ((writes
          (suc (length (recorder_at opening).queue))
          (shutdown (recorder_at opening))).writer_status
        ≡ closed)
      × (accepted (codes "a") opening (new_recorder (hub_of true))
          ≡ persisted_records
              (codes "a")
              (writes (suc (length (recorder_at opening).queue)) (shutdown (recorder_at opening))))
unfolding emit request_create request_complete finish_run shutdown write_next run_command
    create_run_for_writer persist_record persist_envelope finish_run_for_writer
    complete_run_for_writer close_live_runs create_run append_events append_loop complete_run
    validate_create_run envelope_new lookup insert remove text_beq is_terminal is_some register_run
    publish close_run subscribe writer_error find
shutdown_flushes_example = shutdown_flushes true opening (codes "a") refl

finished_stored_example :
    persisted_records (codes "a") (recorder_at (opening ++ ending))
    ≡ accepted (codes "a") (opening ++ ending) (new_recorder (hub_of true))
unfolding emit request_create request_complete finish_run shutdown write_next run_command
    create_run_for_writer persist_record persist_envelope finish_run_for_writer
    complete_run_for_writer close_live_runs create_run append_events append_loop complete_run
    validate_create_run envelope_new lookup insert remove text_beq is_terminal is_some register_run
    publish close_run subscribe writer_error find
finished_stored_example = finished_stored true (opening ++ ending) (codes "a") refl

-- ===== src/Explain/Recorder/Calls.antt =====
-- The calls of the sink and of the owner: every one keeps the invariant.
use graphloom.Base.{
  ◌≡◌, ◌≢◌, ◌⊎◌, sym, subst, true, false, none, some, List, [], ◌∷◌, ◌++◌, ok, text_eq, lookup,
  insert, lookup-insert, arith, inl, inr, is_ok,
}
use graphloom.Explain.Types.{ExplainabilityRunId, ExplainabilityRun, ExplainabilityRecord}
use graphloom.Explain.Queries.{RunCompletion}
use graphloom.Explain.RecorderState.{
  Recorder, active, finishing, finished, closing, Command, record_command, create_command,
  finish_command, complete_command, shutdown_command, SinkError, is_running, failed_state,
}
use graphloom.Explain.Recorder.{
  emit, finish_run, request_create, request_complete, shutdown, send, writer_error,
}
use graphloom.Explain.Recorder.Invariant.{IsAdmitted, HasNoEnd, IsSound}
use graphloom.Explain.Recorder.Admitted.{IsAdmitted-send, IsAdmitted-send_record, HasNoEnd-send}
use graphloom.Explain.Recorder.Gates.{set_gate-IsSound}

failed_state-inactive : (e : SinkError) → failed_state e ≢ active
failed_state-inactive e h = ground (arith, h)

failed_state-unfinished : (e : SinkError) → failed_state e ≢ finished
failed_state-unfinished e h = ground (arith, h)

module _ {Event : Type 0} where
  -- A command is sent that leaves the queue well-formed.
  pub send-IsSound :
      (command : Command Event) (s : Recorder Event)
      → IsAdmitted s.gates s.finished_runs (s.queue ++ command ∷ [])
      → ((id : ExplainabilityRunId)
          → (lookup id s.gates ≡ none) ⊎ (lookup id s.gates ≡ some active)
          → HasNoEnd id (command ∷ []))
      → IsSound s
      → IsSound (send command s)
  send-IsSound command s admitted last i = record {
    base = i.base;
    queued = record {
      admitted = admitted;
      open_gate =
          λ id e. HasNoEnd-send id command (last id (inr e)) s.queue (i.queued.open_gate id e);
      no_gate = λ id e. HasNoEnd-send id command (last id (inl e)) s.queue (i.queued.no_gate id e);
    };
    verdict = i.verdict;
    replayed = i.replayed;
  }

  -- What emit does: it sends the record to a writer that runs, if the gate of the run is active.
  pub emit_cases :
      (r : ExplainabilityRecord Event) (s : Recorder Event)
      → ((emit r s).1 ≡ s) × (is_ok (emit r s).0 ≡ false)
        ⊎ (lookup r.run_id s.gates ≡ some active)
          × (is_running s.writer_status ≡ true)
          × (emit r s ≡ (ok tt, send (record_command r) s))
  unfolding emit
  emit_cases r s = ground arith

  pub emit-IsSound :
      (r : ExplainabilityRecord Event) (s : Recorder Event) → IsSound s → IsSound (emit r s).1
  emit-IsSound r s i = elim (emit_cases r s) [
    | inl (same, refused) ↦ subst IsSound (sym same) i
    | inr (open_gate, running_now, sent) ↦
        subst (λ p. IsSound p.1) (sym sent)
          (send-IsSound (record_command r) s
            (IsAdmitted-send_record s.gates s.finished_runs r (ground (arith, open_gate))
              (ground (arith, open_gate, i.base.finished_gate r.run_id)) s.queue
              (i.queued.open_gate r.run_id open_gate) i.queued.admitted)
            (λ id e. tt) i)
  ]

  pub finish_run_cases :
      (run_id : ExplainabilityRunId) (s : Recorder Event)
      → ((finish_run run_id s).1 ≡ s)
        ⊎ (lookup run_id s.gates ≡ some active)
          × (((finish_run run_id s).1
                ≡ send
                    (finish_command run_id)
                    (record s { gates = insert run_id finishing s.gates }))
              ⊎ ((finish_run run_id s).1
                  ≡ record s { gates = insert run_id (failed_state (writer_error s)) s.gates }))
  unfolding finish_run
  finish_run_cases run_id s = ground arith

  pub finish_run-IsSound :
      (run_id : ExplainabilityRunId) (s : Recorder Event)
      → IsSound s
      → IsSound (finish_run run_id s).1
  finish_run-IsSound run_id s i = elim (finish_run_cases run_id s) [
    | inl same ↦ subst IsSound (sym same) i
    | inr (found, inr failed_now) ↦ subst IsSound (sym failed_now) (
        set_gate-IsSound run_id active (failed_state (writer_error s)) s found (λ h. cc)
          (failed_state-inactive (writer_error s)) (failed_state-unfinished (writer_error s)) i)
    | inr (found, inl sent) ↦
        let j = set_gate-IsSound run_id active finishing s found (λ h. cc) (λ h. cc) (λ h. cc) i in
        subst IsSound (sym sent) (
          send-IsSound (finish_command run_id)
            (record s { gates = insert run_id finishing s.gates })
            (IsAdmitted-send (insert run_id finishing s.gates) s.finished_runs
              (finish_command run_id) (λ over. tt) s.queue j.queued.admitted)
            (λ id e. (ground (arith, e, lookup-insert run_id id finishing s.gates), tt)) j)
  ]

  -- A command that is no record and no end of a run.
  pub send_other :
      (command : Command Event) (s : Recorder Event)
      → ((over : List ExplainabilityRunId) → IsAdmitted s.gates over (command ∷ []))
      → ((id : ExplainabilityRunId) → HasNoEnd id (command ∷ []))
      → IsSound s
      → IsSound (send command s)
  send_other command s free none_ends i =
      send-IsSound command s
        (IsAdmitted-send s.gates s.finished_runs command free s.queue i.queued.admitted)
        (λ id e. none_ends id) i

  pub request_create_cases :
      (run : ExplainabilityRun) (s : Recorder Event)
      → ((request_create run s).1 ≡ s) ⊎ ((request_create run s).1 ≡ send (create_command run) s)
  unfolding request_create
  request_create_cases run s = ground arith

  pub request_complete_cases :
      (c : RunCompletion) (s : Recorder Event)
      → ((request_complete c s).1 ≡ s) ⊎ ((request_complete c s).1 ≡ send (complete_command c) s)
  unfolding request_complete
  request_complete_cases c s = ground arith

  pub shutdown_cases :
      (s : Recorder Event)
      → (shutdown s ≡ s)
        ⊎ (is_running s.writer_status ≡ true)
          × (shutdown s ≡ send shutdown_command (record s { writer_status = closing }))
  unfolding shutdown
  shutdown_cases s = ground arith

  pub request_create-IsSound :
      (run : ExplainabilityRun) (s : Recorder Event) → IsSound s → IsSound (request_create run s).1
  request_create-IsSound run s i = elim (request_create_cases run s) [
    | inl same ↦ subst IsSound (sym same) i
    | inr sent ↦
        subst IsSound (sym sent) (send_other (create_command run) s (λ over. tt) (λ id. tt) i)
  ]

  pub request_complete-IsSound :
      (c : RunCompletion) (s : Recorder Event) → IsSound s → IsSound (request_complete c s).1
  request_complete-IsSound c s i = elim (request_complete_cases c s) [
    | inl same ↦ subst IsSound (sym same) i
    | inr sent ↦
        subst IsSound (sym sent) (send_other (complete_command c) s (λ over. tt) (λ id. tt) i)
  ]

  pub shutdown-IsSound : (s : Recorder Event) → IsSound s → IsSound (shutdown s)
  shutdown-IsSound s i = elim (shutdown_cases s) [
    | inl same ↦ subst IsSound (sym same) i
    | inr (running_now, sent) ↦ subst IsSound (sym sent) (
        send_other shutdown_command (record s { writer_status = closing }) (λ over. tt) (λ id. tt)
          (record {
            base = i.base;
            queued = i.queued;
            verdict = ground (arith, running_now, i.verdict);
            replayed = i.replayed;
          }))
  ]

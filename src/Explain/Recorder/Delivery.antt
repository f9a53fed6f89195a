-- ===== src/Explain/Recorder/Delivery.antt =====
-- From emit to the store: the records that the recorder accepts are those that it stores, in order.
use graphloom.Base.{
  ◌≡◌, ◌∙◌, sym, ap, refl, true, false, none, List, [], ◌∷◌, ◌++◌, map, ◌==◌, text_eq, text_beq_iff,
  arith, Bool-cases, inl, inr, append-nil, append_assoc,
}
use mathlib.Core.List.{map-append}
use graphloom.Explain.Types.{ExplainabilityRunId, ExplainabilityRun, ExplainabilityRecord}
use graphloom.Explain.Queries.{RunCompletion}
use graphloom.Explain.Store.{MemoryState, log_of, complete_run}
use graphloom.Explain.Store.Complete.{complete_run_cases}
use graphloom.Explain.RecorderState.{
  Recorder, Command, record_command, create_command, finish_command, complete_command,
  shutdown_command, RecorderError, member,
}
use graphloom.Explain.Recorder.{end_failed, send}
use graphloom.Explain.Recorder.Persist.{persisted, next_envelope}
use graphloom.Explain.Recorder.Writer.{log_of-appended}
use graphloom.Explain.Recorder.Acts.{waiting, persisted_records}

module _ {Event : Type 0} where
  pub waiting-append :
      (id : ExplainabilityRunId) (xs ys : List (Command Event))
      → waiting id (xs ++ ys) ≡ waiting id xs ++ waiting id ys
  waiting-append id [] ys = refl
  waiting-append id (record_command r ∷ xs) ys = ground (arith, waiting-append id xs ys)
  waiting-append id (create_command r ∷ xs) ys = waiting-append id xs ys
  waiting-append id (finish_command r ∷ xs) ys = waiting-append id xs ys
  waiting-append id (complete_command r ∷ xs) ys = waiting-append id xs ys
  waiting-append id (shutdown_command ∷ xs) ys = waiting-append id xs ys

  -- Of the records that were accepted some are stored, those after them are lost or still queued, and
  -- none is lost before the writer fails.
  pub record IsDelivered (id : ExplainabilityRunId) (taken : List (ExplainabilityRecord Event))
      (s : Recorder Event) : Type 0 where
    pub lost : List (ExplainabilityRecord Event)
    pub whole : taken ≡ persisted_records id s ++ (lost ++ waiting id s.queue)
    pub kept : s.failure ≡ none → lost ≡ []
    pub sealed : member id s.finished_runs ≡ true → lost ≡ []

  -- A step that stores nothing, takes nothing and leaves what is waiting.
  pub idle-IsDelivered :
      (id : ExplainabilityRunId) (taken : List (ExplainabilityRecord Event))
      (s after : Recorder Event)
      → log_of id after.store ≡ log_of id s.store
      → waiting id after.queue ≡ waiting id s.queue
      → after.failure ≡ s.failure
      → after.finished_runs ≡ s.finished_runs
      → IsDelivered id taken s
      → IsDelivered id taken after
  idle-IsDelivered id taken s after logs queues failures ends d = record {
    lost = d.lost;
    whole =
        d.whole
        ∙ ap (λ l. map (λ e. e.record_part) l ++ (d.lost ++ waiting id s.queue)) (sym logs)
        ∙ ap (λ q. persisted_records id after ++ (d.lost ++ q)) (sym queues);
    kept = λ h. d.kept (sym failures ∙ h);
    sealed = λ h. d.sealed (ap (member id) (sym ends) ∙ h);
  }

  -- Another command is sent.
  pub send_idle :
      (id : ExplainabilityRunId) (taken : List (ExplainabilityRecord Event))
      (command : Command Event) (s : Recorder Event)
      → waiting id (command ∷ []) ≡ []
      → IsDelivered id taken s
      → IsDelivered id taken (send command s)
  send_idle id taken command s none_waits d =
      idle-IsDelivered id taken s (send command s) refl
        (waiting-append id s.queue (command ∷ [])
          ∙ ap (λ l. waiting id s.queue ++ l) none_waits
          ∙ append-nil (waiting id s.queue))
        refl refl d

  pub complete_run-logs :
      (id : ExplainabilityRunId) (c : RunCompletion) (s : MemoryState Event)
      → log_of id (complete_run c s).1 ≡ log_of id s
  complete_run-logs id c s = elim (complete_run_cases c s) [
    | inl same ↦ ap (log_of id) same
    | inr (_, _, _, _, _, stored) ↦ ap (λ p. log_of id p.1) stored
  ]

  -- A record is sent.
  pub send-IsDelivered :
      (id : ExplainabilityRunId) (taken : List (ExplainabilityRecord Event))
      (r : ExplainabilityRecord Event) (s : Recorder Event)
      → IsDelivered id taken s
      → IsDelivered id
          (taken ++ waiting id (record_command r ∷ []))
          (record s { queue = s.queue ++ record_command r ∷ [] })
  send-IsDelivered id taken r s d =
      let one : List (ExplainabilityRecord Event) = waiting id (record_command r ∷ []) in
      record {
        lost = d.lost;
        whole =
            ap (λ l. l ++ one) d.whole
            ∙ append_assoc (persisted_records id s) (d.lost ++ waiting id s.queue) one
            ∙ ap (λ l. persisted_records id s ++ l) (append_assoc d.lost (waiting id s.queue) one)
            ∙ ap (λ l. persisted_records id s ++ (d.lost ++ l))
                (sym (waiting-append id s.queue (record_command r ∷ [])));
        kept = d.kept;
        sealed = d.sealed;
      }

  -- The writer ends with the record that it has received.
  pub failed-IsDelivered :
      (id : ExplainabilityRunId) (taken : List (ExplainabilityRecord Event))
      (r : ExplainabilityRecord Event) (e : RecorderError) (s : Recorder Event)
      → taken ≡ persisted_records id s ++ waiting id (record_command r ∷ s.queue)
      → member r.run_id s.finished_runs ≡ false
      → IsDelivered id taken (end_failed e s)
  unfolding end_failed
  failed-IsDelivered id taken r e s whole unfinished = record {
    lost = waiting id (record_command r ∷ []);
    whole =
        whole
        ∙ ap (λ l. persisted_records id s ++ l) (waiting-append id (record_command r ∷ []) s.queue);
    kept = λ h. cc;
    sealed = λ h. ground (arith, h, unfinished, text_beq_iff r.run_id id);
  }

  -- The record that the writer has received is stored.
  pub stored-IsDelivered :
      (id : ExplainabilityRunId) (taken : List (ExplainabilityRecord Event))
      (r : ExplainabilityRecord Event) (run : ExplainabilityRun) (s : Recorder Event)
      → taken ≡ persisted_records id s ++ waiting id (record_command r ∷ s.queue)
      → IsDelivered id taken (persisted r run s)
  stored-IsDelivered id taken r run s whole =
      let one : List (ExplainabilityRecord Event) = waiting id (record_command r ∷ []) in
      let grown : persisted_records id (persisted r run s) ≡ persisted_records id s ++ one =
        elim (Bool-cases (r.run_id == id)) [
          | inl same ↦
              ap (map (λ e. e.record_part)) (ground (arith, log_of-appended r run s id, same))
              ∙ map-append (λ e. e.record_part) (log_of id s.store) (next_envelope r s ∷ [])
              ∙ ap (λ l. persisted_records id s ++ l) (ground (arith, same))
          | inr other ↦
              ap (map (λ e. e.record_part)) (ground (arith, log_of-appended r run s id, other))
              ∙ sym (append-nil (persisted_records id s))
              ∙ ap (λ l. persisted_records id s ++ l) (ground (arith, other))
        ] in
      record {
        lost = [];
        whole =
            whole
            ∙ ap (λ l. persisted_records id s ++ l)
                (waiting-append id (record_command r ∷ []) s.queue)
            ∙ sym (append_assoc (persisted_records id s) one (waiting id s.queue))
            ∙ ap (λ l. l ++ waiting id s.queue) (sym grown);
        kept = λ h. refl;
        sealed = λ h. refl;
      }

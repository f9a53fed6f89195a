-- ===== src/Explain/Recorder/Barrier.antt =====
-- finish_run as a barrier of the persistence.
use graphloom.Base.{
  ◌≡◌, ◌∙◌, sym, ap, refl, Bool, true, some, List, [], ◌∷◌, ◌++◌, text_eq, text_beq_iff, lookup,
  arith, append-nil,
}
use graphloom.Explain.Types.{ExplainabilityRunId}
use graphloom.Explain.RecorderState.{
  Command, record_command, create_command, finish_command, complete_command, shutdown_command,
  member, finished, RunState,
}
use graphloom.Explain.Recorder.{new_recorder}
use graphloom.Explain.Recorder.Invariant.{IsAdmitted}
use graphloom.Explain.Recorder.Acts.{
  Act, acts, hub_of, accepted, waiting, persisted_records, acts-IsSound, new_recorder-IsSound,
}
use graphloom.Explain.Recorder.Refinement.{acts-IsDelivered, new_recorder-IsDelivered}

module _ {Event : Type 0} where
  -- No record of a run that has ended is queued.
  waiting_ended :
      (gates : List (ExplainabilityRunId × RunState)) (ended : List ExplainabilityRunId)
      (id : ExplainabilityRunId)
      → member id ended ≡ true
      → (queue : List (Command Event)) → IsAdmitted gates ended queue
      → waiting id queue ≡ []
  waiting_ended gates ended id over [] a = refl
  waiting_ended gates ended id over (record_command r ∷ queue) (known, unfinished, a) =
      ground (
        arith,
        over,
        unfinished,
        text_beq_iff r.run_id id,
        waiting_ended gates ended id over queue a,
      )
  waiting_ended gates ended id over (finish_command run_id ∷ queue) a =
      waiting_ended gates (run_id ∷ ended) id (ground (arith, over)) queue a
  waiting_ended gates ended id over (create_command run ∷ queue) a =
      waiting_ended gates ended id over queue a
  waiting_ended gates ended id over (complete_command c ∷ queue) a =
      waiting_ended gates ended id over queue a
  waiting_ended gates ended id over (shutdown_command ∷ queue) a =
      waiting_ended gates ended id over queue a

  -- finish_run is a barrier: from the moment that the gate of a run is finished, which is when
  -- finish_run answers with success, the store holds all the records of the run that emit accepts, in
  -- their order, whatever other calls and rounds of the writer there are, and also after the writer
  -- has failed.
  pub finished_stored :
      (live : Bool) (calls : List (Act Event)) (id : ExplainabilityRunId)
      → lookup id (acts calls (new_recorder (hub_of live))).gates ≡ some finished
      → persisted_records id (acts calls (new_recorder (hub_of live)))
        ≡ accepted id calls (new_recorder (hub_of live))
  finished_stored live calls id over =
      let s = acts calls (new_recorder (hub_of live)) in
      let i = acts-IsSound calls (new_recorder (hub_of live)) (new_recorder-IsSound live) in
      let d =
        acts-IsDelivered id [] calls (new_recorder (hub_of live)) (new_recorder-IsSound live)
          (new_recorder-IsDelivered live id) in
      let ended = i.base.finished_known id over in
      sym (
        d.whole
        ∙ ap (λ l. persisted_records id s ++ (l ++ waiting id s.queue)) (d.sealed ended)
        ∙ ap (λ q. persisted_records id s ++ q)
            (waiting_ended s.gates s.finished_runs id ended s.queue i.queued.admitted)
        ∙ append-nil (persisted_records id s))

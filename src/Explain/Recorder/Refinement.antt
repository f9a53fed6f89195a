-- ===== src/Explain/Recorder/Refinement.antt =====
-- From emit to the store, for every interleaving of the calls with the writer.
use graphloom.Base.{
  ◌≡◌, ◌⊎◌, ◌∙◌, sym, ap, refl, subst, Bool, some, List, [], ◌∷◌, ◌++◌, map, ◌==◌, text_eq, ◌&&◌,
  lookup, insert, if◌then◌else◌, is_ok, arith, Option-cases, inl, inr, append-nil, append_assoc,
}
use graphloom.Explain.Types.{ExplainabilityRunId, ExplainabilityRecord}
use graphloom.Explain.RecorderState.{
  Recorder, Command, record_command, create_command, finish_command, complete_command,
  shutdown_command, sequence_overflow, finishing, closing,
}
use graphloom.Explain.Recorder.{
  emit, finish_run, write_next, run_command, new_recorder, request_create, request_complete,
  shutdown,
}
use graphloom.Explain.Recorder.Invariant.{IsAdmitted, IsSound}
use graphloom.Explain.Recorder.Persist.{persisted, persist_record_cases}
use graphloom.Explain.Recorder.Registering.{create_run_for_writer_cases}
use graphloom.Explain.Recorder.Ending.{finish_run_for_writer_cases, complete_run_for_writer_cases}
use graphloom.Explain.Recorder.Commands.{
  receive-IsSound, write_next_cases, run_record_overflow, run_record_ok,
}
use graphloom.Explain.Recorder.Calls.{
  emit_cases, finish_run_cases, request_create_cases, request_complete_cases, shutdown_cases,
}
use graphloom.Explain.Recorder.Delivery.{
  IsDelivered, idle-IsDelivered, send-IsDelivered, failed-IsDelivered, stored-IsDelivered,
  send_idle, complete_run-logs, waiting-append,
}
use graphloom.Explain.Recorder.Acts.{
  writer_failure, failure_of-overflow, Act, emit_act, finish_act, create_act, complete_act,
  shutdown_act, writer_act, act, acts, hub_of, accepted_by, accepted, waiting, persisted_records,
  act-IsSound, new_recorder-IsSound,
}

module _ {Event : Type 0} where
  run_command-IsDelivered :
      (id : ExplainabilityRunId) (taken : List (ExplainabilityRecord Event))
      (command : Command Event) (s : Recorder Event)
      → IsAdmitted s.gates s.finished_runs (command ∷ s.queue)
      → IsSound s
      → taken ≡ persisted_records id s ++ waiting id (command ∷ s.queue)
      → IsDelivered id taken (run_command command s)
  unfolding run_command
  run_command-IsDelivered id taken (record_command r) s (known, unfinished, a) i whole =
      let g = i.base.registered r.run_id known in
      elim (persist_record_cases r s i g known unfinished) [
        | inl over ↦
            subst (IsDelivered id taken) (sym (run_record_overflow r s over))
              (failed-IsDelivered id taken r sequence_overflow s whole unfinished)
        | inr (fits, done) ↦
            subst (IsDelivered id taken) (sym (run_record_ok r (persisted r g.run s) s done))
              (stored-IsDelivered id taken r g.run s whole)
      ]
  run_command-IsDelivered id taken (create_command run) s a i whole =
      elim (create_run_for_writer_cases run s) [
        | inl same ↦
            subst (IsDelivered id taken) (sym same)
              (record { lost = []; whole = whole; kept = λ h. refl; sealed = λ h. refl })
        | inr (_, _, _, _, _, made) ↦
            subst (IsDelivered id taken) (sym made)
              (record { lost = []; whole = whole; kept = λ h. refl; sealed = λ h. refl })
      ]
  run_command-IsDelivered id taken (finish_command run_id) s a i whole =
      elim (finish_run_for_writer_cases run_id s) [
        | inl same ↦
            subst (IsDelivered id taken) (sym same)
              (record { lost = []; whole = whole; kept = λ h. refl; sealed = λ h. refl })
        | inr (_, done) ↦
            subst (IsDelivered id taken) (sym done)
              (record { lost = []; whole = whole; kept = λ h. refl; sealed = λ h. refl })
      ]
  run_command-IsDelivered id taken (complete_command c) s a i whole =
      elim (complete_run_for_writer_cases c s) [
        | inl same ↦
            subst (IsDelivered id taken) (sym same)
              (record { lost = []; whole = whole; kept = λ h. refl; sealed = λ h. refl })
        | inr (_, done) ↦ subst (IsDelivered id taken) (sym done) (record {
          lost = [];
          whole =
              whole
              ∙ ap (λ l. map (λ e. e.record_part) l ++ waiting id s.queue)
                  (sym (complete_run-logs id c s.store));
          kept = λ h. refl;
          sealed = λ h. refl;
        })
      ]
  run_command-IsDelivered id taken shutdown_command s a i whole = record {
    lost = [];
    whole = whole;
    kept = λ h. refl;
    sealed = λ h. refl;
  }

  pub act-IsDelivered :
      (id : ExplainabilityRunId) (taken : List (ExplainabilityRecord Event)) (a : Act Event)
      (s : Recorder Event)
      → IsSound s
      → IsDelivered id taken s
      → IsDelivered id (taken ++ accepted_by id a s) (act a s)
  act-IsDelivered id taken (emit_act r) s i d = elim (emit_cases r s) [
    | inl (same, refused) ↦
        subst
          (λ b. IsDelivered id (taken ++ (if b && r.run_id == id then r ∷ [] else [])) (emit r s).1)
          (sym refused)
          (subst (λ l. IsDelivered id l (emit r s).1) (sym (append-nil taken))
            (subst (IsDelivered id taken) (sym same) d))
    | inr (_, _, sent) ↦
        subst
          (λ p. IsDelivered id (taken ++ (if is_ok p.0 && r.run_id == id then r ∷ [] else [])) p.1)
          (sym sent) (send-IsDelivered id taken r s d)
  ]
  act-IsDelivered id taken (finish_act run_id) s i d =
      subst (λ l. IsDelivered id l (finish_run run_id s).1) (sym (append-nil taken))
        (elim (finish_run_cases run_id s) [
          | inl same ↦ subst (IsDelivered id taken) (sym same) d
          | inr (_, inl sent) ↦ subst (IsDelivered id taken) (sym sent) (
              idle-IsDelivered id taken s
                (record s {
                  queue = s.queue ++ finish_command run_id ∷ [];
                  gates = insert run_id finishing s.gates;
                })
                refl
                (waiting-append id s.queue (finish_command run_id ∷ [])
                  ∙ append-nil (waiting id s.queue))
                refl refl d)
          | inr (_, inr over) ↦
              subst (IsDelivered id taken) (sym over)
                (record { lost = d.lost; whole = d.whole; kept = d.kept; sealed = d.sealed })
        ])
  act-IsDelivered id taken (create_act run) s i d =
      subst (λ l. IsDelivered id l (request_create run s).1) (sym (append-nil taken))
        (elim (request_create_cases run s) [
          | inl same ↦ subst (IsDelivered id taken) (sym same) d
          | inr sent ↦
              subst (IsDelivered id taken) (sym sent)
                (send_idle id taken (create_command run) s refl d)
        ])
  act-IsDelivered id taken (complete_act c) s i d =
      subst (λ l. IsDelivered id l (request_complete c s).1) (sym (append-nil taken))
        (elim (request_complete_cases c s) [
          | inl same ↦ subst (IsDelivered id taken) (sym same) d
          | inr sent ↦
              subst (IsDelivered id taken) (sym sent)
                (send_idle id taken (complete_command c) s refl d)
        ])
  act-IsDelivered id taken shutdown_act s i d =
      subst (λ l. IsDelivered id l (shutdown s)) (sym (append-nil taken))
        (elim (shutdown_cases s) [
          | inl same ↦ subst (IsDelivered id taken) (sym same) d
          | inr (_, sent) ↦ subst (IsDelivered id taken) (sym sent) (
              send_idle id taken shutdown_command (record s { writer_status = closing }) refl
                (record { lost = d.lost; whole = d.whole; kept = d.kept; sealed = d.sealed }))
        ])
  act-IsDelivered id taken writer_act s i d =
      subst (λ l. IsDelivered id l (write_next s)) (sym (append-nil taken))
        (elim (write_next_cases s) [
          | inl same ↦ subst (IsDelivered id taken) (sym same) d
          | inr (command, queue, e, alive, done) ↦ subst (IsDelivered id taken) (sym done) (
              run_command-IsDelivered id taken command (record s { queue = queue })
                (subst (IsAdmitted s.gates s.finished_runs) e i.queued.admitted)
                (receive-IsSound command queue s e i)
                (d.whole
                  ∙ ap (λ l. persisted_records id s ++ (l ++ waiting id s.queue))
                      (d.kept (ground (arith, alive, i.verdict)))
                  ∙ ap (λ q. persisted_records id s ++ waiting id q) e))
        ])

  pub acts-IsDelivered :
      (id : ExplainabilityRunId) (taken : List (ExplainabilityRecord Event))
      (calls : List (Act Event)) (s : Recorder Event)
      → IsSound s
      → IsDelivered id taken s
      → IsDelivered id (taken ++ accepted id calls s) (acts calls s)
  acts-IsDelivered id taken [] s i d = subst (λ l. IsDelivered id l s) (sym (append-nil taken)) d
  acts-IsDelivered id taken (a ∷ calls) s i d =
      subst (λ l. IsDelivered id l (acts calls (act a s)))
        (append_assoc taken (accepted_by id a s) (accepted id calls (act a s)))
        (acts-IsDelivered id (taken ++ accepted_by id a s) calls (act a s) (act-IsSound a s i)
          (act-IsDelivered id taken a s i d))

  pub new_recorder-IsDelivered :
      (live : Bool) (id : ExplainabilityRunId)
      → IsDelivered {Event = Event} id [] (new_recorder (hub_of live))
  unfolding lookup
  new_recorder-IsDelivered live id = record {
    lost = [];
    whole = refl;
    kept = λ h. refl;
    sealed = λ h. refl;
  }

  -- Whatever calls are made of a new recorder and wherever the rounds of its writer fall between them,
  -- the records of a run that emit has accepted are, in their order, those that the store holds, then
  -- those that are lost, then those that wait for the writer. None is lost, unless the writer has ended
  -- because a sequence was exhausted.
  pub accepted_stored :
      (live : Bool) (calls : List (Act Event)) (id : ExplainabilityRunId)
      → (lost : List (ExplainabilityRecord Event)) × (accepted id calls (new_recorder (hub_of live))
          ≡ persisted_records id (acts calls (new_recorder (hub_of live)))
            ++ (lost ++ waiting id (acts calls (new_recorder (hub_of live))).queue))
        × ((lost ≡ [])
            ⊎ ((acts calls (new_recorder (hub_of live))).failure ≡ some sequence_overflow))
  accepted_stored live calls id =
      let d =
        acts-IsDelivered id [] calls (new_recorder (hub_of live)) (new_recorder-IsSound live)
          (new_recorder-IsDelivered live id) in
      (
        d.lost,
        d.whole,
        elim (Option-cases (acts calls (new_recorder (hub_of live))).failure) [
          | inl healthy ↦ inl (d.kept healthy)
          | inr (e, ended) ↦ inr (
              ended
              ∙ ap some (
                  failure_of-overflow (acts calls (new_recorder (hub_of live))).writer_status e
                    (sym (writer_failure live calls) ∙ ended)))
        ],
      )

-- ===== src/Explain/Recorder/Replay.antt =====
-- A subscription of the live hub: what the store held and what the channel sends from then on.
use graphloom.Base.{
  ℕ, ◌≡◌, ◌∙◌, sym, ap, refl, subst, true, some, List, [], ◌∷◌, ◌++◌, length, drop,
  drop-length-append, ◌==◌, text_eq, lookup, arith, Bool-cases, inl, inr, append-nil, append_assoc,
  Option-cases,
}
use graphloom.Explain.Types.{ExplainabilityRunId, ExplainabilityEnvelope}
use graphloom.Explain.Store.{log_of}
use graphloom.Explain.LiveHub.{LiveHub, LiveRunChannel, subscribe}
use graphloom.Explain.RecorderState.{
  Recorder, Command, record_command, create_command, finish_command, complete_command,
  shutdown_command,
}
use graphloom.Explain.Recorder.{run_command, end_failed, new_recorder}
use graphloom.Explain.Recorder.Invariant.{IsAdmitted, AreReplayed, IsSound}
use graphloom.Explain.Recorder.Persist.{persisted, persist_record_cases, next_envelope}
use graphloom.Explain.Recorder.Writer.{log_of-appended}
use graphloom.Explain.Recorder.Registering.{create_run_for_writer_cases}
use graphloom.Explain.Recorder.Ending.{finish_run_for_writer_cases, complete_run_for_writer_cases}
use graphloom.Explain.Recorder.Commands.{
  receive-IsSound, write_next_cases, run_record_overflow, run_record_ok,
}
use graphloom.Explain.Recorder.Calls.{
  emit_cases, finish_run_cases, request_create_cases, request_complete_cases, shutdown_cases,
}
use graphloom.Explain.Recorder.Delivery.{complete_run-logs}
use graphloom.Explain.Recorder.Acts.{
  Act, emit_act, finish_act, create_act, complete_act, shutdown_act, writer_act, act, acts, hub_of,
  act-IsSound, acts-IsSound, new_recorder-IsSound,
}

module _ {Event : Type 0} (id : ExplainabilityRunId) where
  abbrev Grows : Recorder Event → Recorder Event → Type 0
  Grows s after =
      (more : List (ExplainabilityEnvelope Event)) × (log_of id after.store
        ≡ log_of id s.store ++ more)

  same-Grows :
      (s after : Recorder Event) → log_of id after.store ≡ log_of id s.store → Grows s after
  same-Grows s after e = ([], e ∙ sym (append-nil (log_of id s.store)))

  run_command-Grows :
      (command : Command Event) (s : Recorder Event)
      → IsAdmitted s.gates s.finished_runs (command ∷ s.queue)
      → IsSound s
      → Grows s (run_command command s)
  unfolding run_command end_failed
  run_command-Grows (record_command r) s (known, unfinished, a) i =
      let g = i.base.registered r.run_id known in
      elim (persist_record_cases r s i g known unfinished) [
        | inl over ↦
            same-Grows s (run_command (record_command r) s)
              (ap (λ x. log_of id x.store) (run_record_overflow r s over))
        | inr (fits, done) ↦
            subst (Grows s) (sym (run_record_ok r (persisted r g.run s) s done))
              (elim (Bool-cases (r.run_id == id)) [
                | inl same ↦
                    (next_envelope r s ∷ [], ground (arith, log_of-appended r g.run s id, same))
                | inr other ↦
                    same-Grows s (persisted r g.run s)
                      (ground (arith, log_of-appended r g.run s id, other))
              ])
      ]
  run_command-Grows (create_command run) s a i = elim (create_run_for_writer_cases run s) [
    | inl same ↦
        same-Grows s (run_command (create_command run) s) (ap (λ x. log_of id x.store) same)
    | inr (_, _, _, _, _, made) ↦
        same-Grows s (run_command (create_command run) s) (ap (λ x. log_of id x.store) made)
  ]
  run_command-Grows (finish_command run_id) s a i = elim (finish_run_for_writer_cases run_id s) [
    | inl same ↦
        same-Grows s (run_command (finish_command run_id) s) (ap (λ x. log_of id x.store) same)
    | inr (_, done) ↦
        same-Grows s (run_command (finish_command run_id) s) (ap (λ x. log_of id x.store) done)
  ]
  run_command-Grows (complete_command c) s a i = elim (complete_run_for_writer_cases c s) [
    | inl same ↦
        same-Grows s (run_command (complete_command c) s) (ap (λ x. log_of id x.store) same)
    | inr (_, done) ↦
        same-Grows s (run_command (complete_command c) s)
          (ap (λ x. log_of id x.store) done ∙ complete_run-logs id c s.store)
  ]
  run_command-Grows shutdown_command s a i = same-Grows s (run_command shutdown_command s) refl

  act-Grows : (a : Act Event) (s : Recorder Event) → IsSound s → Grows s (act a s)
  act-Grows (emit_act r) s i = same-Grows s (act (emit_act r) s) (elim (emit_cases r s) [
    | inl (same, _) ↦ ap (λ x. log_of id x.store) same
    | inr (_, _, sent) ↦ ap (λ p. log_of id p.1.store) sent
  ])
  act-Grows (finish_act run_id) s i =
      same-Grows s (act (finish_act run_id) s) (elim (finish_run_cases run_id s) [
        | inl same ↦ ap (λ x. log_of id x.store) same
        | inr (_, inl sent) ↦ ap (λ x. log_of id x.store) sent
        | inr (_, inr over) ↦ ap (λ x. log_of id x.store) over
      ])
  act-Grows (create_act run) s i =
      same-Grows s (act (create_act run) s) (elim (request_create_cases run s) [
        | inl same ↦ ap (λ x. log_of id x.store) same
        | inr sent ↦ ap (λ x. log_of id x.store) sent
      ])
  act-Grows (complete_act c) s i =
      same-Grows s (act (complete_act c) s) (elim (request_complete_cases c s) [
        | inl same ↦ ap (λ x. log_of id x.store) same
        | inr sent ↦ ap (λ x. log_of id x.store) sent
      ])
  act-Grows shutdown_act s i = same-Grows s (act shutdown_act s) (elim (shutdown_cases s) [
    | inl same ↦ ap (λ x. log_of id x.store) same
    | inr (_, sent) ↦ ap (λ x. log_of id x.store) sent
  ])
  act-Grows writer_act s i = elim (write_next_cases s) [
    | inl same ↦ same-Grows s (act writer_act s) (ap (λ x. log_of id x.store) same)
    | inr (command, queue, e, alive, done) ↦ subst (Grows s) (sym done) (
        run_command-Grows command (record s { queue = queue })
          (subst (IsAdmitted s.gates s.finished_runs) e i.queued.admitted)
          (receive-IsSound command queue s e i))
  ]

  acts-Grows : (calls : List (Act Event)) (s : Recorder Event) → IsSound s → Grows s (acts calls s)
  acts-Grows [] s i = same-Grows s s refl
  acts-Grows (a ∷ calls) s i =
      let (first, e) = act-Grows a s i in
      let (rest, f) = acts-Grows calls (act a s) (act-IsSound a s i) in
      (first ++ rest, f ∙ ap (λ l. l ++ rest) e ∙ append_assoc (log_of id s.store) first rest)

  hub_replayed :
      (s : Recorder Event) (hub : LiveHub Event)
      → IsSound s
      → s.live_hub ≡ some hub
      → AreReplayed (some hub) s.store
  hub_replayed s hub i e = subst (λ h. AreReplayed h s.store) e i.replayed

module _ {Event : Type 0} where
  -- A subscription is made to a run between two rounds of the writer, and the run's channel is still
  -- open after any further calls and rounds. Then what the store held of the run, followed by what the
  -- channel has sent after the snapshot sequence, is what the store holds of it now: nothing is
  -- missed and nothing comes twice.
  pub subscribe_replay :
      (calls later : List (Act Event)) (id : ExplainabilityRunId) (hub now : LiveHub Event) (n : ℕ)
      (channel : LiveRunChannel Event)
      → (acts calls (new_recorder (hub_of true))).live_hub ≡ some hub
      → subscribe id hub ≡ some n
      → (acts later (acts calls (new_recorder (hub_of true)))).live_hub ≡ some now
      → lookup id now ≡ some channel
      → log_of id (acts later (acts calls (new_recorder (hub_of true)))).store
        ≡ log_of id (acts calls (new_recorder (hub_of true))).store ++ drop n channel.sent
  unfolding subscribe
  subscribe_replay calls later id hub now n channel live snapshot live_now open_now =
      let s = acts calls (new_recorder (hub_of true)) in
      let i = acts-IsSound calls (new_recorder (hub_of true)) (new_recorder-IsSound true) in
      let (more, grown) = acts-Grows id later s i in
      let sent =
        hub_replayed id (acts later s) now (acts-IsSound later s i) live_now id channel open_now in
      elim (Option-cases (lookup id hub)) [
        | inl gone ↦ ground (arith, gone, snapshot)
        | inr (old, here) ↦
            let count : n ≡ length (log_of id s.store) =
              ground (arith, here, snapshot, (hub_replayed id s hub i live id old here).last) in
            grown
            ∙ ap (λ l. log_of id s.store ++ l) (sym (drop-length-append (log_of id s.store) more))
            ∙ ap (λ k. log_of id s.store ++ drop k (log_of id s.store ++ more)) (sym count)
            ∙ ap (λ l. log_of id s.store ++ drop n l) (sym grown ∙ sym sent.whole)
      ]

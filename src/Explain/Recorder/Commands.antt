-- ===== src/Explain/Recorder/Commands.antt =====
-- run_command: every command of the writer keeps the invariant.
use graphloom.Base.{
  ◌≡◌, ◌⊎◌, sym, ap, refl, subst, true, none, List, ◌∷◌, map, ok, err, text_eq, arith, Bool-cases,
  List-cases, inl, inr,
}
use graphloom.Explain.Types.{ExplainabilityRunId, ExplainabilityRecord}
use graphloom.Explain.RecorderState.{
  Recorder, Command, record_command, create_command, finish_command, complete_command,
  shutdown_command, sequence_overflow, fail_finishing, is_alive,
}
use graphloom.Explain.Recorder.{persist_record, end_failed, run_command, write_next}
use graphloom.Explain.Recorder.Invariant.{IsAdmitted, HasNoEnd, IsSound}
use graphloom.Explain.Recorder.Persist.{persisted, persist_record_cases}
use graphloom.Explain.Recorder.Registering.{create_run_for_writer-IsSound}
use graphloom.Explain.Recorder.Ending.{
  finish_run_for_writer-IsSound, complete_run_for_writer-IsSound,
}
use graphloom.Explain.Recorder.Writer.{persisted-IsSound}
use graphloom.Explain.Recorder.Admitted.{IsAdmitted-mono, IsAdmitted-tail, HasNoEnd-tail}
use graphloom.Explain.Recorder.Gates.{close_live_runs-AreReplayed, lookup-fail_finishing}

module _ {Event : Type 0} where
  -- A command is received.
  pub receive-IsSound :
      (command : Command Event) (queue : List (Command Event)) (s : Recorder Event)
      → s.queue ≡ command ∷ queue
      → IsSound s
      → IsSound (record s { queue = queue })
  receive-IsSound command queue s e i = record {
    base = i.base;
    queued = record {
      admitted =
          IsAdmitted-tail s.gates s.finished_runs command queue
            (subst (IsAdmitted s.gates s.finished_runs) e i.queued.admitted);
      open_gate =
          λ id k. HasNoEnd-tail id command queue (subst (HasNoEnd id) e (i.queued.open_gate id k));
      no_gate =
          λ id k. HasNoEnd-tail id command queue (subst (HasNoEnd id) e (i.queued.no_gate id k));
    };
    verdict = i.verdict;
    replayed = i.replayed;
  }

  end_failed-IsSound : (s : Recorder Event) → IsSound s → IsSound (end_failed sequence_overflow s)
  unfolding end_failed
  end_failed-IsSound s i =
      let key = λ (id : ExplainabilityRunId). lookup-fail_finishing id s.gates in
      record {
        base = record {
          consistent = i.base.consistent;
          registered = λ id e.
              let g = i.base.registered id (ground (arith, e, key id)) in
              record { run = g.run; stored = g.stored; counted = g.counted; live = g.live };
          unregistered = λ id e. i.base.unregistered id (ground (arith, e, key id));
          finished_gate = λ id e. ground (arith, i.base.finished_gate id e, key id);
          finished_known = λ id e. i.base.finished_known id (ground (arith, e, key id));
        };
        queued = record {
          admitted =
              IsAdmitted-mono s.gates (map fail_finishing s.gates) s.finished_runs s.finished_runs
                (λ id e. ground (arith, e, key id)) (λ id e. e) s.queue i.queued.admitted;
          open_gate = λ id e. i.queued.open_gate id (ground (arith, e, key id));
          no_gate = λ id e. i.queued.no_gate id (ground (arith, e, key id));
        };
        verdict = refl;
        replayed = close_live_runs-AreReplayed s i;
      }

  pub run_record_overflow :
      (r : ExplainabilityRecord Event) (s : Recorder Event)
      → persist_record r s ≡ (err sequence_overflow, s)
      → run_command (record_command r) s ≡ end_failed sequence_overflow s
  unfolding run_command
  run_record_overflow r s e = rw (e, run_command) (ap (λ p. end_failed sequence_overflow p.1) e)

  pub run_record_ok :
      (r : ExplainabilityRecord Event) (after s : Recorder Event)
      → persist_record r s ≡ (ok tt, after)
      → run_command (record_command r) s ≡ after
  unfolding run_command
  run_record_ok r after s e = rw (e, run_command) (ap (λ p. p.1) e)

  pub run_command-IsSound :
      (command : Command Event) (s : Recorder Event)
      → IsAdmitted s.gates s.finished_runs (command ∷ s.queue)
      → s.failure ≡ none
      → IsSound s
      → IsSound (run_command command s)
  unfolding run_command
  run_command-IsSound (create_command run) s a healthy i = create_run_for_writer-IsSound run s i
  run_command-IsSound (complete_command c) s a healthy i = complete_run_for_writer-IsSound c s i
  run_command-IsSound (finish_command run_id) s a healthy i =
      finish_run_for_writer-IsSound run_id s a i
  run_command-IsSound (record_command r) s (known, unfinished, a) healthy i =
      let g = i.base.registered r.run_id known in
      elim (persist_record_cases r s i g known unfinished) [
        | inl over ↦ subst IsSound (sym (run_record_overflow r s over)) (end_failed-IsSound s i)
        | inr (fits, done) ↦
            subst IsSound (sym (run_record_ok r (persisted r g.run s) s done))
              (persisted-IsSound r s i g known unfinished fits)
      ]
  run_command-IsSound shutdown_command s a healthy i = record {
    base = i.base;
    queued = i.queued;
    verdict = healthy;
    replayed = close_live_runs-AreReplayed s i;
  }

  pub write_next_cases :
      (s : Recorder Event)
      → (write_next s ≡ s)
        ⊎ ((command : Command Event) × (queue : List (Command Event)) × (s.queue ≡ command ∷ queue)
            × (is_alive s.writer_status ≡ true)
            × (write_next s ≡ run_command command (record s { queue = queue })))
  unfolding write_next
  write_next_cases s = elim (List-cases s.queue) [
    | inl empty ↦ inl (ground (arith, empty))
    | inr (command, queue, e) ↦ elim (Bool-cases (is_alive s.writer_status)) [
      | inl alive ↦ inr (command, queue, e, alive, ground (arith, e, alive))
      | inr dead ↦ inl (ground (arith, e, dead))
    ]
  ]

  pub write_next-IsSound : (s : Recorder Event) → IsSound s → IsSound (write_next s)
  write_next-IsSound s i = elim (write_next_cases s) [
    | inl same ↦ subst IsSound (sym same) i
    | inr (command, queue, e, alive, done) ↦ subst IsSound (sym done) (
        run_command-IsSound command (record s { queue = queue })
          (subst (IsAdmitted s.gates s.finished_runs) e i.queued.admitted)
          (ground (arith, alive, i.verdict)) (receive-IsSound command queue s e i))
  ]

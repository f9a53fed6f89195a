-- ===== src/Explain/Recorder/Draining.antt =====
-- The queue between two rounds of the writer, and the one shutdown that it may end with.
use graphloom.Base.{◌≡◌, ◌⊎◌, sym, refl, subst, true, List, [], ◌∷◌, ◌++◌, text_eq, arith, inl, inr}
use graphloom.Explain.RecorderState.{
  Recorder, failed, Command, record_command, create_command, finish_command, complete_command,
  shutdown_command, is_running,
}
use graphloom.Explain.Recorder.{run_command, end_failed, write_next, send}
use graphloom.Explain.Recorder.Invariant.{IsAdmitted, IsSound}
use graphloom.Explain.Recorder.Persist.{persisted, persist_record_cases}
use graphloom.Explain.Recorder.Registering.{create_run_for_writer_cases}
use graphloom.Explain.Recorder.Ending.{finish_run_for_writer_cases, complete_run_for_writer_cases}
use graphloom.Explain.Recorder.Commands.{
  receive-IsSound, write_next_cases, run_record_overflow, run_record_ok,
}
use graphloom.Explain.Recorder.Calls.{
  emit_cases, finish_run_cases, request_create_cases, request_complete_cases, shutdown_cases,
}
use graphloom.Explain.Recorder.Acts.{
  Act, emit_act, finish_act, create_act, complete_act, shutdown_act, writer_act, act, acts,
  act-IsSound,
}

module _ {Event : Type 0} where
  abbrev pub NoShutdown : List (Command Event) → Type 0
  NoShutdown [] = Unit {0}
  NoShutdown (shutdown_command ∷ queue) = ⊥
  NoShutdown (record_command r ∷ queue) = NoShutdown queue
  NoShutdown (create_command run ∷ queue) = NoShutdown queue
  NoShutdown (finish_command run_id ∷ queue) = NoShutdown queue
  NoShutdown (complete_command c ∷ queue) = NoShutdown queue

  NoShutdown-send :
      (command : Command Event) (queue : List (Command Event))
      → NoShutdown (command ∷ [])
      → NoShutdown queue
      → NoShutdown (queue ++ command ∷ [])
  NoShutdown-send command [] one h = one
  NoShutdown-send command (record_command r ∷ queue) one h = NoShutdown-send command queue one h
  NoShutdown-send command (create_command r ∷ queue) one h = NoShutdown-send command queue one h
  NoShutdown-send command (finish_command r ∷ queue) one h = NoShutdown-send command queue one h
  NoShutdown-send command (complete_command r ∷ queue) one h = NoShutdown-send command queue one h
  NoShutdown-send command (shutdown_command ∷ queue) one h = elim h [ ]

  pub NoShutdown-split :
      (command : Command Event) (queue : List (Command Event))
      → NoShutdown (command ∷ queue)
      → NoShutdown (command ∷ []) × NoShutdown queue
  NoShutdown-split (record_command r) queue h = (tt, h)
  NoShutdown-split (create_command r) queue h = (tt, h)
  NoShutdown-split (finish_command r) queue h = (tt, h)
  NoShutdown-split (complete_command r) queue h = (tt, h)
  NoShutdown-split shutdown_command queue h = elim h [ ]

  -- A command leaves the rest of the queue, and the writer lives on unless it fails.
  abbrev pub Frames : Recorder Event → Recorder Event → Type 0
  Frames s after =
      (after.queue ≡ s.queue)
      × ((after.writer_status ≡ s.writer_status) ⊎ (after.writer_status ≡ failed))

  pub run_command-Frames :
      (command : Command Event) (s : Recorder Event)
      → NoShutdown (command ∷ [])
      → IsAdmitted s.gates s.finished_runs (command ∷ s.queue)
      → IsSound s
      → Frames s (run_command command s)
  unfolding run_command end_failed
  run_command-Frames (record_command r) s one (known, unfinished, a) i =
      let g = i.base.registered r.run_id known in
      elim (persist_record_cases r s i g known unfinished) [
        | inl over ↦ subst (Frames s) (sym (run_record_overflow r s over)) (refl, inr refl)
        | inr (fits, done) ↦
            subst (Frames s) (sym (run_record_ok r (persisted r g.run s) s done)) (refl, inl refl)
      ]
  run_command-Frames (create_command run) s one a i = elim (create_run_for_writer_cases run s) [
    | inl same ↦ subst (Frames s) (sym same) (refl, inl refl)
    | inr (_, _, _, _, _, made) ↦ subst (Frames s) (sym made) (refl, inl refl)
  ]
  run_command-Frames (finish_command run_id) s one a i =
      elim (finish_run_for_writer_cases run_id s) [
        | inl same ↦ subst (Frames s) (sym same) (refl, inl refl)
        | inr (_, done) ↦ subst (Frames s) (sym done) (refl, inl refl)
      ]
  run_command-Frames (complete_command c) s one a i = elim (complete_run_for_writer_cases c s) [
    | inl same ↦ subst (Frames s) (sym same) (refl, inl refl)
    | inr (_, done) ↦ subst (Frames s) (sym done) (refl, inl refl)
  ]
  run_command-Frames shutdown_command s one a i = elim one [ ]

  still_running :
      (s after : Recorder Event)
      → Frames s after
      → is_running after.writer_status ≡ true
      → is_running s.writer_status ≡ true
  still_running s after f e = ground (arith, e, f.1)

  run_command_running :
      (command : Command Event) (s : Recorder Event)
      → IsAdmitted s.gates s.finished_runs (command ∷ s.queue)
      → IsSound s
      → is_running (run_command command s).writer_status ≡ true
      → is_running s.writer_status ≡ true
  unfolding run_command
  run_command_running (record_command r) s a i =
      still_running s (run_command (record_command r) s)
        (run_command-Frames (record_command r) s tt a i)
  run_command_running (create_command r) s a i =
      still_running s (run_command (create_command r) s)
        (run_command-Frames (create_command r) s tt a i)
  run_command_running (finish_command r) s a i =
      still_running s (run_command (finish_command r) s)
        (run_command-Frames (finish_command r) s tt a i)
  run_command_running (complete_command r) s a i =
      still_running s (run_command (complete_command r) s)
        (run_command-Frames (complete_command r) s tt a i)
  run_command_running shutdown_command s a i = λ e. cc

  -- No shutdown is queued while the writer runs.
  abbrev pub IsOpen : Recorder Event → Type 0
  IsOpen s = is_running s.writer_status ≡ true → NoShutdown s.queue

  send-IsOpen :
      (command : Command Event) (s : Recorder Event)
      → NoShutdown (command ∷ [])
      → IsOpen s
      → IsOpen (send command s)
  send-IsOpen command s one h = λ e. NoShutdown-send command s.queue one (h e)

  write_next-IsOpen : (s : Recorder Event) → IsSound s → IsOpen s → IsOpen (write_next s)
  write_next-IsOpen s i h = elim (write_next_cases s) [
    | inl same ↦ subst IsOpen (sym same) h
    | inr (command, queue, e, alive, done) ↦
        let a = subst (IsAdmitted s.gates s.finished_runs) e i.queued.admitted in
        let j = receive-IsSound command queue s e i in
        subst IsOpen (sym done) (λ now.
          let runs = run_command_running command (record s { queue = queue }) a j now in
          let (one, rest) = NoShutdown-split command queue (subst NoShutdown e (h runs)) in
          subst NoShutdown (sym (run_command-Frames command (record s { queue = queue }) one a j).0)
            rest)
  ]

  act-IsOpen : (a : Act Event) (s : Recorder Event) → IsSound s → IsOpen s → IsOpen (act a s)
  act-IsOpen (emit_act r) s i h = elim (emit_cases r s) [
    | inl (same, _) ↦ subst IsOpen (sym same) h
    | inr (_, _, sent) ↦ subst (λ p. IsOpen p.1) (sym sent) (send-IsOpen (record_command r) s tt h)
  ]
  act-IsOpen (finish_act run_id) s i h = elim (finish_run_cases run_id s) [
    | inl same ↦ subst IsOpen (sym same) h
    | inr (_, inl sent) ↦
        subst IsOpen (sym sent) (λ e. NoShutdown-send (finish_command run_id) s.queue tt (h e))
    | inr (_, inr over) ↦ subst IsOpen (sym over) h
  ]
  act-IsOpen (create_act run) s i h = elim (request_create_cases run s) [
    | inl same ↦ subst IsOpen (sym same) h
    | inr sent ↦ subst IsOpen (sym sent) (send-IsOpen (create_command run) s tt h)
  ]
  act-IsOpen (complete_act c) s i h = elim (request_complete_cases c s) [
    | inl same ↦ subst IsOpen (sym same) h
    | inr sent ↦ subst IsOpen (sym sent) (send-IsOpen (complete_command c) s tt h)
  ]
  act-IsOpen shutdown_act s i h = elim (shutdown_cases s) [
    | inl same ↦ subst IsOpen (sym same) h
    | inr (_, sent) ↦ subst IsOpen (sym sent) (λ e. ground (arith, e))
  ]
  act-IsOpen writer_act s i h = write_next-IsOpen s i h

  pub acts-IsOpen :
      (calls : List (Act Event)) (s : Recorder Event) → IsSound s → IsOpen s → IsOpen (acts calls s)
  acts-IsOpen [] s i h = h
  acts-IsOpen (a ∷ calls) s i h =
      acts-IsOpen calls (act a s) (act-IsSound a s i) (act-IsOpen a s i h)

-- ===== src/Explain/Recorder/Flush.antt =====
-- Shutting down: the writer drains its queue, and ends.
use graphloom.Base.{
  ℕ, zero, suc, ◌≡◌, ◌∙◌, ◌⊎◌, sym, ap, refl, subst, Bool, true, some, List, [], ◌∷◌, ◌++◌, length,
  text_eq, arith, inl, inr, append-nil, List-cases,
}
use graphloom.Explain.Types.{ExplainabilityRunId, ExplainabilityRecord}
use graphloom.Explain.RecorderState.{
  Recorder, closing, closed, failed, Command, shutdown_command, sequence_overflow, is_running,
}
use graphloom.Explain.Recorder.{run_command, write_next, new_recorder, shutdown, send}
use graphloom.Explain.Recorder.Invariant.{IsAdmitted, IsSound, failure_of}
use graphloom.Explain.Recorder.Commands.{receive-IsSound, write_next-IsSound}
use graphloom.Explain.Recorder.Delivery.{IsDelivered}
use graphloom.Explain.Recorder.Draining.{
  NoShutdown, NoShutdown-split, run_command-Frames, acts-IsOpen,
}
use graphloom.Explain.Recorder.Refinement.{
  act-IsDelivered, acts-IsDelivered, new_recorder-IsDelivered,
}
use graphloom.Explain.Recorder.Acts.{
  Act, shutdown_act, writer_act, acts, hub_of, accepted, waiting, persisted_records, act-IsSound,
  acts-IsSound, new_recorder-IsSound,
}

module _ {Event : Type 0} where
  -- Rounds of the writer.
  abbrev pub writes : ℕ → Recorder Event → Recorder Event
  writes zero s = s
  writes (suc n) s = writes n (write_next s)

  write_next_dead : (s : Recorder Event) → s.writer_status ≡ failed → write_next s ≡ s
  unfolding write_next
  write_next_dead s e = elim (List-cases s.queue) [
    | inl empty ↦ ground (arith, e, empty)
    | inr (command, queue, full) ↦ ground (arith, e, full)
  ]

  writes_dead : (n : ℕ) (s : Recorder Event) → s.writer_status ≡ failed → writes n s ≡ s
  writes_dead zero s e = refl
  writes_dead (suc n) s e = ap (writes n) (write_next_dead s e) ∙ writes_dead n s e

  write_next_closing :
      (command : Command Event) (queue : List (Command Event)) (s : Recorder Event)
      → s.writer_status ≡ closing
      → s.queue ≡ command ∷ queue
      → write_next s ≡ run_command command (record s { queue = queue })
  unfolding write_next
  write_next_closing command queue s e full = rw (full, e, write_next) refl

  shutdown_sends :
      (s : Recorder Event)
      → is_running s.writer_status ≡ true
      → shutdown s ≡ send shutdown_command (record s { writer_status = closing })
  unfolding shutdown
  shutdown_sends s e = ground (arith, e)

  abbrev IsDrained : Recorder Event → Type 0
  IsDrained t = (t.writer_status ≡ failed) ⊎ (t.writer_status ≡ closed) × (t.queue ≡ [])

  drain-IsDrained :
      (queue : List (Command Event)) (s : Recorder Event)
      → IsSound s
      → s.writer_status ≡ closing
      → NoShutdown queue
      → s.queue ≡ queue ++ shutdown_command ∷ []
      → IsDrained (writes (suc (length queue)) s)
  unfolding run_command
  drain-IsDrained [] s i e none_queued q =
      subst IsDrained (sym (write_next_closing shutdown_command [] s e q)) (inr (refl, refl))
  drain-IsDrained (command ∷ queue) s i e none_queued q =
      let rest = record s { queue = queue ++ shutdown_command ∷ [] } in
      let (one, others) = NoShutdown-split command queue none_queued in
      let now = write_next_closing command (queue ++ shutdown_command ∷ []) s e q in
      let (left, status) =
        run_command-Frames command rest one
          (subst (IsAdmitted s.gates s.finished_runs) q i.queued.admitted)
          (receive-IsSound command (queue ++ shutdown_command ∷ []) s q i) in
      elim status [
        | inl same ↦
            drain-IsDrained queue (write_next s) (write_next-IsSound s i)
              (ap (λ x. x.writer_status) now ∙ same ∙ e) others (ap (λ x. x.queue) now ∙ left)
        | inr dead ↦
            let ended : (write_next s).writer_status ≡ failed =
              ap (λ x. x.writer_status) now ∙ dead in
            subst IsDrained (sym (writes_dead (suc (length queue)) (write_next s) ended))
              (inl ended)
      ]

  writes-IsSound : (n : ℕ) (s : Recorder Event) → IsSound s → IsSound (writes n s)
  writes-IsSound zero s i = i
  writes-IsSound (suc n) s i = writes-IsSound n (write_next s) (write_next-IsSound s i)

  writes-IsDelivered :
      (id : ExplainabilityRunId) (taken : List (ExplainabilityRecord Event)) (n : ℕ)
      (s : Recorder Event)
      → IsSound s
      → IsDelivered id taken s
      → IsDelivered id taken (writes n s)
  writes-IsDelivered id taken zero s i d = d
  writes-IsDelivered id taken (suc n) s i d =
      writes-IsDelivered id taken n (write_next s) (write_next-IsSound s i) (
        subst (λ l. IsDelivered id l (write_next s)) (append-nil taken)
          (act-IsDelivered id taken writer_act s i d))

  drained-whole :
      (id : ExplainabilityRunId) (taken : List (ExplainabilityRecord Event)) (t : Recorder Event)
      → IsSound t
      → IsDelivered id taken t
      → IsDrained t
      → (t.failure ≡ some sequence_overflow)
        ⊎ (t.writer_status ≡ closed) × (taken ≡ persisted_records id t)
  drained-whole id taken t i d (inl dead) = inl (i.verdict ∙ ap failure_of dead)
  drained-whole id taken t i d (inr (ended, empty)) = inr (
    ended,
    d.whole
        ∙ ap (λ l. persisted_records id t ++ (l ++ waiting id t.queue))
            (d.kept (i.verdict ∙ ap failure_of ended))
        ∙ ap (λ q. persisted_records id t ++ waiting id q) empty
        ∙ append-nil (persisted_records id t),
  )

  -- A running recorder is shut down, and its writer goes on for one round more than there are commands
  -- in the queue. Then the writer has closed and the store holds every record of a run that emit has
  -- accepted, in that order, unless the writer has ended because a sequence was exhausted.
  pub shutdown_flushes :
      (live : Bool) (calls : List (Act Event)) (id : ExplainabilityRunId)
      → is_running (acts calls (new_recorder (hub_of live))).writer_status ≡ true
      → ((writes
            (suc (length (acts calls (new_recorder (hub_of live))).queue))
            (shutdown (acts calls (new_recorder (hub_of live))))).failure
          ≡ some sequence_overflow)
        ⊎ ((writes
              (suc (length (acts calls (new_recorder (hub_of live))).queue))
              (shutdown (acts calls (new_recorder (hub_of live))))).writer_status
            ≡ closed)
          × (accepted id calls (new_recorder (hub_of live))
              ≡ persisted_records id (
                  writes
                    (suc (length (acts calls (new_recorder (hub_of live))).queue))
                    (shutdown (acts calls (new_recorder (hub_of live))))))
  shutdown_flushes live calls id runs =
      let s = acts calls (new_recorder (hub_of live)) in
      let n = suc (length s.queue) in
      let i = acts-IsSound calls (new_recorder (hub_of live)) (new_recorder-IsSound live) in
      let j = act-IsSound shutdown_act s i in
      let taken = accepted id calls (new_recorder (hub_of live)) in
      let d =
        acts-IsDelivered id [] calls (new_recorder (hub_of live)) (new_recorder-IsSound live)
          (new_recorder-IsDelivered live id) in
      let sent = shutdown_sends s runs in
      drained-whole id taken (writes n (shutdown s)) (writes-IsSound n (shutdown s) j)
        (writes-IsDelivered id taken n (shutdown s) j (
          subst (λ l. IsDelivered id l (shutdown s)) (append-nil taken)
            (act-IsDelivered id taken shutdown_act s i d)))
        (drain-IsDrained s.queue (shutdown s) j (ap (λ x. x.writer_status) sent)
          (acts-IsOpen calls (new_recorder (hub_of live)) (new_recorder-IsSound live) (λ e. tt)
            runs)
          (ap (λ x. x.queue) sent))

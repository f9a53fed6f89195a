-- ===== src/Explain/Recorder/Writer.antt =====
-- The commands of the writer keep the invariant.
use graphloom.Base.{
  ◌+◌, ◌≤◌, ◌≡◌, ◌∙◌, sym, ap, subst, true, false, Option, none, some, [], ◌∷◌, ◌++◌, length,
  lookup, text_eq, text_beq_iff, contains_key, ◌==◌, arith, Bool-cases, Option-cases, inl, inr,
  u64_max, if◌then◌else◌, lookup-insert, lookup-insert_same, length-append, some-injective,
}
use graphloom.Explain.Types.{ExplainabilityRunId, ExplainabilityRun, ExplainabilityRecord}
use graphloom.Explain.Store.{log_of}
use graphloom.Explain.Store.Invariant.{IsConsistent}
use graphloom.Explain.Store.Append.{append_events-IsConsistent}
use graphloom.Explain.LiveHub.{LiveHub, LiveRunChannel, publish}
use graphloom.Explain.RecorderState.{Recorder, member}
use graphloom.Explain.Recorder.{sequence_of, on_hub}
use graphloom.Explain.Recorder.Invariant.{IsRegistered, IsReplayed, AreReplayed, IsSound}
use graphloom.Explain.Recorder.Persist.{next_envelope, appended, persisted, append_next}

module _ {Event : Type 0} where
  pub log_of-appended :
      (r : ExplainabilityRecord Event) (run : ExplainabilityRun) (s : Recorder Event)
      (id : ExplainabilityRunId)
      → log_of id (appended r run s) ≡ (
          if r.run_id == id then log_of id s.store ++ next_envelope r s ∷ [] else log_of id s.store)
  log_of-appended r run s id = ground (
    arith,
    lookup-insert r.run_id id (log_of r.run_id s.store ++ next_envelope r s ∷ []) s.store.events,
    text_beq_iff r.run_id id,
  )

  module _ (r : ExplainabilityRecord Event) (s : Recorder Event) (i : IsSound s)
      (g : IsRegistered r.run_id s.store (sequence_of r.run_id s) (member r.run_id s.finished_runs))
      (known : contains_key r.run_id s.gates ≡ true)
      (unfinished : member r.run_id s.finished_runs ≡ false)
      (fits : sequence_of r.run_id s + 1 ≤ u64_max) where
    abbrev sent_to : LiveRunChannel Event → LiveRunChannel Event
    sent_to channel = record {
      sent = channel.sent ++ next_envelope r s ∷ [];
      last_sequence = sequence_of r.run_id s + 1;
    }

    -- The run's own channel.
    own_channel :
        (id : ExplainabilityRunId) (channel old : LiveRunChannel Event)
        → r.run_id ≡ id
        → IsReplayed r.run_id old s.store
        → some (sent_to old) ≡ some channel
        → IsReplayed id channel (appended r g.run s)
    own_channel id channel old same before now =
        let c = i.base.consistent.runs_at r.run_id g.run g.stored in
        let log : log_of r.run_id (appended r g.run s)
            ≡ log_of r.run_id s.store ++ next_envelope r s ∷ [] =
          ground (
            arith,
            lookup-insert_same r.run_id (log_of r.run_id s.store ++ next_envelope r s ∷ [])
                s.store.events,
          ) in
        let size : length (log_of r.run_id s.store ++ next_envelope r s ∷ [])
            ≡ sequence_of r.run_id s + 1 =
          ground (
            arith,
            length-append (log_of r.run_id s.store) (next_envelope r s ∷ []),
            c.counted,
            g.counted,
          ) in
        subst (λ x. IsReplayed x channel (appended r g.run s)) same
          (subst (λ x. IsReplayed r.run_id x (appended r g.run s)) (some-injective now)
            (record {
              whole = ap (λ l. l ++ next_envelope r s ∷ []) before.whole ∙ sym log;
              last = sym size ∙ ap length (sym log);
            }))

    -- Another run's channel.
    other_channel :
        (id : ExplainabilityRunId) (channel : LiveRunChannel Event)
        → IsReplayed id channel s.store
        → (r.run_id == id) ≡ false
        → IsReplayed id channel (appended r g.run s)
    other_channel id channel before other =
        let log : log_of id (appended r g.run s) ≡ log_of id s.store =
          ground (arith, other, log_of-appended r g.run s id) in
        record { whole = before.whole ∙ sym log; last = before.last ∙ ap length (sym log) }

    publish-AreReplayed :
        (hub : Option (LiveHub Event))
        → AreReplayed hub s.store
        → AreReplayed (on_hub (publish (next_envelope r s)) hub) (appended r g.run s)
    unfolding publish
    publish-AreReplayed none h = tt
    publish-AreReplayed (some hub) h = λ id channel e. elim (Option-cases (lookup r.run_id hub)) [
      | inl gone ↦
          let old : lookup id hub ≡ some channel = ground (arith, gone, e) in
          other_channel id channel (h id channel old)
            (ground (arith, gone, old, text_beq_iff r.run_id id))
      | inr (old, here) ↦ elim (Bool-cases (r.run_id == id)) [
        | inr other ↦
            other_channel id channel
              (h id channel
                (ground (arith, here, e, other, lookup-insert r.run_id id (sent_to old) hub)))
              other
        | inl same ↦
            own_channel id channel old ((text_beq_iff r.run_id id).0 same) (h r.run_id old here)
              (ground (arith, here, e, same, lookup-insert r.run_id id (sent_to old) hub))
      ]
    ]

    persisted-IsRegistered :
        (id : ExplainabilityRunId)
        → contains_key id s.gates ≡ true
        → IsRegistered id
            (appended r g.run s)
            (sequence_of id (persisted r g.run s))
            (member id s.finished_runs)
    persisted-IsRegistered id k = elim (Bool-cases (r.run_id == id)) [
      | inl same ↦
          subst
            (λ x.
              IsRegistered x (appended r g.run s) (sequence_of x (persisted r g.run s))
                (member x s.finished_runs))
            ((text_beq_iff r.run_id id).0 same)
            (record {
              run = record g.run { event_count = g.run.event_count + 1 };
              stored =
                  lookup-insert_same r.run_id (record g.run { event_count = g.run.event_count + 1 })
                    s.store.runs;
              counted = ground (
                arith,
                lookup-insert_same r.run_id (sequence_of r.run_id s + 1) s.sequences,
                g.counted,
              );
              live = g.live;
            })
      | inr other ↦
          let old = i.base.registered id k in
          record {
            run = old.run;
            stored = ground (
              arith,
              other,
              lookup-insert r.run_id id (record g.run { event_count = g.run.event_count + 1 })
                  s.store.runs,
              old.stored,
            );
            counted = ground (
              arith,
              other,
              lookup-insert r.run_id id (sequence_of r.run_id s + 1) s.sequences,
              old.counted,
            );
            live = old.live;
          }
    ]

    pub persisted-IsSound : IsSound (persisted r g.run s)
    persisted-IsSound = record {
      base = record {
        consistent =
            subst (λ p. IsConsistent p.1) (append_next r s i g unfinished fits)
              (append_events-IsConsistent (next_envelope r s ∷ []) s.store i.base.consistent);
        registered = persisted-IsRegistered;
        unregistered = λ id k. ground (
          arith,
          lookup-insert r.run_id id (sequence_of r.run_id s + 1) s.sequences,
          i.base.unregistered id k,
          text_beq_iff r.run_id id,
          known,
          k,
        );
        finished_gate = i.base.finished_gate;
        finished_known = i.base.finished_known;
      };
      queued = i.queued;
      verdict = i.verdict;
      replayed = publish-AreReplayed s.live_hub i.replayed;
    }

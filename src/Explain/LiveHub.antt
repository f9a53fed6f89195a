-- ===== src/Explain/LiveHub.antt =====
-- explainability/live_hub.rs. The broadcast channel of tokio is not modelled further than by what is
-- sent to it, in order; what a slow receiver loses of that is the channel's.
use graphloom.Base.{
  ℕ, Option, none, some, List, [], ◌∷◌, ◌++◌, lookup, insert, remove, contains_key, if◌then◌else◌,
  text_eq,
}
use graphloom.Explain.Types.{ExplainabilityRunId, ExplainabilityEnvelope}

pub record LiveRunChannel (Event : Type 0) : Type 0 where
  pub sent : List (ExplainabilityEnvelope Event)
  pub last_sequence : ℕ

abbrev pub LiveHub : Type 0 → Type 0
LiveHub Event = List (ExplainabilityRunId × LiveRunChannel Event)

module _ {Event : Type 0} where
  unfoldable pub register_run : ExplainabilityRunId → LiveHub Event → LiveHub Event
  register_run run_id hub =
      if contains_key run_id hub
      then hub
      else insert run_id (record { sent = []; last_sequence = 0 }) hub

  unfoldable pub publish : ExplainabilityEnvelope Event → LiveHub Event → LiveHub Event
  publish envelope hub = elim (lookup envelope.record_part.run_id hub) [
    | none ↦ hub
    | some channel ↦
        insert envelope.record_part.run_id
          (record { sent = channel.sent ++ envelope ∷ []; last_sequence = envelope.sequence }) hub
  ]

  unfoldable pub close_run : ExplainabilityRunId → LiveHub Event → LiveHub Event
  close_run run_id hub = remove run_id hub

  -- The snapshot sequence of the subscription, whose receiver gets what is sent from here on.
  unfoldable pub subscribe : ExplainabilityRunId → LiveHub Event → Option ℕ
  subscribe run_id hub = elim (lookup run_id hub) [
    | none ↦ none
    | some channel ↦ some channel.last_sequence
  ]

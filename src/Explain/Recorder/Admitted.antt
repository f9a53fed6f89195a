-- ===== src/Explain/Recorder/Admitted.antt =====
-- The queue of the recorder: what is admitted to it when a command is sent or received.
use graphloom.Base.{◌≡◌, true, false, List, [], ◌∷◌, ◌++◌, text_eq, contains_key, arith}
use graphloom.Explain.Types.{ExplainabilityRunId, ExplainabilityRecord}
use graphloom.Explain.RecorderState.{
  RunState, Command, create_command, record_command, finish_command, complete_command,
  shutdown_command, member,
}
use graphloom.Explain.Recorder.Invariant.{IsAdmitted, HasNoEnd}

module _ {Event : Type 0} where
  -- More gates and fewer ended runs admit no less.
  pub IsAdmitted-mono :
      (gates others : List (ExplainabilityRunId × RunState))
      (ended fewer : List ExplainabilityRunId)
      → ((id : ExplainabilityRunId) → contains_key id gates ≡ true → contains_key id others ≡ true)
      → ((id : ExplainabilityRunId) → member id ended ≡ false → member id fewer ≡ false)
      → (queue : List (Command Event)) → IsAdmitted gates ended queue
      → IsAdmitted others fewer queue
  IsAdmitted-mono gates others ended fewer up down [] h = tt
  IsAdmitted-mono gates others ended fewer up down (record_command r ∷ queue)
        (known, unfinished, h) =
      (
        up r.run_id known,
        down r.run_id unfinished,
        IsAdmitted-mono gates others ended fewer up down queue h,
      )
  IsAdmitted-mono gates others ended fewer up down (finish_command run_id ∷ queue) h =
      IsAdmitted-mono gates others (run_id ∷ ended) (run_id ∷ fewer) up
        (λ id e. ground (arith, e, down id)) queue h
  IsAdmitted-mono gates others ended fewer up down (create_command run ∷ queue) h =
      IsAdmitted-mono gates others ended fewer up down queue h
  IsAdmitted-mono gates others ended fewer up down (complete_command completion ∷ queue) h =
      IsAdmitted-mono gates others ended fewer up down queue h
  IsAdmitted-mono gates others ended fewer up down (shutdown_command ∷ queue) h =
      IsAdmitted-mono gates others ended fewer up down queue h

  -- A command that is admitted whatever has ended may be sent.
  pub IsAdmitted-send :
      (gates : List (ExplainabilityRunId × RunState)) (ended : List ExplainabilityRunId)
      (command : Command Event)
      → ((over : List ExplainabilityRunId) → IsAdmitted gates over (command ∷ []))
      → (queue : List (Command Event)) → IsAdmitted gates ended queue
      → IsAdmitted gates ended (queue ++ command ∷ [])
  IsAdmitted-send gates ended command free [] h = free ended
  IsAdmitted-send gates ended command free (record_command r ∷ queue) (known, unfinished, h) =
      (known, unfinished, IsAdmitted-send gates ended command free queue h)
  IsAdmitted-send gates ended command free (finish_command run_id ∷ queue) h =
      IsAdmitted-send gates (run_id ∷ ended) command free queue h
  IsAdmitted-send gates ended command free (create_command run ∷ queue) h =
      IsAdmitted-send gates ended command free queue h
  IsAdmitted-send gates ended command free (complete_command completion ∷ queue) h =
      IsAdmitted-send gates ended command free queue h
  IsAdmitted-send gates ended command free (shutdown_command ∷ queue) h =
      IsAdmitted-send gates ended command free queue h

  -- A record may be sent if its run has not ended and no end of it is queued.
  pub IsAdmitted-send_record :
      (gates : List (ExplainabilityRunId × RunState)) (ended : List ExplainabilityRunId)
      (r : ExplainabilityRecord Event)
      → contains_key r.run_id gates ≡ true
      → member r.run_id ended ≡ false
      → (queue : List (Command Event)) → HasNoEnd r.run_id queue
      → IsAdmitted gates ended queue
      → IsAdmitted gates ended (queue ++ record_command r ∷ [])
  IsAdmitted-send_record gates ended r known unfinished [] n h = (known, unfinished, tt)
  IsAdmitted-send_record gates ended r known unfinished (record_command s ∷ queue) n (k, u, h) =
      (k, u, IsAdmitted-send_record gates ended r known unfinished queue n h)
  IsAdmitted-send_record gates ended r known unfinished (finish_command run_id ∷ queue) (other, n)
        h =
      IsAdmitted-send_record gates (run_id ∷ ended) r known (ground (arith, unfinished, other))
        queue n h
  IsAdmitted-send_record gates ended r known unfinished (create_command run ∷ queue) n h =
      IsAdmitted-send_record gates ended r known unfinished queue n h
  IsAdmitted-send_record gates ended r known unfinished (complete_command completion ∷ queue) n h =
      IsAdmitted-send_record gates ended r known unfinished queue n h
  IsAdmitted-send_record gates ended r known unfinished (shutdown_command ∷ queue) n h =
      IsAdmitted-send_record gates ended r known unfinished queue n h

  pub HasNoEnd-send :
      (id : ExplainabilityRunId) (command : Command Event)
      → HasNoEnd id (command ∷ [])
      → (queue : List (Command Event)) → HasNoEnd id queue
      → HasNoEnd id (queue ++ command ∷ [])
  HasNoEnd-send id command last [] h = last
  HasNoEnd-send id command last (record_command r ∷ queue) h = HasNoEnd-send id command last queue h
  HasNoEnd-send id command last (finish_command run_id ∷ queue) (other, h) =
      (other, HasNoEnd-send id command last queue h)
  HasNoEnd-send id command last (create_command run ∷ queue) h =
      HasNoEnd-send id command last queue h
  HasNoEnd-send id command last (complete_command completion ∷ queue) h =
      HasNoEnd-send id command last queue h
  HasNoEnd-send id command last (shutdown_command ∷ queue) h = HasNoEnd-send id command last queue h

  -- What remains when the first command is received.
  pub IsAdmitted-tail :
      (gates : List (ExplainabilityRunId × RunState)) (ended : List ExplainabilityRunId)
      (command : Command Event) (queue : List (Command Event))
      → IsAdmitted gates ended (command ∷ queue)
      → IsAdmitted gates ended queue
  IsAdmitted-tail gates ended (record_command r) queue (known, unfinished, h) = h
  IsAdmitted-tail gates ended (finish_command run_id) queue h =
      IsAdmitted-mono gates gates (run_id ∷ ended) ended (λ id e. e) (λ id e. ground (arith, e))
        queue h
  IsAdmitted-tail gates ended (create_command run) queue h = h
  IsAdmitted-tail gates ended (complete_command completion) queue h = h
  IsAdmitted-tail gates ended shutdown_command queue h = h

  pub HasNoEnd-tail :
      (id : ExplainabilityRunId) (command : Command Event) (queue : List (Command Event))
      → HasNoEnd id (command ∷ queue)
      → HasNoEnd id queue
  HasNoEnd-tail id (record_command r) queue h = h
  HasNoEnd-tail id (finish_command run_id) queue (other, h) = h
  HasNoEnd-tail id (create_command run) queue h = h
  HasNoEnd-tail id (complete_command completion) queue h = h
  HasNoEnd-tail id shutdown_command queue h = h

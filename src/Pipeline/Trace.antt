-- ===== src/Pipeline/Trace.antt =====
-- The order in which IndexPipeline::run of pipeline.rs calls workflows and callbacks.
use graphloom.Base.{
  ℕ, ◌≡◌, true, false, List, [], ◌∷◌, ◌++◌, map, Text, Result, ok, err, length, take,
}
use graphloom.Pipeline.{
  IndexWorkflowOutput, GraphLoomError, index_workflow_failed, CallbackEvent, workflow_started,
  workflow_completed, error, reported, IndexWorkflow,
}

-- A callback about the start or the end of a workflow.
pub data Mark : Type 0 where
  begun ended failed : Text → Mark

abbrev pub mark : {Report : Type 0} → CallbackEvent Report → List Mark → List Mark
mark (workflow_started name) rest = begun name ∷ rest
mark (workflow_completed name stats) rest = ended name ∷ rest
mark (error name source) rest = failed name ∷ rest
mark (reported r) rest = rest

abbrev pub marks : {Report : Type 0} → List (CallbackEvent Report) → List Mark
marks [] = []
marks (e ∷ es) = mark e (marks es)

-- The marks of workflows that all succeed.
abbrev pub succeeded : List Text → List Mark
succeeded [] = []
succeeded (name ∷ names) = begun name ∷ ended name ∷ succeeded names

module _ {Config Services Row Report Prompt : Type 0} where
  abbrev names : List (IndexWorkflow Config Services Row Report Prompt) → List Text
  names steps = map (λ s. s.name) steps

  -- One output for each step, up to the first that stops the pipeline.
  abbrev pub IsUntilStop :
      List (IndexWorkflow Config Services Row Report Prompt)
      → List (IndexWorkflowOutput Row)
      → Type 0
  IsUntilStop [] [] = Unit
  IsUntilStop [] (o ∷ os) = ⊥
  IsUntilStop (s ∷ ss) [] = ⊥
  IsUntilStop (s ∷ ss) (o ∷ os) = elim o.stop [ true ↦ os ≡ [] | false ↦ IsUntilStop ss os ]

  -- What a result says about the steps and about the callbacks since `context`.
  abbrev pub IsTrace :
      List (IndexWorkflow Config Services Row Report Prompt)
      → List Mark
      → List (IndexWorkflowOutput Row)
      → Result GraphLoomError (List (IndexWorkflowOutput Row))
      → List Mark
      → Type 0
  IsTrace steps before outputs (ok all_outputs) after =
      (new : List (IndexWorkflowOutput Row)) × (all_outputs ≡ outputs ++ new)
      × IsUntilStop steps new
      × (after ≡ before ++ succeeded (take (length new) (names steps)))
  IsTrace steps before outputs (err e) after =
      (n : ℕ) × (step : IndexWorkflow Config Services Row Report Prompt) × (rest : List
        (IndexWorkflow Config Services Row Report Prompt))
      × (source : GraphLoomError) × (steps ≡ take n steps ++ step ∷ rest)
      × (e ≡ index_workflow_failed step.name source)
      × (after
          ≡ before ++ (succeeded (take n (names steps)) ++ begun step.name ∷ failed step.name ∷ []))

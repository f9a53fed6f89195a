-- ===== src/Pipeline.antt =====
-- crates/graphloom/src/workflow.rs, pipeline.rs and stats.rs: the registry of index workflows, the
-- pipeline that is compiled from configured names, and its run. What a workflow does is a parameter:
-- `Config`, `Services` (the handles of the context), `Row` and `Report` (a callback that a workflow
-- makes, which is not about its start or its end) are types of the caller, as is `Prompt`.
pub mod Trace
pub mod Registry
pub mod Requirements
mod Examples
use graphloom.Base.{
  ℕ, zero, suc, Bool, true, false, ◌||◌, Option, none, some, List, [], ◌∷◌, ◌++◌, map, Text,
  text_eq, pair_eq, ◌==◌, PartialEq, any, Result, ok, err, ◌>>=◌, try_map, lookup, insert,
  contains_key, if◌then◌else◌,
}

-- `BTreeSet::insert` and `extend`, for a set as the list of its elements.
module _ {ℓ} {K : Type ℓ} ⦃test : PartialEq K⦄ where
  abbrev pub contains : K → List K → Bool
  contains k = any (λ j. j == k)

  abbrev pub insert_new : K → List K → List K
  insert_new k keys = if contains k keys then keys else keys ++ k ∷ []

  unfoldable pub extend : List K → List K → List K
  extend keys [] = keys
  extend keys (k ∷ ks) = extend (insert_new k keys) ks

-- A tokenizer requirement is its source and its encoding.
pub record IndexWorkflowRequirements (Prompt : Type 0) : Type 0 where
  pub completion_models : List Text
  pub embedding_models : List Text
  pub prompt_templates : List Prompt
  pub vector_store : Bool
  pub chunking_config : Bool
  pub tokenizer_encodings : List (Text × Text)

module _ {Prompt : Type 0} where
  abbrev pub no_requirements : IndexWorkflowRequirements Prompt
  no_requirements = record {
    completion_models = [];
    embedding_models = [];
    prompt_templates = [];
    vector_store = false;
    chunking_config = false;
    tokenizer_encodings = [];
  }

  unfoldable pub require_completion_model :
      Text → IndexWorkflowRequirements Prompt → IndexWorkflowRequirements Prompt
  require_completion_model model_id r = record r {
    completion_models = insert_new model_id r.completion_models;
  }

  unfoldable pub require_embedding_model :
      Text → IndexWorkflowRequirements Prompt → IndexWorkflowRequirements Prompt
  require_embedding_model model_id r = record r {
    embedding_models = insert_new model_id r.embedding_models;
  }

  unfoldable pub require_prompt :
      ⦃test : PartialEq Prompt⦄
      → Prompt
      → IndexWorkflowRequirements Prompt
      → IndexWorkflowRequirements Prompt
  require_prompt prompt r = record r { prompt_templates = insert_new prompt r.prompt_templates }

  unfoldable pub require_vector_store :
      IndexWorkflowRequirements Prompt → IndexWorkflowRequirements Prompt
  require_vector_store r = record r { vector_store = true }

  unfoldable pub require_chunking_config :
      IndexWorkflowRequirements Prompt → IndexWorkflowRequirements Prompt
  require_chunking_config r = record r { chunking_config = true }

  unfoldable pub require_tokenizer :
      Text → Text → IndexWorkflowRequirements Prompt → IndexWorkflowRequirements Prompt
  require_tokenizer source encoding r = record r {
    tokenizer_encodings = insert_new (source, encoding) r.tokenizer_encodings;
  }

  unfoldable pub merge :
      ⦃test : PartialEq Prompt⦄
      → IndexWorkflowRequirements Prompt
      → IndexWorkflowRequirements Prompt
      → IndexWorkflowRequirements Prompt
  merge r other = record {
    completion_models = extend r.completion_models other.completion_models;
    embedding_models = extend r.embedding_models other.embedding_models;
    prompt_templates = extend r.prompt_templates other.prompt_templates;
    vector_store = r.vector_store || other.vector_store;
    chunking_config = r.chunking_config || other.chunking_config;
    tokenizer_encodings = extend r.tokenizer_encodings other.tokenizer_encodings;
  }

pub record IndexRunStats : Type 0 where
  pub document_count : ℕ
  pub update_document_count : ℕ
  pub text_unit_count : ℕ
  pub entity_count : ℕ
  pub relationship_count : ℕ
  pub community_count : ℕ
  pub report_count : ℕ
  pub embedding_count : ℕ
  pub llm_request_count : ℕ
  pub cache_hit_count : ℕ
  pub cache_miss_count : ℕ
  pub input_token_count : ℕ
  pub output_token_count : ℕ
  pub elapsed_ms : ℕ
  pub workflow_elapsed_ms : List (Text × ℕ)

unfoldable pub record_workflow_elapsed : Text → ℕ → IndexRunStats → IndexRunStats
record_workflow_elapsed workflow elapsed stats = record stats {
  workflow_elapsed_ms = insert workflow elapsed stats.workflow_elapsed_ms;
}

pub record IndexWorkflowOutput (Row : Type 0) : Type 0 where
  pub result : List Row
  pub stop : Bool
  pub input_rows : ℕ
  pub output_rows : ℕ

-- The variants of `GraphLoomError` that these files make, and what a workflow fails with.
pub data GraphLoomError : Type 0 where
  unknown_index_workflow : (name : Text) → GraphLoomError
  duplicate_index_workflow : (name : Text) → GraphLoomError
  index_workflow_failed : (name : Text) (source : GraphLoomError) → GraphLoomError
  workflow_error : Text → GraphLoomError

-- The calls of the callbacks in their order.
pub data CallbackEvent (Report : Type 0) : Type 0 where
  workflow_started : Text → CallbackEvent Report
  workflow_completed : Text → IndexRunStats → CallbackEvent Report
  error : Text → GraphLoomError → CallbackEvent Report
  reported : Report → CallbackEvent Report

pub record IndexPipelineContext (Services Report : Type 0) : Type 0 where
  pub services : Services
  pub stats : IndexRunStats
  pub callbacks : List (CallbackEvent Report)

-- What `IndexWorkflow::run` did: its result, the context's services and statistics after it, the
-- callbacks it made, and the milliseconds it took.
pub record WorkflowRun (Services Row Report : Type 0) : Type 0 where
  pub outcome : Result GraphLoomError (IndexWorkflowOutput Row)
  pub services : Services
  pub stats : IndexRunStats
  pub reports : List Report
  pub elapsed : ℕ

pub record IndexWorkflow (Config Services Row Report Prompt : Type 0) : Type 0 where
  pub name : Text
  pub requirements : Config → Result GraphLoomError (IndexWorkflowRequirements Prompt)
  pub run : Config → Services → IndexRunStats → WorkflowRun Services Row Report

module _ {Services Row Report : Type 0} where
  -- The context when a workflow has run, before its result is looked at.
  abbrev pub after_run :
      Text
      → WorkflowRun Services Row Report
      → IndexPipelineContext Services Report
      → IndexPipelineContext Services Report
  after_run name did context = record {
    services = did.services;
    stats = did.stats;
    callbacks =
        (context.callbacks ++ workflow_started name ∷ []) ++ map (λ r. reported r) did.reports;
  }

module _ {Services Report : Type 0} where
  -- `record_workflow_elapsed` and `workflow_completed`.
  abbrev pub completed :
      Text → ℕ → IndexPipelineContext Services Report → IndexPipelineContext Services Report
  completed name elapsed context =
      let stats = record_workflow_elapsed name elapsed context.stats in
      record context {
        stats = stats;
        callbacks = context.callbacks ++ workflow_completed name stats ∷ [];
      }

module _ {Config Services Row Report Prompt : Type 0} where
  -- The map of the registry, from names to workflows.
  unfoldable pub register :
      IndexWorkflow Config Services Row Report Prompt
      → List (Text × IndexWorkflow Config Services Row Report Prompt)
      → Result GraphLoomError (List (Text × IndexWorkflow Config Services Row Report Prompt))
  register workflow workflows =
      if contains_key workflow.name workflows
      then err (duplicate_index_workflow workflow.name)
      else ok (insert workflow.name workflow workflows)

  unfoldable pub resolve :
      Text
      → List (Text × IndexWorkflow Config Services Row Report Prompt)
      → Result GraphLoomError (IndexWorkflow Config Services Row Report Prompt)
  resolve name workflows = elim (lookup name workflows) [
    | none ↦ err (unknown_index_workflow name)
    | some workflow ↦ ok workflow
  ]

  -- The steps of the pipeline. A step is its workflow, whose name it repeats.
  unfoldable pub compile :
      List (Text × IndexWorkflow Config Services Row Report Prompt)
      → List Text
      → Result GraphLoomError (List (IndexWorkflow Config Services Row Report Prompt))
  compile registry names = try_map (λ name. resolve name registry) names

  module _ ⦃test : PartialEq Prompt⦄ (config : Config) where
    -- The loop of IndexPipeline::requirements.
    unfoldable pub merge_all :
        List (IndexWorkflow Config Services Row Report Prompt)
        → IndexWorkflowRequirements Prompt
        → Result GraphLoomError (IndexWorkflowRequirements Prompt)
    merge_all [] r = ok r
    merge_all (step ∷ steps) r =
        step.requirements config >>= λ other. merge_all steps (merge r other)

    unfoldable pub requirements :
        List (IndexWorkflow Config Services Row Report Prompt)
        → Result GraphLoomError (IndexWorkflowRequirements Prompt)
    requirements steps = merge_all steps no_requirements

  -- The loop of IndexPipeline::run.
  unfoldable pub run_steps :
      Config
      → List (IndexWorkflow Config Services Row Report Prompt)
      → IndexPipelineContext Services Report
      → List (IndexWorkflowOutput Row)
      → Result GraphLoomError (List (IndexWorkflowOutput Row))
        × IndexPipelineContext Services Report
  run_steps config [] context outputs = (ok outputs, context)
  run_steps config (step ∷ steps) context outputs =
      let did = step.run config context.services context.stats in
      let ran = after_run step.name did context in
      elim did.outcome [
        | err source ↦ (
          err (index_workflow_failed step.name source),
          record ran { callbacks = ran.callbacks ++ error step.name source ∷ [] },
        )
        | ok output ↦ elim output.stop [
          | true ↦ (ok (outputs ++ output ∷ []), completed step.name did.elapsed ran)
          | false ↦
              run_steps config steps (completed step.name did.elapsed ran) (outputs ++ output ∷ [])
        ]
      ]

  -- `elapsed_ms` is written only when no workflow failed. `total` is the time of the run.
  unfoldable pub run :
      Config
      → (total : ℕ) → List (IndexWorkflow Config Services Row Report Prompt)
      → IndexPipelineContext Services Report
      → Result GraphLoomError (List (IndexWorkflowOutput Row))
        × IndexPipelineContext Services Report
  run config total steps context =
      let (r, after) = run_steps config steps context [] in
      elim r [
        | err e ↦ (err e, after)
        | ok outputs ↦
            (ok outputs, record after { stats = record after.stats { elapsed_ms = total } })
      ]

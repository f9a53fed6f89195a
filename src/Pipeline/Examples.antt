-- ===== src/Pipeline/Examples.antt =====
-- A pipeline of three workflows, of which the second stops it or fails, and the theorems there.
use graphloom.Base.{
  ℕ, ◌≡◌, refl, List, [], ◌∷◌, map, Bool, true, false, some, Text, text_eq, pair_eq, nat_eq, Result,
  ok, err, codes, lookup, insert, text_beq,
}
use graphloom.Pipeline.{
  IndexRunStats, IndexWorkflowOutput, GraphLoomError, workflow_error, unknown_index_workflow,
  IndexPipelineContext, IndexWorkflow, IndexWorkflowRequirements, no_requirements,
  require_completion_model, require_vector_store, require_embedding_model, require_prompt,
  require_chunking_config, require_tokenizer, register, resolve, compile, merge_all, requirements,
  merge, extend, run_steps, run, record_workflow_elapsed,
}
use graphloom.Pipeline.Trace.{marks, begun, ended, failed}
use graphloom.Pipeline.Requirements.{IsMerged, requirements-IsMerged}
use graphloom.Pipeline.Registry.{Registered, empty, added, compile-names}

program : Unit {0}
unfolding require_completion_model require_vector_store require_embedding_model require_prompt
    require_chunking_config require_tokenizer register resolve compile merge_all requirements merge
    extend run_steps run record_workflow_elapsed lookup insert text_beq
program = tt

abbrev Flow : Type 0
Flow = IndexWorkflow ℕ ℕ ℕ ℕ ℕ

abbrev output : Bool → IndexWorkflowOutput ℕ
output stop = record { result = []; stop = stop; input_rows = 1; output_rows = 1 }

abbrev needs : ℕ → IndexWorkflowRequirements ℕ
needs kind =
    require_vector_store
      (require_completion_model (codes "shared") (require_prompt kind no_requirements))

abbrev flow : Text → ℕ → Result GraphLoomError (IndexWorkflowOutput ℕ) → Flow
flow name kind outcome = record {
  name = name;
  requirements = λ config. ok (needs kind);
  run = λ config services stats. record {
    outcome = outcome;
    services = services;
    stats = stats;
    reports = kind ∷ [];
    elapsed = 5;
  };
}

abbrev load : Flow
load = flow (codes "load") 1 (ok (output false))

abbrev halt : Flow
halt = flow (codes "halt") 2 (ok (output true))

abbrev broken : Flow
broken = flow (codes "broken") 3 (err (workflow_error (codes "boom")))

abbrev no_stats : IndexRunStats
no_stats = record {
  document_count = 0;
  update_document_count = 0;
  text_unit_count = 0;
  entity_count = 0;
  relationship_count = 0;
  community_count = 0;
  report_count = 0;
  embedding_count = 0;
  llm_request_count = 0;
  cache_hit_count = 0;
  cache_miss_count = 0;
  input_token_count = 0;
  output_token_count = 0;
  elapsed_ms = 0;
  workflow_elapsed_ms = [];
}

abbrev context : IndexPipelineContext ℕ ℕ
context = record { services = 0; stats = no_stats; callbacks = [] }

stopped_early :
    (run 0 9 (load ∷ halt ∷ broken ∷ []) context).0 ≡ ok (output false ∷ output true ∷ [])
unfolding program
stopped_early = refl

failed_marked :
    marks (run 0 9 (load ∷ broken ∷ halt ∷ []) context).1.callbacks
    ≡ begun (codes "load")
      ∷ ended (codes "load")
      ∷ begun (codes "broken")
      ∷ failed (codes "broken")
      ∷ []
unfolding program
failed_marked = refl

abbrev required : IndexWorkflowRequirements ℕ
required = record {
  completion_models = codes "shared" ∷ [];
  embedding_models = [];
  prompt_templates = 1 ∷ 2 ∷ [];
  vector_store = true;
  chunking_config = false;
  tokenizer_encodings = [];
}

required_merged : requirements 0 (load ∷ halt ∷ []) ≡ ok required
unfolding program
required_merged = refl

requirements-IsMerged_example :
    (all : List (IndexWorkflowRequirements ℕ)) × (map (λ s. s.requirements 0) (load ∷ halt ∷ [])
      ≡ map ok all)
    × IsMerged (codes "shared") 2 (codes "s", codes "e") no_requirements all required
requirements-IsMerged_example =
    requirements-IsMerged 0 (codes "shared") 2 (codes "s", codes "e") (load ∷ halt ∷ []) required
      required_merged

abbrev registry : List (Text × Flow)
registry = (codes "load", load) ∷ (codes "halt", halt) ∷ []

registry-Registered : Registered registry
unfolding program
registry-Registered = added (added empty load ((codes "load", load) ∷ []) refl) halt registry refl

unknown_refused :
    compile registry (codes "load" ∷ codes "x" ∷ []) ≡ err (unknown_index_workflow (codes "x"))
unfolding program
unknown_refused = refl

compiled : compile registry (codes "halt" ∷ codes "load" ∷ []) ≡ ok (halt ∷ load ∷ [])
unfolding program
compiled = refl

compile-names_example :
    (map (λ s. s.name) (halt ∷ load ∷ []) ≡ codes "halt" ∷ codes "load" ∷ [])
    × (map (λ n. lookup n registry) (codes "halt" ∷ codes "load" ∷ [])
        ≡ map some (halt ∷ load ∷ []))
compile-names_example =
    compile-names registry (codes "halt" ∷ codes "load" ∷ []) (halt ∷ load ∷ []) registry-Registered
      compiled

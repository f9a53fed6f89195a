-- ===== src/Pipeline/Requirements.antt =====
-- What IndexPipeline::requirements of pipeline.rs merges.
use graphloom.Base.{
  ◌≡◌, refl, true, ◌||◌, List, [], ◌∷◌, ◌++◌, Text, text_eq, pair_eq, ◌==◌, PartialEq, any, ok,
  arith, >>=-eq-ok, ok-injective, subst, map,
}
use graphloom.Pipeline.{
  contains, insert_new, extend, IndexWorkflowRequirements, no_requirements, merge, IndexWorkflow,
  merge_all, requirements,
}

module _ {ℓ} {K : Type ℓ} ⦃test : PartialEq K⦄ where
  contains_snoc :
      (k j : K) (keys : List K) → contains k (keys ++ j ∷ []) ≡ (contains k keys || (j == k))
  contains_snoc k j [] = ground arith
  contains_snoc k j (i ∷ keys) = ground (arith, contains_snoc k j keys)

  any_same :
      (k j : K) (keys : List K) → contains j keys ≡ true → (j == k) ≡ true → contains k keys ≡ true
  any_same k j [] h e = ground arith
  any_same k j (i ∷ keys) h e =
      ground
        (arith, any_same k j keys, test.eq_test_iff j k, test.eq_test_iff i k, test.eq_test_iff i j)

  contains-insert_new :
      (k j : K) (keys : List K) → contains k (insert_new j keys) ≡ (contains k keys || (j == k))
  contains-insert_new k j keys = ground (arith, contains_snoc k j keys, any_same k j keys)

  pub contains-extend :
      (k : K) (keys other : List K)
      → contains k (extend keys other) ≡ (contains k keys || contains k other)
  unfolding extend
  contains-extend k keys [] = ground arith
  contains-extend k keys (j ∷ js) =
      ground (arith, contains-extend k (insert_new j keys) js, contains-insert_new k j keys)

module _ {Prompt : Type 0} ⦃test : PartialEq Prompt⦄ where
  -- What stands in `out`: what stood in `r`, and what any of the requirements `all` has.
  abbrev pub IsMerged :
      Text
      → Prompt
      → Text × Text
      → IndexWorkflowRequirements Prompt
      → List (IndexWorkflowRequirements Prompt)
      → IndexWorkflowRequirements Prompt
      → Type 0
  IsMerged model prompt tokenizer r all out =
      (contains model out.completion_models
        ≡ (contains model r.completion_models || any (λ q. contains model q.completion_models) all))
      × (contains model out.embedding_models
          ≡ (contains model r.embedding_models || any (λ q. contains model q.embedding_models) all))
      × (contains prompt out.prompt_templates ≡ (
          contains prompt r.prompt_templates || any (λ q. contains prompt q.prompt_templates) all))
      × (contains tokenizer out.tokenizer_encodings ≡ (
          contains tokenizer r.tokenizer_encodings
          || any (λ q. contains tokenizer q.tokenizer_encodings) all))
      × (out.vector_store ≡ (r.vector_store || any (λ q. q.vector_store) all))
      × (out.chunking_config ≡ (r.chunking_config || any (λ q. q.chunking_config) all))

  merge-IsMerged :
      (model : Text) (prompt : Prompt) (tokenizer : Text × Text)
      (r q out : IndexWorkflowRequirements Prompt) (all : List (IndexWorkflowRequirements Prompt))
      → IsMerged model prompt tokenizer (merge r q) all out
      → IsMerged model prompt tokenizer r (q ∷ all) out
  unfolding merge
  merge-IsMerged model prompt tokenizer r q out all h = ground (
    arith,
    contains-extend model r.completion_models q.completion_models,
    contains-extend model r.embedding_models q.embedding_models,
    contains-extend prompt r.prompt_templates q.prompt_templates,
    contains-extend tokenizer r.tokenizer_encodings q.tokenizer_encodings,
  )

  IsMerged-nil :
      (model : Text) (prompt : Prompt) (tokenizer : Text × Text)
      (r : IndexWorkflowRequirements Prompt)
      → IsMerged model prompt tokenizer r [] r
  IsMerged-nil model prompt tokenizer r = ground arith

module _ {Config Services Row Report Prompt : Type 0} ⦃test : PartialEq Prompt⦄
    (config : Config) where
  merge_all-IsMerged :
      (model : Text) (prompt : Prompt) (tokenizer : Text × Text)
      (steps : List (IndexWorkflow Config Services Row Report Prompt))
      (r out : IndexWorkflowRequirements Prompt)
      → merge_all config steps r ≡ ok out
      → (all : List (IndexWorkflowRequirements Prompt)) × (map (λ s. s.requirements config) steps
          ≡ map ok all)
        × IsMerged model prompt tokenizer r all out
  unfolding merge_all
  merge_all-IsMerged model prompt tokenizer [] r out h = (
    [],
    refl,
    subst (IsMerged model prompt tokenizer r []) (ok-injective h)
        (IsMerged-nil model prompt tokenizer r),
  )
  merge_all-IsMerged model prompt tokenizer (step ∷ steps) r out h =
      let (q, declared, rest) =
        >>=-eq-ok (step.requirements config) (λ other. merge_all config steps (merge r other)) h in
      let (all, later, merged) =
        merge_all-IsMerged model prompt tokenizer steps (merge r q) out rest in
      (
        q ∷ all,
        (λ i. declared i ∷ later i),
        merge-IsMerged model prompt tokenizer r q out all merged,
      )

  -- When the requirements of a pipeline can be derived, every step has declared its own, and a model, a
  -- prompt or a tokenizer, whichever it is, is required by the pipeline exactly if it is by one of the
  -- steps, as are vector storage and the chunking configuration.
  pub requirements-IsMerged :
      (model : Text) (prompt : Prompt) (tokenizer : Text × Text)
      (steps : List (IndexWorkflow Config Services Row Report Prompt))
      (out : IndexWorkflowRequirements Prompt)
      → requirements config steps ≡ ok out
      → (all : List (IndexWorkflowRequirements Prompt)) × (map (λ s. s.requirements config) steps
          ≡ map ok all)
        × IsMerged model prompt tokenizer no_requirements all out
  unfolding requirements
  requirements-IsMerged model prompt tokenizer steps out h =
      merge_all-IsMerged model prompt tokenizer steps no_requirements out h

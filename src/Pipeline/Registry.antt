-- ===== src/Pipeline/Registry.antt =====
-- The registry of workflow.rs and IndexPipelineFactory::compile of pipeline.rs.
use graphloom.Base.{
  ◌≡◌, refl, ap, sym, ◌∙◌, subst, none, some, List, [], ◌∷◌, map, Text, text_eq, ◌==◌, ok, ◌>>=◌,
  lookup, insert, if◌then◌else◌, arith, lookup-insert, Option-cases, Bool-cases, inl, inr,
  >>=-eq-ok, ok-injective, some-injective,
}
use graphloom.Pipeline.{IndexWorkflow, register, resolve, compile}

module _ {Config Services Row Report Prompt : Type 0} where
  -- A registry that calls of register lead to, from the empty one.
  pub data Registered : List (Text × IndexWorkflow Config Services Row Report Prompt) → Type 0 where
    empty : Registered []
    added :
        {workflows : List (Text × IndexWorkflow Config Services Row Report Prompt)}
        → Registered workflows
        → (workflow : IndexWorkflow Config Services Row Report Prompt)
          (next : List (Text × IndexWorkflow Config Services Row Report Prompt))
        → register workflow workflows ≡ ok next
        → Registered next

  register-cases :
      (workflow : IndexWorkflow Config Services Row Report Prompt)
      (workflows next : List (Text × IndexWorkflow Config Services Row Report Prompt))
      → register workflow workflows ≡ ok next
      → (lookup workflow.name workflows ≡ none) × (next ≡ insert workflow.name workflow workflows)
  unfolding register
  register-cases workflow workflows next h = elim (Option-cases (lookup workflow.name workflows)) [
    | inl e ↦ (e, ground arith)
    | inr (w, e) ↦ ground arith
  ]

  -- A name resolves to a workflow with that name.
  registered_name :
      (name : Text) (workflow : IndexWorkflow Config Services Row Report Prompt)
      (workflows : List (Text × IndexWorkflow Config Services Row Report Prompt))
      → Registered workflows
      → lookup name workflows ≡ some workflow
      → workflow.name ≡ name
  unfolding lookup
  registered_name name workflow _ empty h = ground arith
  registered_name name workflow next (added {workflows} before new _ done) h =
      let (absent, made) = register-cases new workflows next done in
      elim (Bool-cases (new.name == name)) [
        | inl e ↦
            (let found : lookup name next ≡ some new =
                ap (lookup name) made
                ∙ lookup-insert new.name name new workflows
                ∙ ap (λ b. if b then some new else lookup name workflows) e in
              ap (λ w. w.name) (some-injective (sym h ∙ found))
              ∙ (text_eq.eq_test_iff new.name name).0 e)
        | inr e ↦ registered_name name workflow workflows before (
            sym (
              ap (lookup name) made
              ∙ lookup-insert new.name name new workflows
              ∙ ap (λ b. if b then some new else lookup name workflows) e)
            ∙ h)
      ]

  resolve-some :
      (name : Text) (workflows : List (Text × IndexWorkflow Config Services Row Report Prompt))
      (step : IndexWorkflow Config Services Row Report Prompt)
      → lookup name workflows ≡ some step
      → resolve name workflows ≡ ok step
  unfolding resolve
  resolve-some name workflows step e = rw (e, resolve) refl

  resolve-lookup :
      (name : Text) (workflows : List (Text × IndexWorkflow Config Services Row Report Prompt))
      (step : IndexWorkflow Config Services Row Report Prompt)
      → resolve name workflows ≡ ok step
      → lookup name workflows ≡ some step
  unfolding resolve
  resolve-lookup name workflows step h = elim (Option-cases (lookup name workflows)) [
    | inl e ↦ ground arith
    | inr (w, e) ↦ e ∙ ap some (ok-injective (sym (resolve-some name workflows w e) ∙ h))
  ]

  -- From a registry that was built by register: when the configured names compile, the pipeline has a
  -- step for each name, in their order, which is the workflow that the registry has for the name, and
  -- whose own name it is.
  pub compile-names :
      (workflows : List (Text × IndexWorkflow Config Services Row Report Prompt))
      (names : List Text) (steps : List (IndexWorkflow Config Services Row Report Prompt))
      → Registered workflows
      → compile workflows names ≡ ok steps
      → (map (λ s. s.name) steps ≡ names) × (map (λ n. lookup n workflows) names ≡ map some steps)
  unfolding compile resolve
  compile-names workflows [] steps r h =
      (ap (map (λ s. s.name)) (sym (ok-injective h)), ap (map some) (ok-injective h))
  compile-names workflows (name ∷ names) steps r h =
      let (step, found, more) =
        >>=-eq-ok (resolve name workflows) (λ y. compile workflows names >>= λ ys. ok (y ∷ ys)) h in
      let (rest, compiled, whole) =
        >>=-eq-ok (compile workflows names) (λ ys. ok (step ∷ ys)) more in
      let there = resolve-lookup name workflows step found in
      let (named, looked) = compile-names workflows names rest r compiled in
      let same = registered_name name step workflows r there in
      (
        subst (λ l. map (λ s. s.name) l ≡ name ∷ names) (ok-injective whole)
            (λ i. same i ∷ named i),
        subst (λ l. map (λ n. lookup n workflows) (name ∷ names) ≡ map some l) (ok-injective whole)
            (λ i. there i ∷ looked i),
      )

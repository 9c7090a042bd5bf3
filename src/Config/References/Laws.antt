-- ===== src/Config/References/Laws.antt =====
-- Loading a workflow in app/runtime_config.go ends, also where its files refer to each other in a
-- circle, and leaves no reference to expand.
use routing_slip_pattern.Common.{
  ℕ, zero, suc, ◌≤◌, ◌<◌, String, true, false, List, [], ◌∷◌, Option, some, ◌≡◌, refl, arith,
  eq_iff, str_eq, Bool-cases, inl, inr, if_rule, option_rule, if◌then◌else◌,
}
use routing_slip_pattern.Config.{WorkflowConfig, StepConfig}
use routing_slip_pattern.Config.Workflow.{apply_workflow_defaults, validate_workflow_config}
use routing_slip_pattern.Config.References.{
  Files, Load, loaded, failed, Steps, before, with_child, with_steps, is_reference,
  workflow_ref_path, expand_workflow_references, checked_workflow, load_workflow_config,
}
use routing_slip_pattern.Config.References.Ids.{has_text}

-- How many of the known files are not being loaded.
abbrev pub free : List String → List String → ℕ
free [] stack = 0
free (k ∷ known) stack = if has_text k stack then free known stack else suc (free known stack)

free-push_le : (known stack : List String) (s : String) → free known (s ∷ stack) ≤ free known stack
free-push_le [] stack s = omega arith
free-push_le (k ∷ known) stack s = ground (arith, free-push_le known stack s)

-- A known file that begins to be loaded is one less.
free-push :
    (known stack : List String) (s : String)
    → has_text s known ≡ true
    → has_text s stack ≡ false
    → free known (s ∷ stack) < free known stack
free-push [] stack s h fresh = absurd (ground (arith, h))
free-push (k ∷ known) stack s h fresh = elim (Bool-cases (str_eq s k)) [
  | inl same ↦ ground (arith, free-push_le known stack s, eq_iff s k, eq_iff k s, same, fresh)
  | inr other ↦ ground (arith, free-push known stack s, h, other, fresh)
]

-- The value is there.
abbrev Ends : {A : Type 0} → Option A → Type 0
Ends {A} o = (a : A) × (o ≡ some a)

before-Ends : (front : List StepConfig) (o : Steps) → Ends o → Ends (before front o)
before-Ends front o ((failed e), h) = rw h (_, refl)
before-Ends front o ((loaded steps), h) = rw h (_, refl)

with_steps-Ends : (w : WorkflowConfig) (o : Steps) → Ends o → Ends (with_steps w o)
with_steps-Ends w o ((failed e), h) = rw h (_, refl)
with_steps-Ends w o ((loaded steps), h) = rw h (_, refl)

with_child-Ends :
    (path : String) (f : WorkflowConfig → Steps) (o : Option (Load WorkflowConfig))
    → Ends o
    → ((child : WorkflowConfig) → Ends (f child))
    → Ends (with_child path f o)
with_child-Ends path f o ((failed e), h) each = rw h (_, refl)
with_child-Ends path f o ((loaded child), h) each = rw h (each child)

module _ (files : Files) where
  expand-Ends :
      (load : String → Option (Load WorkflowConfig)) (source : String) (steps : List StepConfig)
      → ((path : String) → Ends (load path))
      → Ends (expand_workflow_references files load source steps)
  unfolding expand_workflow_references
  expand-Ends load source [] h = (_, refl)
  expand-Ends load source (step ∷ steps) h =
      let rest = expand-Ends load source steps h in
      if_rule Ends (is_reference step) _ _
        (λ _.
          option_rule Ends (workflow_ref_path step) _ _ (λ _. (_, refl))
            (λ ref _. with_child-Ends _ _ _ (h _) (λ child. before-Ends _ _ rest)))
        (λ _. before-Ends (step ∷ []) _ rest)

  checked-Ends :
      (load : String → Option (Load WorkflowConfig)) (source : String) (w : WorkflowConfig)
      → ((path : String) → Ends (load path))
      → Ends (checked_workflow files load source w)
  unfolding checked_workflow
  checked-Ends load source w h =
      option_rule Ends (validate_workflow_config files.quote (apply_workflow_defaults w)) _ _
        (λ _.
          with_steps-Ends (apply_workflow_defaults w) _
            (expand-Ends load source (apply_workflow_defaults w).steps h))
        (λ e _. (_, refl))

-- Loading a workflow ends, with the workflow or an error, also where workflows refer to each other in
-- a circle: where every file that can be read is one of a finite list, by its absolute path, fuel
-- beyond the number of those files that are not being loaded already is enough.
pub load_workflow_config_ends :
    (files : Files) (known : List String) (fuel : ℕ) (stack : List String) (path : String)
    → ((p source : String) (w : WorkflowConfig)
        → files.abs p ≡ some source
        → files.read p ≡ some w
        → has_text source known ≡ true)
    → free known stack < fuel
    → (r : Load WorkflowConfig) × (load_workflow_config files fuel stack path ≡ some r)
unfolding load_workflow_config
load_workflow_config_ends files known zero stack path finite h = absurd (omega (arith, h))
load_workflow_config_ends files known (suc fuel) stack path finite h =
    option_rule Ends (files.abs path) _ _ (λ _. (_, refl))
      (λ source at.
        if_rule Ends (has_text source stack) _ _ (λ _. (_, refl))
          (λ fresh.
            option_rule Ends (files.read path) _ _ (λ _. (_, refl))
              (λ w found. checked-Ends files _ source w (λ p.
                load_workflow_config_ends files known fuel (source ∷ stack) p finite (
                  omega (
                    arith,
                    h,
                    free-push known stack source (finite path source w at found) fresh,
                  ))))))

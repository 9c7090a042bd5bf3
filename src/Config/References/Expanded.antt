-- ===== src/Config/References/Expanded.antt =====
-- Loading a workflow of app/runtime_config.go expands its references as the relation says.
use routing_slip_pattern.Common.{
  ℕ, zero, suc, String, true, false, List, [], ◌∷◌, Option, none, some, ◌≡◌, refl, subst, All,
  if_rule, option_rule,
}
use routing_slip_pattern.Config.{WorkflowConfig, StepConfig}
use routing_slip_pattern.Config.Workflow.{apply_workflow_defaults, validate_workflow_config}
use routing_slip_pattern.Config.References.{
  Files, Load, loaded, failed, Steps, before, with_child, with_steps, is_reference, import_steps,
  child_ids, workflow_ref_path, workflow_ref_prefix, resolve_workflow_ref_path, with_extension,
  expand_workflow_references, checked_workflow, load_workflow_config,
}
use routing_slip_pattern.Config.References.Expansion.{
  IsPlain, no_more, joins, Imports, at_end, keeps, brings_in, Expands, Loads, Expands-All,
}
use routing_slip_pattern.Config.References.Ids.{has_text}

import_steps-Imports :
    (prefix : String) (ids : List String) (i : ℕ) (steps : List StepConfig)
    → Imports prefix ids i steps (import_steps prefix ids i steps)
unfolding import_steps
import_steps-Imports prefix ids i [] = no_more
import_steps-Imports prefix ids i (s ∷ ss) =
    joins
      (record {
        new_id = refl;
        same_name = refl;
        same_enabled = refl;
        same_resilience = refl;
        new_params = refl;
      })
      (import_steps-Imports prefix ids (suc i) ss)

module _ (files : Files) where
  ExpandsTry : String → List StepConfig → Steps → Type 0
  ExpandsTry source steps none = Unit
  ExpandsTry source steps (some (failed e)) = Unit
  ExpandsTry source steps (some (loaded out)) = Expands files source steps out

  LoadsTry : String → Option (Load WorkflowConfig) → Type 0
  LoadsTry path none = Unit
  LoadsTry path (some (failed e)) = Unit
  LoadsTry path (some (loaded w)) = Loads files path w

  kept-ExpandsTry :
      (source : String) (step : StepConfig) (steps : List StepConfig) (o : Steps)
      → is_reference step ≡ false
      → ExpandsTry source steps o
      → ExpandsTry source (step ∷ steps) (before (step ∷ []) o)
  unfolding ExpandsTry
  kept-ExpandsTry source step steps none plain h = tt
  kept-ExpandsTry source step steps (some (failed e)) plain h = tt
  kept-ExpandsTry source step steps (some (loaded out)) plain h = keeps plain h

  imported-ExpandsTry :
      (source : String) (step : StepConfig) (steps : List StepConfig) (rest : Steps)
      (ref path : String) (child : WorkflowConfig)
      → is_reference step ≡ true
      → workflow_ref_path step ≡ some ref
      → path ≡ with_extension files (resolve_workflow_ref_path files source ref)
      → Loads files path child
      → ExpandsTry source steps rest
      → ExpandsTry source (step ∷ steps) (
          before
            (import_steps
              (workflow_ref_prefix files step child path)
              (child_ids child.steps)
              0
              child.steps)
            rest)
  unfolding ExpandsTry
  imported-ExpandsTry source step steps none ref path child is at p l h = tt
  imported-ExpandsTry source step steps (some (failed e)) ref path child is at p l h = tt
  imported-ExpandsTry source step steps (some (loaded out)) ref path child is at p l h =
      brings_in ref path l.source l.read child is at p l.at_path l.was_read l.else_same l.expands
        (import_steps-Imports _ _ 0 child.steps) h

  with_child-ExpandsTry :
      (source : String) (step : StepConfig) (steps : List StepConfig) (rest : Steps)
      (ref path : String) (o : Option (Load WorkflowConfig))
      → is_reference step ≡ true
      → workflow_ref_path step ≡ some ref
      → path ≡ with_extension files (resolve_workflow_ref_path files source ref)
      → LoadsTry path o
      → ExpandsTry source steps rest
      → ExpandsTry source (step ∷ steps) (
          with_child path
            (λ child.
              before
                (import_steps
                  (workflow_ref_prefix files step child path)
                  (child_ids child.steps)
                  0
                  child.steps)
                rest)
            o)
  unfolding ExpandsTry LoadsTry
  with_child-ExpandsTry source step steps rest ref path none is at p l h = tt
  with_child-ExpandsTry source step steps rest ref path (some (failed e)) is at p l h = tt
  with_child-ExpandsTry source step steps rest ref path (some (loaded child)) is at p l h =
      imported-ExpandsTry source step steps rest ref path child is at p l h

  expand-ExpandsTry :
      (load : String → Option (Load WorkflowConfig)) (source : String) (steps : List StepConfig)
      → ((path : String) → LoadsTry path (load path))
      → ExpandsTry source steps (expand_workflow_references files load source steps)
  unfolding expand_workflow_references ExpandsTry
  expand-ExpandsTry load source [] h = at_end
  expand-ExpandsTry load source (step ∷ steps) h =
      let rest = expand-ExpandsTry load source steps h in
      if_rule (ExpandsTry source (step ∷ steps)) (is_reference step) _ _
        (λ is.
          option_rule (ExpandsTry source (step ∷ steps)) (workflow_ref_path step) _ _ (λ _. tt)
            (λ ref at.
              with_child-ExpandsTry source step steps _ ref _ _ is at refl
                (h (with_extension files (resolve_workflow_ref_path files source ref))) rest))
        (λ plain. kept-ExpandsTry source step steps _ plain rest)

  with_steps-LoadsTry :
      (path source : String) (read : WorkflowConfig) (o : Steps)
      → files.abs path ≡ some source
      → files.read path ≡ some read
      → ExpandsTry source (apply_workflow_defaults read).steps o
      → LoadsTry path (with_steps (apply_workflow_defaults read) o)
  unfolding ExpandsTry LoadsTry
  with_steps-LoadsTry path source read none a b h = tt
  with_steps-LoadsTry path source read (some (failed e)) a b h = tt
  with_steps-LoadsTry path source read (some (loaded out)) a b h = record {
    source = source;
    read = read;
    at_path = a;
    was_read = b;
    else_same = refl;
    expands = h;
  }

  load-LoadsTry :
      (fuel : ℕ) (stack : List String) (path : String)
      → LoadsTry path (load_workflow_config files fuel stack path)
  unfolding load_workflow_config checked_workflow LoadsTry
  load-LoadsTry zero stack path = tt
  load-LoadsTry (suc fuel) stack path =
      option_rule (LoadsTry path) (files.abs path) _ _ (λ _. tt)
        (λ source a.
          if_rule (LoadsTry path) (has_text source stack) _ _ (λ _. tt)
            (λ _.
              option_rule (LoadsTry path) (files.read path) _ _ (λ _. tt)
                (λ w b.
                  option_rule (LoadsTry path)
                    (validate_workflow_config files.quote (apply_workflow_defaults w)) _ _
                    (λ _. with_steps-LoadsTry path source w _ a b (
                      expand-ExpandsTry _ source (apply_workflow_defaults w).steps
                        (λ p. load-LoadsTry fuel (source ∷ stack) p)))
                    (λ e _. tt))))

-- A workflow that is loaded is the one that was read, with its defaults, and its steps are those of
-- the file in their order, where each step that is switched on and named "workflow_ref" has been
-- replaced by all the steps, expanded in the same way, of the workflow it refers to: each with its
-- name, its switch and its policy as they were, its id under the prefix and its parameters with their
-- targets rewritten. No step that is left is such a reference, however deep workflows refer to each
-- other.
pub load_workflow_config-Loads :
    (files : Files) (fuel : ℕ) (stack : List String) (path : String) (w : WorkflowConfig)
    → load_workflow_config files fuel stack path ≡ some (loaded w)
    → Loads files path w × All IsPlain w.steps
unfolding LoadsTry
load_workflow_config-Loads files fuel stack path w e =
    let l : Loads files path w =
      subst (LoadsTry files path) e (load-LoadsTry files fuel stack path) in
    (l, Expands-All l.expands)

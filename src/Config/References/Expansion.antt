-- ===== src/Config/References/Expansion.antt =====
-- What the steps of a workflow of app/runtime_config.go expand to, as a relation: the steps of the
-- file, and in the place of each reference the steps of the workflow that it refers to.
use routing_slip_pattern.Common.{ℕ, suc, String, true, false, List, [], ◌∷◌, ◌++◌, some, ◌≡◌, All}
use routing_slip_pattern.Config.{WorkflowConfig, StepConfig}
use routing_slip_pattern.Config.Workflow.{apply_workflow_defaults}
use routing_slip_pattern.Config.References.{
  Files, is_reference, child_ids, workflow_ref_path, workflow_ref_prefix, resolve_workflow_ref_path,
  with_extension,
}
use routing_slip_pattern.Config.References.Ids.{prefixed_step_id, rewrite_fields}

abbrev pub IsPlain : StepConfig → Type 0
IsPlain s = is_reference s ≡ false

-- A step at index `i` of the child workflow as it joins the parent.
pub record Joined (prefix : String) (ids : List String) (i : ℕ) (s t : StepConfig) : Type 0 where
  pub new_id : t.id ≡ prefixed_step_id prefix s.id s.name i
  pub same_name : t.name ≡ s.name
  pub same_enabled : t.enabled ≡ s.enabled
  pub same_resilience : t.resilience ≡ s.resilience
  pub new_params : t.params ≡ rewrite_fields prefix ids s.params

-- All steps from an index on join, in their order.
pub data Imports (prefix : String) (ids : List String)
    : ℕ → List StepConfig → List StepConfig → Type 0 where
  no_more : {i : ℕ} → Imports prefix ids i [] []
  joins :
      {i : ℕ} {s t : StepConfig} {ss ts : List StepConfig}
      → Joined prefix ids i s t
      → Imports prefix ids (suc i) ss ts
      → Imports prefix ids i (s ∷ ss) (t ∷ ts)

-- The steps of a workflow at `source` and what they expand to.
pub data Expands (files : Files)
    : (source : String) → List StepConfig → List StepConfig → Type 0 where
  at_end : {source : String} → Expands files source [] []
  keeps :
      {source : String} {step : StepConfig} {steps out : List StepConfig}
      → is_reference step ≡ false
      → Expands files source steps out
      → Expands files source (step ∷ steps) (step ∷ out)
  brings_in :
      {source : String} {step : StepConfig} {steps out imported : List StepConfig}
      (ref path child_source : String) (read child : WorkflowConfig)
      → is_reference step ≡ true
      → workflow_ref_path step ≡ some ref
      → path ≡ with_extension files (resolve_workflow_ref_path files source ref)
      → files.abs path ≡ some child_source
      → files.read path ≡ some read
      → child ≡ record (apply_workflow_defaults read) { steps = child.steps }
      → Expands files child_source (apply_workflow_defaults read).steps child.steps
      → Imports
          (workflow_ref_prefix files step child path)
          (child_ids child.steps)
          0
          child.steps
          imported
      → Expands files source steps out
      → Expands files source (step ∷ steps) (imported ++ out)

-- A loaded workflow: what was read with its defaults, and its steps expanded.
pub record Loads (files : Files) (path : String) (w : WorkflowConfig) : Type 0 where
  pub source : String
  pub read : WorkflowConfig
  pub at_path : files.abs path ≡ some source
  pub was_read : files.read path ≡ some read
  pub else_same : w ≡ record (apply_workflow_defaults read) { steps = w.steps }
  pub expands : Expands files source (apply_workflow_defaults read).steps w.steps

All-append : (xs ys : List StepConfig) → All IsPlain xs → All IsPlain ys → All IsPlain (xs ++ ys)
All-append [] ys a b = b
All-append (x ∷ xs) ys a b = (a.0, All-append xs ys a.1 b)

Imports-All :
    {prefix : String} {ids : List String} {i : ℕ} {steps out : List StepConfig}
    → Imports prefix ids i steps out
    → All IsPlain steps
    → All IsPlain out
Imports-All no_more a = tt
Imports-All (joins j r) a = (rw (j.same_name, j.same_enabled) a.0, Imports-All r a.1)

pub Expands-All :
    {files : Files} {source : String} {steps out : List StepConfig}
    → Expands files source steps out
    → All IsPlain out
Expands-All at_end = tt
Expands-All (keeps plain r) = (plain, Expands-All r)
Expands-All (brings_in ref path child_source read child is at p a b c inner imports r) =
    All-append _ _ (Imports-All imports (Expands-All inner)) (Expands-All r)

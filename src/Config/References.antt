-- ===== src/Config/References.antt =====
-- The references between workflows in app/runtime_config.go: `loadWorkflowConfigWithStack` and
-- `expandWorkflowReferences`, with what they call. A value is not shared here, so `copyParams`
-- leaves no trace.
pub mod Ids
pub mod Laws
pub mod Expansion
pub mod Expanded
pub mod Targets
use Prim.Native.String
use Prim.Native.String.{◌++◌}
use routing_slip_pattern.Common.{
  ℕ, zero, suc, String, Bool, true, false, ◌&&◌, ◌||◌, not, List, [], ◌∷◌, Option, none, some,
  length, ltb, str_eq, if◌then◌else◌,
}
use mathlib.Core.List
use routing_slip_pattern.Common.Text.{trim_space, is_empty, split_on, has_prefix}
use routing_slip_pattern.Value.{Fields, Value, str, get}
use routing_slip_pattern.Config.{WorkflowConfig, StepConfig}
use routing_slip_pattern.Config.Workflow.{
  apply_workflow_defaults, validate_workflow_config, is_enabled,
}
use routing_slip_pattern.Config.References.Ids.{
  clean_step_id, prefixed_step_id, rewrite_fields, has_text,
}

-- `path/filepath`, `os.Stat` and the reading of a file: `read` is `os.ReadFile` with
-- `expandEnvDefaults` and the YAML reader behind it, which gives a workflow or a text of an error.
pub record Files : Type 0 where
  pub abs : String → Option String
  pub is_abs : String → Bool
  pub clean : String → String
  pub dir : String → String
  pub base : String → String
  pub ext : String → String
  pub join : String → String → String
  pub exists : String → Bool
  pub read : String → Option WorkflowConfig
  pub quote : String → String

-- The errors of loading a workflow.
pub data LoadError : Type 0 where
  unresolved : String → LoadError
  reference_cycle : String → LoadError
  unreadable : String → LoadError
  invalid : String → LoadError
  no_reference : String → LoadError
  in_reference : String → LoadError → LoadError

pub data Load {ℓ} (A : Type ℓ) : Type ℓ where
  loaded : A → Load A
  failed : LoadError → Load A

abbrev pub text_param : Option Value → String
text_param (some (str s)) = s
text_param _ = ""

-- `stringParam`.
unfoldable pub string_param : Fields → String → String
unfolding get
string_param params key = text_param (get key params)

-- The first of the keys that holds a text which is not blank.
unfoldable pub first_text : Fields → List String → Option String
unfolding trim_space string_param
first_text params [] = none
first_text params (key ∷ keys) =
    let rest = first_text params keys in
    if is_empty (trim_space (string_param params key))
    then rest
    else some (trim_space (string_param params key))

-- `none` is an error.
unfoldable pub workflow_ref_path : StepConfig → Option String
unfolding first_text
workflow_ref_path step = first_text step.params ("file" ∷ "path" ∷ "workflow" ∷ [])

-- The first text that a clean id remains of.
first_clean : List String → String
unfolding clean_step_id
first_clean [] = "workflow"
first_clean (v ∷ vs) =
    let rest = first_clean vs in if is_empty (clean_step_id v) then rest else clean_step_id v

-- `strings.TrimSuffix`.
unfoldable pub trim_suffix : (suffix value : String) → String
trim_suffix suffix String.[] = String.[]
trim_suffix suffix (String.◌∷◌ c s) =
    let rest = trim_suffix suffix s in
    if str_eq (String.◌∷◌ c s) suffix then String.[] else String.◌∷◌ c rest

abbrev pub is_reference : StepConfig → Bool
is_reference step = is_enabled step && str_eq step.name "workflow_ref"

-- The ids that a rewritten target may name.
unfoldable pub child_ids : List StepConfig → List String
unfolding trim_space
child_ids [] = []
child_ids (s ∷ ss) =
    let rest = child_ids ss in if is_empty (trim_space s.id) then rest else s.id ∷ rest

-- The steps of the child workflow from index `i` on, as they join the parent.
unfoldable pub import_steps :
    (prefix : String) → List String → ℕ → List StepConfig → List StepConfig
unfolding prefixed_step_id rewrite_fields
import_steps prefix ids i [] = []
import_steps prefix ids i (s ∷ ss) =
    record s {
      id = prefixed_step_id prefix s.id s.name i;
      params = rewrite_fields prefix ids s.params;
    }
    ∷ import_steps prefix ids (suc i) ss

abbrev pub Steps : Type 0
Steps = Option (Load (List StepConfig))

-- More steps in front, where no error follows.
abbrev pub before : List StepConfig → Steps → Steps
before front none = none
before front (some (failed e)) = some (failed e)
before front (some (loaded steps)) = some (loaded (List.◌++◌ front steps))

-- What follows on a child that is loaded; its error is wrapped.
abbrev pub with_child : String → (WorkflowConfig → Steps) → Option (Load WorkflowConfig) → Steps
with_child path use_child none = none
with_child path use_child (some (failed e)) = some (failed (in_reference path e))
with_child path use_child (some (loaded child)) = use_child child

abbrev pub with_steps : WorkflowConfig → Steps → Option (Load WorkflowConfig)
with_steps w none = none
with_steps w (some (failed e)) = some (failed e)
with_steps w (some (loaded steps)) = some (loaded (record w { steps = steps }))

module _ (files : Files) where
  unfoldable pub workflow_path_exists : String → Bool
  workflow_path_exists path =
      files.exists path
      || (is_empty (files.ext path)
          && (files.exists (path ++ ".yaml") || files.exists (path ++ ".yml")))

  abbrev is_relative : String → Bool
  is_relative cleaned =
      has_prefix "./" cleaned
      || has_prefix "../" cleaned
      || str_eq cleaned "."
      || str_eq cleaned ".."

  unfoldable pub resolve_workflow_ref_path : (source ref : String) → String
  unfolding has_prefix split_on workflow_path_exists
  resolve_workflow_ref_path source ref =
      let cleaned = files.clean ref in
      let candidate = files.join (files.dir (files.dir source)) cleaned in
      let beside = files.join (files.dir source) cleaned in
      if files.is_abs ref
      then ref
      else if is_relative cleaned
      then beside
      else if ltb 1 (length (split_on b'/' cleaned)) && workflow_path_exists candidate
      then candidate
      else beside

  unfoldable pub with_extension : String → String
  with_extension path =
      if is_empty (files.ext path)
      then (if files.exists (path ++ ".yaml") then path ++ ".yaml" else path ++ ".yml")
      else path

  unfoldable pub workflow_ref_prefix : StepConfig → WorkflowConfig → (path : String) → String
  unfolding string_param first_clean trim_suffix
  workflow_ref_prefix step child path = first_clean (
      string_param step.params "prefix"
      ∷ step.id
      ∷ child.name
      ∷ trim_suffix (files.ext path) (files.base path)
      ∷ [])

  -- The steps of a workflow with its references expanded; `none` where `load` gives none.
  unfoldable pub expand_workflow_references :
      (String → Option (Load WorkflowConfig)) → (source : String) → List StepConfig → Steps
  unfolding workflow_ref_path resolve_workflow_ref_path with_extension workflow_ref_prefix
      import_steps child_ids
  expand_workflow_references load source [] = some (loaded [])
  expand_workflow_references load source (step ∷ steps) =
      let rest = expand_workflow_references load source steps in
      let referred = λ (ref : String).
        let path = with_extension (resolve_workflow_ref_path source ref) in
        with_child path
          (λ child.
            let prefix = workflow_ref_prefix step child path in
            before (import_steps prefix (child_ids child.steps) 0 child.steps) rest)
          (load path) in
      if is_reference step
      then (elim (workflow_ref_path step) [
        | none ↦ some (failed (no_reference step.id))
        | some ref ↦ referred ref
      ])
      else before (step ∷ []) rest

  -- A workflow that was read: its defaults, its validation and its references.
  unfoldable pub checked_workflow :
      (String → Option (Load WorkflowConfig))
      → (source : String) → WorkflowConfig
      → Option (Load WorkflowConfig)
  unfolding apply_workflow_defaults validate_workflow_config expand_workflow_references
  checked_workflow load source read =
      let w = apply_workflow_defaults read in
      elim (validate_workflow_config files.quote w) [
        | some e ↦ some (failed (invalid e))
        | none ↦ with_steps w (expand_workflow_references load source w.steps)
      ]

  -- `loadWorkflowConfigWithStack`; `none` when the fuel runs out. Its `defer` makes the stack the
  -- list of the files that are being loaded.
  unfoldable pub load_workflow_config :
      ℕ → (stack : List String) → (path : String) → Option (Load WorkflowConfig)
  unfolding checked_workflow
  load_workflow_config zero stack path = none
  load_workflow_config (suc fuel) stack path = elim (files.abs path) [
    | none ↦ some (failed (unresolved path))
    | some source ↦
        let checked = λ (w : WorkflowConfig).
          checked_workflow (λ p. load_workflow_config fuel (source ∷ stack) p) source w in
        if has_text source stack
        then some (failed (reference_cycle path))
        else (elim (files.read path) [
          | none ↦ some (failed (unreadable path))
          | some w ↦ checked w
        ])
  ]

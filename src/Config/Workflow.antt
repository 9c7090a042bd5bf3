-- ===== src/Config/Workflow.antt =====
-- A workflow of app/runtime_config.go: its defaults, its validation, its slip and its error policy.
use Prim.Native.String.{◌++◌}
use routing_slip_pattern.Common.{
  String, Bool, true, ◌||◌, List, [], ◌∷◌, Option, none, some, str_eq, if◌then◌else◌,
}
use routing_slip_pattern.Common.Text.{trim_space, to_lower, is_empty}
use routing_slip_pattern.Slip.Message.{StepDef}
use routing_slip_pattern.Slip.Router.{ErrorPolicy, stop_on_error, continue_on_error, skip_on_error}
use routing_slip_pattern.Config.{WorkflowConfig, StepConfig}

-- A text, or the default where it is blank.
abbrev pub or_default : String → String → String
or_default value default_value = if is_empty (trim_space value) then default_value else value

unfoldable pub apply_workflow_defaults : WorkflowConfig → WorkflowConfig
unfolding trim_space
apply_workflow_defaults w = record w {
  name = or_default w.name "payment-event-fulfillment";
  error_policy = or_default w.error_policy "stop";
  message_id_path = or_default w.message_id_path "payload.pagamento_id";
  correlation_id_path = or_default w.correlation_id_path "correlation_id";
}

-- The error's text, if the workflow has no steps.
unfoldable pub validate_workflow_config : (String → String) → WorkflowConfig → Option String
validate_workflow_config quote w = elim w.steps [
  | [] ↦ some ("workflow " ++ (quote w.name ++ " has no steps"))
  | s ∷ ss ↦ none
]

-- A step counts unless it is switched off.
abbrev pub is_enabled : StepConfig → Bool
is_enabled s = elim s.enabled [ none ↦ true | some b ↦ b ]

abbrev pub step_def : StepConfig → StepDef
step_def s = record { id = s.id; name = s.name; params = s.params; resilience = s.resilience }

slip_steps : List StepConfig → List StepDef
slip_steps [] = []
slip_steps (s ∷ ss) = let rest = slip_steps ss in if is_enabled s then step_def s ∷ rest else rest

-- `ToSlip`.
unfoldable pub to_slip : WorkflowConfig → List StepDef
unfolding slip_steps
to_slip w = slip_steps w.steps

-- `RoutingErrorPolicy`; `none` is an unknown policy, which is an error beside `StopOnError`.
unfoldable pub routing_error_policy : WorkflowConfig → Option ErrorPolicy
unfolding trim_space to_lower
routing_error_policy w =
    let policy = to_lower (trim_space w.error_policy) in
    if is_empty policy || str_eq policy "stop"
    then some stop_on_error
    else if str_eq policy "continue"
    then some continue_on_error
    else if str_eq policy "skip"
    then some skip_on_error
    else none

-- ===== src/Tests/Settings.antt =====
-- The claims about payload paths and configurations at concrete inputs.
use routing_slip_pattern.Common.{
  String, true, false, List, [], ◌∷◌, All, Option, none, some, ◌≡◌, ◌↔◌, refl, arith, str_eq,
  if◌then◌else◌,
}
use routing_slip_pattern.Common.Int.{pos}
use routing_slip_pattern.Common.Text.{split_on, is_empty, is_space}
use routing_slip_pattern.Value.{Fields, end, field, str, int, object, get}
use routing_slip_pattern.Value.Path.{get_path}
use routing_slip_pattern.Value.Put.{set_payload_path}
use routing_slip_pattern.Value.Put.Laws.{Apart, first_part, get_path-set_payload_path}
use routing_slip_pattern.Config.{WorkflowConfig, StepConfig}
use routing_slip_pattern.Config.Defaults.{Environment}
use routing_slip_pattern.Config.References.{Files, Load, loaded, load_workflow_config}
use routing_slip_pattern.Config.References.Ids.{
  has_text, clean_step_id, prefixed_step_id, rewrite_target,
}
use routing_slip_pattern.Config.References.Laws.{load_workflow_config_ends}
use routing_slip_pattern.Config.References.Expansion.{IsPlain, Loads}
use routing_slip_pattern.Config.References.Expanded.{load_workflow_config-Loads}
use routing_slip_pattern.Config.References.Targets.{rewrite_target-prefixed_step_id}
use routing_slip_pattern.Tests.Inputs.{policy}

abbrev order : Fields
order = field "order" (object (field "total" (int (pos 5)) end)) end

abbrev paid : Fields
paid = field "order" (object (field "total" (int (pos 5)) (field "state" (str "paid") end))) end

quoted : String → String
quoted s = s

paid-set : set_payload_path quoted "order.state" (str "paid") order ≡ (none, paid)
unfolding set_payload_path
paid-set = refl

get_path-set_payload_path_example :
    (get_path paid "order.state" ≡ some (str "paid"))
    × ((path' : String)
        → Apart (split_on b'.' "order.state") (split_on b'.' path')
        → get_path paid path' ≡ get_path order path')
    × ((key : String)
        → str_eq (first_part (split_on b'.' "order.state")) key ≡ false
        → get key paid ≡ get key order)
get_path-set_payload_path_example =
    get_path-set_payload_path quoted "order.state" (str "paid") order paid paid-set

abbrev no_environment : Environment
no_environment key = ""

abbrev plain_step : StepConfig
plain_step = record {
  id = "check";
  name = "assert";
  enabled = none;
  params = end;
  resilience = policy "" "" (pos 1);
}

abbrev reference : StepConfig
reference = record {
  id = "sub";
  name = "workflow_ref";
  enabled = none;
  params = field "file" (str "child.yaml") end;
  resilience = policy "" "" (pos 1);
}

abbrev workflow_of : String → List StepConfig → WorkflowConfig
workflow_of name steps = record {
  name = name;
  description = "";
  version = "1";
  error_policy = "stop";
  message_id_path = "id";
  correlation_id_path = "correlation_id";
  steps = steps;
}

-- Two files: one refers to the other.
abbrev files : Files
files = record {
  abs = λ p. some p;
  is_abs = λ p. false;
  clean = λ p. p;
  dir = λ p. "";
  base = λ p. p;
  ext = λ p. ".yaml";
  join = λ d p. p;
  exists = λ p. false;
  read = λ p.
      if str_eq p "main.yaml"
      then some (workflow_of "main" (plain_step ∷ reference ∷ []))
      else if str_eq p "child.yaml"
      then some (workflow_of "child" (plain_step ∷ []))
      else none;
  quote = quoted;
}

abbrev known : List String
known = "main.yaml" ∷ "child.yaml" ∷ []

known_lem :
    (p source : String) (w : WorkflowConfig)
    → files.abs p ≡ some source
    → files.read p ≡ some w
    → has_text source known ≡ true
known_lem p source w at found = ground (arith, at, found)

load_workflow_config_ends_example :
    (r : Load WorkflowConfig) × (load_workflow_config files 3 [] "main.yaml" ≡ some r)
load_workflow_config_ends_example =
    load_workflow_config_ends files known 3 [] "main.yaml" known_lem (omega arith)

abbrev or_main : Option (Load WorkflowConfig) → WorkflowConfig
or_main (some (loaded w)) = w
or_main _ = workflow_of "main" []

main : WorkflowConfig
main = or_main (load_workflow_config files 3 [] "main.yaml")

main_found : load_workflow_config files 3 [] "main.yaml" ≡ some (loaded main)
unfolding main load_workflow_config
main_found = refl

load_workflow_config-Loads_example : Loads files "main.yaml" main × All IsPlain main.steps
load_workflow_config-Loads_example =
    load_workflow_config-Loads files 3 [] "main.yaml" main main_found

check_known : has_text "Check" ("Check" ∷ []) ≡ true
check_known = refl

check_given : is_empty (clean_step_id "Check") ≡ false
unfolding clean_step_id is_space
check_given = refl

rewrite_target-prefixed_step_id_example :
    (rewrite_target "sub" ("Check" ∷ []) (str "Check")
      ≡ str (prefixed_step_id "sub" "Check" "assert" 0))
    ↔ (clean_step_id "Check" ≡ "Check")
rewrite_target-prefixed_step_id_example =
    rewrite_target-prefixed_step_id "sub" "Check" "assert" ("Check" ∷ []) 0 check_known check_given

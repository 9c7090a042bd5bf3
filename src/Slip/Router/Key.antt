-- ===== src/Slip/Router/Key.antt =====
-- `stepExecutionKey` of app/slip/slip.go.
use routing_slip_pattern.Common.{ℕ, String, [], ◌∷◌, if◌then◌else◌}
use routing_slip_pattern.Common.Text.{trim_space, is_empty, itoa, replace_all}
use routing_slip_pattern.Common.Dict.{Dict}
use routing_slip_pattern.Slip.Message.{Message, StepDef}
use routing_slip_pattern.Slip.Snapshot.{header}
use routing_slip_pattern.Slip.Router.{World, StateOptions}

abbrev or_default : String → String → String
or_default s d = if is_empty s then d else s

unfoldable pub key_template : StateOptions → String
unfolding trim_space
key_template o =
    or_default (trim_space o.idempotency_key_template) "{workflow}:{message_id}:{step_index}:{step}"

-- The tokens with what replaces them.
unfoldable pub replacements : StateOptions → Message → StepDef → ℕ → Dict String
unfolding header itoa
replacements o m step index =
    ("{workflow}", or_default (header "workflow" m.headers) o.workflow)
    ∷ ("{message_id}", m.id)
    ∷ ("{correlation_id}", m.correlation_id)
    ∷ ("{step}", step.name)
    ∷ ("{step_id}", step.id)
    ∷ ("{step_ref}", or_default step.id step.name)
    ∷ ("{step_index}", itoa index)
    ∷ []

-- The replacements one after another, in the order of the list.
unfoldable pub expand : String → Dict String → String
unfolding replace_all
expand key [] = key
expand key ((token, value) ∷ more) = expand (replace_all key token value) more

-- The order is that of an iteration over a map, which Go leaves open.
unfoldable pub step_execution_key :
    {W : Type 0} → World W → StateOptions → Message → StepDef → ℕ → W → String × W
unfolding key_template replacements expand
step_execution_key world o m step index w =
    let (order, w') = world.range (replacements o m step index) w in
    (expand (key_template o) order, w')

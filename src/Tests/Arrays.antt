-- ===== src/Tests/Arrays.antt =====
-- The claims about the array handlers and the environment at concrete inputs.
use Prim.Native.String.{◌++◌, ◌∷◌}
use routing_slip_pattern.Common.{
  ◌<◌, String, true, List, none, ◌⊎◌, ◌≡◌, refl, arith, str_eq, if◌then◌else◌,
}
use routing_slip_pattern.Common.Int.{pos}
use routing_slip_pattern.Common.Text.Laws.{Without}
use routing_slip_pattern.Value.{Value, Fields, end, field, str, int, list, object, nil, cons}
use routing_slip_pattern.Slip.Message.{Message}
use routing_slip_pattern.Slip.Router.{Outcome, returned}
use routing_slip_pattern.Handlers.Conditions.{ok}
use routing_slip_pattern.Handlers.FilterArray.{Evaluation, filter_array}
use routing_slip_pattern.Handlers.FilterArray.Laws.{Filtered, filter_array-Filtered}
use routing_slip_pattern.Handlers.ArrayTransform.{returns, shares, array_transform}
use routing_slip_pattern.Handlers.ArrayTransform.Updates.{Transformation}
use routing_slip_pattern.Handlers.ArrayTransform.Sets.{Shares}
use routing_slip_pattern.Handlers.ArrayTransform.Depth.{fields_depth}
use routing_slip_pattern.Handlers.ArrayTransform.Ends.{array_transform_ends}
use routing_slip_pattern.Config.Defaults.{Environment}
use routing_slip_pattern.Config.Environment.{expand_env_expression, expand_env_defaults}
use routing_slip_pattern.Config.Environment.Laws.{expand_env_defaults-append}
use routing_slip_pattern.Tests.Inputs.{scalars, message}

-- Expressions are false; conditions alone are used.
abbrev evaluation : Evaluation
evaluation = record {
  scalars = scalars;
  cel = λ payload headers expr. ok true;
  other_items = λ n. none;
}

abbrev line : Value
line = object (field "price" (int (pos 7)) end)

-- An order with two lines.
abbrev ordered : Message
ordered = record message { payload = field "lines" (list (cons line (cons (int (pos 3)) nil))) end }

abbrev filter_params : Fields
filter_params =
    field "source" (str "lines")
      (field "target" (str "chosen") (field "expr" (str "item.price > 5") end))

or_ordered : Outcome × Message → Message
or_ordered (r, m) = m

chosen : Message
chosen = or_ordered (filter_array evaluation ordered filter_params)

proceeded : filter_array evaluation ordered filter_params ≡ (returned true none, chosen)
unfolding chosen or_ordered filter_array
proceeded = refl

filter_array-Filtered_example : Filtered evaluation ordered filter_params chosen
filter_array-Filtered_example =
    filter_array-Filtered evaluation ordered chosen filter_params none proceeded

entries : Fields → List (String × Value)
entries end = List.[]
entries (field k v m) = List.◌∷◌ (k, v) (entries m)

abbrev transformation : Transformation
transformation = record {
  evaluation = evaluation;
  today = "2024-01-02";
  month_end = "2024-03-31";
  order = entries;
}

-- A transform with one nested in it.
abbrev transform_params : Fields
transform_params =
    field "source" (str "lines")
      (field "nested" (list (cons (object (field "source" (str "parts") end)) nil)) end)

shallow : fields_depth transform_params < 3
unfolding fields_depth
shallow = omega arith

array_transform_ends_example :
    ((r : Outcome × Message) × (array_transform transformation 3 ordered transform_params
        ≡ returns r))
    ⊎ ((array_transform transformation 3 ordered transform_params ≡ shares)
        × Shares transformation transform_params)
array_transform_ends_example =
    array_transform_ends transformation 3 ordered transform_params shallow

abbrev environment : Environment
environment key = if str_eq key "PORT" then "8088" else ""

no_dollar : Without b'$' "port: "
no_dollar = ground arith

no_brace : Without b'}' "PORT:-80"
no_brace = ground arith

expand_env_defaults-append_example :
    expand_env_defaults environment ("port: " ++ ("$" ∷ ("{" ∷ ("PORT:-80" ++ ("}" ∷ "\n")))))
    ≡ "port: "
      ++ (expand_env_expression environment "PORT:-80" ++ expand_env_defaults environment "\n")
expand_env_defaults-append_example =
    expand_env_defaults-append environment "port: " "PORT:-80" "\n" no_dollar no_brace

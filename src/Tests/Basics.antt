-- ===== src/Tests/Basics.antt =====
-- The claims about the basic handlers and templates at concrete inputs.
use routing_slip_pattern.Common.{
  ℕ, String, true, [], ◌∷◌, some, none, ◌≡◌, ◌↔◌, ◌<◌, refl, All, arith,
}
use routing_slip_pattern.Value.{Value, Fields, null, str, strings, end, field, get}
use routing_slip_pattern.Slip.Trace.{background}
use routing_slip_pattern.Handlers.ControlFlow.Laws.{proceeds}
use routing_slip_pattern.Handlers.Basic.{Printing, string_list_param, is_stopping, validate_handle}
use routing_slip_pattern.Handlers.Basic.Laws.{Present, validate_handle-All}
use routing_slip_pattern.Handlers.Interpolate.{token_text, interpolate}
use routing_slip_pattern.Handlers.Interpolate.Ends.{
  Plain, braces, interpolate_ends, interpolate_diverges,
}
use routing_slip_pattern.Tests.Inputs.{message}

sprint : Value → String
sprint null = "<nil>"
sprint (str s) = s
sprint _ = "?"

constant : Value → String
constant v = "x"

abbrev print : Printing
print = record { sprint = sprint; quote = λ s. s; to_upper = λ s. s; to_lower = λ s. s }

required : Fields
required = field "required" (strings ("total" ∷ "customer" ∷ [])) end

stops : is_stopping print (get "stop_on_failure" required) ≡ true
unfolding get required
stops = refl

validate_handle-All_example :
    proceeds (validate_handle print {W = ℕ} background message required 0).0 ≡ true
    ↔ All (Present print message.payload) (string_list_param print (get "required" required))
validate_handle-All_example = validate_handle-All print background message required 0 stops

constant-Plain : Plain constant end
unfolding constant token_text
constant-Plain key = refl

two_tokens : braces "{a} and {b}" < 3
two_tokens = omega arith

interpolate_ends_example : (r : String) × (interpolate constant end 3 "{a} and {b}" ≡ some r)
interpolate_ends_example = interpolate_ends constant end 3 "{a} and {b}" constant-Plain two_tokens

own_token : token_text sprint (field "name" (str "{name}") end) "name" ≡ "{name}"
unfolding token_text sprint get
own_token = refl

interpolate_diverges_example :
    interpolate sprint (field "name" (str "{name}") end) 100 "{name}" ≡ none
interpolate_diverges_example =
    interpolate_diverges sprint (field "name" (str "{name}") end) 100 own_token

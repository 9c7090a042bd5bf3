-- ===== src/Handlers/Basic.antt =====
-- app/handlers/handlers.go: the handlers `validate`, `transform`, `condition`, `notify` and `audit`.
-- `sprint` is `%v`, and the Unicode mappings of package strings are given.
pub mod Laws
use Prim.Native.Char.{code}
use Prim.Native.String
use Prim.Native.String.{◌++◌}
use routing_slip_pattern.Common.{
  ℕ, String, Bool, true, false, not, ◌||◌, List, [], ◌∷◌, Option, none, some, str_eq, if◌then◌else◌,
}
use routing_slip_pattern.Common.Dict.{Dict, lookup, insert, delete}
use routing_slip_pattern.Common.Text.{trim_space, is_empty, has_prefix}
use routing_slip_pattern.Value.{
  Value, Items, Fields, null, bool, str, list, strings, items, nil, cons, get,
}
use routing_slip_pattern.Value.Path.{get_path}
use routing_slip_pattern.Slip.Errors.{GoError, text, error_text}
use routing_slip_pattern.Slip.Message.{Message, set}
use routing_slip_pattern.Slip.Snapshot.{header}
use routing_slip_pattern.Slip.Router.{Handle, Outcome, returned}
use routing_slip_pattern.Handlers.Conditions.{string_param}
use routing_slip_pattern.Handlers.Interpolate.{interpolate}

pub record Printing : Type 0 where
  pub sprint : Value → String  -- `%v`
  pub quote : String → String  -- `%q`
  pub to_upper : String → String
  pub to_lower : String → String

-- `strings.Join`.
abbrev joined : String → List String → String
joined sep [] = ""
joined sep (s ∷ []) = s
joined sep (s ∷ ss) = s ++ (sep ++ joined sep ss)

-- The text without its first characters, one for each of the prefix.
abbrev dropped : String → String → String
dropped String.[] s = s
dropped (String.◌∷◌ p ps) String.[] = String.[]
dropped (String.◌∷◌ p ps) (String.◌∷◌ c s) = dropped ps s

put_given : String → String → Dict String → Dict String
unfolding insert
put_given key value headers = if is_empty value then headers else insert key value headers

unfoldable pub notification_trace_headers : Message → Dict String
unfolding header put_given
notification_trace_headers m = put_given "X-Correlation-ID" m.correlation_id (
    put_given "X-Parent-Span-ID" m.parent_span_id (
      put_given "X-Span-ID" m.span_id (
        put_given "X-Trace-ID" m.trace_id
          (put_given "traceparent" (header "traceparent" m.headers) []))))

module _ (print : Printing) where
  texts : List Value → List String
  unfolding trim_space
  texts [] = []
  texts (v ∷ vs) =
      let rest = texts vs in
      let t = trim_space (print.sprint v) in if is_empty t then rest else t ∷ rest

  -- `stringListParam`; `none` is a missing parameter.
  unfoldable pub string_list_param : Option Value → List String
  unfolding texts
  string_list_param (some (strings ss)) = ss
  string_list_param (some (list vs)) = texts (items vs)
  string_list_param _ = []

  -- A required value is there, and neither nil nor printed as the empty text.
  abbrev pub is_present : Option Value → Bool
  is_present none = false
  is_present (some null) = false
  is_present (some v) = not (is_empty (print.sprint v))

  unfoldable pub missing_fields : Fields → List String → List String
  unfolding get_path
  missing_fields payload [] = []
  missing_fields payload (key ∷ keys) =
      let rest = missing_fields payload keys in
      if is_present (get_path payload key) then rest else key ∷ rest

  abbrev pub is_stopping : Option Value → Bool
  is_stopping (some (bool b)) = b
  is_stopping _ = true

  unfoldable pub validated : Bool → List String → Message → Outcome × Message
  unfolding set
  validated stop [] m = (returned true none, set m "validation_passed" (bool true))
  validated stop (key ∷ keys) m =
      let e = "validation failed: missing fields: " ++ joined ", " (key ∷ keys) in
      let m' = set m "validation_error" (str e) in
      if stop then (returned false (some (text e)), m') else (returned true none, m')

  -- The prefix that an operation begins with, and the rest of it.
  abbrev rest_of : String → String → Option String
  rest_of p s = if has_prefix p s then some (dropped p s) else none

  unfoldable pub transformed : String → String → Option String
  unfolding trim_space has_prefix
  transformed operation value =
      if str_eq operation "uppercase"
      then some (print.to_upper value)
      else if str_eq operation "lowercase"
      then some (print.to_lower value)
      else if str_eq operation "trim"
      then some (trim_space value)
      else elim (rest_of "prefix:" operation) [
        | some p ↦ some (p ++ value)
        | none ↦ elim (rest_of "suffix:" operation) [ some p ↦ some (value ++ p) | none ↦ none ]
      ]

  unfoldable pub transform_result :
      (name operation target : String) → Message → Option Value → Outcome × Message
  unfolding transformed set
  transform_result name operation target m none = (
    returned true
        (some (text ("transform: field " ++ (print.quote name ++ " not found in payload")))),
    m,
  )
  transform_result name operation target m (some raw) =
      elim (transformed operation (print.sprint raw)) [
        | none ↦ (
          returned true (some (text ("transform: unknown operation " ++ print.quote operation))),
          m,
        )
        | some t ↦ (returned true none, set m target (str t))
      ]

  or_null : Option Value → Value
  or_null none = null
  or_null (some v) = v

  differs : String → Option Value → Bool
  differs current none = false
  differs current (some expected) = not (str_eq current (print.sprint expected))

  equals : String → Option Value → Bool
  equals current none = false
  equals current (some excluded) = str_eq current (print.sprint excluded)

  -- The two tests of the gate; either stops the workflow.
  unfoldable pub gate_closed : Fields → Fields → Bool
  unfolding get get_path or_null differs equals
  gate_closed payload params =
      let current = print.sprint (or_null (get_path payload (string_param "field" params))) in
      differs current (get "equals" params) || equals current (get "not_equals" params)

  module _ {W : Type 0} where
    unfoldable pub validate_handle : Handle W
    unfolding get string_list_param missing_fields validated
    validate_handle ctx m params w =
        let missing = missing_fields m.payload (string_list_param (get "required" params)) in
        let (o, m') = validated (is_stopping (get "stop_on_failure" params)) missing m in (o, m', w)

    unfoldable pub transform_handle : Handle W
    unfolding get get_path transform_result
    transform_handle ctx m params w =
        let name = string_param "field" params in
        let target = string_param "target" params in
        let (o, m') =
          transform_result name (string_param "operation" params)
            (if is_empty target then name else target) m (get_path m.payload name) in
        (o, m', w)

    unfoldable pub condition_handle : Handle W
    unfolding gate_closed set
    condition_handle ctx m params w =
        if gate_closed m.payload params
        then (returned false none, set m "gate_stopped" (bool true), w)
        else (returned true none, m, w)

    -- The record goes to the log alone.
    unfoldable pub audit_handle : Handle W
    audit_handle ctx m params w = (returned true none, m, w)

    notified : String → Message → Option GoError × W → Outcome × Message × W
    unfolding set error_text
    notified channel m (none, w) = (
      returned true none,
      set (set m "notification_sent" (bool true)) "notification_channel" (str channel),
      w,
    )
    notified channel m (some e, w) =
        (returned false (some (text ("notify: " ++ error_text print.quote e))), m, w)

    -- `NotificationHandler.Handle`: `send` is whichever of its delivery functions is set, with the
    -- channel, the recipient, the body and the headers. `none` when the fuel of the template's loop
    -- runs out.
    unfoldable pub notify_handle :
        (String → String → String → Dict String → W → Option GoError × W)
        → ℕ
        → Message
        → Fields
        → W
        → Option (Outcome × Message × W)
    unfolding interpolate delete notification_trace_headers notified
    notify_handle send fuel m params w =
        let m' = record m { headers = delete "_interpolate" m.headers } in
        let channel = string_param "channel" params in
        elim (interpolate print.sprint m.payload fuel (string_param "template" params)) [
          | none ↦ none
          | some body ↦ some (
              notified channel m' (
                send channel (string_param "recipient" params) body (notification_trace_headers m')
                  w))
        ]

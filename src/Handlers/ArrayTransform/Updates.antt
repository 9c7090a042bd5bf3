-- ===== src/Handlers/ArrayTransform/Updates.antt =====
-- The conditions and updates of app/handlers/array_transform.go: what `array_transform` does to one
-- item, but for the transforms nested in it.
use Prim.Native.String.{◌++◌}
use routing_slip_pattern.Common.{
  ℕ, suc, String, Bool, true, List, [], ◌∷◌, Option, none, some, if◌then◌else◌,
}
use routing_slip_pattern.Common.Int.{pos}
use routing_slip_pattern.Common.Dict.{Dict}
use routing_slip_pattern.Common.Text.{trim_space, is_empty, itoa}
use routing_slip_pattern.Value.{
  Value, Fields, null, str, int, list, object, items, end, field, get, put,
}
use routing_slip_pattern.Value.Put.{Written, set_payload_path, value_from_path}
use routing_slip_pattern.Handlers.Conditions.{Try, ok, err, string_param}
use routing_slip_pattern.Handlers.ControlFlow.{evaluate_assert}
use routing_slip_pattern.Handlers.FilterArray.{Evaluation, matched_of}

-- What the handler takes from outside besides: the dates of today and of the end of the month after
-- next, as the clock gives them, and the order in which a map is iterated.
pub record Transformation : Type 0 where
  pub evaluation : Evaluation
  pub today : String
  pub month_end : String
  pub order : Fields → List (String × Value)

-- A result or an error; `none` where a map or a list would come to stand in two places.
abbrev pub Unshared : Type 0 → Type 0
Unshared A = Option (Try A)

abbrev pub unshared_then : {A B : Type 0} → Unshared A → (A → Unshared B) → Unshared B
unshared_then none k = none
unshared_then (some (err e)) k = some (err e)
unshared_then (some (ok a)) k = k a

-- The error and the map that `setPayloadPath` leaves, as a result.
abbrev pub written : Written → Try Fields
written (none, m) = ok m
written (some e, m) = err e

-- A value that `resolveTransformValue` gives: a map or a list is not a copy but the one that stands in
-- the payload or the parameters.
pub data Resolved : Type 0 where
  plain : Value → Resolved
  shared : Value → Resolved

abbrev pub as_it_is : Value → Resolved
as_it_is (object m) = shared (object m)
as_it_is (list vs) = shared (list vs)
as_it_is v = plain v

abbrev pub from_of : Fields → Value → Option Value → Resolved
unfolding value_from_path
from_of payload value (some (str path)) = elim (value_from_path payload path) [
  | none ↦ plain null
  | some v ↦ as_it_is v
]
from_of payload value _ = as_it_is value

unfoldable pub resolve_transform_value : Fields → Value → Resolved
unfolding from_of get
resolve_transform_value payload (object config) =
    from_of payload (object config) (get "from" config)
resolve_transform_value payload value = as_it_is value

module _ (t : Transformation) (headers : Dict String) (base : Fields) where
  -- `arrayTransformPayload`.
  unfoldable pub array_transform_payload : Value → ℕ → Value → Fields
  unfolding put
  array_transform_payload item index parent = put "end_of_current_month_plus_2" (str t.month_end) (
      put "today" (str t.today)
        (put "parent" parent (put "index" (int (pos index)) (put "item" item base))))

  unfoldable pub evaluate_array_transform_condition : Fields → Value → Try Bool
  unfolding trim_space evaluate_assert
  evaluate_array_transform_condition payload (str expr) = t.evaluation.cel payload headers expr
  evaluate_array_transform_condition payload (object conditions) =
      let expr = string_param "expr" conditions in
      if is_empty (trim_space expr)
      then matched_of (evaluate_assert t.evaluation.scalars payload conditions)
      else t.evaluation.cel payload headers expr
  evaluate_array_transform_condition payload (list conditions) =
      matched_of (evaluate_assert t.evaluation.scalars payload (field "all" (list conditions) end))
  evaluate_array_transform_condition payload v =
      err "condition must be an object, list or expression"

  unfoldable pub condition_given : Fields → Option Value → Try Bool
  unfolding evaluate_array_transform_condition
  condition_given payload none = ok true
  condition_given payload (some c) = evaluate_array_transform_condition payload c

  -- `filters`, or `where` in its place.
  unfoldable pub evaluate_array_transform_filters : Fields → Fields → Try Bool
  unfolding get condition_given
  evaluate_array_transform_filters payload params =
      condition_given payload
        (elim (get "filters" params) [ none ↦ get "where" params | some c ↦ some c ])

  -- The entries of one `set`; what is resolved sees the entries before. A map or a list that is
  -- resolved would stand in two places from here on.
  unfoldable pub set_entries : (Fields → Fields) → List (String × Value) → Fields → Unshared Fields
  unfolding set_payload_path resolve_transform_value
  set_entries payload_of [] item = some (ok item)
  set_entries payload_of ((path, value) ∷ entries) item =
      elim (resolve_transform_value (payload_of item) value) [
        | shared v ↦ none
        | plain v ↦
            unshared_then (some (written (set_payload_path t.evaluation.scalars.quote path v item)))
              (λ next. set_entries payload_of entries next)
      ]

  -- The `set` of one update.
  unfoldable pub set_of : String → (Fields → Fields) → Fields → Option Value → Unshared Fields
  unfolding set_entries
  set_of at payload_of item (some (object entries)) = set_entries payload_of (t.order entries) item
  set_of at payload_of item _ = some (err (at ++ ".set must be an object"))

  unfoldable pub updated : String → (Fields → Fields) → Fields → Value → Unshared Fields
  unfolding get set_of condition_given
  updated at payload_of item (object update) =
      elim (condition_given (payload_of item) (get "when" update)) [
        | err e ↦ some (err (at ++ (".when: " ++ e)))
        | ok matched ↦
            if matched then set_of at payload_of item (get "set" update) else some (ok item)
      ]
  updated at payload_of item v = some (err (at ++ " must be an object"))

  unfoldable pub apply_updates_from : (Fields → Fields) → ℕ → List Value → Fields → Unshared Fields
  unfolding updated itoa
  apply_updates_from payload_of index [] item = some (ok item)
  apply_updates_from payload_of index (u ∷ us) item =
      unshared_then (updated ("updates[" ++ (itoa index ++ "]")) payload_of item u)
        (λ next. apply_updates_from payload_of (suc index) us next)

  unfoldable pub updates_given : (Fields → Fields) → Fields → Option Value → Unshared Fields
  unfolding apply_updates_from
  updates_given payload_of item none = some (ok item)
  updates_given payload_of item (some (list us)) = apply_updates_from payload_of 0 (items us) item
  updates_given payload_of item (some v) = some (err "updates must be a list")

  unfoldable pub apply_array_transform_updates :
      (Fields → Fields) → Fields → Fields → Unshared Fields
  unfolding get updates_given
  apply_array_transform_updates payload_of params item =
      updates_given payload_of item (get "updates" params)

-- ===== src/Handlers/ArrayTransform.antt =====
-- app/handlers/array_transform.go: the handler `array_transform`. The working copy of an item is what
-- "item" of the payload shows while it is updated, for both are one map. A `set` that would put a map
-- or a list in two places ends the model: the code goes on with the shared value, and an item that
-- comes to hold itself is one that `copyTransformValue` never returns on. Up to there no value is
-- shared, so `copyTransformValue` leaves no trace. Transforms nest, which the fuel is for.
pub mod Updates
pub mod Sets
pub mod Depth
pub mod Ends
use Prim.Native.String.{◌++◌}
use routing_slip_pattern.Common.{
  ℕ, zero, suc, String, Bool, true, false, List, [], ◌∷◌, Option, none, some, length, if◌then◌else◌,
}
use routing_slip_pattern.Common.Int.{pos}
use routing_slip_pattern.Common.Dict.{Dict}
use routing_slip_pattern.Common.Text.{trim_space, is_empty, itoa}
use routing_slip_pattern.Value.{
  Value, Items, Fields, null, str, int, list, object, items, of_items, end, field, get, put,
}
use routing_slip_pattern.Value.Path.{get_path}
use routing_slip_pattern.Value.Put.{Written, set_payload_path, value_from_path}
use routing_slip_pattern.Slip.Errors.{text}
use routing_slip_pattern.Slip.Message.{Message, set}
use routing_slip_pattern.Slip.Router.{Handle, Outcome, returned}
use routing_slip_pattern.Handlers.Conditions.{Try, ok, err, then_do, string_param}
use routing_slip_pattern.Handlers.ControlFlow.{evaluate_assert}
use routing_slip_pattern.Handlers.FilterArray.{Evaluation, to_any_slice, matched_of, or_blank}
use routing_slip_pattern.Handlers.ArrayTransform.Updates.{
  Transformation, Unshared, written, array_transform_payload, evaluate_array_transform_filters,
  apply_array_transform_updates,
}

-- How a run ends: with a result, before a value that would be shared, or for want of fuel.
pub data Bounded (A : Type 0) : Type 0 where
  returns : A → Bounded A
  shares : Bounded A
  no_fuel : Bounded A

abbrev pub Fueled : Type 0 → Type 0
Fueled A = Bounded (Try A)

abbrev pub and_then : {A B : Type 0} → Fueled A → (A → Fueled B) → Fueled B
and_then no_fuel k = no_fuel
and_then shares k = shares
and_then (returns (err e)) k = returns (err e)
and_then (returns (ok a)) k = k a

abbrev pub wrapped : {A : Type 0} → String → Fueled A → Fueled A
wrapped prefix no_fuel = no_fuel
wrapped prefix shares = shares
wrapped prefix (returns (err e)) = returns (err (prefix ++ e))
wrapped prefix (returns (ok a)) = returns (ok a)

abbrev pub bounded : {A : Type 0} → Unshared A → Fueled A
bounded none = shares
bounded (some r) = returns r

module _ (t : Transformation) (headers : Dict String) (base : Fields) where
  -- One nested transform, on the array that the item has at its source, if it has one.
  abbrev pub nested_at :
      (Fields → Value → List Value → Fueled (List Value)) → String → Fields → Fields → Fueled Fields
  unfolding trim_space value_from_path to_any_slice set_payload_path
  nested_at nest at item transform =
      let source = or_blank (string_param "source" transform) (string_param "field" transform) in
      let target = or_blank (string_param "target" transform) source in
      let quoted = t.evaluation.scalars.quote source in
      if is_empty (trim_space source)
      then returns (err (at ++ ".source is required"))
      else (elim (value_from_path item source) [
        | none ↦ returns (ok item)
        | some raw ↦ elim (to_any_slice t.evaluation raw) [
          | none ↦ returns (err (at ++ (".source " ++ (quoted ++ " must be an array"))))
          | some vs ↦ and_then (nest transform (object item) vs) (λ out. returns (
              written
                (set_payload_path t.evaluation.scalars.quote target (list (of_items out)) item)))
        ]
      ])

  abbrev pub nested_value :
      (Fields → Value → List Value → Fueled (List Value)) → String → Fields → Value → Fueled Fields
  unfolding nested_at
  nested_value nest at item (object transform) = nested_at nest at item transform
  nested_value nest at item v = returns (err (at ++ " must be an object"))

  unfoldable pub apply_nested_from :
      (Fields → Value → List Value → Fueled (List Value)) → ℕ → Items → Fields → Fueled Fields
  unfolding nested_value itoa
  apply_nested_from nest index Items.nil item = returns (ok item)
  apply_nested_from nest index (Items.cons v vs) item =
      and_then (nested_value nest ("nested[" ++ (itoa index ++ "]")) item v)
        (λ next. apply_nested_from nest (suc index) vs next)

  abbrev pub nested_given :
      (Fields → Value → List Value → Fueled (List Value)) → Fields → Option Value → Fueled Fields
  unfolding apply_nested_from
  nested_given nest item none = returns (ok item)
  nested_given nest item (some (list vs)) = apply_nested_from nest 0 vs item
  nested_given nest item (some v) = returns (err "nested must be a list")

  unfoldable pub apply_nested_array_transforms :
      (Fields → Value → List Value → Fueled (List Value)) → Fields → Fields → Fueled Fields
  unfolding get nested_given
  apply_nested_array_transforms nest params item = nested_given nest item (get "nested" params)

  -- An item that is kept; only a map is updated.
  abbrev pub changed :
      (Fields → Value → List Value → Fueled (List Value))
      → (Fields → Fields)
      → Fields
      → Value
      → Fueled (Option Value)
  unfolding apply_array_transform_updates apply_nested_array_transforms
  changed nest payload_of params (object item) =
      and_then (bounded (apply_array_transform_updates t headers base payload_of params item))
        (λ next.
          and_then (apply_nested_array_transforms nest params next)
            (λ done. returns (ok (some (object done)))))
  changed nest payload_of params item = returns (ok (some item))

  abbrev pub kept_if : Try Bool → Fueled (Option Value) → Fueled (Option Value)
  kept_if (err e) item = returns (err e)
  kept_if (ok false) item = returns (ok none)
  kept_if (ok true) item = item

  -- One round of the loop; `none` within the result is an item that is left out.
  unfoldable pub transform_item :
      (Fields → Value → List Value → Fueled (List Value))
      → Fields
      → Value
      → ℕ
      → Value
      → Fueled (Option Value)
  unfolding array_transform_payload evaluate_array_transform_filters changed
  transform_item nest params parent index item =
      kept_if
        (evaluate_array_transform_filters t headers base
          (array_transform_payload t headers base item index parent) params)
        (changed nest (λ m. array_transform_payload t headers base (object m) index parent) params
          item)

  abbrev pub with_kept : Option Value → List Value → List Value
  with_kept none out = out
  with_kept (some v) out = v ∷ out

  unfoldable pub transform_from :
      (Fields → Value → List Value → Fueled (List Value))
      → Fields
      → Value
      → ℕ
      → List Value
      → Fueled (List Value)
  unfolding transform_item itoa
  transform_from nest params parent index [] = returns (ok [])
  transform_from nest params parent index (v ∷ vs) =
      and_then
        (wrapped ("array_transform: item " ++ (itoa index ++ ": "))
          (transform_item nest params parent index v))
        (λ kept.
          and_then (transform_from nest params parent (suc index) vs)
            (λ out. returns (ok (with_kept kept out))))

  -- `transformArrayItems`.
  unfoldable pub transform_array_items : ℕ → Fields → Value → List Value → Fueled (List Value)
  unfolding transform_from
  transform_array_items zero params parent vs = no_fuel
  transform_array_items (suc fuel) params parent vs =
      transform_from (λ p item ws. transform_array_items fuel p item ws) params parent 0 vs

abbrev pub ended : Message → String → Outcome × Message
ended m e = (returned false (some (text e)), m)

-- What is written: the items and their number.
unfoldable pub write_transformed :
    (String → String) → Message → String → Try (List Value) → Outcome × Message
unfolding set_payload_path set
write_transformed quote m target (err e) = ended m e
write_transformed quote m target (ok out) =
    let (e, payload) = set_payload_path quote target (list (of_items out)) m.payload in
    let m' : Message = record m { payload = payload } in
    elim e [
      | some x ↦ ended m' ("array_transform: " ++ x)
      | none ↦
          (returned true none, set m' (target ++ "_transformed_count") (int (pos (length out))))
    ]

-- What follows on the items of the source.
abbrev pub transformed :
    (String → String) → Message → String → Fueled (List Value) → Bounded (Outcome × Message)
unfolding write_transformed
transformed quote m target no_fuel = no_fuel
transformed quote m target shares = shares
transformed quote m target (returns r) = returns (write_transformed quote m target r)

unfoldable pub array_transform : Transformation → ℕ → Message → Fields → Bounded (Outcome × Message)
unfolding trim_space get_path to_any_slice transform_array_items transformed
array_transform t fuel m params =
    let quote = t.evaluation.scalars.quote in
    let source = string_param "source" params in
    if is_empty (trim_space source)
    then returns (ended m "array_transform: source is required")
    else (elim (get_path m.payload source) [
      | none ↦ returns (ended m ("array_transform: source " ++ (quote source ++ " not found")))
      | some raw ↦ elim (to_any_slice t.evaluation raw) [
        | none ↦
            returns (ended m ("array_transform: source " ++ (quote source ++ " must be an array")))
        | some vs ↦
            transformed quote m (or_blank (string_param "target" params) source)
              (transform_array_items t m.headers m.payload fuel params null vs)
      ]
    ])

-- ===== src/Handlers/FilterArray.antt =====
-- app/handlers/filter_array.go: the handler `filter_array`. `cel` is evaluateCELExpressionForPayload of
-- app/handlers/cel.go, which hands a payload, headers and an expression to the CEL engine.
pub mod Laws
use Prim.Native.String.{◌++◌}
use routing_slip_pattern.Common.{
  ℕ, suc, ◌-◌, String, Bool, true, false, List, [], ◌∷◌, Option, none, some, length, if◌then◌else◌,
}
use routing_slip_pattern.Common.Int.{pos}
use routing_slip_pattern.Common.Dict.{Dict}
use routing_slip_pattern.Common.Text.{trim_space, is_empty, itoa}
use routing_slip_pattern.Value.{
  Value, Items, Fields, str, int, list, object, other, items, of_items, end, field, get, put,
}
use routing_slip_pattern.Value.Path.{get_path}
use routing_slip_pattern.Value.Put.{Written, set_payload_path}
use routing_slip_pattern.Slip.Errors.{text}
use routing_slip_pattern.Slip.Message.{Message, set}
use routing_slip_pattern.Slip.Router.{Handle, Handler, Outcome, returned}
use routing_slip_pattern.Handlers.Conditions.{Scalars, Try, ok, err, then_do, string_param}
use routing_slip_pattern.Handlers.ControlFlow.{Verdict, evaluate_assert}

-- What the handler takes from outside: the evaluation of conditions, CEL, and the items of an `other`
-- value that is a `[]map[string]any`.
pub record Evaluation : Type 0 where
  pub scalars : Scalars
  pub cel : Fields → Dict String → String → Try Bool
  pub other_items : ℕ → Option (List Value)

-- The text of a parameter, or the next one where it is blank.
abbrev pub or_blank : String → String → String
or_blank value next = if is_empty (trim_space value) then next else value

unfoldable pub filter_source : Fields → String
unfolding trim_space
filter_source params = or_blank (string_param "source" params) (string_param "field" params)

unfoldable pub filter_target : Fields → String
unfolding trim_space filter_source
filter_target params = or_blank (string_param "target" params) (filter_source params)

unfoldable pub filter_array_payload : Fields → Value → ℕ → Fields
unfolding put
filter_array_payload payload item index = put "index" (int (pos index)) (put "item" item payload)

abbrev pub matched_of : Try Verdict → Try Bool
matched_of (err e) = err e
matched_of (ok v) = ok v.matched

abbrev pub failed_with : Message → String → Outcome × Message
failed_with m e = (returned false (some (text ("filter_array: " ++ e))), m)

module _ (ev : Evaluation) where
  unfoldable pub to_any_slice : Value → Option (List Value)
  to_any_slice (list vs) = some (items vs)
  to_any_slice (other n) = ev.other_items n
  to_any_slice _ = none

  -- `where` of the parameters.
  abbrev where_matches : Fields → Option Value → Try Bool
  unfolding evaluate_assert
  where_matches payload none = err "where or expr is required"
  where_matches payload (some (object conditions)) =
      matched_of (evaluate_assert ev.scalars payload conditions)
  where_matches payload (some (list conditions)) =
      matched_of (evaluate_assert ev.scalars payload (field "all" (list conditions) end))
  where_matches payload (some v) = err "where must be an object or list"

  unfoldable pub evaluate_filter_array_item : Message → Fields → Value → ℕ → Try Bool
  unfolding get trim_space filter_array_payload where_matches
  evaluate_filter_array_item m params item index =
      let payload = filter_array_payload m.payload item index in
      let expr = string_param "expr" params in
      if is_empty (trim_space expr)
      then where_matches payload (get "where" params)
      else ev.cel payload m.headers expr

  -- The loop over the items from `index` on; the first error ends it.
  unfoldable pub filtered_from : (Value → ℕ → Try Bool) → ℕ → List Value → Try (List Value)
  unfolding then_do itoa
  filtered_from matches index [] = ok []
  filtered_from matches index (v ∷ vs) =
      let rest = filtered_from matches (suc index) vs in
      elim (matches v index) [
        | err e ↦ err ("item " ++ (itoa index ++ (": " ++ e)))
        | ok kept ↦ then_do rest λ out. ok (if kept then v ∷ out else out)
      ]

  -- What is written: the items that are kept, and the two counts.
  unfoldable pub write_filtered :
      Message → String → List Value → Try (List Value) → Outcome × Message
  unfolding set_payload_path set
  write_filtered m target vs (err e) = failed_with m e
  write_filtered m target vs (ok out) =
      let (e, payload) = set_payload_path ev.scalars.quote target (list (of_items out)) m.payload in
      let m' : Message = record m { payload = payload } in
      elim e [
        | some x ↦ failed_with m' x
        | none ↦ (
          returned true none,
          set (set m' (target ++ "_filtered_count") (int (pos (length out))))
              (target ++ "_removed_count") (int (pos (length vs - length out))),
        )
      ]

  unfoldable pub filter_items : Message → Fields → List Value → Outcome × Message
  unfolding filter_target evaluate_filter_array_item filtered_from write_filtered
  filter_items m params vs =
      write_filtered m (filter_target params) vs
        (filtered_from (evaluate_filter_array_item m params) 0 vs)

  unfoldable pub filter_array : Message → Fields → Outcome × Message
  unfolding filter_source trim_space get_path to_any_slice filter_items
  filter_array m params =
      let source = filter_source params in
      let quoted = ev.scalars.quote source in
      if is_empty (trim_space source)
      then failed_with m "source is required"
      else (elim (get_path m.payload source) [
        | none ↦ failed_with m ("source " ++ (quoted ++ " not found"))
        | some raw ↦ elim (to_any_slice raw) [
          | none ↦ failed_with m ("source " ++ (quoted ++ " must be an array"))
          | some vs ↦ filter_items m params vs
        ]
      ])

  module _ {W : Type 0} where
    unfoldable pub filter_array_handle : Handle W
    unfolding filter_array
    filter_array_handle ctx m params w =
        let (outcome, m') = filter_array m params in (outcome, m', w)

    abbrev pub filter_array_handler : Handler W
    filter_array_handler = record {
      name = "filter_array";
      handle = filter_array_handle;
      next_cursor = none;
    }

-- ===== src/Handlers/ControlFlow.antt =====
-- app/handlers/control_flow.go: the handlers `compute`, `assert` and `jump_if`.
pub mod Laws
pub mod Ends
use Prim.Native.String.{◌++◌}
use routing_slip_pattern.Common.{
  ℕ, suc, String, Bool, true, false, List, [], ◌∷◌, Option, none, some, leb, length, ◌==◌,
  if◌then◌else◌,
}
use mathlib.Core.List
use routing_slip_pattern.Common.Int.{ℤ, pos}
use routing_slip_pattern.Common.Text.{trim_space, is_empty, itoa}
use routing_slip_pattern.Value.{Value, Fields, bool, int, str, list, object, strings, get, items}
use routing_slip_pattern.Slip.Errors.{GoError, text}
use routing_slip_pattern.Slip.Message.{Message, StepDef, set, find_step_index}
use routing_slip_pattern.Slip.Router.{
  Handle, Handler, CursorController, NextCursor, Outcome, returned,
}
use routing_slip_pattern.Handlers.Conditions.{
  Try, ok, err, then_do, Scalars, string_param, evaluate_condition, evaluate_value,
}

abbrev pub add_condition : Fields → Try (List Fields) → Try (List Fields)
add_condition c (ok cs) = ok (c ∷ cs)
add_condition c (err e) = err e

-- The loop of `conditionList`, at index `i`.
conditions_from : ℕ → List Value → Try (List Fields)
unfolding itoa
conditions_from i [] = ok []
conditions_from i (object c ∷ vs) = add_condition c (conditions_from (suc i) vs)
conditions_from i (v ∷ vs) = err ("condition " ++ (itoa i ++ " must be an object"))

-- `conditionList`.
unfoldable pub condition_list : Value → Try (List Fields)
unfolding conditions_from
condition_list (list vs) = conditions_from 0 (items vs)
condition_list _ = err "conditions must be a list"

-- The texts of the failures, joined as by `strings.Join`.
abbrev joined : List String → String
joined [] = ""
joined (f ∷ []) = f
joined (f ∷ fs) = f ++ ("; " ++ joined fs)

-- What an assertion comes to: whether it holds, and its failures.
pub record Verdict : Type 0 where
  pub matched : Bool
  pub failures : List String

unfoldable pub no_failures : List String → Bool
no_failures [] = true
no_failures (f ∷ fs) = false

module _ (s : Scalars) where
  -- `fmt.Sprintf("all[%d]: ...", i)`, and the same for `any`.
  abbrev pub failure : String → ℕ → String → String
  failure kind i e = kind ++ ("[" ++ (itoa i ++ ("]: " ++ e)))

  abbrev pub noted : String → ℕ → Try Bool → List String → List String
  noted kind i (ok true) fs = fs
  noted kind i (ok false) fs = failure kind i "condition not satisfied" ∷ fs
  noted kind i (err e) fs = failure kind i e ∷ fs

  -- The loop over `all`: a failure for each condition that fails or does not hold.
  unfoldable pub all_failures : Fields → ℕ → List Fields → List String
  all_failures payload i [] = []
  all_failures payload i (c ∷ cs) =
      noted "all" i (evaluate_condition s payload c) (all_failures payload (suc i) cs)

  abbrev pub any_step : ℕ → Try Bool → Verdict → Verdict
  any_step i (ok true) rest = record { matched = true; failures = [] }
  any_step i b rest =
      if rest.matched
      then rest
      else record { matched = false; failures = noted "any" i b rest.failures }

  -- The loop over `any`: it returns at the first condition that holds, without failures.
  unfoldable pub any_verdict : Fields → ℕ → List Fields → Verdict
  any_verdict payload i [] = record { matched = false; failures = [] }
  any_verdict payload i (c ∷ cs) =
      any_step i (evaluate_condition s payload c) (any_verdict payload (suc i) cs)

  single : Try Bool → Try Verdict
  single (ok true) = ok (record { matched = true; failures = [] })
  single (ok false) = ok (record { matched = false; failures = "condition not satisfied" ∷ [] })
  single (err e) = err e

  -- `evaluateAssertConfig`.
  unfoldable pub evaluate_assert : Fields → Fields → Try Verdict
  unfolding get condition_list then_do all_failures any_verdict no_failures single
  evaluate_assert payload params = elim (get "all" params) [
    | some raw ↦ then_do (condition_list raw) λ cs.
        let fs = all_failures payload 0 cs in
        ok (record { matched = no_failures fs; failures = fs })
    | none ↦ elim (get "any" params) [
      | some raw ↦ then_do (condition_list raw) λ cs. ok (any_verdict payload 0 cs)
      | none ↦ single (evaluate_condition s payload params)
    ]
  ]

  assert_message : Fields → String
  assert_message params =
      let given = string_param "message" params in
      if is_empty (trim_space given) then "assertion failed" else given

  unfoldable pub refused : Fields → List String → Message → Outcome × Message
  unfolding assert_message set
  refused params [] m = (returned false (some (text (assert_message params))), m)
  refused params (f ∷ fs) m = (
    returned false (some (text (assert_message params ++ (": " ++ joined (f ∷ fs))))),
    set m "assert_failures" (strings (f ∷ fs)),
  )

  unfoldable pub asserted : Fields → Message → Try Verdict → Outcome × Message
  unfolding set refused
  asserted params m (err e) = (returned false (some (text ("assert: " ++ e))), m)
  asserted params m (ok v) =
      let m' = set m "assert_passed" (bool v.matched) in
      if v.matched then (returned true none, m') else refused params v.failures m'

  unfoldable pub computed : String → Message → Try Value → Outcome × Message
  unfolding set
  computed target m (err e) = (returned false (some (text ("compute: " ++ e))), m)
  computed target m (ok v) = (returned true none, set m target v)

  -- `value` must be an object.
  unfoldable pub compute_value : String → Message → Option Value → Outcome × Message
  unfolding computed evaluate_value
  compute_value target m (some (object config)) =
      computed target m (evaluate_value s m.payload config)
  compute_value target m _ = (returned false (some (text "compute: value must be an object")), m)

  unfoldable pub tested : Message → Try Bool → Outcome × Message
  unfolding set
  tested m (err e) = (returned false (some (text ("jump_if: " ++ e))), m)
  tested m (ok b) = (returned true none, set m "jump_if_matched" (bool b))

  abbrev pub stay : Option GoError → NextCursor
  stay e = record { next = pos 0; changed = false; err = e }

  abbrev pub is_true : Option Value → Bool
  is_true (some (bool b)) = b
  is_true _ = false

  -- The target step, behind the current one, with what the jump leaves in the payload.
  unfoldable pub jump_to : Message → String → ℕ → Option ℕ → NextCursor × Message
  unfolding set
  jump_to m target current none =
      (stay (some (text ("target step " ++ (s.quote target ++ " not found")))), m)
  jump_to m target current (some index) =
      if leb index current
      then (
        stay (some (text ("target step " ++ (s.quote target ++ " must be after current step")))),
        m,
      )
      else (
        record { next = pos index; changed = true; err = none },
        set (set (set m "jumped_to" (str target)) "jumped_from_cursor" (int (pos current)))
            "jumped_to_cursor" (int (pos index)),
      )

  unfoldable pub next_cursor : Message → StepDef → ℕ → NextCursor × Message
  unfolding get jump_to find_step_index
  next_cursor m step current =
      let target = string_param "to" step.params in
      if is_true (get "jump_if_matched" m.payload)
      then jump_to m target current (find_step_index m target)
      else (stay none, m)

  module _ {W : Type 0} where
    abbrev in_world : W → Outcome × Message → Outcome × Message × W
    in_world w (o, m) = (o, m, w)

    unfoldable pub compute_handle : Handle W
    unfolding get compute_value
    compute_handle ctx m params w =
        let target = string_param "target" params in
        in_world w (
          if is_empty (trim_space target)
          then (returned false (some (text "compute: target is required")), m)
          else compute_value target m (get "value" params))

    unfoldable pub assert_handle : Handle W
    unfolding asserted evaluate_assert
    assert_handle ctx m params w = in_world w (asserted params m (evaluate_assert m.payload params))

    unfoldable pub jump_if_handle : Handle W
    unfolding tested evaluate_condition
    jump_if_handle ctx m params w = in_world w (tested m (evaluate_condition s m.payload params))

    abbrev pub compute_handler : Handler W
    compute_handler = record { name = "compute"; handle = compute_handle; next_cursor = none }

    abbrev pub assert_handler : Handler W
    assert_handler = record { name = "assert"; handle = assert_handle; next_cursor = none }

    unfoldable pub jump_cursor : CursorController W
    unfolding next_cursor
    jump_cursor m step current w = (let (n, m') = next_cursor m step current in (n, m', w))

    abbrev pub jump_if_handler : Handler W
    jump_if_handler = record {
      name = "jump_if";
      handle = jump_if_handle;
      next_cursor = some jump_cursor;
    }

-- ===== src/Handlers/Conditions.antt =====
-- app/handlers/control_flow.go: the conditions and values that its handlers evaluate.
use Prim.Native.Char.{code}
use Prim.Native.String.{◌++◌, ◌∷◌, []}
use routing_slip_pattern.Common.{
  ℕ, suc, ◌+◌, String, Bool, true, false, not, ◌||◌, Option, none, some, length, ltb, str_eq, ◌==◌,
  if◌then◌else◌,
}
use routing_slip_pattern.Common.Int.{ℤ, pos}
use routing_slip_pattern.Common.Text.{trim_space, is_empty}
use routing_slip_pattern.Value.{
  Value, Fields, bool, int, float, str, list, object, strings, string_map, other, end, field, items,
  get,
}
use routing_slip_pattern.Value.Path.{get_path}

-- A result or the text of an error.
pub data Try (A : Type 0) : Type 0 where
  ok : A → Try A
  err : String → Try A

unfoldable pub then_do : {A B : Type 0} → Try A → (A → Try B) → Try B
then_do (ok a) k = k a
then_do (err e) k = err e

-- What the evaluation takes from packages strconv, fmt and reflect, and from the processor's floats.
pub record Scalars : Type 0 where
  pub of_int : ℤ → ℕ  -- float64(n)
  pub parse_float : String → Try ℕ  -- `strconv.ParseFloat(s, 64)`
  pub of_other : ℕ → Option (Try ℕ)  -- a float32 or json.Number; `none` is any other type
  pub less : ℕ → ℕ → Bool
  pub at_most : ℕ → ℕ → Bool
  pub same : ℕ → ℕ → Bool
  pub sprint : Value → String  -- `%v`
  pub deep_equal : Value → Value → Bool
  pub other_len : ℕ → Option ℕ  -- `reflect.Value.Len` of the other arrays, slices and maps
  pub quote : String → String  -- `%q`

-- `len(s)` counts the bytes of the UTF-8 form.
abbrev byte_len : String → ℕ
byte_len [] = 0
byte_len (c ∷ s) =
    (if ltb (code c) 0x80
      then 1
      else if ltb (code c) 0x800
      then 2
      else if ltb (code c) 0x10000
      then 3
      else 4)
    + byte_len s

abbrev field_count : Fields → ℕ
field_count end = 0
field_count (field k v m) = suc (field_count m)

-- `params[key].(string)`, the empty text where it is none.
abbrev pub string_param : String → Fields → String
unfolding get
string_param key params = elim (get key params) [
  | none ↦ ""
  | some v ↦ elim v [ str s ↦ s | _ ↦ "" ]
]

module _ (s : Scalars) where
  unfoldable pub to_float : Value → Try ℕ
  to_float (int n) = ok (s.of_int n)
  to_float (float x) = ok x
  to_float (str t) = s.parse_float (trim_space t)
  to_float (other n) = elim (s.of_other n) [
    | some x ↦ x
    | none ↦ err ("value " ++ (s.sprint (other n) ++ " is not numeric"))
  ]
  to_float v = err ("value " ++ (s.sprint v ++ " is not numeric"))

  unfoldable pub collection_length : Value → Option ℕ
  collection_length (list vs) = some (length (items vs))
  collection_length (object m) = some (field_count m)
  collection_length (str t) = some (byte_len t)
  collection_length (strings ts) = some (length ts)
  collection_length (string_map m) = some (length m)
  collection_length (other n) = s.other_len n
  collection_length _ = none

  same_numbers : Try ℕ → Try ℕ → Option Bool
  same_numbers (ok a) (ok b) = some (s.same a b)
  same_numbers _ _ = none

  -- Two numbers, or texts that read as numbers, are compared as numbers.
  unfoldable pub values_equal : Value → Value → Bool
  unfolding to_float same_numbers
  values_equal left right = elim (same_numbers (to_float left) (to_float right)) [
    | some b ↦ b
    | none ↦ str_eq (s.sprint left) (s.sprint right) || s.deep_equal left right
  ]

  unfoldable pub compare_numbers : Value → Value → (ℕ → ℕ → Bool) → Try Bool
  unfolding to_float then_do
  compare_numbers left right compare =
      then_do (to_float left) λ a. then_do (to_float right) λ b. ok (compare a b)

  -- The tests of `min_items` and `max_items`: the count is read before the bound.
  unfoldable pub compare_count : String → Value → Value → (ℕ → ℕ → Bool) → Try Bool
  unfolding to_float then_do collection_length
  compare_count name left bound compare = elim (collection_length left) [
    | none ↦ err ("field " ++ (s.quote name ++ " is not countable"))
    | some n ↦ then_do (to_float bound) λ b. ok (compare (s.of_int (pos n)) b)
  ]

  -- The `switch` on the operators; the first that is there counts.
  unfoldable pub compare_field : String → Value → Fields → Try Bool
  unfolding get values_equal compare_numbers compare_count
  compare_field name left config = elim (get "equals" config) [
    | some x ↦ ok (values_equal left x)
    | none ↦ elim (get "not_equals" config) [
      | some x ↦ ok (not (values_equal left x))
      | none ↦ elim (get "less_than" config) [
        | some x ↦ compare_numbers left x s.less
        | none ↦ elim (get "less_than_or_equal" config) [
          | some x ↦ compare_numbers left x s.at_most
          | none ↦ elim (get "greater_than" config) [
            | some x ↦ compare_numbers left x (λ a b. s.less b a)
            | none ↦ elim (get "greater_than_or_equal" config) [
              | some x ↦ compare_numbers left x (λ a b. s.at_most b a)
              | none ↦ elim (get "min_items" config) [
                | some x ↦ compare_count name left x (λ a b. s.at_most b a)
                | none ↦ elim (get "max_items" config) [
                  | some x ↦ compare_count name left x s.at_most
                  | none ↦ err "no supported comparison configured"
                ]
              ]
            ]
          ]
        ]
      ]
    ]
  ]

  -- The value of `exists`: the path, or the expected presence of the path in `field`.
  exists_field : Value → Fields → String
  exists_field (str path) config = path
  exists_field _ config = string_param "field" config

  is_some : Option Value → Bool
  is_some none = false
  is_some (some v) = true

  expected : Value → Bool → Bool
  expected (bool b) exists = if b then exists else not exists
  expected _ exists = exists

  unfoldable pub evaluate_exists : Fields → Value → Fields → Try Bool
  unfolding exists_field get_path is_some expected
  evaluate_exists payload raw config =
      let path = exists_field raw config in
      if is_empty (trim_space path)
      then err "exists must be a field path"
      else ok (expected raw (is_some (get_path payload path)))

  -- `evaluateConditionConfig`, of the message's payload.
  unfoldable pub evaluate_condition : Fields → Fields → Try Bool
  unfolding get evaluate_exists compare_field get_path
  evaluate_condition payload config = elim (get "exists" config) [
    | some raw ↦ evaluate_exists payload raw config
    | none ↦
        let name = string_param "field" config in
        if is_empty (trim_space name)
        then err "field is required"
        else elim (get_path payload name) [
          | none ↦ err ("field " ++ (s.quote name ++ " not found"))
          | some left ↦ compare_field name left config
        ]
  ]

  not_found : String → String
  not_found name = "field " ++ (s.quote name ++ " not found")

  unfoldable pub count_of : Fields → String → Try Value
  unfolding get_path not_found collection_length
  count_of payload path = elim (get_path payload path) [
    | none ↦ err (not_found path)
    | some v ↦ elim (collection_length v) [
      | none ↦ err ("field " ++ (s.quote path ++ " is not countable"))
      | some n ↦ ok (int (pos n))
    ]
  ]

  field_of : Fields → String → Try Value
  unfolding get_path not_found
  field_of payload path = elim (get_path payload path) [
    | none ↦ err (not_found path)
    | some v ↦ ok v
  ]

  as_value : Try Bool → Try Value
  as_value (ok b) = ok (bool b)
  as_value (err e) = err e

  -- The last cases of `evaluateValueConfig`: a condition, or nothing that is supported.
  condition_value : Fields → Fields → Try Value
  unfolding get as_value evaluate_condition
  condition_value payload config =
      let value = as_value (evaluate_condition payload config) in
      elim (get "exists" config) [
        | some x ↦ value
        | none ↦ elim (get "field" config) [
          | some x ↦ value
          | none ↦ err "unsupported value config"
        ]
      ]

  counted : Fields → Fields → Option Value → Try Value
  unfolding count_of condition_value
  counted payload config (some (str path)) = count_of payload path
  counted payload config _ = condition_value payload config

  -- A `field` counts as a value only where it is the one key.
  plain : Fields → Fields → Option Value → Try Value
  unfolding get field_of counted
  plain payload config (some (str path)) =
      if field_count config == 1
      then field_of payload path
      else counted payload config (get "count" config)
  plain payload config _ = counted payload config (get "count" config)

  -- `evaluateValueConfig`.
  unfoldable pub evaluate_value : Fields → Fields → Try Value
  unfolding get plain
  evaluate_value payload config = elim (get "literal" config) [
    | some v ↦ ok v
    | none ↦ plain payload config (get "field" config)
  ]

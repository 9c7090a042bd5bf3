-- ===== src/Value/Put.antt =====
-- Writing and reading a nested value by a dotted path of keys: `setPayloadPath` of
-- app/handlers/filter_array.go and of app/triggers.go, `valueFromPath` of app/runtime_config.go and
-- `getMapPath` of app/handlers/array_transform.go. A map is a value of its own: two places of a
-- payload that share one map are not modelled.
pub mod Laws
pub mod Beside
use Prim.Native.String.{◌++◌}
use routing_slip_pattern.Common.{String, List, [], ◌∷◌, Option, none, some, if◌then◌else◌}
use routing_slip_pattern.Common.Text.{trim_space, is_empty, split_on}
use routing_slip_pattern.Value.{Value, Fields, object, end, get, put}

-- The error, if there is one, and the map as it is left.
abbrev pub Written : Type 0
Written = Option String × Fields

abbrev pub into : String → Fields → Written → Written
into part m (e, child) = (e, put part (object child) m)

abbrev pub put_child : String → Fields → (Fields → Written) → Written → Option Value → Written
put_child part m write crossed none = into part m (write end)
put_child part m write crossed (some (object child)) = into part m (write child)
put_child part m write crossed (some v) = crossed

module _ (quote : String → String) (path : String) where
  abbrev pub invalid : String
  invalid = "invalid target path " ++ quote path

  abbrev pub crosses : String → String
  crosses part = "target path " ++ (quote path ++ (" crosses non-object field " ++ quote part))

  -- The loop over the parts: missing objects are made, also where a later part is in error.
  unfoldable pub put_parts : List String → Value → Fields → Written
  unfolding put trim_space get
  put_parts [] value m = (none, m)
  put_parts (part ∷ []) value m = (none, put part value m)
  put_parts (part ∷ next ∷ parts) value m =
      let write = λ (child : Fields). put_parts (next ∷ parts) value child in
      if is_empty (trim_space part)
      then (some invalid, m)
      else put_child part m write (some (crosses part), m) (get part m)

  -- The first part is not blank.
  abbrev pub given_parts : List String → Value → Fields → Written
  given_parts [] value m = (some "target path is required", m)
  given_parts (part ∷ parts) value m =
      if is_empty (trim_space part)
      then (some "target path is required", m)
      else put_parts (part ∷ parts) value m

  -- `setPayloadPath` of package handlers.
  unfoldable pub set_payload_path : Value → Fields → Written
  unfolding split_on trim_space put_parts
  set_payload_path value m = given_parts (split_on b'.' path) value m

-- What stands under a key, if it is an object, else an empty one.
abbrev pub object_or_empty : Option Value → Fields
object_or_empty (some (object child)) = child
object_or_empty _ = end

-- The loop of `setPayloadPath` of package main: what is no object is replaced by one.
unfoldable pub force_parts : List String → Value → Fields → Fields
unfolding put get
force_parts [] value m = m
force_parts (part ∷ []) value m = put part value m
force_parts (part ∷ next ∷ parts) value m =
    put part (object (force_parts (next ∷ parts) value (object_or_empty (get part m)))) m

-- `setPayloadPath` of package main.
unfoldable pub force_payload_path : String → Value → Fields → Fields
unfolding trim_space split_on force_parts
force_payload_path path value m =
    let trimmed = trim_space path in
    if is_empty trimmed then m else force_parts (split_on b'.' trimmed) value m

-- One round of the loop of `valueFromPath`: keys of objects alone.
abbrev pub member : Value → String → Option Value
unfolding get
member (object m) part = get part m
member _ part = none

unfoldable pub walk_members : Value → List String → Option Value
unfolding member
walk_members current [] = some current
walk_members current (part ∷ parts) = elim (member current part) [
  | none ↦ none
  | some next ↦ walk_members next parts
]

-- `valueFromPath` and `getMapPath`.
unfoldable pub value_from_path : Fields → String → Option Value
unfolding trim_space split_on walk_members
value_from_path values path =
    if is_empty (trim_space path) then none else walk_members (object values) (split_on b'.' path)

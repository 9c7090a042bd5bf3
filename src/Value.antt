-- ===== src/Value.antt =====
-- Go's `any`, as the library's dynamic values use it: what `encoding/json` and the YAML reader give,
-- and the few other types that the code tests for.
pub mod Path
pub mod Put
use routing_slip_pattern.Common.{
  ℕ, String, Bool, ◌≡◌, refl, List, [], ◌∷◌, Option, none, some, if◌then◌else◌, str_eq, arith,
  eq_iff,
}
use routing_slip_pattern.Common.Int.{ℤ}
use routing_slip_pattern.Common.Dict.{Dict}

mutual
  pub data Value : Type 0 where
    null : Value
    bool : Bool → Value
    int : ℤ → Value  -- int, int64
    float : ℕ → Value  -- float64, by its bits
    str : String → Value
    list : Items → Value  -- []any
    object : Fields → Value  -- map[string]any
    strings : List String → Value  -- []string
    string_map : Dict String → Value  -- map[string]string
    other : ℕ → Value  -- a value of any other type

  pub data Items : Type 0 where
    nil : Items
    cons : Value → Items → Items

  pub data Fields : Type 0 where
    end : Fields
    field : String → Value → Fields → Fields

abbrev pub items : Items → List Value
items nil = []
items (cons v vs) = v ∷ items vs

abbrev pub of_items : List Value → Items
of_items [] = nil
of_items (v ∷ vs) = cons v (of_items vs)

-- `m[k]` of a `map[string]any`.
unfoldable pub get : String → Fields → Option Value
get k end = none
get k (field j v m) = if str_eq j k then some v else get k m

-- `m[k] = v`.
unfoldable pub put : String → Value → Fields → Fields
put k v end = field k v end
put k v (field j w m) = if str_eq j k then field k v m else field j w (put k v m)

pub get-put :
    (k j : String) (v : Value) (m : Fields)
    → get j (put k v m) ≡ (if str_eq k j then some v else get j m)
unfolding get put
get-put k j v end = refl
get-put k j v (field i w m) = ground (arith, eq_iff k j, eq_iff i k, eq_iff i j, get-put k j v m)

-- ===== src/Handlers/ArrayTransform/Depth.antt =====
-- How deep the parameters of `array_transform` of app/handlers/array_transform.go nest.
use routing_slip_pattern.Common.{
  ℕ, suc, ◌≤◌, max, String, some, ◌≡◌, arith, str_eq, Bool-cases, inl, inr,
}
use routing_slip_pattern.Value.{
  Value, Items, Fields, null, bool, int, float, str, list, object, strings, string_map, other, nil,
  cons, end, field, get,
}

-- How many lists and maps stand within one another.
unfoldable mutual
  pub depth : Value → ℕ
  depth null = 0
  depth (bool b) = 0
  depth (int n) = 0
  depth (float x) = 0
  depth (str s) = 0
  depth (list vs) = suc (items_depth vs)
  depth (object m) = suc (fields_depth m)
  depth (strings ss) = 0
  depth (string_map d) = 0
  depth (other n) = 0

  pub items_depth : Items → ℕ
  items_depth nil = 0
  items_depth (cons v vs) = max (depth v) (items_depth vs)

  pub fields_depth : Fields → ℕ
  fields_depth end = 0
  fields_depth (field k v m) = max (depth v) (fields_depth m)

pub get-depth : (k : String) (m : Fields) (v : Value) → get k m ≡ some v → depth v ≤ fields_depth m
unfolding get fields_depth
get-depth k end v e = absurd (ground (arith, e))
get-depth k (field j w m) v e = elim (Bool-cases (str_eq j k)) [
  | inl hit ↦ ground (arith, e, hit)
  | inr miss ↦ ground (arith, e, miss, get-depth k m v)
]

-- ===== src/Slip/Redaction.antt =====
-- app/slip/redaction.go: a copy of a value with secret fields masked.
pub mod Laws
use routing_slip_pattern.Common.{
  String, Bool, true, false, ◌||◌, List, [], ◌∷◌, str_eq, if◌then◌else◌,
}
use routing_slip_pattern.Common.Text.{trim_space, to_lower, contains}
use routing_slip_pattern.Common.Dict.{Dict}
use routing_slip_pattern.Value.{
  Value, Items, Fields, null, bool, int, float, str, list, object, strings, string_map, other, nil,
  cons, end, field,
}

abbrev pub default_sensitive_fields : List String
default_sensitive_fields =
    "authorization" ∷ "client_secret" ∷ "access_token" ∷ "refresh_token" ∷ "password" ∷ "token"
    ∷ "api_key" ∷ "x-api-key" ∷ "x-serial-number" ∷ []

unfoldable pub is_listed : String → List String → Bool
is_listed key [] = false
is_listed key (k ∷ ks) = str_eq k key || is_listed key ks

unfoldable pub is_sensitive_field : String → Bool
unfolding is_listed trim_space to_lower contains
is_sensitive_field key =
    let key' = to_lower (trim_space key) in
    is_listed key' default_sensitive_fields
    || contains "secret" key'
    || contains "password" key'
    || contains "token" key'

abbrev pub mask : String
mask = "***"

-- The entries of a `map[string]string`.
unfoldable pub redact_strings : Dict String → Dict String
unfolding is_sensitive_field
redact_strings [] = []
redact_strings ((k, v) ∷ m) = (k, if is_sensitive_field k then mask else v) ∷ redact_strings m

unfoldable mutual
  unfolding is_sensitive_field redact_strings

  pub redact_sensitive : Value → Value
  redact_sensitive (object m) = object (redact_fields m)
  redact_sensitive (string_map m) = string_map (redact_strings m)
  redact_sensitive (list vs) = list (redact_items vs)
  redact_sensitive v = v

  pub redact_items : Items → Items
  redact_items nil = nil
  redact_items (cons v vs) = cons (redact_sensitive v) (redact_items vs)

  pub redact_fields : Fields → Fields
  redact_fields end = end
  redact_fields (field k v m) =
      let kept = redact_sensitive v in
      field k (if is_sensitive_field k then str mask else kept) (redact_fields m)

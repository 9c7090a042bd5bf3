-- ===== src/Slip/Redaction/Laws.antt =====
-- What a redacted value shows.
use routing_slip_pattern.Common.{
  String, true, [], ◌∷◌, ◌≡◌, refl, Bool-cases, inl, inr, if◌then◌else◌, if_rule, ap, ap₂, str_eq,
  eq_iff,
}
use mathlib.Core.Option
use routing_slip_pattern.Common.Dict.{Dict}
use routing_slip_pattern.Value.{
  Value, get, Items, Fields, str, list, object, string_map, nil, cons, end, field,
}
use routing_slip_pattern.Slip.Redaction.{
  mask, is_sensitive_field, redact_strings, redact_sensitive, redact_items, redact_fields,
}

-- No entry of the map under a sensitive key shows anything but the mask.
abbrev pub CleanStrings : Dict String → Type 0
CleanStrings [] = Unit
CleanStrings ((k, v) ∷ m) = (is_sensitive_field k ≡ true → v ≡ mask) × CleanStrings m

-- At any depth, what stands under a sensitive key is the mask.
abbrev mutual
  pub Clean : Value → Type 0
  Clean (object m) = CleanFields m
  Clean (string_map m) = CleanStrings m
  Clean (list vs) = CleanItems vs
  Clean v = Unit

  pub CleanItems : Items → Type 0
  CleanItems nil = Unit
  CleanItems (cons v vs) = Clean v × CleanItems vs

  pub CleanFields : Fields → Type 0
  CleanFields end = Unit
  CleanFields (field k v m) = (is_sensitive_field k ≡ true → v ≡ str mask) × Clean v × CleanFields m

redact_strings-CleanStrings : (m : Dict String) → CleanStrings (redact_strings m)
unfolding redact_strings
redact_strings-CleanStrings [] = tt
redact_strings-CleanStrings ((k, v) ∷ m) = ((λ h. rw h refl), redact_strings-CleanStrings m)

mutual
  unfolding redact_sensitive

  value-Clean : (v : Value) → Clean (redact_sensitive v)
  value-Clean (object m) = fields-Clean m
  value-Clean (string_map m) = redact_strings-CleanStrings m
  value-Clean (list vs) = items-Clean vs
  value-Clean _ = tt

  items-Clean : (vs : Items) → CleanItems (redact_items vs)
  items-Clean nil = tt
  items-Clean (cons v vs) = (value-Clean v, items-Clean vs)

  fields-Clean : (m : Fields) → CleanFields (redact_fields m)
  fields-Clean end = tt
  fields-Clean (field k v m) = (
    (λ h. rw h refl),
    if_rule Clean (is_sensitive_field k) (str mask) (redact_sensitive v) (λ _. tt)
        (λ _. value-Clean v),
    fields-Clean m,
  )

-- In a redacted value, at any depth, every entry under a sensitive key is the mask.
pub redact_sensitive-Clean : (v : Value) → Clean (redact_sensitive v)
redact_sensitive-Clean v = value-Clean v

keep_strings : (m : Dict String) → CleanStrings m → redact_strings m ≡ m
unfolding redact_strings
keep_strings [] h = refl
keep_strings ((k, v) ∷ m) h = elim (Bool-cases (is_sensitive_field k)) [
  | inl hot ↦ rw (hot, h.0 hot) (ap (λ r. (k, mask) ∷ r) (keep_strings m h.1))
  | inr cold ↦ rw cold (ap (λ r. (k, v) ∷ r) (keep_strings m h.1))
]

mutual
  unfolding redact_sensitive

  keep_value : (v : Value) → Clean v → redact_sensitive v ≡ v
  keep_value (object m) h = ap object (keep_fields m h)
  keep_value (string_map m) h = ap string_map (keep_strings m h)
  keep_value (list vs) h = ap list (keep_items vs h)
  keep_value _ h = refl

  keep_items : (vs : Items) → CleanItems vs → redact_items vs ≡ vs
  keep_items nil h = refl
  keep_items (cons v vs) h = ap₂ cons (keep_value v h.0) (keep_items vs h.1)

  keep_fields : (m : Fields) → CleanFields m → redact_fields m ≡ m
  keep_fields end h = refl
  keep_fields (field k v m) h = elim (Bool-cases (is_sensitive_field k)) [
    | inl hot ↦ rw (hot, h.0 hot) (ap (field k (str mask)) (keep_fields m h.2))
    | inr cold ↦ rw cold (ap₂ (field k) (keep_value v h.1) (keep_fields m h.2))
  ]

-- Redaction changes nothing but what stands under a sensitive key: a value that shows only masks
-- there is left as it is.
pub redact_sensitive_minimal : (v : Value) → Clean v → redact_sensitive v ≡ v
redact_sensitive_minimal v h = keep_value v h

pub redact_sensitive_idem : (v : Value) → redact_sensitive (redact_sensitive v) ≡ redact_sensitive v
redact_sensitive_idem v = redact_sensitive_minimal (redact_sensitive v) (redact_sensitive-Clean v)

-- A redacted map has the keys of the map, and under each the mask if the key is sensitive, else the
-- redacted value.
pub get-redact_fields :
    (key : String) (m : Fields)
    → get key (redact_fields m)
      ≡ Option.map
          (λ v. if is_sensitive_field key then str mask else redact_sensitive v)
          (get key m)
unfolding get redact_sensitive
get-redact_fields key end = refl
get-redact_fields key (field k v m) = elim (Bool-cases (str_eq k key)) [
  | inl same ↦ rw (same, (eq_iff k key).0 same) refl
  | inr differs ↦ rw differs (get-redact_fields key m)
]

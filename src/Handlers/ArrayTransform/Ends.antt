-- ===== src/Handlers/ArrayTransform/Ends.antt =====
-- `array_transform` of app/handlers/array_transform.go ends: its transforms nest no deeper than its
-- parameters.
use routing_slip_pattern.Common.{
  ℕ, zero, suc, ◌≤◌, ◌<◌, String, Bool, true, false, List, [], ◌∷◌, Option, none, some, ◌⊎◌, ◌≡◌,
  refl, subst, arith, if_rule, option_rule, inl, inr,
}
use routing_slip_pattern.Common.Text.{trim_space, is_empty}
use routing_slip_pattern.Common.Dict.{Dict}
use routing_slip_pattern.Value.{
  Value, Items, Fields, null, bool, int, float, str, list, object, strings, string_map, other, nil,
  cons, get, items,
}
use routing_slip_pattern.Value.Path.{get_path}
use routing_slip_pattern.Value.Put.{value_from_path}
use routing_slip_pattern.Slip.Message.{Message}
use routing_slip_pattern.Slip.Router.{Outcome}
use routing_slip_pattern.Handlers.Conditions.{Try, ok, err, string_param}
use routing_slip_pattern.Handlers.FilterArray.{to_any_slice, or_blank}
use routing_slip_pattern.Handlers.ArrayTransform.Updates.{Transformation, Unshared}
use routing_slip_pattern.Handlers.ArrayTransform.Sets.{
  Elem, first, later, Shares, Settles, nested-Shares, apply_array_transform_updates-Settles,
}
use routing_slip_pattern.Handlers.ArrayTransform.{
  Bounded, returns, shares, Fueled, and_then, wrapped, bounded, nested_at, nested_value,
  nested_given, changed, kept_if, apply_nested_from, apply_nested_array_transforms, transform_item,
  transform_from, transform_array_items, transformed, array_transform,
}
use routing_slip_pattern.Handlers.ArrayTransform.Depth.{depth, items_depth, fields_depth, get-depth}

-- There is a result, or the reason why a value would be shared.
abbrev Ends : {A : Type 0} → Type 0 → Bounded A → Type 0
Ends {A} Q o = ((a : A) × (o ≡ returns a)) ⊎ ((o ≡ shares) × Q)

and_then-Ends :
    {A B Q : Type 0} (o : Fueled A) (k : A → Fueled B)
    → Ends Q o
    → ((a : A) → Ends Q (k a))
    → Ends Q (and_then o k)
and_then-Ends o k (inl ((err e), h)) each = rw h (inl (_, refl))
and_then-Ends o k (inl ((ok a), h)) each = rw h (each a)
and_then-Ends o k (inr (h, q)) each = rw h (inr (refl, q))

wrapped-Ends : {A Q : Type 0} (x : String) (o : Fueled A) → Ends Q o → Ends Q (wrapped x o)
wrapped-Ends x o (inl ((err e), h)) = rw h (inl (_, refl))
wrapped-Ends x o (inl ((ok a), h)) = rw h (inl (_, refl))
wrapped-Ends x o (inr (h, q)) = rw h (inr (refl, q))

bounded-Ends : {A Q : Type 0} (o : Unshared A) → Settles Q o → Ends Q (bounded o)
bounded-Ends o (inl (r, h)) = rw h (inl (r, refl))
bounded-Ends o (inr (h, q)) = rw h (inr (refl, q))

because : {A P Q : Type 0} (o : Bounded A) → Ends P o → (P → Q) → Ends Q o
because o (inl h) f = inl h
because o (inr (h, p)) f = inr (h, f p)

-- Nested transforms of less depth end.
abbrev NestEnds : Transformation → ℕ → (Fields → Value → List Value → Fueled (List Value)) → Type 0
NestEnds t n nest =
    (p : Fields) (parent : Value) (vs : List Value)
    → fields_depth p < n
    → Ends (Shares t p) (nest p parent vs)

module _ (t : Transformation) (headers : Dict String) (base : Fields) where
  nested_at-Ends :
      {Q : Type 0} (nest : Fields → Value → List Value → Fueled (List Value)) (n : ℕ) (at : String)
      (item transform : Fields)
      → NestEnds t n nest
      → fields_depth transform < n
      → (Shares t transform → Q)
      → Ends Q (nested_at t headers base nest at item transform)
  unfolding nested_at
  nested_at-Ends {Q} nest n at item transform h d q =
      if_rule (Ends Q)
        (is_empty (
          trim_space (or_blank (string_param "source" transform) (string_param "field" transform))))
        _ _ (λ _. inl (_, refl))
        (λ _.
          option_rule (Ends Q)
            (value_from_path item
              (or_blank (string_param "source" transform) (string_param "field" transform)))
            _ _ (λ _. inl (_, refl))
            (λ raw _.
              option_rule (Ends Q) (to_any_slice t.evaluation raw) _ _ (λ _. inl (_, refl))
                (λ vs _.
                  and_then-Ends (nest transform (object item) vs) _
                    (because (nest transform (object item) vs) (h transform (object item) vs d) q)
                    (λ out. inl (_, refl)))))

  nested_value-Ends :
      {Q : Type 0} (nest : Fields → Value → List Value → Fueled (List Value)) (n : ℕ) (at : String)
      (item : Fields) (v : Value)
      → NestEnds t n nest
      → depth v ≤ n
      → ((transform : Fields) → v ≡ object transform → Shares t transform → Q)
      → Ends Q (nested_value t headers base nest at item v)
  unfolding depth nested_value
  nested_value-Ends nest n at item (object transform) h d q =
      nested_at-Ends nest n at item transform h (omega (arith, d)) (q transform refl)
  nested_value-Ends nest n at item null h d q = inl (_, refl)
  nested_value-Ends nest n at item (bool b) h d q = inl (_, refl)
  nested_value-Ends nest n at item (int i) h d q = inl (_, refl)
  nested_value-Ends nest n at item (float x) h d q = inl (_, refl)
  nested_value-Ends nest n at item (str s) h d q = inl (_, refl)
  nested_value-Ends nest n at item (list vs) h d q = inl (_, refl)
  nested_value-Ends nest n at item (strings ss) h d q = inl (_, refl)
  nested_value-Ends nest n at item (string_map m) h d q = inl (_, refl)
  nested_value-Ends nest n at item (other i) h d q = inl (_, refl)

  nested-Ends :
      {Q : Type 0} (nest : Fields → Value → List Value → Fueled (List Value)) (n index : ℕ)
      (ts : Items) (item : Fields)
      → NestEnds t n nest
      → items_depth ts ≤ n
      → ((transform : Fields) → Elem (object transform) (items ts) → Shares t transform → Q)
      → Ends Q (apply_nested_from t headers base nest index ts item)
  unfolding apply_nested_from items_depth depth
  nested-Ends nest n index nil item h d q = inl (_, refl)
  nested-Ends nest n index (cons v vs) item h d q =
      and_then-Ends _ _
        (nested_value-Ends nest n _ item v h (omega (arith, d))
          (λ transform e. q transform (subst (λ x. Elem x (v ∷ items vs)) e first)))
        (λ next.
          nested-Ends nest n (suc index) vs next h (omega (arith, d))
            (λ transform i. q transform (later i)))

  nested_given-Ends :
      {Q : Type 0} (nest : Fields → Value → List Value → Fueled (List Value)) (n : ℕ)
      (item : Fields) (o : Option Value)
      → NestEnds t n nest
      → ((v : Value) → o ≡ some v → depth v ≤ n)
      → ((ts : Items) (transform : Fields)
          → o ≡ some (list ts)
          → Elem (object transform) (items ts)
          → Shares t transform
          → Q)
      → Ends Q (nested_given t headers base nest item o)
  unfolding depth nested_given
  nested_given-Ends nest n item none h d q = inl (_, refl)
  nested_given-Ends nest n item (some (list ts)) h d q =
      nested-Ends nest n 0 ts item h (omega (arith, d (list ts) refl))
        (λ transform i. q ts transform refl i)
  nested_given-Ends nest n item (some null) h d q = inl (_, refl)
  nested_given-Ends nest n item (some (bool b)) h d q = inl (_, refl)
  nested_given-Ends nest n item (some (int i)) h d q = inl (_, refl)
  nested_given-Ends nest n item (some (float x)) h d q = inl (_, refl)
  nested_given-Ends nest n item (some (str s)) h d q = inl (_, refl)
  nested_given-Ends nest n item (some (object m)) h d q = inl (_, refl)
  nested_given-Ends nest n item (some (strings ss)) h d q = inl (_, refl)
  nested_given-Ends nest n item (some (string_map m)) h d q = inl (_, refl)
  nested_given-Ends nest n item (some (other i)) h d q = inl (_, refl)

  changed-Ends :
      (nest : Fields → Value → List Value → Fueled (List Value)) (payload_of : Fields → Fields)
      (params : Fields) (v : Value)
      → NestEnds t (fields_depth params) nest
      → Ends (Shares t params) (changed t headers base nest payload_of params v)
  unfolding apply_nested_array_transforms changed
  changed-Ends nest payload_of params (object m) h =
      and_then-Ends _ _
        (bounded-Ends _ (apply_array_transform_updates-Settles t headers base payload_of params m))
        (λ next.
          and_then-Ends _ _
            (nested_given-Ends nest (fields_depth params) next (get "nested" params) h
              (λ v e. get-depth "nested" params v e)
              (λ ts transform at i. nested-Shares t params transform ts at i))
            (λ done. inl (_, refl)))
  changed-Ends nest payload_of params null h = inl (_, refl)
  changed-Ends nest payload_of params (bool b) h = inl (_, refl)
  changed-Ends nest payload_of params (int i) h = inl (_, refl)
  changed-Ends nest payload_of params (float x) h = inl (_, refl)
  changed-Ends nest payload_of params (str s) h = inl (_, refl)
  changed-Ends nest payload_of params (list vs) h = inl (_, refl)
  changed-Ends nest payload_of params (strings ss) h = inl (_, refl)
  changed-Ends nest payload_of params (string_map m) h = inl (_, refl)
  changed-Ends nest payload_of params (other i) h = inl (_, refl)

  kept_if-Ends :
      {Q : Type 0} (r : Try Bool) (o : Fueled (Option Value))
      → Ends Q o
      → Ends Q (kept_if t headers base r o)
  kept_if-Ends (err e) o h = inl (_, refl)
  kept_if-Ends (ok false) o h = inl (_, refl)
  kept_if-Ends (ok true) o h = h

  transform_from-Ends :
      (nest : Fields → Value → List Value → Fueled (List Value)) (params : Fields) (parent : Value)
      (index : ℕ) (vs : List Value)
      → NestEnds t (fields_depth params) nest
      → Ends (Shares t params) (transform_from t headers base nest params parent index vs)
  unfolding transform_from transform_item
  transform_from-Ends nest params parent index [] h = inl (_, refl)
  transform_from-Ends nest params parent index (v ∷ vs) h =
      and_then-Ends _ _ (wrapped-Ends _ _ (kept_if-Ends _ _ (changed-Ends nest _ params v h)))
        (λ kept.
          and_then-Ends _ _ (transform_from-Ends nest params parent (suc index) vs h)
            (λ out. inl (_, refl)))

  transform_array_items-Ends :
      (fuel : ℕ) (params : Fields) (parent : Value) (vs : List Value)
      → fields_depth params < fuel
      → Ends (Shares t params) (transform_array_items t headers base fuel params parent vs)
  unfolding transform_array_items
  transform_array_items-Ends zero params parent vs h = absurd (omega (arith, h))
  transform_array_items-Ends (suc fuel) params parent vs h =
      transform_from-Ends _ params parent 0 vs
        (λ p item ws d. transform_array_items-Ends fuel p item ws (omega (arith, h, d)))

transformed-Ends :
    {Q : Type 0} (t : Transformation) (m : Message) (target : String) (o : Fueled (List Value))
    → Ends Q o
    → Ends Q (transformed t.evaluation.scalars.quote m target o)
unfolding transformed
transformed-Ends t m target o (inl (r, e)) = rw e (inl (_, refl))
transformed-Ends t m target o (inr (e, q)) = rw e (inr (refl, q))

-- With fuel beyond the depth of its parameters, `array_transform` returns, whatever the payload, the
-- items, the conditions and the updates, or it ends before a value that would be shared; and then its
-- parameters have, in a `set` of their updates or of a transform nested in them at any depth, a value
-- that under some payload resolves to a map or a list.
pub array_transform_ends :
    (t : Transformation) (fuel : ℕ) (m : Message) (params : Fields)
    → fields_depth params < fuel
    → ((r : Outcome × Message) × (array_transform t fuel m params ≡ returns r))
      ⊎ ((array_transform t fuel m params ≡ shares) × Shares t params)
unfolding array_transform transformed
array_transform_ends t fuel m params h =
    if_rule (Ends (Shares t params)) (is_empty (trim_space (string_param "source" params))) _ _
      (λ _. inl (_, refl))
      (λ _.
        option_rule (Ends (Shares t params)) (get_path m.payload (string_param "source" params)) _ _
          (λ _. inl (_, refl))
          (λ raw _.
            option_rule (Ends (Shares t params)) (to_any_slice t.evaluation raw) _ _
              (λ _. inl (_, refl))
              (λ vs _.
                transformed-Ends t m
                  (or_blank (string_param "target" params) (string_param "source" params)) _
                  (transform_array_items-Ends t m.headers m.payload fuel params null vs h))))

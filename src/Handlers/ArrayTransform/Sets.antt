-- ===== src/Handlers/ArrayTransform/Sets.antt =====
-- Where `array_transform` of app/handlers/array_transform.go meets a value that would be shared: at a
-- value of a `set` of its parameters.
use routing_slip_pattern.Common.{
  ℕ, suc, String, Bool, true, false, List, [], ◌∷◌, Option, none, some, ◌≡◌, ◌⊎◌, inl, inr, refl,
  subst, if◌then◌else◌,
}
use routing_slip_pattern.Common.Dict.{Dict}
use routing_slip_pattern.Value.{Value, Items, Fields, list, object, items, get}
use routing_slip_pattern.Value.Put.{set_payload_path}
use routing_slip_pattern.Handlers.Conditions.{Try, ok, err}
use routing_slip_pattern.Handlers.ArrayTransform.Updates.{
  Transformation, Unshared, unshared_then, written, Resolved, plain, shared,
  resolve_transform_value, condition_given, set_entries, set_of, updated, apply_updates_from,
  updates_given, apply_array_transform_updates,
}

pub data Elem {A : Type 0} (a : A) : List A → Type 0 where
  first : {l : List A} → Elem a (a ∷ l)
  later : {b : A} {l : List A} → Elem a l → Elem a (b ∷ l)

-- The value is one that a `set` of the updates gives a path, here or in a transform nested at any
-- depth.
pub data SetIn (t : Transformation) (v : Value) : (params : Fields) → Type 0 where
  of_update :
      {params update entries : Fields} {path : String} (us : Items)
      → get "updates" params ≡ some (list us)
      → Elem (object update) (items us)
      → get "set" update ≡ some (object entries)
      → Elem (path, v) (t.order entries)
      → SetIn t v params
  of_nested :
      {params transform : Fields} (ts : Items)
      → get "nested" params ≡ some (list ts)
      → Elem (object transform) (items ts)
      → SetIn t v transform
      → SetIn t v params

-- A `set` of the parameters has a value that resolves, under some payload, to a map or a list.
pub record Shares (t : Transformation) (params : Fields) : Type 0 where
  pub value : Value
  pub in_set : SetIn t value params
  pub payload : Fields
  pub target : Value
  pub resolves : resolve_transform_value payload value ≡ shared target

pub nested-Shares :
    (t : Transformation) (params transform : Fields) (ts : Items)
    → get "nested" params ≡ some (list ts)
    → Elem (object transform) (items ts)
    → Shares t transform
    → Shares t params
nested-Shares t params transform ts at e h = record {
  value = h.value;
  in_set = of_nested ts at e h.in_set;
  payload = h.payload;
  target = h.target;
  resolves = h.resolves;
}

-- There is a result, or the reason why a value would be shared.
abbrev pub Settles : {A : Type 0} → Type 0 → Unshared A → Type 0
Settles {A} Q o = ((r : Try A) × (o ≡ some r)) ⊎ ((o ≡ none) × Q)

unshared_then-Settles :
    {A B Q : Type 0} (o : Unshared A) (k : A → Unshared B)
    → Settles Q o
    → ((a : A) → Settles Q (k a))
    → Settles Q (unshared_then o k)
unshared_then-Settles o k (inl ((err e), h)) each = rw h (inl (_, refl))
unshared_then-Settles o k (inl ((ok a), h)) each = rw h (each a)
unshared_then-Settles o k (inr (h, q)) each = rw h (inr (refl, q))

module _ (t : Transformation) (headers : Dict String) (base : Fields) (Q : Type 0) where
  entry-Settles :
      (r : Resolved) (k : Value → Unshared Fields)
      → ((w : Value) → r ≡ shared w → Q)
      → ((v : Value) → Settles Q (k v))
      → Settles Q (elim r [ shared v ↦ none | plain v ↦ k v ])
  entry-Settles (shared w) k q each = inr (refl, q w refl)
  entry-Settles (plain v) k q each = each v

  set_entries-Settles :
      (payload_of : Fields → Fields) (entries : List (String × Value)) (item : Fields)
      → ((path : String) (v : Value) (p : Fields) (w : Value)
          → Elem (path, v) entries
          → resolve_transform_value p v ≡ shared w
          → Q)
      → Settles Q (set_entries t headers base payload_of entries item)
  unfolding set_entries
  set_entries-Settles payload_of [] item q = inl (_, refl)
  set_entries-Settles payload_of ((path, value) ∷ entries) item q =
      entry-Settles (resolve_transform_value (payload_of item) value) _
        (λ w e. q path value (payload_of item) w first e)
        (λ v.
          unshared_then-Settles
            (some (written (set_payload_path t.evaluation.scalars.quote path v item))) _
            (inl (_, refl))
            (λ next.
              set_entries-Settles payload_of entries next
                (λ path' v' p w e. q path' v' p w (later e))))

  set_of-Settles :
      (at : String) (payload_of : Fields → Fields) (item : Fields) (o : Option Value)
      → ((entries : Fields) (path : String) (v : Value) (p : Fields) (w : Value)
          → o ≡ some (object entries)
          → Elem (path, v) (t.order entries)
          → resolve_transform_value p v ≡ shared w
          → Q)
      → Settles Q (set_of t headers base at payload_of item o)
  unfolding set_of
  set_of-Settles at payload_of item (some (object entries)) q =
      set_entries-Settles payload_of (t.order entries) item
        (λ path v p w e r. q entries path v p w refl e r)
  set_of-Settles at payload_of item _ q = inl (_, refl)

  when-Settles :
      (r : Try Bool) (x : String → String) (o : Unshared Fields) (item : Fields)
      → Settles Q o
      → Settles Q
          (elim r [ err e ↦ some (err (x e)) | ok matched ↦ if matched then o else some (ok item) ])
  when-Settles (err e) x o item h = inl (_, refl)
  when-Settles (ok true) x o item h = h
  when-Settles (ok false) x o item h = inl (_, refl)

  updated-Settles :
      (at : String) (payload_of : Fields → Fields) (item : Fields) (u : Value)
      → ((update entries : Fields) (path : String) (v : Value) (p : Fields) (w : Value)
          → u ≡ object update
          → get "set" update ≡ some (object entries)
          → Elem (path, v) (t.order entries)
          → resolve_transform_value p v ≡ shared w
          → Q)
      → Settles Q (updated t headers base at payload_of item u)
  unfolding updated
  updated-Settles at payload_of item (object update) q =
      when-Settles (condition_given t headers base (payload_of item) (get "when" update)) _ _ item (
        set_of-Settles at payload_of item (get "set" update)
          (λ entries path v p w e i r. q update entries path v p w refl e i r))
  updated-Settles at payload_of item _ q = inl (_, refl)

  updates-Settles :
      (payload_of : Fields → Fields) (index : ℕ) (us : List Value) (item : Fields)
      → ((update entries : Fields) (path : String) (v : Value) (p : Fields) (w : Value)
          → Elem (object update) us
          → get "set" update ≡ some (object entries)
          → Elem (path, v) (t.order entries)
          → resolve_transform_value p v ≡ shared w
          → Q)
      → Settles Q (apply_updates_from t headers base payload_of index us item)
  unfolding apply_updates_from
  updates-Settles payload_of index [] item q = inl (_, refl)
  updates-Settles payload_of index (u ∷ us) item q =
      unshared_then-Settles _ _
        (updated-Settles _ payload_of item u (λ update entries path v p w e s i r.
          q update entries path v p w (subst (λ x. Elem x (u ∷ us)) e first) s i r))
        (λ next.
          updates-Settles payload_of (suc index) us next
            (λ update entries path v p w i s j r. q update entries path v p w (later i) s j r))

  given-Settles :
      (payload_of : Fields → Fields) (item : Fields) (o : Option Value)
      → ((us : Items) (update entries : Fields) (path : String) (v : Value) (p : Fields) (w : Value)
          → o ≡ some (list us)
          → Elem (object update) (items us)
          → get "set" update ≡ some (object entries)
          → Elem (path, v) (t.order entries)
          → resolve_transform_value p v ≡ shared w
          → Q)
      → Settles Q (updates_given t headers base payload_of item o)
  unfolding updates_given
  given-Settles payload_of item (some (list us)) q =
      updates-Settles payload_of 0 (items us) item
        (λ update entries path v p w i s j r. q us update entries path v p w refl i s j r)
  given-Settles payload_of item _ q = inl (_, refl)

-- The updates of an item have a result, or a `set` of the parameters would share.
pub apply_array_transform_updates-Settles :
    (t : Transformation) (headers : Dict String) (base : Fields) (payload_of : Fields → Fields)
    (params item : Fields)
    → Settles
        (Shares t params)
        (apply_array_transform_updates t headers base payload_of params item)
unfolding apply_array_transform_updates
apply_array_transform_updates-Settles t headers base payload_of params item =
    given-Settles t headers base (Shares t params) payload_of item (get "updates" params)
      (λ us update entries path v p w at i s j r. record {
        value = v;
        in_set = of_update us at i s j;
        payload = p;
        target = w;
        resolves = r;
      })

-- ===== src/Handlers/FilterArray/Laws.antt =====
-- What `filter_array` of app/handlers/filter_array.go leaves in the payload.
use Prim.Native.String.{◌++◌, count}
use text.Mathlib.TextLemmas.{length-append}
use routing_slip_pattern.Common.{
  ℕ, suc, ◌-◌, ◌<◌, String, Bool, true, false, List, [], ◌∷◌, Option, none, some, length, ◌≡◌, refl,
  ap, ◌∙◌, subst, arith, if_rule, option_rule, if◌then◌else◌, eq_iff, str_eq,
}
use routing_slip_pattern.Common.Int.{pos}
use routing_slip_pattern.Common.Text.{trim_space, is_empty, split_on}
use routing_slip_pattern.Value.{Value, Fields, int, list, of_items, get, put, get-put}
use routing_slip_pattern.Value.Path.{get_path}
use routing_slip_pattern.Value.Put.{set_payload_path}
use routing_slip_pattern.Value.Put.Laws.{Apart, first_part, get_path-set_payload_path}
use routing_slip_pattern.Value.Put.Beside.{get_path-put, get_path-put_beside, suffix_differs}
use routing_slip_pattern.Slip.Errors.{GoError}
use routing_slip_pattern.Slip.Message.{Message, set}
use routing_slip_pattern.Slip.Router.{Outcome, returned, panicked}
use routing_slip_pattern.Handlers.Conditions.{Try, ok, err, then_do}
use routing_slip_pattern.Handlers.FilterArray.{
  Evaluation, filter_source, filter_target, to_any_slice, evaluate_filter_array_item, filtered_from,
  write_filtered, filter_items, filter_array,
}

-- The items from an index on, sifted: those that match are kept, in order, and all others left out.
pub data Sifted (matches : Value → ℕ → Try Bool) : ℕ → List Value → List Value → Type 0 where
  at_end : {i : ℕ} → Sifted matches i [] []
  keeps :
      {i : ℕ} {v : Value} {vs out : List Value}
      → matches v i ≡ ok true
      → Sifted matches (suc i) vs out
      → Sifted matches i (v ∷ vs) (v ∷ out)
  leaves_out :
      {i : ℕ} {v : Value} {vs out : List Value}
      → matches v i ≡ ok false
      → Sifted matches (suc i) vs out
      → Sifted matches i (v ∷ vs) out

-- A result without an error is sifted.
abbrev SiftedTry : (Value → ℕ → Try Bool) → ℕ → List Value → Try (List Value) → Type 0
SiftedTry matches i vs (err e) = Unit
SiftedTry matches i vs (ok out) = Sifted matches i vs out

sift_kept :
    (matches : Value → ℕ → Try Bool) (i : ℕ) (v : Value) (vs : List Value) (kept : Bool)
    (rest : Try (List Value))
    → matches v i ≡ ok kept
    → SiftedTry matches (suc i) vs rest
    → SiftedTry matches i (v ∷ vs) (then_do rest (λ out. ok (if kept then v ∷ out else out)))
unfolding then_do
sift_kept matches i v vs true (ok out) e h = keeps e h
sift_kept matches i v vs false (ok out) e h = leaves_out e h
sift_kept matches i v vs kept (err x) e h = tt

sift_step :
    (matches : Value → ℕ → Try Bool) (i : ℕ) (v : Value) (vs : List Value) (r : Try Bool)
    (x : String → String) (rest : Try (List Value))
    → matches v i ≡ r
    → SiftedTry matches (suc i) vs rest
    → SiftedTry matches i (v ∷ vs) (elim r [
      | err e ↦ err (x e)
      | ok kept ↦ then_do rest (λ out. ok (if kept then v ∷ out else out))
    ])
sift_step matches i v vs (err e) x rest at h = tt
sift_step matches i v vs (ok kept) x rest at h = sift_kept matches i v vs kept rest at h

module _ (ev : Evaluation) where
  filtered_from-Sifted :
      (matches : Value → ℕ → Try Bool) (i : ℕ) (vs : List Value)
      → SiftedTry matches i vs (filtered_from ev matches i vs)
  unfolding filtered_from
  filtered_from-Sifted matches i [] = at_end
  filtered_from-Sifted matches i (v ∷ vs) =
      sift_step matches i v vs (matches v i) _ (filtered_from ev matches (suc i) vs) refl
        (filtered_from-Sifted matches (suc i) vs)

-- What `filter_array` has done to the message.
pub record Filtered (ev : Evaluation) (m : Message) (params : Fields) (m' : Message) : Type 0 where
  pub raw : Value
  pub vs : List Value
  pub out : List Value
  pub at_source : get_path m.payload (filter_source params) ≡ some raw
  pub is_array : to_any_slice ev raw ≡ some vs
  pub sifted : Sifted (evaluate_filter_array_item ev m params) 0 vs out
  pub at_target : get_path m'.payload (filter_target params) ≡ some (list (of_items out))
  pub filtered_count :
      get (filter_target params ++ "_filtered_count") m'.payload ≡ some (int (pos (length out)))
  pub removed_count :
      get (filter_target params ++ "_removed_count") m'.payload
      ≡ some (int (pos (length vs - length out)))
  pub beside_same :
      (path : String)
      → Apart (split_on b'.' (filter_target params)) (split_on b'.' path)
      → str_eq (filter_target params ++ "_filtered_count") (first_part (split_on b'.' path)) ≡ false
      → str_eq (filter_target params ++ "_removed_count") (first_part (split_on b'.' path)) ≡ false
      → get_path m'.payload path ≡ get_path m.payload path
  pub else_same : m' ≡ record m { payload = m'.payload }

-- Where the handler proceeds.
abbrev Proceeds : (Message → Type 0) → Outcome × Message → Type 0
Proceeds P (returned true e, m') = P m'
Proceeds P (returned false e, m') = Unit
Proceeds P (panicked v, m') = Unit

get-put_at : (key : String) (v : Value) (m : Fields) → get key (put key v m) ≡ some v
get-put_at key v m = ground (arith, get-put key key v m, eq_iff key key)

longer : (s t : String) → 0 < count t → count s < count (s ++ t)
longer s t h = omega (arith, length-append s t)

module _ (ev : Evaluation) (m : Message) (params : Fields) where
  written-Filtered :
      (raw : Value) (vs out : List Value) (payload : Fields)
      → get_path m.payload (filter_source params) ≡ some raw
      → to_any_slice ev raw ≡ some vs
      → Sifted (evaluate_filter_array_item ev m params) 0 vs out
      → set_payload_path ev.scalars.quote (filter_target params) (list (of_items out)) m.payload
        ≡ (none, payload)
      → (a b : Value) → a ≡ int (pos (length out))
      → b ≡ int (pos (length vs - length out))
      → Filtered ev m params (
          set
            (set (record m { payload = payload }) (filter_target params ++ "_filtered_count") a)
            (filter_target params ++ "_removed_count")
            b)
  unfolding set
  written-Filtered raw vs out payload at slice sifted wrote a b ea eb =
      let target = filter_target params in
      record {
        raw = raw;
        vs = vs;
        out = out;
        at_source = at;
        is_array = slice;
        sifted = sifted;
        at_target =
            get_path-put target (target ++ "_removed_count") b _ (longer target _ (omega arith))
            ∙ get_path-put target (target ++ "_filtered_count") a payload
                (longer target _ (omega arith))
            ∙ (get_path-set_payload_path ev.scalars.quote target (list (of_items out)) m.payload
                payload wrote).0;
        filtered_count =
            get-put (target ++ "_removed_count") (target ++ "_filtered_count") b
              (put (target ++ "_filtered_count") a payload)
            ∙ rw (suffix_differs target "_removed_count" "_filtered_count" refl)
                (get-put_at (target ++ "_filtered_count") a payload ∙ ap some ea);
        removed_count = get-put_at (target ++ "_removed_count") b _ ∙ ap some eb;
        beside_same = λ path apart other_filtered other_removed.
            get_path-put_beside path (target ++ "_removed_count") b _ other_removed
            ∙ get_path-put_beside path (target ++ "_filtered_count") a payload other_filtered
            ∙ (get_path-set_payload_path ev.scalars.quote target (list (of_items out)) m.payload
                  payload wrote).1
                path apart;
        else_same = refl;
      }

  write_filtered-Proceeds :
      (raw : Value) (vs : List Value) (r : Try (List Value))
      → get_path m.payload (filter_source params) ≡ some raw
      → to_any_slice ev raw ≡ some vs
      → SiftedTry (evaluate_filter_array_item ev m params) 0 vs r
      → Proceeds (Filtered ev m params) (write_filtered ev m (filter_target params) vs r)
  unfolding write_filtered
  write_filtered-Proceeds raw vs (err e) at slice h = tt
  write_filtered-Proceeds raw vs (ok out) at slice h =
      let q =
        set_payload_path ev.scalars.quote (filter_target params) (list (of_items out)) m.payload in
      option_rule (Proceeds (Filtered ev m params)) q.0 _ _
        (λ e. written-Filtered raw vs out q.1 at slice h (ap (λ o. (o, q.1)) e) _ _ refl refl)
        (λ x e. tt)

  filter_array-Proceeds : Proceeds (Filtered ev m params) (filter_array ev m params)
  unfolding filter_array filter_items
  filter_array-Proceeds =
      if_rule (Proceeds (Filtered ev m params)) (is_empty (trim_space (filter_source params))) _ _
        (λ _. tt)
        (λ _.
          option_rule (Proceeds (Filtered ev m params)) (get_path m.payload (filter_source params))
            _ _ (λ _. tt)
            (λ raw at.
              option_rule (Proceeds (Filtered ev m params)) (to_any_slice ev raw) _ _ (λ _. tt)
                (λ vs slice.
                  write_filtered-Proceeds raw vs _ at slice
                    (filtered_from-Sifted ev (evaluate_filter_array_item ev m params) 0 vs))))

-- Where `filter_array` proceeds, the payload has an array at the source, every item of it was
-- evaluated without an error, the items that match stand at the target in their order and no others,
-- and the two counts are those of the items that were kept and left out. Every path that parts from
-- the target's, that is, differs from it in a part at a place that both have, and does not begin with
-- the name of a count, reads what it read before, and nothing but the payload of the message has
-- changed.
pub filter_array-Filtered :
    (ev : Evaluation) (m m' : Message) (params : Fields) (e : Option GoError)
    → filter_array ev m params ≡ (returned true e, m')
    → Filtered ev m params m'
filter_array-Filtered ev m m' params e same =
    subst (Proceeds (Filtered ev m params)) same (filter_array-Proceeds ev m params)

-- ===== src/Value/Put/Laws.antt =====
-- What is written under a path is read back, and the keys beside it stay.
use routing_slip_pattern.Common.{
  String, false, List, [], ◌∷◌, Option, none, some, ◌≡◌, refl, sym, subst, ◌∙◌, ap, if_rule, arith,
  str_eq, eq_iff,
}
use routing_slip_pattern.Common.Text.{trim_space, is_empty, split_on}
use routing_slip_pattern.Value.{Value, Fields, object, end, get, put, get-put}
use routing_slip_pattern.Value.Path.{◌>>=◌, child, walk, get_path}
use routing_slip_pattern.Value.Put.{
  Written, into, put_child, put_parts, given_parts, set_payload_path, crosses,
}

get-put_same : (key : String) (v : Value) (m : Fields) → get key (put key v m) ≡ some v
get-put_same key v m = ground (arith, get-put key key v m, eq_iff key key)

abbrev pub first_part : List String → String
first_part [] = ""
first_part (part ∷ parts) = part

-- At the end of the parts stands the value.
Reads : List String → Value → Written → Type 0
Reads parts value (none, m) = walk (object m) parts ≡ some value
Reads parts value (some e, m) = Unit

Reads-into :
    (part next : String) (parts : List String) (value : Value) (m : Fields) (w : Written)
    → Reads (next ∷ parts) value w
    → Reads (part ∷ next ∷ parts) value (into part m w)
unfolding Reads walk child
Reads-into part next parts value m (none, c) h = rw (get-put_same part (object c) m) h
Reads-into part next parts value m (some e, c) h = tt

Reads-put_child :
    (part next : String) (parts : List String) (value : Value) (m : Fields)
    (write : Fields → Written) (x : String) (o : Option Value)
    → ((c : Fields) → Reads (next ∷ parts) value (write c))
    → Reads (part ∷ next ∷ parts) value (put_child part m write (some x, m) o)
unfolding Reads
Reads-put_child part next parts value m write x none h =
    Reads-into part next parts value m (write end) (h end)
Reads-put_child part next parts value m write x (some (object c)) h =
    Reads-into part next parts value m (write c) (h c)
Reads-put_child part next parts value m write x (some _) h = tt

module _ (quote : String → String) (path : String) (value : Value) where
  put_parts-Reads :
      (part : String) (parts : List String) (m : Fields)
      → Reads (part ∷ parts) value (put_parts quote path (part ∷ parts) value m)
  unfolding put_parts Reads walk child
  put_parts-Reads part [] m = rw (get-put_same part value m) refl
  put_parts-Reads part (next ∷ parts) m =
      if_rule (Reads (part ∷ next ∷ parts) value) (is_empty (trim_space part)) _ _ (λ _. tt)
        (λ _.
          Reads-put_child part next parts value m (λ c. put_parts quote path (next ∷ parts) value c)
            (crosses quote path part) (get part m) (λ c. put_parts-Reads next parts c))

  given_parts-Reads :
      (parts : List String) (m : Fields) → Reads parts value (given_parts quote path parts value m)
  unfolding Reads
  given_parts-Reads [] m = tt
  given_parts-Reads (part ∷ parts) m =
      if_rule (Reads (part ∷ parts) value) (is_empty (trim_space part)) _ _ (λ _. tt)
        (λ _. put_parts-Reads part parts m)

-- Two lists of parts that part ways: they differ at a place that both have, after parts in common.
pub data Apart : List String → List String → Type 0 where
  differ : {p q : String} {ps qs : List String} → str_eq p q ≡ false → Apart (p ∷ ps) (q ∷ qs)
  deeper : {p : String} {ps qs : List String} → Apart ps qs → Apart (p ∷ ps) (p ∷ qs)

-- Whatever path parts from `parts` reads as before.
abbrev pub KeepsApart : List String → Fields → Fields → Type 0
KeepsApart parts m m' =
    (other : List String) → Apart parts other → walk (object m') other ≡ walk (object m) other

walk-end : (ps qs : List String) → Apart ps qs → walk (object end) qs ≡ none
unfolding walk child get
walk-end [] qs a = elim a [ ]
walk-end (p ∷ ps) [] a = elim a [ ]
walk-end (p ∷ ps) (q ∷ qs) (differ h) = refl
walk-end (p ∷ ps) (q ∷ qs) (deeper a) = refl

-- A key is written over.
pub walk-put_differ :
    (part q : String) (qs : List String) (v : Value) (m : Fields)
    → str_eq part q ≡ false
    → walk (object (put part v m)) (q ∷ qs) ≡ walk (object m) (q ∷ qs)
unfolding walk child
walk-put_differ part q qs v m h = rw (get-put part q v m) (rw h refl)

put-KeepsApart : (part : String) (v : Value) (m : Fields) → KeepsApart (part ∷ []) m (put part v m)
put-KeepsApart part v m [] a = elim a [ ]
put-KeepsApart part v m (q ∷ qs) (deeper a) = elim a [ ]
put-KeepsApart part v m (q ∷ qs) (differ h) = walk-put_differ part q qs v m h

-- What is read below a key, before and after.
below : Option Value → List String → Option Value
below none qs = none
below (some v) qs = walk v qs

next_below : (o : Option Value) (qs : List String) → (o >>= λ next. walk next qs) ≡ below o qs
unfolding below
next_below none qs = refl
next_below (some v) qs = refl

found_again : (o : Option Value) → (o >>= λ next. walk next []) ≡ o
unfolding walk
found_again none = refl
found_again (some v) = refl

walk-below :
    (m : Fields) (part : String) (qs : List String)
    → walk (object m) (part ∷ qs) ≡ below (get part m) qs
unfolding walk child
walk-below m part qs = next_below (get part m) qs

into-KeepsApart :
    (part next : String) (parts : List String) (m c : Fields) (w : Written)
    → ((qs : List String) → Apart (next ∷ parts) qs → below (get part m) qs ≡ walk (object c) qs)
    → KeepsApart (next ∷ parts) c w.1
    → KeepsApart (part ∷ next ∷ parts) m (into part m w).1
unfolding below
into-KeepsApart part next parts m c w was h [] a = elim a [ ]
into-KeepsApart part next parts m c w was h (q ∷ qs) (differ d) =
    walk-put_differ part q qs (object w.1) m d
into-KeepsApart part next parts m c w was h (q ∷ qs) (deeper a) =
    walk-below (put part (object w.1) m) part qs
    ∙ rw (get-put_same part (object w.1) m) (h qs a)
    ∙ sym (was qs a)
    ∙ sym (walk-below m part qs)

put_child-KeepsApart :
    (part next : String) (parts : List String) (m : Fields) (write : Fields → Written) (x : String)
    (o : Option Value)
    → get part m ≡ o
    → ((c : Fields) → KeepsApart (next ∷ parts) c (write c).1)
    → KeepsApart (part ∷ next ∷ parts) m (put_child part m write (some x, m) o).1
unfolding below
put_child-KeepsApart part next parts m write x none at h =
    into-KeepsApart part next parts m end (write end)
      (λ qs a. rw at (sym (walk-end (next ∷ parts) qs a))) (h end)
put_child-KeepsApart part next parts m write x (some (object c)) at h =
    into-KeepsApart part next parts m c (write c) (λ qs a. rw at refl) (h c)
put_child-KeepsApart part next parts m write x (some _) at h = λ other a. refl

module _ (quote : String → String) (path : String) (value : Value) where
  put_parts-KeepsApart :
      (parts : List String) (m : Fields) → KeepsApart parts m (put_parts quote path parts value m).1
  unfolding put_parts
  put_parts-KeepsApart [] m = λ other a. refl
  put_parts-KeepsApart (part ∷ []) m = put-KeepsApart part value m
  put_parts-KeepsApart (part ∷ next ∷ parts) m =
      if_rule (λ (w : Written). KeepsApart (part ∷ next ∷ parts) m w.1) (is_empty (trim_space part))
        _ _ (λ _ other a. refl)
        (λ _.
          put_child-KeepsApart part next parts m (λ c. put_parts quote path (next ∷ parts) value c)
            (crosses quote path part) (get part m) refl
            (λ c. put_parts-KeepsApart (next ∷ parts) c))

  given_parts-KeepsApart :
      (parts : List String) (m : Fields)
      → KeepsApart parts m (given_parts quote path parts value m).1
  given_parts-KeepsApart [] m = λ other a. refl
  given_parts-KeepsApart (part ∷ parts) m =
      if_rule (λ (w : Written). KeepsApart (part ∷ parts) m w.1) (is_empty (trim_space part)) _ _
        (λ _ other a. refl) (λ _. put_parts-KeepsApart (part ∷ parts) m)

  -- A key is a path of one part.
  given_parts-keys :
      (parts : List String) (m : Fields) (key : String)
      → str_eq (first_part parts) key ≡ false
      → get key (given_parts quote path parts value m).1 ≡ get key m
  given_parts-keys [] m key h = refl
  given_parts-keys (part ∷ parts) m key h =
      let m' = (given_parts quote path (part ∷ parts) value m).1 in
      sym (found_again (get key m'))
      ∙ unfold walk child in
        given_parts-KeepsApart (part ∷ parts) m (key ∷ []) (differ h) ∙ found_again (get key m)

  read_back :
      (path' : String) (m m' : Fields)
      → given_parts quote path (split_on b'.' path') value m ≡ (none, m')
      → get_path m' path' ≡ some value
  unfolding get_path split_on trim_space
  read_back String.[] m m' e = (let q = ap (λ (w : Written). w.0) e in cc)
  read_back (String.◌∷◌ c s) m m' e =
      unfold Reads in
      subst (Reads (split_on b'.' (String.◌∷◌ c s)) value) e
        (given_parts-Reads quote path value (split_on b'.' (String.◌∷◌ c s)) m)

-- Paths, by their parts.
get_path-KeepsApart :
    (parts : List String) (m m' : Fields) (path' : String)
    → KeepsApart parts m m'
    → Apart parts (split_on b'.' path')
    → get_path m' path' ≡ get_path m path'
unfolding get_path
get_path-KeepsApart parts m m' String.[] h a = refl
get_path-KeepsApart parts m m' (String.◌∷◌ c s) h a = h (split_on b'.' (String.◌∷◌ c s)) a

-- A value that is written under a path without an error is what `GetPath` reads there afterwards, and
-- every path that parts from this one, that is, differs from it in a part at a place that both have,
-- reads what it read before, be it beside the first part or deep in an object the path goes through;
-- so does every key of the payload but the path's first part.
pub get_path-set_payload_path :
    (quote : String → String) (path : String) (value : Value) (m m' : Fields)
    → set_payload_path quote path value m ≡ (none, m')
    → (get_path m' path ≡ some value)
      × ((path' : String)
          → Apart (split_on b'.' path) (split_on b'.' path')
          → get_path m' path' ≡ get_path m path')
      × ((key : String)
          → str_eq (first_part (split_on b'.' path)) key ≡ false
          → get key m' ≡ get key m)
unfolding set_payload_path
get_path-set_payload_path quote path value m m' e =
    let kept =
      subst (λ (w : Written). KeepsApart (split_on b'.' path) m w.1) e
        (given_parts-KeepsApart quote path value (split_on b'.' path) m) in
    (
      read_back quote path value path m m' e,
      λ path' a. get_path-KeepsApart (split_on b'.' path) m m' path' kept a,
      λ key h.
          subst (λ (w : Written). get key w.1 ≡ get key m) e
            (given_parts-keys quote path value (split_on b'.' path) m key h),
    )

-- ===== src/Value/Put/Beside.antt =====
-- A key that is longer than a path is not on it.
use Prim.Native.Char.{Char, code}
use Prim.Native.String.{count, ◌++◌}
use text.Mathlib.TextLemmas.{length-nil, length-cons, append_cancel_left}
use routing_slip_pattern.Common.{
  ℕ, suc, ◌≤◌, ◌<◌, String, false, List, [], ◌∷◌, ◌≡◌, refl, ap, arith, if_rule, str_eq, eq_iff,
  Bool-cases, inl, inr, ◌==◌,
}
use routing_slip_pattern.Common.Text.{split_on, push_head}
use routing_slip_pattern.Value.{Value, Fields, object, put, get-put}
use routing_slip_pattern.Value.Path.{child, walk, get_path}
use routing_slip_pattern.Value.Put.Laws.{first_part}

push_head-first :
    (c : Char) (l : List String) → count (first_part (push_head c l)) ≤ suc (count (first_part l))
push_head-first c [] = omega (arith, length-cons c "", length-nil)
push_head-first c (p ∷ ps) = omega (arith, length-cons c p)

first_part-count : (sep : ℕ) (s : String) → count (first_part (split_on sep s)) ≤ count s
unfolding split_on
first_part-count sep String.[] = omega arith
first_part-count sep (String.◌∷◌ c s) =
    if_rule (λ (l : List String). count (first_part l) ≤ count (String.◌∷◌ c s)) (code c == sep)
      ("" ∷ split_on sep s) (push_head c (split_on sep s)) (λ _. omega (arith, length-nil))
      (λ _.
        omega (arith, length-cons c s, push_head-first c (split_on sep s), first_part-count sep s))

longer_differs : (key s : String) → count s < count key → str_eq key s ≡ false
longer_differs key s h = elim (Bool-cases (str_eq key s)) [
  | inl e ↦
      let same : key ≡ s = ground (arith, eq_iff key s, e) in
      absurd (omega (arith, h, ap count same))
  | inr e ↦ e
]

push_head-nonempty : (c : Char) (l : List String) → push_head c l ≡ [] → ⊥
push_head-nonempty c [] e = cc
push_head-nonempty c (p ∷ ps) e = cc

split_on-nonempty : (sep : ℕ) (s : String) → split_on sep s ≡ [] → ⊥
unfolding split_on
split_on-nonempty sep String.[] = λ e. cc
split_on-nonempty sep (String.◌∷◌ c s) =
    if_rule (λ (l : List String). l ≡ [] → ⊥) (code c == sep) ("" ∷ split_on sep s)
      (push_head c (split_on sep s)) (λ _ e. cc) (λ _. push_head-nonempty c (split_on sep s))

walk-put :
    (parts : List String) (key : String) (v : Value) (m : Fields)
    → (parts ≡ [] → ⊥)
    → str_eq key (first_part parts) ≡ false
    → walk (object (put key v m)) parts ≡ walk (object m) parts
unfolding walk child
walk-put [] key v m full other = absurd (full refl)
walk-put (part ∷ parts) key v m full other = rw (get-put key part v m) (rw other refl)

-- Writing a key that is not the first part of a path leaves what the path reads.
pub get_path-put_beside :
    (path key : String) (v : Value) (m : Fields)
    → str_eq key (first_part (split_on b'.' path)) ≡ false
    → get_path (put key v m) path ≡ get_path m path
unfolding get_path
get_path-put_beside String.[] key v m h = refl
get_path-put_beside (String.◌∷◌ c s) key v m h =
    walk-put (split_on b'.' (String.◌∷◌ c s)) key v m (split_on-nonempty b'.' (String.◌∷◌ c s)) h

-- So does writing a key that is longer than the path.
pub get_path-put :
    (path key : String) (v : Value) (m : Fields)
    → count path < count key
    → get_path (put key v m) path ≡ get_path m path
get_path-put path key v m h =
    get_path-put_beside path key v m
      (longer_differs key _ (omega (arith, h, first_part-count b'.' path)))

-- Two keys that go on from one text in different ways.
pub suffix_differs : (s a b : String) → str_eq a b ≡ false → str_eq (s ++ a) (s ++ b) ≡ false
suffix_differs s a b h = elim (Bool-cases (str_eq (s ++ a) (s ++ b))) [
  | inl e ↦
      let same : s ++ a ≡ s ++ b = ground (arith, eq_iff (s ++ a) (s ++ b), e) in
      ground (arith, eq_iff a b, append_cancel_left s a b same, h)
  | inr e ↦ e
]

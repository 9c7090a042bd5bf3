-- ===== src/Slip/Message/Cursor.antt =====
-- The cursor of a message: its range, the order in which steps are handed out, and the search for a
-- step.
use routing_slip_pattern.Common.{
  ℕ, zero, suc, ◌+◌, ◌≤◌, ◌<◌, ◌≡◌, refl, String, Bool, true, false, List, [], ◌∷◌, Option, none,
  some, length, length-append, get_elem?, drop, drop-get_elem?, get_elem?-some_lt, arith, str_eq,
  Option-cases, Bool-cases, inl, inr, ap, ◌∙◌, sym, ◌⊎◌, All,
}
use native.Mathlib.Nat.{zero-add}
use native.Mathlib.Numerals.{add-one}
use routing_slip_pattern.Common.Int.{ℤ, pos, negsuc}
use routing_slip_pattern.Common.Text.{trim_space, is_empty}
use routing_slip_pattern.Slip.Message.{
  Message, StepDef, attach_slip, next_step, set_cursor, remaining_steps, index_from,
  find_step_index,
}

-- The cursor points into the slip or just behind it.
abbrev pub IsWithin : Message → Type 0
IsWithin m = m.cursor ≤ length m.slip

pub set_cursor-IsWithin : (m : Message) (c : ℤ) → IsWithin (set_cursor m c)
unfolding set_cursor
set_cursor-IsWithin m (pos c) = ground arith
set_cursor-IsWithin m (negsuc c) = ground arith

pub set_cursor_slip : (m : Message) (c : ℤ) → (set_cursor m c).slip ≡ m.slip
unfolding set_cursor
set_cursor_slip m c = refl

-- Within the range the cursor is set as it is given.
pub set_cursor_exact :
    (m : Message) (c : ℕ) → c ≤ length m.slip → set_cursor m (pos c) ≡ record m { cursor = c }
unfolding set_cursor
set_cursor_exact m c h = ground arith

pub attach_slip-IsWithin :
    (m : Message) (steps : List StepDef) → IsWithin m → IsWithin (attach_slip m steps)
unfolding attach_slip
attach_slip-IsWithin m steps h = omega (arith, length-append m.slip steps)

-- What `NextStep` does: it hands out the step under the cursor and moves on by one, or leaves the
-- message as it is at the end of the slip.
pub next_step_cases :
    (m : Message)
    → ((next_step m ≡ (m, none)) × (get_elem? m.slip m.cursor ≡ none))
      ⊎ ((s : StepDef) × (next_step m ≡ (record m { cursor = m.cursor + 1 }, some s))
          × (get_elem? m.slip m.cursor ≡ some s)
          × (m.cursor < length m.slip))
unfolding next_step
next_step_cases m = elim (Option-cases (get_elem? m.slip m.cursor)) [
  | inl e ↦ inl (rw (e, next_step), e)
  | inr (s, e) ↦ inr (s, rw (e, next_step), e, get_elem?-some_lt m.slip m.cursor s e)
]

pub next_step-IsWithin : (m : Message) → IsWithin m → IsWithin (next_step m).0
next_step-IsWithin m h = elim (next_step_cases m) [
  | inl (e, _) ↦ rw e h
  | inr (s, e, _, l) ↦ rw e (omega arith)
]

-- `NextStep` until it says that the slip is exhausted, or the fuel runs out.
pub drain : ℕ → Message → List StepDef
drain zero m = []
drain (suc fuel) m = elim ((next_step m).1) [ none ↦ [] | some s ↦ s ∷ drain fuel (next_step m).0 ]

drop-all {ℓ} : {A : Type ℓ} (xs : List A) (n : ℕ) → length xs ≤ n → drop n xs ≡ []
drop-all [] zero h = refl
drop-all [] (suc n) h = refl
drop-all (x ∷ xs) zero h = absurd (omega arith)
drop-all (x ∷ xs) (suc n) h = drop-all xs n (omega arith)

get_elem?-none_le {ℓ} : {A : Type ℓ} (xs : List A) (i : ℕ) → get_elem? xs i ≡ none → length xs ≤ i
get_elem?-none_le [] i e = omega arith
get_elem?-none_le (x ∷ xs) zero e = ground arith
get_elem?-none_le (x ∷ xs) (suc i) e = omega (arith, get_elem?-none_le xs i e)

-- From any cursor, calling `NextStep` hands out exactly the remaining steps, in the order in which
-- they were attached, each once; `RemainingSteps` calls are enough.
pub drain_in_order :
    (fuel : ℕ) (m : Message) → remaining_steps m ≤ fuel → drain fuel m ≡ drop m.cursor m.slip
unfolding drain remaining_steps
drain_in_order zero m h = sym (drop-all m.slip m.cursor (omega arith))
drain_in_order (suc fuel) m h = elim (next_step_cases m) [
  | inl (e, gone) ↦ rw (e, drain) (sym (drop-all m.slip m.cursor (get_elem?-none_le _ _ gone)))
  | inr (s, e, here, l) ↦
      rw (e, drain, drop-get_elem? m.slip m.cursor s here)
        (ap (λ r. s ∷ r)
          (ap (λ q. drain fuel q.0) e
            ∙ drain_in_order fuel (record m { cursor = m.cursor + 1 }) (omega arith)
            ∙ ap (λ n. drop n m.slip) (add-one m.cursor)))
]

-- `test` holds at index `i` of the steps and at none before it.
abbrev pub FirstAt : (StepDef → Bool) → List StepDef → ℕ → Type 0
FirstAt test [] i = ⊥
FirstAt test (s ∷ steps) zero = test s ≡ true
FirstAt test (s ∷ steps) (suc i) = (test s ≡ false) × FirstAt test steps i

abbrev pub Nowhere : (StepDef → Bool) → List StepDef → Type 0
Nowhere test steps = All (λ s. test s ≡ false) steps

-- The search from a base finds the first index, or there is none.
index_from_cases :
    (test : StepDef → Bool) (steps : List StepDef) (base : ℕ)
    → ((index_from test steps base ≡ none) × Nowhere test steps)
      ⊎ ((i : ℕ) × (index_from test steps base ≡ some (base + i)) × FirstAt test steps i)
unfolding index_from
index_from_cases test [] base = inl (refl, tt)
index_from_cases test (s ∷ steps) base = elim (Bool-cases (test s)) [
  | inl hit ↦ inr (0, rw hit (ap some (omega arith)), hit)
  | inr miss ↦ elim (index_from_cases test steps (suc base)) [
    | inl (e, nowhere) ↦ inl (rw (miss, e), (miss, nowhere))
    | inr (i, e, first) ↦ inr (suc i, rw (miss, e) (ap some (omega arith)), (miss, first))
  ]
]

abbrev pub has_id : String → StepDef → Bool
has_id ref s = str_eq s.id ref

abbrev pub has_name : String → StepDef → Bool
has_name ref s = str_eq s.name ref

-- What a reference stands for: nothing if it is blank; the first step with that id; if no step has
-- it, the first step with that name; otherwise nothing.
pub data Refers (m : Message) (ref : String) : Option ℕ → Type 0 where
  blank : is_empty (trim_space ref) ≡ true → Refers m ref none
  by_id :
      {i : ℕ}
      → is_empty (trim_space ref) ≡ false
      → FirstAt (has_id ref) m.slip i
      → Refers m ref (some i)
  by_name :
      {i : ℕ}
      → is_empty (trim_space ref) ≡ false
      → Nowhere (has_id ref) m.slip
      → FirstAt (has_name ref) m.slip i
      → Refers m ref (some i)
  missing :
      is_empty (trim_space ref) ≡ false
      → Nowhere (has_id ref) m.slip
      → Nowhere (has_name ref) m.slip
      → Refers m ref none

-- `FindStepIndex` finds what the reference stands for, and is false exactly where that is nothing.
pub find_step_index-Refers : (m : Message) (ref : String) → Refers m ref (find_step_index m ref)
unfolding find_step_index
find_step_index-Refers m ref = elim (Bool-cases (is_empty (trim_space ref))) [
  | inl e ↦ rw e (blank e)
  | inr full ↦ rw full (elim (index_from_cases (has_id ref) m.slip 0) [
    | inr (i, e, first) ↦ rw (e, zero-add) (by_id full first)
    | inl (e, no_id) ↦ rw e (elim (index_from_cases (has_name ref) m.slip 0) [
      | inr (i, e', first) ↦ rw (e', zero-add) (by_name full no_id first)
      | inl (e', no_name) ↦ rw e' (missing full no_id no_name)
    ])
  ])
]

FirstAt-lt :
    (test : StepDef → Bool) (steps : List StepDef) (i : ℕ) → FirstAt test steps i → i < length steps
FirstAt-lt test [] i h = absurd h
FirstAt-lt test (s ∷ steps) zero h = omega arith
FirstAt-lt test (s ∷ steps) (suc i) h = omega (arith, FirstAt-lt test steps i h.1)

Refers-lt :
    {m : Message} {ref : String} {o : Option ℕ} (i : ℕ)
    → Refers m ref o
    → o ≡ some i
    → i < length m.slip
Refers-lt i (blank _) e = ground arith
Refers-lt {m} {ref} i (by_id {i = j} _ first) e =
    ground (arith, FirstAt-lt (has_id ref) m.slip j first)
Refers-lt {m} {ref} i (by_name {i = j} _ _ first) e =
    ground (arith, FirstAt-lt (has_name ref) m.slip j first)
Refers-lt i (missing _ _ _) e = ground arith

-- A found index points at a step.
pub find_step_index-lt :
    (m : Message) (ref : String) (i : ℕ) → find_step_index m ref ≡ some i → i < length m.slip
find_step_index-lt m ref i e = Refers-lt i (find_step_index-Refers m ref) e

-- ===== src/Slip/Message.antt =====
-- The message of app/slip/slip.go and its methods. The mutex is left out: each method here is one
-- critical section. A method that changes the message returns the new one.
pub mod Cursor
use routing_slip_pattern.Common.{
  ℕ, suc, ◌+◌, ◌-◌, String, Bool, true, false, List, [], ◌∷◌, ◌++◌, Option, none, some, length, max,
  get_elem?, ltb, leb, str_eq, if◌then◌else◌,
}
use routing_slip_pattern.Common.Int.{ℤ, pos, negsuc, lt_int}
use routing_slip_pattern.Common.Text.{trim_space, is_empty}
use routing_slip_pattern.Common.Dict.{Dict, lookup, insert}
use routing_slip_pattern.Value.{Value, Fields, end, get, put, str}
use routing_slip_pattern.Slip.Resilience.{ResiliencePolicy}
use routing_slip_pattern.Slip.Errors.{GoError, error_text}

pub record StepDef : Type 0 where
  pub id : String
  pub name : String
  pub params : Fields
  pub resilience : ResiliencePolicy

pub record HistoryEntry : Type 0 where
  pub step : String
  pub started_at : ℕ
  pub duration : ℕ
  pub skipped : Bool
  pub status : String
  pub trace_id : String
  pub span_id : String
  pub attempt : ℕ

pub record StepError : Type 0 where
  pub step : String
  pub err : Option GoError
  pub timestamp : ℕ

pub record StepExecutionState : Type 0 where
  pub key : String
  pub step_id : String
  pub step_name : String
  pub step_index : ℕ
  pub status : String
  pub attempts : ℕ
  pub started_at : ℕ
  pub completed_at : ℕ
  pub last_error : String
  pub trace_id : String
  pub span_id : String

abbrev zero_state : StepExecutionState
zero_state = record {
  key = "";
  step_id = "";
  step_name = "";
  step_index = 0;
  status = "";
  attempts = 0;
  started_at = 0;
  completed_at = 0;
  last_error = "";
  trace_id = "";
  span_id = "";
}

pub record Message : Type 0 where
  pub id : String
  pub created_at : ℕ
  pub payload : Fields
  pub headers : Dict String
  pub correlation_id : String
  pub trace_id : String
  pub parent_span_id : String
  pub span_id : String
  pub attempt : ℕ
  pub status : String
  pub slip : List StepDef
  pub cursor : ℕ
  pub history : List HistoryEntry
  pub errors : List StepError
  pub step_states : Dict StepExecutionState

-- `NewMessage`; `none` is a nil payload.
unfoldable pub new_message : String → Option Fields → ℕ → Message
new_message id payload now = record {
  id = id;
  created_at = now;
  payload = elim payload [ none ↦ end | some p ↦ p ];
  headers = [];
  correlation_id = "";
  trace_id = "";
  parent_span_id = "";
  span_id = "";
  attempt = 0;
  status = "created";
  slip = [];
  cursor = 0;
  history = [];
  errors = [];
  step_states = [];
}

unfoldable pub attach_slip : Message → List StepDef → Message
attach_slip m steps = record m { slip = m.slip ++ steps }

-- `none` when the slip is exhausted.
unfoldable pub next_step : Message → Message × Option StepDef
next_step m = elim (get_elem? m.slip m.cursor) [
  | none ↦ (m, none)
  | some s ↦ (record m { cursor = m.cursor + 1 }, some s)
]

abbrev clamp : ℤ → ℕ → ℕ
clamp (pos c) n = if ltb n c then n else c
clamp (negsuc c) n = 0

unfoldable pub set_cursor : Message → ℤ → Message
set_cursor m cursor = record m { cursor = clamp cursor (length m.slip) }

unfoldable pub set : Message → String → Value → Message
unfolding put
set m key value = record m { payload = put key value m.payload }

abbrev text_or_empty : Option Value → String
text_or_empty (some (str s)) = s
text_or_empty _ = ""

unfoldable pub get_string : Message → String → String
unfolding get
get_string m key = text_or_empty (get key m.payload)

unfoldable pub add_history : Message → HistoryEntry → Message
add_history m entry = record m { history = m.history ++ entry ∷ [] }

unfoldable pub add_error : Message → StepError → Message
add_error m e = record m { errors = m.errors ++ e ∷ [] }

unfoldable pub has_errors : Message → Bool
has_errors m = ltb 0 (length m.errors)

unfoldable pub set_status : Message → String → Message
unfolding trim_space
set_status m status = record m { status = trim_space status }

-- The cursor is at most the length, which `Cursor.IsWithin` states, so the difference is exact.
unfoldable pub remaining_steps : Message → ℕ
remaining_steps m = length m.slip - m.cursor

abbrev pub state_or_zero : Option StepExecutionState → StepExecutionState
state_or_zero none = zero_state
state_or_zero (some s) = s

unfoldable pub mark_step_running : Message → String → StepDef → ℕ → ℕ → Message
unfolding lookup insert
mark_step_running m key step index started =
    let state = state_or_zero (lookup key m.step_states) in
    record m {
      step_states =
          insert key
            (record {
              key = key;
              step_id = step.id;
              step_name = step.name;
              step_index = index;
              status = "running";
              attempts = state.attempts + 1;
              started_at = started;
              completed_at = 0;
              last_error = "";
              trace_id = m.trace_id;
              span_id = m.span_id;
            })
            m.step_states;
    }

-- `err` is the text of the error, if there is one.
unfoldable pub mark_step_finished : Message → (key status : String) → ℕ → Option String → Message
unfolding lookup insert
mark_step_finished m key status completed err =
    let state = state_or_zero (lookup key m.step_states) in
    record m {
      step_states =
          insert key
            (record state {
              key = key;
              status = status;
              completed_at = completed;
              trace_id = m.trace_id;
              span_id = m.span_id;
              attempts = max state.attempts m.attempt;
              last_error = elim err [ none ↦ state.last_error | some t ↦ t ];
            })
            m.step_states;
    }

unfoldable pub step_state : Message → String → Option StepExecutionState
unfolding lookup
step_state m key = lookup key m.step_states

unfoldable pub history_entry : Message → String → ℕ → ℕ → Bool → String → HistoryEntry
history_entry m step start duration skipped status = record {
  step = step;
  started_at = start;
  duration = duration;
  skipped = skipped;
  status = status;
  trace_id = m.trace_id;
  span_id = m.span_id;
  attempt = m.attempt;
}

-- The first index from `i` on at which `test` holds.
unfoldable pub index_from : (StepDef → Bool) → List StepDef → ℕ → Option ℕ
index_from test [] i = none
index_from test (s ∷ steps) i =
    let rest = index_from test steps (suc i) in if test s then some i else rest

-- By id first, by handler name as a fallback.
unfoldable pub find_step_index : Message → String → Option ℕ
unfolding index_from trim_space
find_step_index m ref =
    let by_name = index_from (λ s. str_eq s.name ref) m.slip 0 in
    if is_empty (trim_space ref)
    then none
    else elim (index_from (λ s. str_eq s.id ref) m.slip 0) [ none ↦ by_name | some i ↦ some i ]

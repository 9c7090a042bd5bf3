-- ===== src/Slip/Snapshot.antt =====
-- `Snapshot` and `MessageFromSnapshot` of app/slip/slip.go.
pub mod RoundTrip
use routing_slip_pattern.Common.{String, List, map, Option, none, some, ℕ, if◌then◌else◌}
use routing_slip_pattern.Common.Int.{ℤ, pos}
use routing_slip_pattern.Common.Text.{is_empty}
use routing_slip_pattern.Common.Dict.{Dict, lookup}
use routing_slip_pattern.Value.{Fields}
use routing_slip_pattern.Slip.Errors.{GoError, text, error_text}
use routing_slip_pattern.Slip.Message.{
  Message, StepDef, HistoryEntry, StepError, StepExecutionState, set_cursor,
}

pub record SerializableStepError : Type 0 where
  pub step : String
  pub error : String
  pub timestamp : ℕ

pub record MessageSnapshot : Type 0 where
  pub id : String
  pub workflow : String
  pub workflow_version : String
  pub status : String
  pub created_at : ℕ
  pub payload : Fields
  pub headers : Dict String
  pub correlation_id : String
  pub trace_id : String
  pub parent_span_id : String
  pub span_id : String
  pub attempt : ℕ
  pub slip : List StepDef
  pub cursor : ℤ
  pub history : List HistoryEntry
  pub errors : List SerializableStepError
  pub step_states : Dict StepExecutionState
  pub updated_at : ℕ

-- `m.Headers[key]`, the empty text at a missing key.
unfoldable pub header : String → Dict String → String
unfolding lookup
header key headers = elim (lookup key headers) [ none ↦ "" | some v ↦ v ]

abbrev err_text : (String → String) → Option GoError → String
err_text quote none = ""
err_text quote (some e) = error_text quote e

unfoldable pub saved_error : (String → String) → StepError → SerializableStepError
unfolding error_text
saved_error quote e = record {
  step = e.step;
  error = err_text quote e.err;
  timestamp = e.timestamp;
}

-- The maps and slices are copied, which their values do not show.
unfoldable pub snapshot : (String → String) → Message → ℕ → MessageSnapshot
unfolding header saved_error
snapshot quote m now = record {
  id = m.id;
  workflow = header "workflow" m.headers;
  workflow_version = header "workflow_version" m.headers;
  status = m.status;
  created_at = m.created_at;
  payload = m.payload;
  headers = m.headers;
  correlation_id = m.correlation_id;
  trace_id = m.trace_id;
  parent_span_id = m.parent_span_id;
  span_id = m.span_id;
  attempt = m.attempt;
  slip = m.slip;
  cursor = pos m.cursor;
  history = m.history;
  errors = map (saved_error quote) m.errors;
  step_states = m.step_states;
  updated_at = now;
}

abbrev pub loaded_error : SerializableStepError → StepError
loaded_error e = record { step = e.step; err = some (text e.error); timestamp = e.timestamp }

-- The message as it stands before the call of `setCursor` at the end, which forgets this cursor.
abbrev pub loaded : MessageSnapshot → Message
loaded s = record {
  id = s.id;
  created_at = s.created_at;
  payload = s.payload;
  headers = s.headers;
  correlation_id = s.correlation_id;
  trace_id = s.trace_id;
  parent_span_id = s.parent_span_id;
  span_id = s.span_id;
  attempt = s.attempt;
  status = if is_empty s.status then "loaded" else s.status;
  slip = s.slip;
  cursor = 0;
  history = s.history;
  errors = map loaded_error s.errors;
  step_states = s.step_states;
}

unfoldable pub message_from_snapshot : MessageSnapshot → Message
unfolding set_cursor
message_from_snapshot s = set_cursor (loaded s) s.cursor

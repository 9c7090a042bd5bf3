-- ===== src/Runtime/Continues.antt =====
-- When a message of `processPayload` of app/triggers.go goes on as another one.
use routing_slip_pattern.Common.{String, Option, none, some, ◌≡◌, refl, if_rule, List}
use routing_slip_pattern.Common.Dict.{Dict}
use routing_slip_pattern.Common.Text.{is_empty}
use routing_slip_pattern.Slip.Message.{Message, StepError}
use routing_slip_pattern.Slip.Trace.{TraceContext}
use routing_slip_pattern.Runtime.{adopt}

-- The message goes on as another one: all but its headers, its trace and the form of its errors.
pub record Continues (m m' : Message) : Type 0 where
  pub same_id : m'.id ≡ m.id
  pub same_created_at : m'.created_at ≡ m.created_at
  pub same_payload : m'.payload ≡ m.payload
  pub same_correlation_id : m'.correlation_id ≡ m.correlation_id
  pub same_status : m'.status ≡ m.status
  pub same_slip : m'.slip ≡ m.slip
  pub same_cursor : m'.cursor ≡ m.cursor
  pub same_attempt : m'.attempt ≡ m.attempt
  pub same_history : m'.history ≡ m.history
  pub same_step_states : m'.step_states ≡ m.step_states

moved-Continues :
    (m m' : Message) (trace span : String)
    → Continues m m'
    → Continues m (record m' { trace_id = trace; span_id = span })
moved-Continues m m' trace span c = record {
  same_id = c.same_id;
  same_created_at = c.same_created_at;
  same_payload = c.same_payload;
  same_correlation_id = c.same_correlation_id;
  same_status = c.same_status;
  same_slip = c.same_slip;
  same_cursor = c.same_cursor;
  same_attempt = c.same_attempt;
  same_history = c.same_history;
  same_step_states = c.same_step_states;
}

pub all_but_headers :
    (m : Message) (headers : Dict String) → Continues m (record m { headers = headers })
all_but_headers m headers = record {
  same_id = refl;
  same_created_at = refl;
  same_payload = refl;
  same_correlation_id = refl;
  same_status = refl;
  same_slip = refl;
  same_cursor = refl;
  same_attempt = refl;
  same_history = refl;
  same_step_states = refl;
}

pub other_errors :
    (m : Message) (errors : List StepError) (next : Message)
    → Continues (record m { errors = errors }) next
    → Continues m next
other_errors m errors next c = record {
  same_id = c.same_id;
  same_created_at = c.same_created_at;
  same_payload = c.same_payload;
  same_correlation_id = c.same_correlation_id;
  same_status = c.same_status;
  same_slip = c.same_slip;
  same_cursor = c.same_cursor;
  same_attempt = c.same_attempt;
  same_history = c.same_history;
  same_step_states = c.same_step_states;
}

pub adopt-Continues :
    (m m' : Message) (t : Option TraceContext) (other : String)
    → Continues m m'
    → Continues m (adopt t other m')
unfolding adopt
adopt-Continues m m' (some t) other c = moved-Continues m m' t.trace_id t.span_id c
adopt-Continues m m' none other c =
    if_rule (Continues m) (is_empty other) m' (record m' { trace_id = other }) (λ _. c)
      (λ _. moved-Continues m m' other m'.span_id c)

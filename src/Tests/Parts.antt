-- ===== src/Tests/Parts.antt =====
-- The claims about the parts at concrete inputs.
use routing_slip_pattern.Common.{
  ℕ, ◌-◌, ◌*◌, ◌^◌, ◌≤◌, ◌<◌, min, String, map, some, ◌≡◌, ◌≢◌, refl, arith, eq_iff, drop,
}
use routing_slip_pattern.Common.Int.{pos}
use routing_slip_pattern.Common.Text.{trim_space, to_lower, is_space}
use routing_slip_pattern.Value.{object}
use routing_slip_pattern.Slip.Resilience.{backoff_duration, after}
use routing_slip_pattern.Slip.Resilience.Backoff.{
  InRange, first_delay, delay_cap, kind, backoff_exponential, backoff_bounds,
}
use routing_slip_pattern.Slip.Message.{remaining_steps, find_step_index}
use routing_slip_pattern.Slip.Message.Cursor.{
  IsWithin, drain, drain_in_order, Refers, find_step_index-Refers,
}
use routing_slip_pattern.Slip.Snapshot.{snapshot, message_from_snapshot}
use routing_slip_pattern.Slip.Snapshot.RoundTrip.{as_text, message_from_snapshot-snapshot}
use routing_slip_pattern.Slip.Redaction.{redact_sensitive}
use routing_slip_pattern.Slip.Redaction.Laws.{Clean, redact_sensitive-Clean}
use routing_slip_pattern.Slip.Trace.{TraceContext, traceparent, parse_traceparent}
use routing_slip_pattern.Slip.Trace.Laws.{IsW3C, parse_traceparent-traceparent}
use routing_slip_pattern.Tests.Inputs.{policy, message, payload}

message-IsWithin : IsWithin message
message-IsWithin = omega arith

quoted : String → String
quoted s = s

three_left : remaining_steps message ≤ 3
unfolding remaining_steps
three_left = omega arith

message_from_snapshot-snapshot_example :
    message_from_snapshot (snapshot quoted message 9)
    ≡ record message { errors = map (as_text quoted) message.errors }
message_from_snapshot-snapshot_example =
    message_from_snapshot-snapshot quoted message 9 message-IsWithin refl

drain_in_order_example : drain 3 message ≡ drop message.cursor message.slip
drain_in_order_example = drain_in_order 3 message three_left

find_step_index-Refers_example : Refers message "jump_if" (find_step_index message "jump_if")
find_step_index-Refers_example = find_step_index-Refers message "jump_if"

draw : ℕ → ℕ
draw n = 0

draw_small : (n : ℕ) → 0 < n → draw n < n
unfolding draw
draw_small n h = h

policy-InRange : InRange (policy "jump" "last" (pos 2)) 100 1000
policy-InRange = record {
  initial_ms = refl;
  max_ms = refl;
  initial_fits = omega arith;
  max_fits = omega arith;
}

not_fixed : kind (policy "jump" "last" (pos 2)) ≢ "fixed"
unfolding trim_space to_lower
not_fixed e = ground (arith, eq_iff (kind (policy "jump" "last" (pos 2))) "fixed", e)

not_none : kind (policy "jump" "last" (pos 2)) ≢ "none"
unfolding trim_space to_lower
not_none e = ground (arith, eq_iff (kind (policy "jump" "last" (pos 2))) "none", e)

backoff_exponential_example :
    backoff_duration (policy "jump" "last" (pos 2)) draw 4
    ≡ after (pos (min (first_delay 100 * 2 ^ (4 - 2)) (delay_cap 1000)))
backoff_exponential_example =
    backoff_exponential (policy "jump" "last" (pos 2)) draw 100 1000 4 policy-InRange (omega arith)
      not_fixed not_none refl

backoff_bounds_example :
    (r : ℕ) × (backoff_duration (policy "jump" "last" (pos 2)) draw 4 ≡ after (pos r))
    × (2 * r ≤ 3 * delay_cap 1000)
backoff_bounds_example =
    backoff_bounds (policy "jump" "last" (pos 2)) draw 100 1000 4 draw_small policy-InRange
      (omega arith)

redact_sensitive-Clean_example : Clean (redact_sensitive (object payload))
redact_sensitive-Clean_example = redact_sensitive-Clean (object payload)

abbrev trace : TraceContext
trace = record {
  trace_id = "0123456789abcdef0123456789abcdef";
  span_id = "0123456789abcdef";
  parent_span_id = "fedcba9876543210";
  trace_flags = "01";
}

trace-IsW3C : IsW3C trace
unfolding is_space
trace-IsW3C = record {
  trace_len = refl;
  span_len = refl;
  trace_plain = ground arith;
  span_plain = ground arith;
  flags_plain = ground arith;
  flags_given = refl;
}

parse_traceparent-traceparent_example :
    parse_traceparent (traceparent trace) ≡ some (record trace { parent_span_id = "" })
parse_traceparent-traceparent_example = parse_traceparent-traceparent trace trace-IsW3C

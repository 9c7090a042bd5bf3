-- ===== src/Slip/Router/SelfJump.antt =====
-- A failure jump that goes back to its own step.
use routing_slip_pattern.Common.{ℕ, zero, suc, false, [], ◌∷◌, Option, none, some, ◌≡◌, refl}
use routing_slip_pattern.Common.Int.{pos}
use routing_slip_pattern.Common.Dict.{lookup}
use routing_slip_pattern.Common.Text.{trim_space, to_lower}
use routing_slip_pattern.Value.{end}
use routing_slip_pattern.Slip.Errors.{text}
use routing_slip_pattern.Slip.Resilience.{failure_action, backoff_duration, attempts}
use routing_slip_pattern.Slip.Message.{
  Message, StepDef, find_step_index, index_from, set_cursor, next_step, add_error, add_history,
  mark_step_running, mark_step_finished, set_status,
}
use routing_slip_pattern.Slip.Trace.{
  TraceContext, context_with_trace_context, background, ensure_trace_context, apply_trace_context,
}
use routing_slip_pattern.Slip.Router.{World, Router, Handler, ErrorPolicy, returned}
use routing_slip_pattern.Slip.Router.Attempts.{
  context_err, judge, pause, attempt_once, attempts_from, handle_step,
}
use routing_slip_pattern.Slip.Router.Step.{
  Round, go_on, leave, stop, crash, save_state, save_and_go, record_error, finish_state, given_up,
  give_up_step, handle_step_failure,
}
use routing_slip_pattern.Slip.Router.Step.Take.{
  failed_step, conclude, execute, known_step, taken_step, take, round,
}
use routing_slip_pattern.Slip.Router.Process.{process, loop, default_headers}

-- A step that jumps to itself when it fails.
abbrev pub again : StepDef
again = record {
  id = "call";
  name = "call";
  params = end;
  resilience = record {
    retry = record {
      attempts = pos 1;
      backoff = "";
      initial_interval_ms = pos 0;
      max_interval_ms = pos 0;
      jitter = false;
    };
    on_failure = record { action = "jump"; to = "call" };
  };
}

-- The message with that one step before it.
abbrev pub at_first : Message → Message
at_first m = record m { slip = again ∷ []; cursor = 0 }

module _ {W : Type 0} where
  abbrev pub failing : Handler W
  failing = record {
    name = "call";
    handle = λ ctx m params w. (returned false (some (text "down")), m, w);
    next_cursor = none;
  }

  abbrev pub one_step_router : ErrorPolicy → Router W
  one_step_router p = record {
    handlers = ("call", failing) ∷ [];
    cursor_controllers = [];
    error_policy = p;
    middleware = [];
    state_store = none;
    state_options = record {
      workflow = "";
      workflow_version = "";
      idempotency_enabled = false;
      idempotency_key_template = "";
    };
  }

  after_round : Round W → Message × W
  after_round (go_on m w) = (m, w)
  after_round (leave m w) = (m, w)
  after_round (stop e m w) = (m, w)
  after_round (crash v m w) = (m, w)

  loop_diverges :
      (world : World W) (p : ErrorPolicy) (fuel : ℕ) (t : Option TraceContext) (m : Message) (w : W)
      → loop world (one_step_router p) fuel (record background { trace = t }) (at_first m) w ≡ none
  unfolding loop round take taken_step known_step execute conclude failed_step handle_step_failure
      give_up_step given_up finish_state record_error save_and_go save_state handle_step
      attempts_from attempt_once pause judge context_err backoff_duration attempts failure_action
      find_step_index index_from set_cursor next_step add_error add_history mark_step_running
      mark_step_finished set_status lookup trim_space to_lower after_round
  loop_diverges world p zero t m w = refl
  loop_diverges world p (suc fuel) t m w =
      let d =
        after_round
          (round world (one_step_router p) (record background { trace = t }) (at_first m) w) in
      loop_diverges world p fuel t d.0 d.1

  -- Under every error policy, and with whatever fuel, `Process` gives no result for a message whose one
  -- step always fails and jumps to itself.
  pub self_jump_diverges :
      (world : World W) (p : ErrorPolicy) (fuel : ℕ) (m : Message) (w : W)
      → process world (one_step_router p) fuel background (at_first m) w ≡ none
  unfolding process context_with_trace_context ensure_trace_context apply_trace_context
      default_headers set_status save_state
  self_jump_diverges world p fuel m w =
      let e = ensure_trace_context world.hex_id background (at_first m) w in
      let m' = default_headers (one_step_router p).state_options (set_status e.2 "running") in
      loop_diverges world p fuel (some e.1) m' e.3

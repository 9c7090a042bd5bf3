-- ===== src/Slip/Router/Step.antt =====
-- The parts of a round of the loop of `Process`, app/slip/slip.go, that save and that fail, and
-- `handleStepFailure`.
pub mod Post
pub mod Take
use routing_slip_pattern.Common.{
  ℕ, ◌+◌, ◌-◌, String, Bool, true, false, ◌&&◌, not, Option, none, some, str_eq, if◌then◌else◌,
}
use routing_slip_pattern.Common.Int.{ℤ, pos}
use routing_slip_pattern.Common.Dict.{lookup}
use routing_slip_pattern.Slip.Errors.{
  GoError, no_handler, in_step, jump_not_found, unknown_action, save_failed, cancelled, error_text,
}
use routing_slip_pattern.Slip.Resilience.{failure_action}
use routing_slip_pattern.Slip.Message.{
  Message, StepDef, StepError, StepExecutionState, next_step, set_cursor, set_status, add_error,
  add_history, history_entry, mark_step_running, mark_step_finished, step_state, find_step_index,
}
use routing_slip_pattern.Slip.Snapshot.{snapshot}
use routing_slip_pattern.Slip.Trace.{Context, background}
use routing_slip_pattern.Slip.Router.{
  World, Router, Handler, CursorController, NextCursor, Outcome, returned, panicked, ErrorPolicy,
  stop_on_error, continue_on_error, skip_on_error, other_policy,
}
use routing_slip_pattern.Slip.Router.Key.{step_execution_key}
use routing_slip_pattern.Slip.Router.Attempts.{context_err, handle_step}

-- How a round ends: the loop goes on, it is left by `break`, `Process` returns an error, or a panic
-- passes through.
pub data Round (W : Type 0) : Type 0 where
  go_on : Message → W → Round W
  leave : Message → W → Round W
  stop : GoError → Message → W → Round W
  crash : String → Message → W → Round W

-- A step that runs: its definition, index and key, and when it started.
pub record Running : Type 0 where
  pub step : StepDef
  pub index : ℕ
  pub key : String
  pub start : ℕ

abbrev pub is_stop_on_error : ErrorPolicy → Bool
is_stop_on_error stop_on_error = true
is_stop_on_error _ = false

module _ {W : Type 0} (world : World W) (r : Router W) where
  unfoldable pub save_state : Context → Message → W → Option GoError × W
  unfolding snapshot
  save_state ctx m w = elim r.state_store [
    | none ↦ (none, w)
    | some save ↦
        let (now, w') = world.now w in
        let (e, w'') = save ctx (snapshot world.quote m now) w' in
        (elim e [ none ↦ none | some x ↦ some (save_failed x) ], w'')
  ]

  -- Save, and go on unless that fails.
  unfoldable pub save_and_go : Context → Message → W → Round W
  unfolding save_state
  save_and_go ctx m w =
      let (e, w') = save_state ctx m w in elim e [ none ↦ go_on m w' | some x ↦ stop x m w' ]

  -- `setCursor(stepIndex)`, status "failed", a save whose error is dropped, and the error.
  unfoldable pub fail_at : ℕ → GoError → Message → W → Round W
  unfolding save_state set_cursor set_status
  fail_at index e m w =
      let m' = set_status (set_cursor m (pos index)) "failed" in
      let (_, w') = save_state background m' w in stop e m' w'

  unfoldable pub record_error : String → GoError → Message → W → Message × W
  unfolding add_error
  record_error name e m w =
      let (now, w') = world.now w in
      (add_error m (record { step = name; err = some e; timestamp = now }), w')

  unfoldable pub finish_state : String → String → Option GoError → Message → W → Message × W
  unfolding mark_step_finished error_text
  finish_state key status e m w =
      let (now, w') = world.now w in
      (
        mark_step_finished m key status now
            (elim e [ none ↦ none | some x ↦ some (error_text world.quote x) ]),
        w',
      )

  -- No handler is registered for the step.
  unfoldable pub missing_handler : Context → StepDef → ℕ → Message → W → Round W
  unfolding record_error fail_at save_and_go
  missing_handler ctx step index m w =
      let (m', w') = record_error step.name (no_handler step.name) m w in
      if is_stop_on_error r.error_policy
      then fail_at index (no_handler step.name) m' w'
      else save_and_go ctx m' w'

  -- A history entry and a state for the step; `cursor` is what "jump" sets.
  unfoldable pub given_up :
      Running → ℕ → Bool → String → GoError → Option ℕ → Message → W → Message × W
  unfolding add_history history_entry finish_state set_cursor
  given_up run duration skipped status e cursor m w =
      let m' = add_history m (history_entry m run.step.name run.start duration skipped status) in
      let (m'', w') = finish_state run.key status (some e) m' w in
      (elim cursor [ none ↦ m'' | some c ↦ set_cursor m'' (pos c) ], w')

  -- The branches of `handleStepFailure` that go on: that, and the save.
  unfoldable pub give_up_step :
      Context → Running → ℕ → Bool → String → GoError → Option ℕ → Message → W → Round W
  unfolding given_up save_and_go
  give_up_step ctx run duration skipped status e cursor m w =
      let (m', w') = given_up run duration skipped status e cursor m w in save_and_go ctx m' w'

  -- `handleStepFailure` for an action other than "default".
  unfoldable pub handle_step_failure : Context → Running → ℕ → GoError → Message → W → Round W
  unfolding failure_action fail_at give_up_step find_step_index
  handle_step_failure ctx run duration e m w =
      let action = failure_action run.step.resilience in
      let name = run.step.name in
      let to = run.step.resilience.on_failure.to in
      let jump : Round W = elim (find_step_index m to) [
        | none ↦ fail_at run.index (jump_not_found name to) m w
        | some next ↦ give_up_step ctx run duration true "jumped" e (some next) m w
      ] in
      if str_eq action "stop"
      then fail_at run.index (in_step name e) m w
      else if str_eq action "continue"
      then give_up_step ctx run duration false "failed" e none m w
      else if str_eq action "skip"
      then give_up_step ctx run duration true "skipped" e none m w
      else if str_eq action "jump"
      then jump
      else fail_at run.index (unknown_action name run.step.resilience.on_failure.action) m w

-- ===== src/Slip/Router/Step/Take.antt =====
-- One round of the loop of `Process`, app/slip/slip.go: the step under the cursor is taken, run and
-- finished.
use routing_slip_pattern.Common.{
  ℕ, ◌+◌, ◌-◌, Bool, true, false, ◌&&◌, Option, none, some, str_eq, if◌then◌else◌,
}
use routing_slip_pattern.Common.Int.{pos}
use routing_slip_pattern.Common.Dict.{lookup}
use routing_slip_pattern.Slip.Errors.{GoError, in_step, cancelled}
use routing_slip_pattern.Slip.Resilience.{failure_action}
use routing_slip_pattern.Slip.Message.{
  Message, StepDef, StepExecutionState, next_step, set_cursor, set_status, add_history,
  history_entry, mark_step_running, step_state,
}
use routing_slip_pattern.Slip.Trace.{Context, background}
use routing_slip_pattern.Slip.Router.{
  World, Router, Handler, NextCursor, Outcome, returned, panicked, ErrorPolicy, stop_on_error,
  continue_on_error, skip_on_error, other_policy,
}
use routing_slip_pattern.Slip.Router.Key.{step_execution_key}
use routing_slip_pattern.Slip.Router.Attempts.{context_err, handle_step}
use routing_slip_pattern.Slip.Router.Step.{
  Round, go_on, leave, stop, crash, Running, is_stop_on_error, save_state, save_and_go, fail_at,
  record_error, finish_state, missing_handler, handle_step_failure,
}

-- The state of a step that has succeeded before.
abbrev pub succeeded : Option StepExecutionState → Bool
succeeded none = false
succeeded (some s) = str_eq s.status "success"

module _ {W : Type 0} (world : World W) (r : Router W) where
  -- `NextCursor` of the step's handler, if it has one, with its error handled. The error stops the
  -- workflow under `StopOnError`; otherwise the result counts all the same.
  unfoldable pub apply_jump : Running → NextCursor → Message → W → Round W
  unfolding record_error finish_state fail_at set_cursor
  apply_jump run jump m w =
      let moved = λ (m' : Message). if jump.changed then set_cursor m' jump.next else m' in
      elim jump.err [
        | none ↦ go_on (moved m) w
        | some e ↦
            let (m', w') = record_error world r run.step.name e m w in
            let (m'', w'') = finish_state world r run.key "failed" (some e) m' w' in
            if is_stop_on_error r.error_policy
            then fail_at world r run.index (in_step run.step.name e) m'' w''
            else go_on (moved m'') w''
      ]

  unfoldable pub redirect : Running → Message → W → Round W
  unfolding lookup apply_jump
  redirect run m w = elim (lookup run.step.name r.cursor_controllers) [
    | none ↦ go_on m w
    | some controller ↦
        let (jump, m', w') = controller m run.step run.index w in apply_jump run jump m' w'
  ]

  -- The save behind a step, and the stop that it may have asked for.
  unfoldable pub close_step : Context → Bool → Round W → Round W
  unfolding save_state set_status
  close_step ctx proceed (go_on m w) =
      let (e, w') = save_state world r ctx m w in
      elim e [
        | some x ↦ stop x m w'
        | none ↦ if proceed then go_on m w' else leave (set_status m "stopped") w'
      ]
  close_step ctx proceed round = round

  -- What follows a step without an error.
  unfoldable pub finish_step : Context → Running → ℕ → Bool → Message → W → Round W
  unfolding add_history history_entry finish_state redirect close_step
  finish_step ctx run duration proceed m w =
      let status = if proceed then "success" else "stopped" in
      let m' = add_history m (history_entry m run.step.name run.start duration false status) in
      let (m'', w') = finish_state world r run.key status none m' w in
      close_step ctx proceed (redirect run m'' w')

  -- The `switch` on the error policy; a value that it does not name falls through to the code for a
  -- step without an error, with `proceed` false.
  unfoldable pub apply_policy :
      ErrorPolicy → Context → Running → ℕ → GoError → Message → W → Round W
  unfolding fail_at add_history history_entry save_and_go finish_step
  apply_policy stop_on_error ctx run duration e m w =
      fail_at world r run.index (in_step run.step.name e) m w
  apply_policy continue_on_error ctx run duration e m w =
      save_and_go world r ctx
        (add_history m (history_entry m run.step.name run.start duration false "failed")) w
  apply_policy skip_on_error ctx run duration e m w =
      save_and_go world r ctx
        (add_history m (history_entry m run.step.name run.start duration true "skipped")) w
  apply_policy other_policy ctx run duration e m w = finish_step ctx run duration false m w

  unfoldable pub failed_step : Context → Running → ℕ → GoError → Message → W → Round W
  unfolding record_error finish_state failure_action handle_step_failure apply_policy
  failed_step ctx run duration e m w =
      let (m', w') = record_error world r run.step.name e m w in
      let (m'', w'') = finish_state world r run.key "failed" (some e) m' w' in
      if str_eq (failure_action run.step.resilience) "default"
      then apply_policy r.error_policy ctx run duration e m'' w''
      else handle_step_failure world r ctx run duration e m'' w''

  -- What the outcome of the handler's attempts leads to.
  unfoldable pub conclude : Context → Running → Outcome × Message × W → Round W
  unfolding failed_step finish_step
  conclude ctx run (panicked v, m, w) = crash v m w
  conclude ctx run (returned proceed (some e), m, w) =
      let (now, w') = world.now w in failed_step ctx run (now - run.start) e m w'
  conclude ctx run (returned proceed none, m, w) =
      let (now, w') = world.now w in finish_step ctx run (now - run.start) proceed m w'

  unfoldable pub execute : Context → Running → Handler W → Message → W → Round W
  unfolding mark_step_running save_state handle_step conclude
  execute ctx run h m w =
      let m' = mark_step_running m run.key run.step run.index run.start in
      let (e, w') = save_state world r ctx m' w in
      elim e [
        | some x ↦ stop x m' w'
        | none ↦ conclude ctx run (handle_step world ctx m' run.step h.handle w')
      ]

  -- A step that has a handler: skipped if it has succeeded under its key before, else executed.
  unfoldable pub known_step : Context → StepDef → ℕ → Handler W → Message → W → Round W
  unfolding step_execution_key step_state add_history history_entry set_cursor save_and_go execute
  known_step ctx step index h m w =
      let (start, w') = world.now w in
      let (key, w'') = step_execution_key world r.state_options m step index w' in
      let run : Running = record { step = step; index = index; key = key; start = start } in
      if r.state_options.idempotency_enabled && succeeded (step_state m key)
      then save_and_go world r ctx
          (set_cursor (add_history m (history_entry m step.name start 0 true "idempotent_skip"))
            (pos (index + 1)))
          w''
      else execute ctx run h m w''

  -- The save with the cursor at the step, and the step behind it.
  unfoldable pub taken_step : Context → StepDef → ℕ → Message → W → Round W
  unfolding set_cursor save_state lookup missing_handler known_step
  taken_step ctx step index m w =
      let at_step = set_cursor m (pos index) in
      let (e, w') = save_state world r ctx at_step w in
      let m' = set_cursor at_step (pos (index + 1)) in
      elim e [
        | some x ↦ stop x at_step w'
        | none ↦ elim (lookup step.name r.handlers) [
          | none ↦ missing_handler world r ctx step index m' w'
          | some h ↦ known_step ctx step index h m' w'
        ]
      ]

  -- What `NextStep` gave, for the cursor before it; `break` at the end of the slip.
  unfoldable pub take : Context → ℕ → Message × Option StepDef → W → Round W
  unfolding taken_step
  take ctx index (m, none) w = leave m w
  take ctx index (m, some step) w = taken_step ctx step index m w

  unfoldable pub round : Context → Message → W → Round W
  unfolding context_err set_status save_state next_step take
  round ctx m w =
      let (ended, w') = context_err world ctx w in
      let gone = set_status m "cancelled" in
      let (_, saved) = save_state world r background gone w' in
      elim ended [
        | some c ↦ stop (cancelled c) gone saved
        | none ↦ take ctx m.cursor (next_step m) w'
      ]

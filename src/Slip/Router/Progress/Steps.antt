-- ===== src/Slip/Router/Progress/Steps.antt =====
-- What the end of a step does to the cursor.
use routing_slip_pattern.Common.{
  ℕ, ◌-◌, ◌<◌, ◌≡◌, refl, String, Bool, true, false, List, Option, none, some, length, str_eq,
  if◌then◌else◌, if_rule, option_rule, get_elem?-some_lt, ◌∙◌,
}
use routing_slip_pattern.Common.Int.{pos}
use routing_slip_pattern.Common.Dict.{lookup}
use routing_slip_pattern.Slip.Errors.{GoError, in_step}
use routing_slip_pattern.Slip.Resilience.{failure_action}
use routing_slip_pattern.Slip.Message.{
  Message, StepDef, set_cursor, set_status, add_error, add_history, history_entry,
  mark_step_finished,
}
use routing_slip_pattern.Slip.Trace.{Context}
use routing_slip_pattern.Slip.Router.{
  World, Router, NextCursor, Outcome, returned, panicked, ErrorPolicy, stop_on_error,
  continue_on_error, skip_on_error, other_policy,
}
use routing_slip_pattern.Slip.Router.Step.Post.{Post, Post-close_step}
use routing_slip_pattern.Slip.Router.Step.{Running, is_stop_on_error, record_error, finish_state}
use routing_slip_pattern.Slip.Router.Step.Take.{
  apply_jump, redirect, finish_step, apply_policy, failed_step, conclude,
}
use routing_slip_pattern.Slip.Router.Progress.{
  Beyond, forward, IsForward, AtStep, set_cursor-Beyond,
}
use routing_slip_pattern.Slip.Router.Progress.Failures.{
  forward-save_and_go, forward-fail_at, forward-handle_step_failure,
}

module _ {W : Type 0} (world : World W) (r : Router W) (s : List StepDef) (f : IsForward r s) where
  pub record_error-Beyond :
      (n : ℕ) (name : String) (x : GoError) (m : Message) (w : W)
      → Beyond s n m
      → Beyond s n (record_error world r name x m w).0
  unfolding record_error add_error
  record_error-Beyond n name x m w h = h

  finish_state-Beyond :
      (n : ℕ) (key status : String) (x : Option GoError) (m : Message) (w : W)
      → Beyond s n m
      → Beyond s n (finish_state world r key status x m w).0
  unfolding finish_state mark_step_finished
  finish_state-Beyond n key status x m w h = h

  -- A jump of a controller moves the message behind the step, and no jump leaves it there.
  moved-Beyond :
      (n : ℕ) (jump : NextCursor) (m : Message)
      → Beyond s n m
      → n < length s
      → (jump.changed ≡ true → (k : ℕ) × (jump.next ≡ pos k) × (n < k))
      → Beyond s n (if jump.changed then set_cursor m jump.next else m)
  moved-Beyond n jump m h l ahead =
      if_rule (Beyond s n) jump.changed _ _
        (λ yes_changed.
          let (k, e, lt) = ahead yes_changed in rw e (set_cursor-Beyond s n k m h.0 l lt))
        (λ _. h)

  forward-apply_jump :
      (run : Running) (jump : NextCursor) (m : Message) (w : W)
      → AtStep s run
      → Beyond s run.index m
      → (jump.changed ≡ true → (k : ℕ) × (jump.next ≡ pos k) × (run.index < k))
      → Post (forward s run.index) (apply_jump world r run jump m w)
  unfolding apply_jump
  forward-apply_jump run jump m w at h ahead =
      option_rule (Post (forward s run.index)) jump.err _ _
        (λ _. moved-Beyond run.index jump m h l ahead)
        λ x _.
          let p = record_error world r run.step.name x m w in
          let q = finish_state world r run.key "failed" (some x) p.0 p.1 in
          let hq =
            finish_state-Beyond run.index run.key "failed" (some x) p.0 p.1
              (record_error-Beyond run.index run.step.name x m w h) in
          if_rule (Post (forward s run.index)) (is_stop_on_error r.error_policy) _ _
            (λ _.
              forward-fail_at world r s run.index run.index (in_step run.step.name x) run.step q.0
                q.1 hq.0 at refl)
            (λ _. moved-Beyond run.index jump q.0 hq l ahead)
    where
      l : run.index < length s
      l = get_elem?-some_lt s run.index run.step at

  forward-redirect :
      (run : Running) (m : Message) (w : W)
      → AtStep s run
      → Beyond s run.index m
      → Post (forward s run.index) (redirect world r run m w)
  unfolding redirect
  forward-redirect run m w at h =
      option_rule (Post (forward s run.index)) (lookup run.step.name r.cursor_controllers) _ _
        (λ _. h)
        λ c found.
          let (same, cursor, ahead) =
            f.controllers_forward run.step.name c found m run.step run.index w in
          let p = c m run.step run.index w in
          forward-apply_jump run p.0 p.1 p.2 at (same ∙ h.0, rw cursor (h.1), rw cursor (h.2)) ahead

  forward-finish_step :
      (ctx : Context) (run : Running) (duration : ℕ) (proceed : Bool) (m : Message) (w : W)
      → AtStep s run
      → Beyond s run.index m
      → Post (forward s run.index) (finish_step world r ctx run duration proceed m w)
  unfolding finish_step
  forward-finish_step ctx run duration proceed m w at h =
      let status = if proceed then "success" else "stopped" in
      let m' = add_history m (history_entry m run.step.name run.start duration false status) in
      let p = finish_state world r run.key status none m' w in
      Post-close_step world r (forward s run.index) ctx proceed (redirect world r run p.0 p.1)
        (forward-redirect run p.0 p.1 at
          (finish_state-Beyond run.index run.key status none m' w (unfold add_history in h)))
        (unfold set_status in λ n g. (g.0, g.1)) (λ x n g. ((g.0, g.1), tt))

  forward-apply_policy :
      (policy : ErrorPolicy) (ctx : Context) (run : Running) (duration : ℕ) (x : GoError)
      (m : Message) (w : W)
      → AtStep s run
      → Beyond s run.index m
      → Post (forward s run.index) (apply_policy world r policy ctx run duration x m w)
  unfolding apply_policy
  forward-apply_policy stop_on_error ctx run duration x m w at h =
      forward-fail_at world r s run.index run.index (in_step run.step.name x) run.step m w h.0 at
        refl
  forward-apply_policy continue_on_error ctx run duration x m w at h =
      forward-save_and_go world r s run.index ctx
        (add_history m (history_entry m run.step.name run.start duration false "failed")) w
        (unfold add_history in h)
  forward-apply_policy skip_on_error ctx run duration x m w at h =
      forward-save_and_go world r s run.index ctx
        (add_history m (history_entry m run.step.name run.start duration true "skipped")) w
        (unfold add_history in h)
  forward-apply_policy other_policy ctx run duration x m w at h =
      forward-finish_step ctx run duration false m w at h

  forward-failed_step :
      (ctx : Context) (run : Running) (duration : ℕ) (x : GoError) (m : Message) (w : W)
      → AtStep s run
      → Beyond s run.index m
      → Post (forward s run.index) (failed_step world r ctx run duration x m w)
  unfolding failed_step
  forward-failed_step ctx run duration x m w at h =
      let p = record_error world r run.step.name x m w in
      let q = finish_state world r run.key "failed" (some x) p.0 p.1 in
      let hq =
        finish_state-Beyond run.index run.key "failed" (some x) p.0 p.1
          (record_error-Beyond run.index run.step.name x m w h) in
      if_rule (Post (forward s run.index)) (str_eq (failure_action run.step.resilience) "default") _
        _ (λ _. forward-apply_policy r.error_policy ctx run duration x q.0 q.1 at hq)
        (λ _. forward-handle_step_failure world r s f ctx run duration x q.0 q.1 at hq)

  pub forward-conclude :
      (ctx : Context) (run : Running) (o : Outcome) (m : Message) (w : W)
      → AtStep s run
      → Beyond s run.index m
      → Post (forward s run.index) (conclude world r ctx run (o, m, w))
  unfolding conclude
  forward-conclude ctx run (panicked v) m w at h = (h.0, h.1)
  forward-conclude ctx run (returned proceed (some x)) m w at h =
      forward-failed_step ctx run ((world.now w).0 - run.start) x m (world.now w).1 at h
  forward-conclude ctx run (returned proceed none) m w at h =
      forward-finish_step ctx run ((world.now w).0 - run.start) proceed m (world.now w).1 at h

-- ===== src/Slip/Router/Progress/Failures.antt =====
-- What the failure of a step does to the cursor.
use routing_slip_pattern.Common.{
  ℕ, ◌<◌, ◌≡◌, refl, String, Bool, true, false, List, Option, none, some, length, get_elem?, arith,
  str_eq, if_rule, option_rule, eq_iff, get_elem?-some_lt, ◌∙◌,
}
use routing_slip_pattern.Common.Int.{pos}
use routing_slip_pattern.Common.Text.{trim_space}
use routing_slip_pattern.Slip.Errors.{GoError, in_step, jump_not_found, unknown_action}
use routing_slip_pattern.Slip.Resilience.{failure_action}
use routing_slip_pattern.Slip.Message.{
  Message, StepDef, set_cursor, set_status, add_history, history_entry, mark_step_finished,
  find_step_index,
}
use routing_slip_pattern.Slip.Message.Cursor.{set_cursor_exact}
use routing_slip_pattern.Slip.Trace.{Context}
use routing_slip_pattern.Slip.Router.{World, Router}
use routing_slip_pattern.Slip.Router.Step.Post.{Post, Post-save_and_go, Post-fail_at}
use routing_slip_pattern.Slip.Router.Step.{
  given_up, Round, Running, save_and_go, fail_at, finish_state, give_up_step, handle_step_failure,
}
use routing_slip_pattern.Slip.Router.Progress.{
  Beyond, failed_name, forward, IsForward, AtStep, set_cursor-Fits, set_cursor-Beyond,
}

module _ {W : Type 0} (world : World W) (r : Router W) (s : List StepDef) where
  pub forward-save_and_go :
      (n : ℕ) (ctx : Context) (m : Message) (w : W)
      → Beyond s n m
      → Post (forward s n) (save_and_go world r ctx m w)
  forward-save_and_go n ctx m w h =
      Post-save_and_go world r (forward s n) ctx m w h (λ x. ((h.0, h.1), tt))

  pub forward-fail_at :
      (n index : ℕ) (x : GoError) (step : StepDef) (m : Message) (w : W)
      → m.slip ≡ s
      → get_elem? s index ≡ some step
      → failed_name x ≡ some step.name
      → Post (forward s n) (fail_at world r index x m w)
  forward-fail_at n index x step m w e at named = Post-fail_at world r (forward s n) index x m w (
    unfold set_status in set_cursor-Fits s m (pos index) e,
    rw named (record {
      status_failed = unfold set_status trim_space in refl;
      step = step;
      at_cursor = unfold set_status in cursor_at;
      named = refl;
    }),
  )
    where
      in_slip : index < length m.slip
      in_slip = get_elem?-some_lt m.slip index step (rw e at)

      cursor_at :
          get_elem? (set_cursor m (pos index)).slip (set_cursor m (pos index)).cursor ≡ some step
      cursor_at = rw (set_cursor_exact m index (omega (arith, in_slip))) (rw e at)

  given_up-Beyond :
      (n duration : ℕ) (run : Running) (skipped : Bool) (status : String) (x : GoError)
      (cursor : Option ℕ) (m : Message) (w : W)
      → Beyond s n m
      → n < length s
      → ((c : ℕ) → cursor ≡ some c → n < c)
      → Beyond s n (given_up world r run duration skipped status x cursor m w).0
  unfolding given_up mark_step_finished finish_state add_history
  given_up-Beyond n duration run skipped status x none m w h l f = h
  given_up-Beyond n duration run skipped status x (some c) m w h l f =
      set_cursor-Beyond s n c
        (finish_state world r run.key status (some x)
          (add_history m (history_entry m run.step.name run.start duration skipped status)) w).0
        h.0 l (f c refl)

  pub forward-give_up_step :
      (n duration : ℕ) (ctx : Context) (run : Running) (skipped : Bool) (status : String)
      (x : GoError) (cursor : Option ℕ) (m : Message) (w : W)
      → Beyond s n m
      → n < length s
      → ((c : ℕ) → cursor ≡ some c → n < c)
      → Post (forward s n) (give_up_step world r ctx run duration skipped status x cursor m w)
  unfolding give_up_step
  forward-give_up_step n duration ctx run skipped status x cursor m w h l f =
      let p = given_up world r run duration skipped status x cursor m w in
      forward-save_and_go n ctx p.0 p.1
        (given_up-Beyond n duration run skipped status x cursor m w h l f)

module _ {W : Type 0} (world : World W) (r : Router W) (s : List StepDef) (f : IsForward r s) where
  pub forward-handle_step_failure :
      (ctx : Context) (run : Running) (duration : ℕ) (x : GoError) (m : Message) (w : W)
      → AtStep s run
      → Beyond s run.index m
      → Post (forward s run.index) (handle_step_failure world r ctx run duration x m w)
  unfolding handle_step_failure
  forward-handle_step_failure ctx run duration x m w at h =
      if_rule P (str_eq action "stop") _ _ (λ _. failed (in_step run.step.name x) refl)
        λ _.
          if_rule P (str_eq action "continue") _ _
            (λ _.
              forward-give_up_step world r s run.index duration ctx run false "failed" x none m w h
                l (λ c e. cc))
            λ _.
              if_rule P (str_eq action "skip") _ _
                (λ _.
                  forward-give_up_step world r s run.index duration ctx run true "skipped" x none m
                    w h l (λ c e. cc))
                λ _.
                  if_rule P (str_eq action "jump") _ _
                    (λ is_jump.
                      option_rule P (find_step_index m to) _ _
                        (λ _. failed (jump_not_found run.step.name to) refl)
                        λ next found.
                          forward-give_up_step world r s run.index duration ctx run true "jumped" x
                            (some next) m w h l
                            (λ c e.
                              f.failures_forward m run.index c run.step h.0 at
                                ((eq_iff action "jump").0 is_jump) (found ∙ e)))
                    λ _.
                      failed (unknown_action run.step.name run.step.resilience.on_failure.action)
                        refl
    where
      action : String
      action = failure_action run.step.resilience

      to : String
      to = run.step.resilience.on_failure.to

      P : Round W → Type 0
      P = Post (forward s run.index)

      l : run.index < length s
      l = get_elem?-some_lt s run.index run.step at

      failed :
          (y : GoError) → failed_name y ≡ some run.step.name → P (fail_at world r run.index y m w)
      failed y named = forward-fail_at world r s run.index run.index y run.step m w h.0 at named

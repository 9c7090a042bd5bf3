-- ===== src/Slip/Router/Progress/Attempts.antt =====
-- The attempts of a step leave the route of the message alone.
use routing_slip_pattern.Common.{ℕ, zero, suc, ◌+◌, ◌≡◌, refl, Option, none, some, option_rule, ◌∙◌}
use routing_slip_pattern.Slip.Errors.{GoError}
use routing_slip_pattern.Slip.Resilience.{attempts}
use routing_slip_pattern.Slip.Message.{Message, StepDef}
use routing_slip_pattern.Slip.Trace.{Context}
use routing_slip_pattern.Slip.Router.{World, Handle, Outcome, returned, panicked}
use routing_slip_pattern.Slip.Router.Attempts.{
  Attempt, attempt_rule, context_err, judge, pause, attempt_once, attempts_from, handle_step,
}
use routing_slip_pattern.Slip.Router.Progress.{KeepsRoute}

-- Two messages at the same place of the same slip.
abbrev pub SameRoute : Message → Message → Type 0
SameRoute m' m = (m'.slip ≡ m.slip) × (m'.cursor ≡ m.cursor)

module _ {W : Type 0} (world : World W) (handle : Handle W) (keeps : KeepsRoute handle) where
  judge-SameRoute :
      (ctx : Context) (m₀ : Message) (p : Outcome × Message × W)
      → SameRoute p.1 m₀
      → SameRoute (judge world ctx p).1 m₀
  unfolding judge
  judge-SameRoute ctx m₀ (panicked v, m, w) h = h
  judge-SameRoute ctx m₀ (returned proceed none, m, w) h = h
  judge-SameRoute ctx m₀ (returned proceed (some e), m, w) h =
      option_rule (λ (q : Attempt × Message × W). SameRoute q.1 m₀) (context_err world ctx w).0 _ _
        (λ _. h) (λ _ _. h)

  attempt_once-SameRoute :
      (ctx : Context) (m : Message) (step : StepDef) (attempt : ℕ) (w : W)
      → SameRoute (attempt_once world ctx m step handle attempt w).1 m
  unfolding attempt_once
  attempt_once-SameRoute ctx m step attempt w =
      let m' = record m { attempt = attempt } in
      let p = pause world step attempt w in
      option_rule (λ (q : Attempt × Message × W). SameRoute q.1 m) p.0 _ _
        (λ _. judge-SameRoute ctx m (handle ctx m' step.params p.1) (keeps ctx m' step.params p.1))
        (λ _ _. (refl, refl))

  attempts_from-SameRoute :
      (left attempt : ℕ) (last : Option GoError) (ctx : Context) (m : Message) (step : StepDef)
      (w : W)
      → SameRoute (attempts_from world left attempt last ctx m step handle w).1 m
  unfolding attempts_from
  attempts_from-SameRoute zero attempt last ctx m step w = (refl, refl)
  attempts_from-SameRoute (suc left) attempt last ctx m step w =
      let p = attempt_once world ctx m step handle attempt w in
      let once = attempt_once-SameRoute ctx m step attempt w in
      attempt_rule (λ (q : Outcome × Message × W). SameRoute q.1 m) p.0 _ _ (λ _ _. once)
        λ e _.
          let rest = attempts_from-SameRoute left (attempt + 1) (some e) ctx p.1 step p.2 in
          (rest.0 ∙ once.0, rest.1 ∙ once.1)

  pub handle_step-SameRoute :
      (ctx : Context) (m : Message) (step : StepDef) (w : W)
      → SameRoute (handle_step world ctx m step handle w).1 m
  unfolding handle_step
  handle_step-SameRoute ctx m step w =
      attempts_from-SameRoute (attempts step.resilience) 1 none ctx m step w

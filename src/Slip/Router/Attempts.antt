-- ===== src/Slip/Router/Attempts.antt =====
-- `handleStep` of app/slip/slip.go: the attempts at one step.
pub mod Calls
use routing_slip_pattern.Common.{
  ℕ, zero, suc, ◌+◌, false, Option, none, some, ◌≡◌, refl, if◌then◌else◌,
}
use routing_slip_pattern.Common.Int.{is_positive}
use routing_slip_pattern.Slip.Errors.{GoError}
use routing_slip_pattern.Slip.Resilience.{attempts, after, int63n_panic, backoff_duration}
use routing_slip_pattern.Slip.Message.{Message, StepDef}
use routing_slip_pattern.Slip.Trace.{Context}
use routing_slip_pattern.Slip.Router.{World, Outcome, returned, panicked, Handle}

-- An attempt ends the step, or leaves an error and the next attempt.
pub data Attempt : Type 0 where
  done : Outcome → Attempt
  retry : GoError → Attempt

-- A predicate of a match on an attempt.
pub attempt_rule {ℓ κ} :
    {A : Type ℓ} (P : A → Type κ) (a : Attempt) (f : Outcome → A) (g : GoError → A)
    → ((o : Outcome) → a ≡ done o → P (f o))
    → ((e : GoError) → a ≡ retry e → P (g e))
    → P (elim a [ done o ↦ f o | retry e ↦ g e ])
attempt_rule P (done o) f g d r = d o refl
attempt_rule P (retry e) f g d r = r e refl

module _ {W : Type 0} (world : World W) where
  -- `ctx.Err()`. A context that has ended stays so, and the background context never does.
  unfoldable pub context_err : Context → W → Option GoError × W
  context_err ctx w = let asked = world.ctx_err w in if ctx.is_background then (none, w) else asked

  -- What the result of the handler makes of the attempt.
  unfoldable pub judge : Context → Outcome × Message × W → Attempt × Message × W
  unfolding context_err
  judge ctx (panicked v, m, w) = (done (panicked v), m, w)
  judge ctx (returned proceed none, m, w) = (done (returned proceed none), m, w)
  judge ctx (returned proceed (some e), m, w) =
      let (ended, w') = context_err ctx w in
      elim ended [ some c ↦ (done (returned false (some c)), m, w') | none ↦ (retry e, m, w') ]

  -- The pause before an attempt: an error or a panic ends the step.
  unfoldable pub pause : StepDef → ℕ → W → Option Outcome × W
  unfolding backoff_duration
  pause step attempt w =
      let (draw, w') = world.random w in
      elim (backoff_duration step.resilience draw attempt) [
        | int63n_panic ↦ (some (panicked "invalid argument to Int63n"), w')
        | after delay ↦
            let (ended, w'') = world.sleep delay w' in
            let waited : Option Outcome × W =
              (elim ended [ none ↦ none | some e ↦ some (returned false (some e)) ], w'') in
            if is_positive delay then waited else (none, w')
      ]

  unfoldable pub attempt_once :
      Context → Message → StepDef → Handle W → ℕ → W → Attempt × Message × W
  unfolding judge pause
  attempt_once ctx m step handle attempt w =
      let m' = record m { attempt = attempt } in
      let (cut, w') = pause step attempt w in
      elim cut [ some o ↦ (done o, m', w') | none ↦ judge ctx (handle ctx m' step.params w') ]

  -- The attempts from number `attempt` on, `left` of them; `last` is the latest error.
  unfoldable pub attempts_from :
      ℕ → ℕ → Option GoError → Context → Message → StepDef → Handle W → W → Outcome × Message × W
  unfolding attempt_once
  attempts_from zero attempt last ctx m step handle w = (returned false last, m, w)
  attempts_from (suc left) attempt last ctx m step handle w =
      let (result, m', w') = attempt_once ctx m step handle attempt w in
      elim result [
        | done o ↦ (o, m', w')
        | retry e ↦ attempts_from left (attempt + 1) (some e) ctx m' step handle w'
      ]

  unfoldable pub handle_step : Context → Message → StepDef → Handle W → W → Outcome × Message × W
  unfolding attempts_from attempts
  handle_step ctx m step handle w =
      attempts_from (attempts step.resilience) 1 none ctx m step handle w

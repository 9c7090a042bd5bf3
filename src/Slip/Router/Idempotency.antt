-- ===== src/Slip/Router/Idempotency.antt =====
-- Idempotency: a step that has succeeded under its key is not run again.
use routing_slip_pattern.Common.{
  ℕ, ◌+◌, ◌<◌, String, true, false, ◌&&◌, [], ◌∷◌, ◌++◌, none, length, ◌≡◌, refl, sym, if_rule,
  arith, eq_iff, subst,
}
use routing_slip_pattern.Common.Int.{pos}
use routing_slip_pattern.Common.Dict.{lookup-insert}
use routing_slip_pattern.Slip.Errors.{GoError, save_failed}
use routing_slip_pattern.Slip.Message.{
  Message, StepDef, set_cursor, add_history, history_entry, step_state, mark_step_finished,
}
use routing_slip_pattern.Slip.Message.Cursor.{set_cursor_exact}
use routing_slip_pattern.Slip.Trace.{Context}
use routing_slip_pattern.Slip.Router.{World, Router, Handler}
use routing_slip_pattern.Slip.Router.Key.{step_execution_key}
use routing_slip_pattern.Slip.Router.Step.{finish_state}
use routing_slip_pattern.Slip.Router.Step.Take.{known_step, succeeded}
use routing_slip_pattern.Slip.Router.Step.Post.{Contract, Post, Post-save_and_go}

-- From `m` to `m'` nothing has happened but the note that the step at `index` is skipped, and the
-- cursor stands behind it.
pub record Skipped (m : Message) (name : String) (index start : ℕ) (m' : Message) : Type 0 where
  pub payload_kept : m'.payload ≡ m.payload
  pub errors_kept : m'.errors ≡ m.errors
  pub states_kept : m'.step_states ≡ m.step_states
  pub slip_kept : m'.slip ≡ m.slip
  pub behind : m'.cursor ≡ index + 1
  pub noted : m'.history ≡ m.history ++ history_entry m name start 0 true "idempotent_skip" ∷ []

-- The round goes on with the step skipped, or stops at an error of the store; it neither leaves the
-- workflow nor panics.
abbrev pub skips : Message → String → ℕ → ℕ → Contract
skips m name index start = record {
  goes = Skipped m name index start;
  leaves = λ m'. true ≡ false;
  stops = λ e m'. Skipped m name index start m' × (x : GoError) × (e ≡ save_failed x);
  crashes = λ m'. true ≡ false;
}

abbrev pub key_of : {W : Type 0} → World W → Router W → Message → StepDef → ℕ → W → String
key_of world r m step index w =
    (step_execution_key world r.state_options m step index (world.now w).1).0

module _ {W : Type 0} (world : World W) (r : Router W) where
  -- `MarkStepFinished` with "success" is what the test for a skip looks for.
  finish_state-succeeded :
      (key : String) (m : Message) (w : W)
      → succeeded (step_state (finish_state world r key "success" none m w).0 key) ≡ true
  unfolding finish_state mark_step_finished step_state
  finish_state-succeeded key m w =
      rw (lookup-insert key key _ m.step_states) (ground (arith, eq_iff key key))

  skip_rule :
      (ctx : Context) (step : StepDef) (index : ℕ) (h : Handler W) (m : Message) (w : W)
      → r.state_options.idempotency_enabled ≡ true
      → index < length m.slip
      → succeeded (step_state m (key_of world r m step index w)) ≡ true
      → Post (skips m step.name index (world.now w).0) (known_step world r ctx step index h m w)
  unfolding known_step add_history
  skip_rule ctx step index h m w enabled inside done =
      if_rule (Post (skips m step.name index (world.now w).0))
        (r.state_options.idempotency_enabled
          && succeeded (step_state m (key_of world r m step index w)))
        _ _
        (λ _.
          Post-save_and_go world r (skips m step.name index (world.now w).0) ctx _ _ skipped
            (λ x. (skipped, x, refl)))
        (λ e. cc)
    where
      m' : Message
      m' = add_history m (history_entry m step.name (world.now w).0 0 true "idempotent_skip")

      skipped : Skipped m step.name index (world.now w).0 (set_cursor m' (pos (index + 1)))
      skipped =
          subst (Skipped m step.name index (world.now w).0)
            (sym (set_cursor_exact m' (index + 1) (unfold add_history in omega (arith, inside))))
            (unfold add_history in
              record {
                payload_kept = refl;
                errors_kept = refl;
                states_kept = refl;
                slip_kept = refl;
                behind = refl;
                noted = refl;
              })

  -- With idempotency on, no handler has a part in the round of a step that has succeeded.
  unused_rule :
      (ctx : Context) (step : StepDef) (index : ℕ) (h h' : Handler W) (m : Message) (w : W)
      → r.state_options.idempotency_enabled ≡ true
      → succeeded (step_state m (key_of world r m step index w)) ≡ true
      → known_step world r ctx step index h m w ≡ known_step world r ctx step index h' m w
  unfolding known_step
  unused_rule ctx step index h h' m w enabled done = rw (enabled, done) refl

  -- With idempotency on, once a step is marked as finished with success, its round under the same key
  -- is the same whatever its handler is: it leaves the payload, the errors, the states of the steps
  -- and the slip, adds the entry "idempotent_skip" to the history and puts the cursor behind the
  -- step; it goes on, or stops at an error of the store.
  pub success_not_repeated :
      (ctx : Context) (step : StepDef) (index : ℕ) (h h' : Handler W) (m n : Message) (w w' : W)
      (key : String)
      → r.state_options.idempotency_enabled ≡ true
      → index < length n.slip
      → (finish_state world r key "success" none m w).0 ≡ n
      → key_of world r n step index w' ≡ key
      → Post (skips n step.name index (world.now w').0) (known_step world r ctx step index h n w')
        × (known_step world r ctx step index h n w' ≡ known_step world r ctx step index h' n w')
  success_not_repeated ctx step index h h' m n w w' key enabled inside marked same =
      let done : succeeded (step_state n (key_of world r n step index w')) ≡ true = rw same (
        subst (λ (x : Message). succeeded (step_state x key) ≡ true) marked
          (finish_state-succeeded key m w)) in
      (
        skip_rule ctx step index h n w' enabled inside done,
        unused_rule ctx step index h h' n w' enabled done,
      )

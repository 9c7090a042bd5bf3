-- ===== src/Tests/Routing.antt =====
-- Runs of the router, and what they rest on.
use routing_slip_pattern.Common.{
  ℕ, zero, suc, ◌∙◌, ◌<◌, String, Option, none, some, ◌≡◌, refl, arith, get_elem?, subst, eq_iff,
  sym,
}
use routing_slip_pattern.Common.Dict.{lookup, insert}
use routing_slip_pattern.Common.Text.{trim_space, to_lower}
use routing_slip_pattern.Slip.Resilience.{failure_action}
use routing_slip_pattern.Slip.Message.{Message, StepDef, find_step_index, remaining_steps}
use routing_slip_pattern.Slip.Message.Cursor.{IsWithin}
use routing_slip_pattern.Slip.Trace.{background}
use routing_slip_pattern.Slip.Router.{Router, register, apply_middleware}
use routing_slip_pattern.Slip.Router.Process.{Run, process}
use routing_slip_pattern.Slip.Router.Progress.{IsForward}
use routing_slip_pattern.Slip.Router.Progress.Loop.{process_terminates, EndFits}
use routing_slip_pattern.Slip.Middleware.Keeps.{recovery-KeepsAround}
use routing_slip_pattern.Handlers.ControlFlow.Ends.{register_all, register_all-IsForward}
use routing_slip_pattern.Tests.Inputs.{
  world, scalars, steps, message, base_router, first, second, third,
}

same_step : (a b : StepDef) → some a ≡ some b → b ≡ a
same_step a b e = cc

jump_target : (m : Message) → m.slip ≡ steps → find_step_index m "last" ≡ some 2
unfolding find_step_index trim_space
jump_target m same = rw (same, find_step_index) refl

target_of : (j : ℕ) → some 2 ≡ some j → 0 < j
target_of j e = ground arith

abbrev default_action : String
default_action = "default"

clash : default_action ≡ "jump" → ⊥
clash e = ground (arith, eq_iff default_action "jump", e)

-- A failure jump of the test's slip goes from the first step to the third.
pub jumps_forward :
    (m : Message) (i j : ℕ) (step : StepDef)
    → m.slip ≡ steps
    → get_elem? steps i ≡ some step
    → failure_action step.resilience ≡ "jump"
    → find_step_index m step.resilience.on_failure.to ≡ some j
    → i < j
unfolding failure_action trim_space to_lower
jumps_forward m zero j step same at action found = target_of j (
    sym (jump_target m same)
    ∙ subst (λ (x : StepDef). find_step_index m x.resilience.on_failure.to ≡ some j)
        (same_step first step at) found)
jumps_forward m (suc zero) j step same at action found = absurd (
    clash (
      subst (λ (x : StepDef). failure_action x.resilience ≡ "jump") (same_step second step at)
        action))
jumps_forward m (suc (suc zero)) j step same at action found = absurd (
    clash (
      subst (λ (x : StepDef). failure_action x.resilience ≡ "jump") (same_step third step at)
        action))
jumps_forward m (suc (suc (suc i))) j step same at action found = cc

base_router-IsForward : IsForward base_router steps
unfolding lookup
base_router-IsForward = record {
  handlers_keep = λ name h e. cc;
  controllers_forward = λ name c e. cc;
  failures_forward = jumps_forward;
}

abbrev or_base : Option (Router ℕ) → Router ℕ
or_base none = base_router
or_base (some r) = r

abbrev control_router : Router ℕ
unfolding register lookup insert apply_middleware
control_router = or_base (register_all scalars base_router)

control_router_registered : register_all scalars base_router ≡ some control_router
unfolding register lookup insert apply_middleware control_router
control_router_registered = refl

control_router-IsForward : IsForward control_router steps
control_router-IsForward =
    register_all-IsForward scalars base_router steps control_router base_router-IsForward
      (recovery-KeepsAround, tt) control_router_registered

message-IsWithin : IsWithin message
message-IsWithin = omega arith

enough : remaining_steps message < 4
unfolding remaining_steps
enough = omega arith

register_all-IsForward_example : IsForward control_router steps
register_all-IsForward_example =
    register_all-IsForward scalars base_router steps control_router base_router-IsForward
      (recovery-KeepsAround, tt) control_router_registered

process_terminates_example :
    (run : Run ℕ) × (process world control_router 4 background message 0 ≡ some run)
    × EndFits message.slip run
process_terminates_example =
    process_terminates world control_router 4 background message 0 control_router-IsForward
      message-IsWithin enough

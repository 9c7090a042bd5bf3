-- ===== src/Tests/Handling.antt =====
-- The claims about handlers, middleware and registration at concrete inputs.
use routing_slip_pattern.Common.{
  ℕ, ◌≤◌, suc, String, true, List, [], ◌∷◌, ◌++◌, map, none, some, ◌≡◌, ◌↔◌, refl, All, length, ◌<◌,
  arith,
}
use routing_slip_pattern.Common.Text.{trim_space, is_space}
use routing_slip_pattern.Value.{Fields, end, field, get}
use routing_slip_pattern.Slip.Message.{Message, mark_step_finished}
use routing_slip_pattern.Slip.Trace.{background}
use routing_slip_pattern.Slip.Router.{
  continue_on_error, Handler, returned, panicked, apply_middleware,
}
use routing_slip_pattern.Slip.Resilience.{attempts}
use routing_slip_pattern.Slip.Router.Attempts.{handle_step}
use routing_slip_pattern.Slip.Router.Attempts.Calls.{counted_world, counting, handle_step-calls}
use routing_slip_pattern.Slip.Router.Key.{step_execution_key, key_template, replacements, expand}
use routing_slip_pattern.Slip.Router.Step.{finish_state}
use routing_slip_pattern.Slip.Router.Step.Take.{known_step}
use routing_slip_pattern.Slip.Router.Step.Post.{Post}
use routing_slip_pattern.Slip.Router.Idempotency.{skips, key_of, success_not_repeated}
use routing_slip_pattern.Slip.Router.Process.{process}
use routing_slip_pattern.Slip.Router.SelfJump.{one_step_router, at_first, self_jump_diverges}
use routing_slip_pattern.Slip.Router.Registry.{noting, apply_middleware_order}
use routing_slip_pattern.Slip.Middleware.{recovery_middleware}
use routing_slip_pattern.Slip.Middleware.Laws.{Recovers, recovery_lem}
use routing_slip_pattern.Handlers.Conditions.{ok}
use routing_slip_pattern.Handlers.ControlFlow.{condition_list, assert_handle, assert_handler}
use routing_slip_pattern.Handlers.ControlFlow.Laws.{
  Satisfied, Some, proceeds, assert_handle-All, assert_handle-Some,
}
use routing_slip_pattern.Tests.Inputs.{
  world, scalars, message, conditions, big, small, base_router, first,
}

abbrev both : List Fields
both = big ∷ small ∷ []

both_listed : condition_list conditions ≡ ok both
unfolding condition_list
both_listed = refl

all_params : Fields
all_params = field "all" conditions end

any_params : Fields
any_params = field "any" conditions end

all_given : get "all" all_params ≡ some conditions
unfolding get all_params
all_given = refl

all_missing : get "all" any_params ≡ none
unfolding get any_params
all_missing = refl

any_given : get "any" any_params ≡ some conditions
unfolding get any_params
any_given = refl

assert_handle-All_example :
    proceeds (assert_handle scalars {W = ℕ} background message all_params 0).0 ≡ true
    ↔ All (Satisfied scalars message.payload) both
assert_handle-All_example =
    assert_handle-All scalars background message all_params 0 conditions both all_given both_listed

assert_handle-Some_example :
    proceeds (assert_handle scalars {W = ℕ} background message any_params 0).0 ≡ true
    ↔ Some scalars message.payload both
assert_handle-Some_example =
    assert_handle-Some scalars background message any_params 0 conditions both all_missing any_given
      both_listed

abbrev panicking : Handler ℕ
panicking = record {
  name = "boom";
  handle = λ ctx m params w. (panicked "nil map", m, suc w);
  next_cursor = none;
}

recovery_lem_example :
    Recovers "boom"
      ((apply_middleware [] panicking).handle background message end 0)
      ((apply_middleware (recovery_middleware ∷ []) panicking).handle background message end 0)
unfolding apply_middleware
recovery_lem_example = recovery_lem [] panicking background message end 0

abbrev writing : Handler (List ℕ)
writing = record {
  name = "write";
  handle = λ ctx m params log. (returned true none, m, log ++ 0 ∷ []);
  next_cursor = none;
}

apply_middleware_order_example :
    (apply_middleware (map noting (1 ∷ 2 ∷ [])) writing).handle background message end []
    ≡ writing.handle background message end ([] ++ 1 ∷ 2 ∷ [])
apply_middleware_order_example =
    apply_middleware_order writing (1 ∷ 2 ∷ []) [] background message end

abbrev step_key : String
step_key = "orders:m-1:0:assert"

marked : Message
unfolding finish_state
marked = (finish_state world base_router step_key "success" none message 5).0

is_marked : (finish_state world base_router step_key "success" none message 5).0 ≡ marked
unfolding marked
is_marked = refl

-- The key that the state was marked under is the key of the step.
same_key : key_of world base_router marked first 0 6 ≡ step_key
unfolding step_execution_key key_template replacements expand marked finish_state mark_step_finished
    trim_space is_space
same_key = refl

marked_inside : 0 < length marked.slip
unfolding marked finish_state mark_step_finished
marked_inside = omega arith

success_not_repeated_example :
    Post
      (skips marked first.name 0 6)
      (known_step world base_router background first 0 panicking marked 6)
    × (known_step world base_router background first 0 panicking marked 6
        ≡ known_step world base_router background first 0 (assert_handler scalars) marked 6)
success_not_repeated_example =
    success_not_repeated world base_router background first 0 panicking (assert_handler scalars)
      message marked 5 6 step_key refl marked_inside is_marked same_key

handle_step-calls_example :
    let n =
      (handle_step
        (counted_world world)
        background
        message
        first
        (counting (assert_handle scalars))
        (record { calls = 0; inner = 0 })).2.calls in
    (1 ≤ n) × (n ≤ attempts first.resilience)
handle_step-calls_example =
    handle_step-calls world background message first (assert_handle scalars) 0

self_jump_diverges_example :
    process world (one_step_router continue_on_error) 50 background (at_first message) 0 ≡ none
self_jump_diverges_example = self_jump_diverges world continue_on_error 50 message 0

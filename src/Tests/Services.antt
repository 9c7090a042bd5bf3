-- ===== src/Tests/Services.antt =====
-- The claims about the runtime at concrete inputs.
use routing_slip_pattern.Common.{
  ℕ, suc, true, false, [], Option, none, some, ◌≡◌, refl, ap, arith, subst,
}
use routing_slip_pattern.Common.Int.{pos, scale64}
use routing_slip_pattern.Common.Text.{trim_space, is_empty, is_space}
use routing_slip_pattern.Common.Dict.{lookup, insert}
use routing_slip_pattern.Value.{end}
use routing_slip_pattern.Value.Put.{value_from_path}
use routing_slip_pattern.Slip.Router.Attempts.{context_err}
use routing_slip_pattern.Slip.Errors.{processing_locked}
use routing_slip_pattern.Slip.Message.{Message, remaining_steps}
use routing_slip_pattern.Slip.Message.Cursor.{IsWithin}
use routing_slip_pattern.Slip.Snapshot.{MessageSnapshot, snapshot}
use routing_slip_pattern.Slip.Trace.{background}
use routing_slip_pattern.Slip.Router.{World, Router, stop_on_error}
use routing_slip_pattern.Slip.Router.Process.{process}
use routing_slip_pattern.Slip.Store.Memory.{
  MemoryStateStore, ProcessingLease, Result, ok, empty_store, save, try_acquire_processing, is_held,
  load,
}
use routing_slip_pattern.Slip.Router.Progress.{IsForward}
use routing_slip_pattern.Runtime.Store.{StateStore, Keeps, memory_store}
use routing_slip_pattern.Runtime.{
  correlated, string_from_path, message_id_of, owner, Platform, AppRuntime, Reply, replied, refused,
  passed_on, process_payload, run_claimed, acquire_processing_lease, granted, named,
}
use routing_slip_pattern.Runtime.Laws.{Served, process_payload_returns}
use routing_slip_pattern.Runtime.Lease.{
  in_memory, world_of, IsLawful, is_locked_by, process_payload_releases, process_payload_locked,
}
use routing_slip_pattern.Runtime.Continues.{Continues}
use routing_slip_pattern.Runtime.Resume.{run_claimed_resumes, run_claimed_done}
use routing_slip_pattern.Tests.Inputs.{
  world, steps, message, payload, stored, base_router, app_config, workflow,
}
use routing_slip_pattern.Tests.Routing.{jumps_forward}

abbrev platform : {W : Type 0} → Platform W
platform = record {
  new_correlation_uuid = λ w. ("u-1", w);
  pid = "17";
  format_float = λ x. "0";
  sprint = λ v. "value";
}

-- A store that has the one snapshot.
abbrev keeps_one : MessageSnapshot → StateStore ℕ
keeps_one s = record { save = λ ctx s w. (none, w); load = λ ctx id w. (ok s, w); locker = none }

abbrev runtime_on : MessageSnapshot → AppRuntime ℕ
runtime_on s = record {
  config = app_config;
  workflow = workflow;
  router = base_router;
  store = keeps_one s;
  steps = steps;
}

message-IsWithin : IsWithin message
message-IsWithin = omega arith

-- A message whose first step is done.
abbrev begun : Message
begun = record message { cursor = 1; status = "running" }

begun-IsWithin : IsWithin begun
begun-IsWithin = omega arith

run_claimed_resumes_example :
    (next : Message) × Continues begun next
    × (run_claimed world platform
          (runtime_on (snapshot world.quote begun 9))
          4
          background
          "m-1"
          "c-1"
          end
          []
          0
        ≡ passed_on (process world base_router 4 background next 1))
unfolding remaining_steps
run_claimed_resumes_example =
    run_claimed_resumes world platform (runtime_on (snapshot world.quote begun 9)) 4 background
      "m-1" "c-1" end [] 0 1 begun 9 refl begun-IsWithin refl refl refl refl

abbrev over : Message
over = record message { cursor = 3; status = "completed" }

over-IsWithin : IsWithin over
over-IsWithin = omega arith

run_claimed_done_example :
    (next : Message) × Continues over next
    × (run_claimed world platform
          (runtime_on (snapshot world.quote over 9))
          0
          background
          "m-1"
          "c-1"
          end
          []
          0
        ≡ some (replied next none 1))
unfolding remaining_steps
run_claimed_done_example =
    run_claimed_done world platform (runtime_on (snapshot world.quote over 9)) 0 background "m-1"
      "c-1" end [] 0 1 over 9 refl over-IsWithin refl (omega arith) refl refl

-- A world with a store: a clock, and the store beside it.
abbrev Machine : Type 0
Machine = ℕ × MemoryStateStore

abbrev machine_world : World Machine
machine_world = record {
  now = λ w. (w.0, (suc w.0, w.1));
  ctx_err = λ w. (none, w);
  sleep = λ d w. (none, w);
  hex_id = λ n w. ("0123456789abcdef", w);
  random = λ w. (λ n. 0, w);
  range = λ d w. (d, w);
  quote = λ s. s;
}

abbrev beside : Keeps Machine
beside = record { view = λ w. w.1; update = λ store w. (w.0, store) }

beside-IsLawful : IsLawful beside
beside-IsLawful store w = refl

-- A runtime with no handlers.
abbrev idle_router : Router Machine
idle_router = record {
  handlers = [];
  cursor_controllers = [];
  error_policy = stop_on_error;
  middleware = [];
  state_store = none;
  state_options = base_router.state_options;
}

abbrev runtime : AppRuntime Machine
runtime = record {
  config = app_config;
  workflow = workflow;
  router = idle_router;
  store = memory_store machine_world beside;
  steps = steps;
}

idle_router-IsForward : IsForward idle_router steps
unfolding lookup
idle_router-IsForward = record {
  handlers_keep = λ name h e. cc;
  controllers_forward = λ name c e. cc;
  failures_forward = jumps_forward;
}

steps-Served : Served idle_router 4 steps
steps-Served = record { forward = idle_router-IsForward; short = omega arith }

-- The store in memory with the snapshot of the payload's message.
abbrev kept : MessageSnapshot
kept = record stored { id = "u-1" }

abbrev left_off : Machine
left_off = (100, (save none kept empty_store).1)

loads_kept :
    (let (id, w) = named machine_world platform runtime payload left_off in
      let (claim, w') = acquire_processing_lease machine_world platform runtime background id w in
      (runtime.store.load background id (machine_world.now w').1).0)
    ≡ ok kept
unfolding acquire_processing_lease named correlated string_from_path value_from_path message_id_of
    trim_space is_space try_acquire_processing context_err scale64 owner save load insert lookup
loads_kept = refl

same_loaded :
    (s s' : MessageSnapshot) (r : Result MessageSnapshot × Machine) (w : Machine)
    → r.0 ≡ ok s
    → r ≡ (ok s', w)
    → s ≡ s'
same_loaded s s' r w e e' = (let q = ap (λ (x : Result MessageSnapshot × Machine). x.0) e' in cc)

process_payload_returns_example :
    (reply : Reply Machine) × (process_payload machine_world platform runtime 4 background payload
        [] left_off
      ≡ some reply)
process_payload_returns_example =
    process_payload_returns machine_world platform runtime 4 background payload [] left_off
      steps-Served
      (λ s w' e.
        subst (λ (x : MessageSnapshot). Served idle_router 4 x.slip)
          (same_loaded kept s _ w' loads_kept e) steps-Served)

abbrev started : Machine
started = (100, empty_store)

abbrev claimed : ProcessingLease
claimed = record { message_id = "u-1"; owner = "orders:r-1:17" }

abbrev claimed_at : Machine
claimed_at =
    (101, (try_acquire_processing none "u-1" "orders:r-1:17" (pos 60000000000) 100 empty_store).1)

claims :
    acquire_processing_lease machine_world platform
      (in_memory machine_world beside runtime)
      background
      (named machine_world platform (in_memory machine_world beside runtime) payload started).0
      (named machine_world platform (in_memory machine_world beside runtime) payload started).1
    ≡ (granted (some claimed), claimed_at)
unfolding acquire_processing_lease named correlated string_from_path value_from_path message_id_of
    trim_space is_space try_acquire_processing context_err scale64 owner
claims = refl

or_refused : Option (Reply Machine) → Reply Machine
or_refused none = refused (processing_locked "") started
or_refused (some reply) = reply

-- The first step has no handler, so the router stops there.
answer : Reply Machine
unfolding or_refused
answer = or_refused (
    process_payload machine_world platform (in_memory machine_world beside runtime) 4 background
      payload [] started)

answered :
    process_payload machine_world platform
      (in_memory machine_world beside runtime)
      4
      background
      payload
      []
      started
    ≡ some answer
unfolding answer or_refused process_payload try_acquire_processing load
answered = refl

process_payload_releases_example : is_locked_by claimed (world_of answer).1 ≡ false
process_payload_releases_example =
    process_payload_releases machine_world platform beside runtime 4 background payload [] started
      claimed_at claimed answer beside-IsLawful claims answered

-- The store in which another worker has claimed the message.
abbrev locked_out : Machine
locked_out = (100, (try_acquire_processing none "u-1" "other" (pos 50) 90 empty_store).1)

locked_named :
    named machine_world platform (in_memory machine_world beside runtime) payload locked_out
    ≡ ("u-1", locked_out)
unfolding named correlated string_from_path value_from_path message_id_of trim_space is_space
locked_named = refl

locked_held : is_held 100 (lookup (trim_space "u-1") (beside.view (101, locked_out.1)).locks) ≡ true
unfolding trim_space is_space try_acquire_processing lookup insert
locked_held = refl

going : context_err machine_world background (101, locked_out.1) ≡ (none, (101, locked_out.1))
unfolding context_err
going = refl

given_id : is_empty (trim_space "u-1") ≡ false
unfolding trim_space is_space
given_id = refl

process_payload_locked_example :
    process_payload machine_world platform
      (in_memory machine_world beside runtime)
      4
      background
      payload
      []
      locked_out
    ≡ some (refused (processing_locked "u-1") (101, locked_out.1))
process_payload_locked_example =
    process_payload_locked machine_world platform beside runtime 4 background payload [] "u-1" 100
      locked_out locked_out (101, locked_out.1) (101, locked_out.1) locked_named refl refl going
      given_id locked_held

-- ===== src/Runtime.antt =====
-- `AppRuntime` of app/triggers.go: one payload, from the claim of its message to the release.
-- Logging is left out. `ctx` is the request's context.
pub mod Store
pub mod Laws
pub mod Continues
pub mod Resume
pub mod Lease
use routing_slip_pattern.Common.{
  ℕ, String, Bool, true, false, ◌&&◌, not, List, [], ◌∷◌, Option, none, some, str_eq, ◌==◌,
  if◌then◌else◌,
}
use Prim.Native.String.{◌++◌}
use routing_slip_pattern.Common.Int.{ℤ, pos, negsuc, scale64}
use routing_slip_pattern.Common.Text.{trim_space, is_empty, itoa}
use routing_slip_pattern.Common.Dict.{Dict, lookup, insert}
use routing_slip_pattern.Value.{Value, Fields, null, bool, int, float, str}
use routing_slip_pattern.Value.Put.{value_from_path, force_payload_path}
use routing_slip_pattern.Slip.Errors.{GoError, processing_locked, load_failed, is_state_not_found}
use routing_slip_pattern.Slip.Message.{Message, StepDef, new_message, attach_slip, remaining_steps}
use routing_slip_pattern.Slip.Snapshot.{MessageSnapshot, message_from_snapshot, header}
use routing_slip_pattern.Slip.Trace.{
  Context, TraceContext, background, parse_traceparent, first_non_empty,
}
use routing_slip_pattern.Slip.Router.{World, Router}
use routing_slip_pattern.Slip.Router.Process.{Run, finished, crashed, process}
use routing_slip_pattern.Slip.Store.Memory.{ProcessingLease, Result, ok, err}
use routing_slip_pattern.Config.{AppConfig, WorkflowConfig}
use routing_slip_pattern.Runtime.Store.{StateStore, ProcessingLocker}

-- What the runtime takes from the platform besides the router's world.
pub record Platform (W : Type 0) : Type 0 where
  pub new_correlation_uuid : W → String × W
  pub pid : String  -- `os.Getpid()` in decimal
  pub format_float : ℕ → String  -- `strconv.FormatFloat(x, 'f', -1, 64)`
  pub sprint : Value → String  -- `fmt.Sprint`

pub record AppRuntime (W : Type 0) : Type 0 where
  pub config : AppConfig
  pub workflow : WorkflowConfig
  pub router : Router W
  pub store : StateStore W
  pub steps : List StepDef

-- How `processPayload` ends: with the message and the router's error, with an error and no message,
-- or with a panic.
pub data Reply (W : Type 0) : Type 0 where
  replied : Message → Option GoError → W → Reply W
  refused : GoError → W → Reply W
  panicking : String → W → Reply W

-- `lease, acquired, err` of `acquireProcessingLease`.
pub data Claim : Type 0 where
  claim_failed : GoError → Claim
  taken : Claim
  granted : Option ProcessingLease → Claim

abbrev pub claim_of : Result (Option ProcessingLease) → Claim
claim_of (err e) = claim_failed e
claim_of (ok none) = taken
claim_of (ok (some lease)) = granted (some lease)

abbrev pub given : String → Option String
given s = if is_empty s then none else some s

-- `strconv.Itoa` and `FormatInt`.
abbrev decimal : ℤ → String
decimal (pos n) = itoa n
decimal (negsuc n) = "-" ++ itoa (ℕ.suc n)

-- The header of that name, written over.
unfoldable pub put_headers : Dict String → Dict String → Dict String
unfolding insert
put_headers [] headers = headers
put_headers ((key, value) ∷ more) headers = put_headers more (insert key value headers)

-- The names of a message and its workflow in the headers, and the slip of a message that has none.
unfoldable pub prepared : WorkflowConfig → List StepDef → Dict String → String → Message → Message
unfolding put_headers insert remaining_steps attach_slip
prepared workflow steps headers correlation m =
    let named = insert "workflow" workflow.name (put_headers headers m.headers) in
    let versioned =
      if is_empty workflow.version
      then named
      else insert "workflow_version" workflow.version named in
    let attached = if remaining_steps m == 0 && m.cursor == 0 then attach_slip m steps else m in
    let id = if is_empty m.correlation_id then correlation else m.correlation_id in
    record attached { correlation_id = id; headers = insert "correlation_id" id versioned }

-- The parsed `traceparent`, or the other trace header where that is none.
unfoldable pub adopt : Option TraceContext → String → Message → Message
adopt (some t) other m = record m { trace_id = t.trace_id; span_id = t.span_id }
adopt none other m = if is_empty other then m else record m { trace_id = other }

-- The trace that the headers name.
unfoldable pub with_header_trace : Message → Message
unfolding header parse_traceparent first_non_empty adopt
with_header_trace m =
    adopt (parse_traceparent (header "traceparent" m.headers))
      (first_non_empty (
        header "trace_id" m.headers
        ∷ header "x-trace-id" m.headers
        ∷ header "X-Trace-ID" m.headers
        ∷ []))
      m

-- A persisted message that has nothing left to do.
abbrev pub is_done : Message → Bool
is_done m = str_eq m.status "completed" && remaining_steps m == 0

-- The stored message, or the new one where none is stored.
unfoldable pub stored_or : Message → String → Result MessageSnapshot → Result Message
unfolding message_from_snapshot is_state_not_found
stored_or fresh id (ok s) = ok (message_from_snapshot s)
stored_or fresh id (err e) = if is_state_not_found e then ok fresh else err (load_failed id e)

module _ {W : Type 0} where
  abbrev pub reply_of : Run W → Reply W
  reply_of (finished e m w) = replied m e w
  reply_of (crashed v m w) = panicking v w

  abbrev pub passed_on : Option (Run W) → Option (Reply W)
  passed_on none = none
  passed_on (some run) = some (reply_of run)

  -- What happens on the way out.
  abbrev pub at_exit : (W → W) → Reply W → Reply W
  at_exit f (replied m e w) = replied m e (f w)
  at_exit f (refused e w) = refused e (f w)
  at_exit f (panicking v w) = panicking v (f w)

  abbrev pub exit_with : (W → W) → Option (Reply W) → Option (Reply W)
  exit_with f none = none
  exit_with f (some reply) = some (at_exit f reply)

module _ {W : Type 0} (world : World W) (platform : Platform W) where
  -- `stringFromPath`.
  text_of : Option Value → Option String
  unfolding itoa
  text_of none = none
  text_of (some null) = none
  text_of (some (str s)) = given s
  text_of (some (int n)) = some (decimal n)
  text_of (some (float x)) = some (platform.format_float x)
  text_of (some (bool b)) = some (if b then "true" else "false")
  text_of (some v) = some (platform.sprint v)

  unfoldable pub string_from_path : Fields → String → Option String
  unfolding text_of value_from_path
  string_from_path payload path = text_of (value_from_path payload path)

  module _ (rt : AppRuntime W) where
    unfoldable pub owner : String
    owner = rt.config.service.name ++ (":" ++ (rt.config.service.run_id ++ (":" ++ platform.pid)))

    abbrev pub lock_switched_off : Bool
    lock_switched_off = elim rt.config.state_store.processing_lock.enabled [
      | none ↦ false
      | some b ↦ not b
    ]

    -- `acquireProcessingLease`.
    unfoldable pub acquire_processing_lease : Context → String → W → Claim × W
    unfolding owner scale64
    acquire_processing_lease ctx id w =
        let ttl = scale64 rt.config.state_store.processing_lock.ttl_seconds 1000000000 in
        let asked : Claim × W = elim rt.store.locker [
          | none ↦ (granted none, w)
          | some locker ↦ let (r, w') = locker.try_acquire ctx id owner ttl w in (claim_of r, w')
        ] in
        if lock_switched_off then (granted none, w) else asked

    -- The deferred release; its error is only logged.
    unfoldable pub release_lease : Option ProcessingLease → W → W
    release_lease none w = w
    release_lease (some lease) w = elim rt.store.locker [
      | none ↦ w
      | some locker ↦ let (e, w') = locker.release background lease w in w'
    ]

    -- The correlation id of the payload, or a new one that is written into it.
    unfoldable pub correlated : Fields → W → String × Fields × W
    unfolding string_from_path force_payload_path
    correlated payload w =
        let path = rt.workflow.correlation_id_path in
        elim (string_from_path payload path) [
          | some id ↦ (id, payload, w)
          | none ↦
              let (id, w') = platform.new_correlation_uuid w in
              (id, force_payload_path path (str id) payload, w')
        ]

    unfoldable pub message_id_of : Fields → String → String
    unfolding string_from_path
    message_id_of payload correlation =
        elim (string_from_path payload rt.workflow.message_id_path) [
          | none ↦ correlation
          | some id ↦ id
        ]

    -- A message that is ready: it is done, or the router processes it.
    unfoldable pub run_message : ℕ → Context → Message → W → Option (Reply W)
    unfolding with_header_trace process
    run_message fuel ctx m w =
        let run = process world rt.router fuel ctx (with_header_trace m) w in
        if is_done m then some (replied m none w) else passed_on run

    -- The message that was found or made.
    unfoldable pub run_loaded :
        ℕ → Context → String → Dict String → Result Message → W → Option (Reply W)
    unfolding prepared run_message
    run_loaded fuel ctx correlation headers (err e) w = some (refused e w)
    run_loaded fuel ctx correlation headers (ok m) w =
        run_message fuel ctx (prepared rt.workflow rt.steps headers correlation m) w

    -- Under the claim.
    unfoldable pub run_claimed :
        ℕ → Context → String → String → Fields → Dict String → W → Option (Reply W)
    unfolding new_message stored_or run_loaded
    run_claimed fuel ctx id correlation payload headers w =
        let (now, w') = world.now w in
        let (found, w'') = rt.store.load ctx id w' in
        run_loaded fuel ctx correlation headers
          (stored_or (new_message id (some payload) now) id found) w''

    -- What follows on the claim.
    unfoldable pub run_under :
        ℕ → Context → String → String → Fields → Dict String → Claim → W → Option (Reply W)
    unfolding release_lease run_claimed
    run_under fuel ctx id correlation payload headers (claim_failed e) w = some (refused e w)
    run_under fuel ctx id correlation payload headers taken w =
        some (refused (processing_locked id) w)
    run_under fuel ctx id correlation payload headers (granted lease) w =
        exit_with (release_lease lease) (run_claimed fuel ctx id correlation payload headers w)

    -- The message id that a payload stands for, and the world once it is settled.
    unfoldable pub named : Fields → W → String × W
    unfolding correlated message_id_of
    named payload w =
        let (correlation, payload', w') = correlated payload w in
        (message_id_of payload' correlation, w')

    unfoldable pub process_payload : ℕ → Context → Fields → Dict String → W → Option (Reply W)
    unfolding correlated message_id_of acquire_processing_lease run_under
    process_payload fuel ctx payload headers w =
        let (correlation, payload', w') = correlated payload w in
        let id = message_id_of payload' correlation in
        let (claim, w'') = acquire_processing_lease ctx id w' in
        run_under fuel ctx id correlation payload' headers claim w''

-- ===== src/Slip/Router/Process.antt =====
-- `Process` of app/slip/slip.go.
pub mod Rule
use routing_slip_pattern.Common.{
  ℕ, zero, suc, String, Bool, ◌&&◌, ◌||◌, not, Option, none, some, str_eq, if◌then◌else◌,
}
use routing_slip_pattern.Common.Text.{is_empty}
use routing_slip_pattern.Common.Dict.{Dict, insert}
use routing_slip_pattern.Slip.Errors.{GoError}
use routing_slip_pattern.Slip.Message.{Message, set_status}
use routing_slip_pattern.Slip.Snapshot.{header}
use routing_slip_pattern.Slip.Trace.{Context, ensure_trace_context}
use routing_slip_pattern.Slip.Router.{World, Router, StateOptions}
use routing_slip_pattern.Slip.Router.Step.{Round, go_on, leave, stop, crash, save_state}
use routing_slip_pattern.Slip.Router.Step.Take.{round}

-- How `Process` ends: it returns, with an error or without, or a panic passes through it.
pub data Run (W : Type 0) : Type 0 where
  finished : Option GoError → Message → W → Run W
  crashed : String → Message → W → Run W

-- The header that the options give, unless the message has it.
abbrev default_header : String → String → Dict String → Dict String
default_header key value headers =
    if not (is_empty value) && is_empty (header key headers)
    then insert key value headers
    else headers

unfoldable pub default_headers : StateOptions → Message → Message
unfolding header insert
default_headers o m = record m {
  headers =
      default_header "workflow_version" o.workflow_version
        (default_header "workflow" o.workflow m.headers);
}

module _ {W : Type 0} (world : World W) (r : Router W) where
  -- Behind the loop.
  unfoldable pub complete : Context → Message → W → Run W
  unfolding set_status save_state
  complete ctx m w =
      let m' =
        if str_eq m.status "running" || is_empty m.status then set_status m "completed" else m in
      let (e, w') = save_state world r ctx m' w in finished e m' w'

  -- The loop; `none` when the fuel runs out.
  unfoldable pub loop : ℕ → Context → Message → W → Option (Run W)
  unfolding round complete
  loop zero ctx m w = none
  loop (suc fuel) ctx m w = elim (round world r ctx m w) [
    | go_on m' w' ↦ loop fuel ctx m' w'
    | leave m' w' ↦ some (complete ctx m' w')
    | stop e m' w' ↦ some (finished (some e) m' w')
    | crash v m' w' ↦ some (crashed v m' w')
  ]

  unfoldable pub process : ℕ → Context → Message → W → Option (Run W)
  unfolding ensure_trace_context set_status default_headers save_state loop
  process fuel ctx m w =
      let (ctx', trace, m', w') = ensure_trace_context world.hex_id ctx m w in
      let m'' = default_headers r.state_options (set_status m' "running") in
      let (e, w'') = save_state world r ctx' m'' w' in
      elim e [ some x ↦ some (finished (some x) m'' w'') | none ↦ loop fuel ctx' m'' w'' ]

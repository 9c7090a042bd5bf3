-- ===== src/Slip/Middleware.antt =====
-- app/slip/middleware.go: the handlers that wrap another. The tracer, the logger and the metrics
-- emitter are outside the library: what they do to the world is a parameter.
pub mod Laws
pub mod Keeps
use Prim.Native.String.{len, ◌++◌}
use routing_slip_pattern.Common.{
  ℕ, String, Bool, true, false, Option, none, some, ◌==◌, if◌then◌else◌,
}
use routing_slip_pattern.Common.Dict.{insert}
use routing_slip_pattern.Value.{Fields}
use routing_slip_pattern.Slip.Errors.{GoError, handler_panic}
use routing_slip_pattern.Slip.Message.{Message}
use routing_slip_pattern.Slip.Trace.{
  Context, HexSource, TraceContext, traceparent, start_trace_span,
}
use routing_slip_pattern.Slip.Router.{Handler, Middleware, Handle, Outcome, returned, panicked}

-- A wrapping handler has the inner handler's name, and hides its `NextCursor`.
abbrev wrap : {W : Type 0} → Handler W → Handle W → Handler W
wrap next handle = record { name = next.name; handle = handle; next_cursor = none }

-- What `recover` makes of a panic.
abbrev pub recovered : String → Outcome → Outcome
recovered name (returned proceed err) = returned proceed err
recovered name (panicked v) = returned false (some (handler_panic name v))

module _ {W : Type 0} where
  logged : (Bool → W → W) → Outcome → W → W
  logged log (returned proceed err) w = log proceed w
  logged log (panicked v) w = w

  -- `log` is the call of the logger: the handler's name, and whether it proceeds.
  unfoldable pub logging_middleware : (String → Bool → W → W) → Middleware W
  unfolding logged
  logging_middleware log next = wrap next λ ctx m params w.
      let (o, m', w') = next.handle ctx m params w in (o, m', logged (log next.name) o w')

  unfoldable pub recovery_middleware : Middleware W
  recovery_middleware next = wrap next λ ctx m params w.
      let (o, m', w') = next.handle ctx m params w in (recovered next.name o, m', w')

  -- `open_span` and `close_span` are the calls of the OpenTelemetry tracer.
  unfoldable pub tracing_middleware :
      HexSource W → (String → Message → W → W) → (Outcome → W → W) → Middleware W
  unfolding start_trace_span insert traceparent
  tracing_middleware hex_id open_span close_span next = wrap next λ ctx m params w.
      let (ctx', t, m', w') = start_trace_span hex_id ctx m w in
      let m'' = record m' {
        attempt = if m'.attempt == 0 then 1 else m'.attempt;
        headers = insert "traceparent" (traceparent t) m'.headers;
      } in
      let (o, m''', w''') = next.handle ctx' m'' params (open_span next.name m'' w') in
      (o, m''', close_span o w''')

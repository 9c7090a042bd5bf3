-- ===== src/Slip/Middleware/Keeps.antt =====
-- app/slip/middleware.go: the middleware leaves the slip and the cursor to the handler that it wraps.
use routing_slip_pattern.Common.{String, Bool}
use routing_slip_pattern.Slip.Message.{Message}
use routing_slip_pattern.Slip.Trace.{
  HexSource, start_trace_span, ensure_trace_context, apply_trace_context,
}
use routing_slip_pattern.Slip.Router.{Outcome}
use routing_slip_pattern.Slip.Router.Progress.Register.{KeepsAround}
use routing_slip_pattern.Slip.Middleware.{
  logging_middleware, recovery_middleware, tracing_middleware,
}

module _ {W : Type 0} where
  pub recovery-KeepsAround : KeepsAround (recovery_middleware {W = W})
  unfolding recovery_middleware
  recovery-KeepsAround h keeps ctx m params w = keeps ctx m params w

  pub logging-KeepsAround : (log : String → Bool → W → W) → KeepsAround (logging_middleware log)
  unfolding logging_middleware
  logging-KeepsAround log h keeps ctx m params w = keeps ctx m params w

  pub tracing-KeepsAround :
      (hex_id : HexSource W) (open_span : String → Message → W → W) (close_span : Outcome → W → W)
      → KeepsAround (tracing_middleware hex_id open_span close_span)
  unfolding tracing_middleware start_trace_span ensure_trace_context apply_trace_context
  tracing-KeepsAround hex_id open_span close_span h keeps ctx m params w = keeps _ _ params _

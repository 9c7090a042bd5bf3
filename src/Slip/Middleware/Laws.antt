-- ===== src/Slip/Middleware/Laws.antt =====
-- app/slip/middleware.go: what a chain of middleware that begins with the recovery guarantees.
use routing_slip_pattern.Common.{
  String, Bool, false, List, ◌∷◌, Option, some, ◌≡◌, refl, ◌⊎◌, inl, inr,
}
use routing_slip_pattern.Value.{Fields}
use routing_slip_pattern.Slip.Errors.{GoError, handler_panic}
use routing_slip_pattern.Slip.Message.{Message}
use routing_slip_pattern.Slip.Trace.{Context}
use routing_slip_pattern.Slip.Router.{
  Handler, Middleware, Outcome, returned, panicked, apply_middleware,
}
use routing_slip_pattern.Slip.Middleware.{recovery_middleware, recovered}

module _ {W : Type 0} where
  -- What a call of the handler that the router keeps does, given what the inner chain did.
  pub Recovers : String → Outcome × Message × W → Outcome × Message × W → Type 0
  Recovers name (inner, m, w) (outer, m', w') =
      (m' ≡ m)
      × (w' ≡ w)
      × (((p : Bool) × (e : Option GoError) × (inner ≡ returned p e) × (outer ≡ returned p e))
          ⊎ ((v : String) × (inner ≡ panicked v)
              × (outer ≡ returned false (some (handler_panic name v)))))

  -- A handler registered under a chain of middleware that begins with the recovery changes the message
  -- and the world as the rest of the chain does, and never panics: it returns what the rest returns,
  -- or, where the rest panics, no leave to proceed and the error that names the handler.
  pub recovery_lem :
      (mws : List (Middleware W)) (h : Handler W) (ctx : Context) (m : Message) (params : Fields)
      (w : W)
      → Recovers
          (apply_middleware mws h).name
          ((apply_middleware mws h).handle ctx m params w)
          ((apply_middleware (recovery_middleware ∷ mws) h).handle ctx m params w)
  unfolding apply_middleware recovery_middleware Recovers
  recovery_lem mws h ctx m params w = judge ((apply_middleware mws h).handle ctx m params w)
    where
      judge :
          (r : Outcome × Message × W)
          → Recovers
              (apply_middleware mws h).name
              r
              (recovered (apply_middleware mws h).name r.0, r.1, r.2)
      judge (returned p e, m', w') = (refl, refl, inl (p, e, refl, refl))
      judge (panicked v, m', w') = (refl, refl, inr (v, refl, refl))

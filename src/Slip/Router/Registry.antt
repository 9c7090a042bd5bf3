-- ===== src/Slip/Router/Registry.antt =====
-- Registering handlers, and the order of the middleware.
use routing_slip_pattern.Common.{
  ℕ, String, List, [], ◌∷◌, ◌++◌, map, Option, none, some, ◌≡◌, refl, ◌≢◌, ap, ◌∙◌, arith, str_eq,
  eq_iff, if◌then◌else◌, ◌⊎◌, inl, inr, Option-cases,
}
use mathlib.Core.List.{append_assoc, append-nil}
use routing_slip_pattern.Common.Dict.{lookup, insert, lookup-insert}
use routing_slip_pattern.Value.{Fields}
use routing_slip_pattern.Slip.Message.{Message}
use routing_slip_pattern.Slip.Trace.{Context}
use routing_slip_pattern.Slip.Router.{
  Router, Handler, Middleware, CursorController, apply_middleware, register, with_controller,
}

module _ {W : Type 0} where
  with_controller_handlers :
      (name : String) (c : Option (CursorController W)) (r : Router W)
      → (with_controller name c r).handlers ≡ r.handlers
  with_controller_handlers name none r = refl
  with_controller_handlers name (some c) r = refl

  lookup-with_controller :
      (name : String) (c : Option (CursorController W)) (r : Router W)
      → lookup name (with_controller name c r).cursor_controllers
        ≡ elim c [ none ↦ lookup name r.cursor_controllers | some k ↦ some k ]
  lookup-with_controller name none r = refl
  lookup-with_controller name (some c) r =
      ground (arith, eq_iff name name, lookup-insert name name c r.cursor_controllers)

  -- `Register` panics exactly at a name that is taken; otherwise the router has the handler wrapped in
  -- the middleware under its name and every other handler as before.
  pub register_lem :
      (r : Router W) (h : Handler W)
      → ((register r h ≡ none) × (lookup h.name r.handlers ≢ none))
        ⊎ ((r' : Router W) × (register r h ≡ some r')
            × (lookup h.name r.handlers ≡ none)
            × ((name : String)
                → lookup name r'.handlers ≡ (
                    if str_eq h.name name
                    then some (apply_middleware r.middleware h)
                    else lookup name r.handlers)))
  unfolding register
  register_lem r h = elim (Option-cases (lookup h.name r.handlers)) [
    | inr (taken, e) ↦ inl (rw (e, register) refl, rw e (λ p. cc))
    | inl e ↦ inr (
      record (with_controller h.name h.next_cursor r) {
        handlers = insert h.name (apply_middleware r.middleware h) r.handlers;
      },
      rw (e, register) refl,
      e,
      λ name. lookup-insert h.name name (apply_middleware r.middleware h) r.handlers,
    )
  ]

-- A middleware that notes its number and calls the next handler.
unfoldable pub noting : ℕ → Middleware (List ℕ)
noting n next = record next {
  handle = λ ctx m params log. next.handle ctx m params (log ++ n ∷ []);
}

-- The middleware that was added first is entered first, and each one added later stands further
-- inside; the handler is called last.
pub apply_middleware_order :
    (h : Handler (List ℕ)) (ns log : List ℕ) (ctx : Context) (m : Message) (params : Fields)
    → (apply_middleware (map noting ns) h).handle ctx m params log
      ≡ h.handle ctx m params (log ++ ns)
unfolding apply_middleware noting
apply_middleware_order h [] log ctx m params = rw append-nil refl
apply_middleware_order h (n ∷ ns) log ctx m params =
    apply_middleware_order h ns (log ++ n ∷ []) ctx m params
    ∙ ap (h.handle ctx m params) (append_assoc log (n ∷ []) ns)

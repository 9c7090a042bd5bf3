-- ===== src/Slip/Router/Progress/Register.antt =====
-- Registering a handler keeps a router going forward; what a handler and the middleware must do for it.
use routing_slip_pattern.Common.{
  String, List, [], ◌∷◌, Option, none, some, ◌≡◌, refl, sym, ◌∙◌, subst, if_rule, option_rule, All,
  str_eq,
}
use routing_slip_pattern.Common.Dict.{Dict, lookup, insert, lookup-insert}
use routing_slip_pattern.Slip.Message.{StepDef}
use routing_slip_pattern.Slip.Router.{
  Router, Handler, Middleware, CursorController, apply_middleware, register, with_controller,
}
use routing_slip_pattern.Slip.Router.Progress.{KeepsRoute, JumpsForward, IsForward}

-- A middleware leaves the route to the handler that it wraps.
abbrev pub KeepsAround : {W : Type 0} → Middleware W → Type 0
KeepsAround {W} mw = (h : Handler W) → KeepsRoute h.handle → KeepsRoute (mw h).handle

abbrev pub ForwardSide : {W : Type 0} → Option (CursorController W) → Type 0
ForwardSide none = Unit
ForwardSide (some c) = JumpsForward c

added :
    {A : Type 0} (P : A → Type 0) (k name : String) (a b : A) (d : Dict A)
    → P a
    → ((name : String) (b : A) → lookup name d ≡ some b → P b)
    → lookup name (insert k a d) ≡ some b
    → P b
added {A} P k name a b d pa old e =
    if_rule (λ (o : Option A). o ≡ some b → P b) (str_eq k name) _ _
      (λ _ q. (let i : a ≡ b = cc in subst P i pa)) (λ _ q. old name b q)
      (sym (lookup-insert k name a d) ∙ e)

module _ {W : Type 0} where
  pub apply_middleware-KeepsRoute :
      (mws : List (Middleware W)) (h : Handler W)
      → All KeepsAround mws
      → KeepsRoute h.handle
      → KeepsRoute (apply_middleware mws h).handle
  unfolding apply_middleware
  apply_middleware-KeepsRoute [] h ks k = k
  apply_middleware-KeepsRoute (mw ∷ mws) h ks k =
      ks.0 (apply_middleware mws h) (apply_middleware-KeepsRoute mws h ks.1 k)

  with_controller_middleware :
      (name : String) (c : Option (CursorController W)) (r : Router W)
      → (with_controller name c r).middleware ≡ r.middleware
  with_controller_middleware name none r = refl
  with_controller_middleware name (some c) r = refl

  with_controller_forward :
      (r : Router W) (s : List StepDef) (k : String) (o : Option (CursorController W))
      → IsForward r s
      → ForwardSide o
      → (name : String) (c : CursorController W)
      → lookup name (with_controller k o r).cursor_controllers ≡ some c
      → JumpsForward c
  with_controller_forward r s k none f side name c = f.controllers_forward name c
  with_controller_forward r s k (some d) f side name c =
      added JumpsForward k name d c r.cursor_controllers side f.controllers_forward

  some_injective : (a b : Router W) → some a ≡ some b → a ≡ b
  some_injective a b q = cc

  pub register-IsForward :
      (r : Router W) (s : List StepDef) (h : Handler W) (r' : Router W)
      → IsForward r s
      → All KeepsAround r.middleware
      → KeepsRoute h.handle
      → ForwardSide h.next_cursor
      → register r h ≡ some r'
      → IsForward r' s × (r'.middleware ≡ r.middleware)
  unfolding register
  register-IsForward r s h r' f ks k c e =
      option_rule
        (λ (o : Option (Router W)). o ≡ some r' → IsForward r' s × (r'.middleware ≡ r.middleware))
        (lookup h.name r.handlers) _ _ (λ _ q. fresh (some_injective _ _ q)) (λ a _ q. cc) e
    where
      wrapped : Handler W
      wrapped = apply_middleware r.middleware h

      fresh :
          record (with_controller h.name h.next_cursor r) {
            handlers = insert h.name wrapped r.handlers;
          }
            ≡ r'
          → IsForward r' s × (r'.middleware ≡ r.middleware)
      fresh q =
          subst (λ (x : Router W). IsForward x s × (x.middleware ≡ r.middleware)) q
            (
              record {
                handlers_keep = λ name g.
                    added (λ (g : Handler W). KeepsRoute g.handle) h.name name wrapped g r.handlers
                      (apply_middleware-KeepsRoute r.middleware h ks k) f.handlers_keep;
                controllers_forward = with_controller_forward r s h.name h.next_cursor f c;
                failures_forward = f.failures_forward;
              },
              with_controller_middleware h.name h.next_cursor r,
            )

-- ===== src/Handlers/Basic/Laws.antt =====
-- app/handlers/handlers.go: what `validate` checks, and that the handlers keep the route.
use routing_slip_pattern.Common.{
  String, Bool, true, false, List, [], ◌∷◌, Option, none, some, ◌≡◌, refl, ◌↔◌, All, if_rule,
  option_rule, if◌then◌else◌,
}
use routing_slip_pattern.Common.Text.{is_empty}
use routing_slip_pattern.Value.{Value, Fields, get}
use routing_slip_pattern.Value.Path.{get_path}
use routing_slip_pattern.Slip.Message.{Message, set}
use routing_slip_pattern.Slip.Trace.{Context}
use routing_slip_pattern.Slip.Router.{Outcome}
use routing_slip_pattern.Slip.Router.Progress.{KeepsRoute}
use routing_slip_pattern.Handlers.ControlFlow.Laws.{proceeds}
use routing_slip_pattern.Handlers.Conditions.{string_param}
use routing_slip_pattern.Handlers.Basic.{
  Printing, string_list_param, is_present, missing_fields, is_stopping, validated, transform_result,
  transformed, gate_closed, validate_handle, transform_handle, condition_handle, audit_handle,
}

module _ (print : Printing) where
  -- The value that a path leads to is there, and neither nil nor printed as the empty text.
  abbrev pub Present : Fields → String → Type 0
  Present payload key = is_present print (get_path payload key) ≡ true

  none_missing :
      (payload : Fields) (keys : List String)
      → missing_fields print payload keys ≡ []
      → All (Present payload) keys
  unfolding missing_fields
  none_missing payload [] h = tt
  none_missing payload (key ∷ keys) h =
      if_rule (λ (r : List String). r ≡ [] → All (Present payload) (key ∷ keys))
        (is_present print (get_path payload key)) _ _ (λ e q. (e, none_missing payload keys q))
        (λ e q. cc) h

  missing_fields-All :
      (payload : Fields) (keys : List String)
      → All (Present payload) keys
      → missing_fields print payload keys ≡ []
  unfolding missing_fields
  missing_fields-All payload [] h = refl
  missing_fields-All payload (key ∷ keys) h = rw h.0 (missing_fields-All payload keys h.1)

  proceeds-validated :
      (keys : List String) (m : Message)
      → proceeds (validated print true keys m).0 ≡ true ↔ (keys ≡ [])
  unfolding validated
  proceeds-validated [] m = ((λ h. refl), (λ h. refl))
  proceeds-validated (key ∷ keys) m = ((λ h. cc), (λ h. cc))

  validated-Same :
      (stop : Bool) (keys : List String) (m : Message)
      → ((validated print stop keys m).1.slip ≡ m.slip)
        × ((validated print stop keys m).1.cursor ≡ m.cursor)
  unfolding validated set
  validated-Same stop [] m = (refl, refl)
  validated-Same true (key ∷ keys) m = (refl, refl)
  validated-Same false (key ∷ keys) m = (refl, refl)

  transform_result-Same :
      (name operation target : String) (m : Message) (v : Option Value)
      → ((transform_result print name operation target m v).1.slip ≡ m.slip)
        × ((transform_result print name operation target m v).1.cursor ≡ m.cursor)
  unfolding transform_result set
  transform_result-Same name operation target m none = (refl, refl)
  transform_result-Same name operation target m (some raw) =
      option_rule (λ (r : Outcome × Message). (r.1.slip ≡ m.slip) × (r.1.cursor ≡ m.cursor))
        (transformed print operation (print.sprint raw)) _ _ (λ _. (refl, refl))
        (λ t _. (refl, refl))

  module _ {W : Type 0} where
    -- `validate`, `transform`, `condition` and `audit` leave the slip and the cursor of every message
    -- as they are.
    pub basic-KeepsRoute :
        KeepsRoute (validate_handle print {W = W})
        × KeepsRoute (transform_handle print {W = W})
        × KeepsRoute (condition_handle print {W = W})
        × KeepsRoute (audit_handle print {W = W})
    unfolding validate_handle transform_handle condition_handle audit_handle set
    basic-KeepsRoute = (
      (λ ctx m params w. validated-Same _ _ m),
      (λ ctx m params w.
          transform_result-Same (string_param "field" params) (string_param "operation" params)
            (if is_empty (string_param "target" params)
              then string_param "field" params
              else string_param "target" params)
            m (get_path m.payload (string_param "field" params))),
      (λ ctx m params w.
          if_rule (λ (r : Outcome × Message × W). (r.1.slip ≡ m.slip) × (r.1.cursor ≡ m.cursor))
            (gate_closed print m.payload params) _ _ (λ _. (refl, refl)) (λ _. (refl, refl))),
      (λ ctx m params w. (refl, refl)),
    )

    -- Unless `stop_on_failure` is false, `validate` proceeds exactly where every required path leads to
    -- a value that is neither nil nor printed as the empty text.
    pub validate_handle-All :
        (ctx : Context) (m : Message) (params : Fields) (w : W)
        → is_stopping print (get "stop_on_failure" params) ≡ true
        → proceeds (validate_handle print ctx m params w).0 ≡ true
          ↔ All (Present m.payload) (string_list_param print (get "required" params))
    unfolding validate_handle
    validate_handle-All ctx m params w stops =
        let keys = string_list_param print (get "required" params) in
        let p = proceeds-validated (missing_fields print m.payload keys) m in
        rw stops
          (λ h. none_missing m.payload keys (p.0 h), λ h. p.1 (missing_fields-All m.payload keys h))

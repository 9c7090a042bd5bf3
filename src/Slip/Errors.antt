-- ===== src/Slip/Errors.antt =====
-- The errors of package slip, one constructor for each `fmt.Errorf` or `errors.New` of the code.
use routing_slip_pattern.Common.{String, Bool, true, false}
use Prim.Native.String.{◌++◌}

pub data GoError : Type 0 where
  text : String → GoError  -- any other error, by its text
  no_handler : String → GoError
  in_step : String → GoError → GoError  -- wraps
  jump_not_found : (step to : String) → GoError
  unknown_action : (step action : String) → GoError
  save_failed : GoError → GoError  -- wraps
  cancelled : GoError → GoError  -- wraps
  handler_panic : (name value : String) → GoError
  state_not_found : String → GoError
  id_required : GoError
  processing_locked : String → GoError  -- wraps ErrProcessingLocked
  load_failed : String → GoError → GoError  -- wraps

-- `err.Error()`; `quote` is `%q` of package fmt.
unfoldable pub error_text : (String → String) → GoError → String
error_text quote (text s) = s
error_text quote (no_handler s) = "no handler registered for step " ++ quote s
error_text quote (in_step s e) = "step " ++ (quote s ++ (": " ++ error_text quote e))
error_text quote (jump_not_found s t) =
    "step " ++ (quote s ++ (": failure jump target " ++ (quote t ++ " not found")))
error_text quote (unknown_action s a) =
    "step " ++ (quote s ++ (": unknown on_failure action " ++ quote a))
error_text quote (save_failed e) = "routing-slip: save state: " ++ error_text quote e
error_text quote (cancelled e) = "context cancelled before completing slip: " ++ error_text quote e
error_text quote (handler_panic n v) = "panic in handler " ++ (quote n ++ (": " ++ v))
error_text quote (state_not_found id) = "routing-slip state not found: " ++ id
error_text quote id_required = "message_id is required for processing lock"
error_text quote (processing_locked id) = "routing-slip message is already being processed: " ++ id
error_text quote (load_failed id e) =
    "load state for message " ++ (quote id ++ (": " ++ error_text quote e))

-- `errors.Is(err, ErrStateNotFound)`.
unfoldable pub is_state_not_found : GoError → Bool
is_state_not_found (state_not_found id) = true
is_state_not_found (in_step s e) = is_state_not_found e
is_state_not_found (save_failed e) = is_state_not_found e
is_state_not_found (cancelled e) = is_state_not_found e
is_state_not_found (load_failed id e) = is_state_not_found e
is_state_not_found _ = false

-- `errors.Is(err, ErrProcessingLocked)`.
unfoldable pub is_processing_locked : GoError → Bool
is_processing_locked (processing_locked id) = true
is_processing_locked (in_step s e) = is_processing_locked e
is_processing_locked (save_failed e) = is_processing_locked e
is_processing_locked (cancelled e) = is_processing_locked e
is_processing_locked (load_failed id e) = is_processing_locked e
is_processing_locked _ = false

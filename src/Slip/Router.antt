-- ===== src/Slip/Router.antt =====
-- The router of app/slip/slip.go: its registry and options. `W` is the state of everything outside
-- the library: the clock, the context's cancellation, the stores, and whatever handlers change.
pub mod Key
pub mod Attempts
pub mod Step
pub mod Process
pub mod Progress
pub mod Registry
pub mod SelfJump
pub mod Idempotency
use routing_slip_pattern.Common.{ℕ, String, Bool, List, [], ◌∷◌, ◌++◌, Option, none, some}
use routing_slip_pattern.Common.Int.{ℤ}
use routing_slip_pattern.Common.Dict.{Dict, lookup, insert}
use routing_slip_pattern.Value.{Fields}
use routing_slip_pattern.Slip.Errors.{GoError}
use routing_slip_pattern.Slip.Message.{Message, StepDef}
use routing_slip_pattern.Slip.Snapshot.{MessageSnapshot}
use routing_slip_pattern.Slip.Trace.{Context, HexSource}

-- What the library takes from its environment.
pub record World (W : Type 0) : Type 0 where
  pub now : W → ℕ × W
  pub ctx_err : W → Option GoError × W  -- `ctx.Err()` of the request's context
  pub sleep : ℤ → W → Option GoError × W  -- the timer, or the error of a context that ends first
  pub hex_id : HexSource W
  pub random : W → (ℕ → ℕ) × W  -- `rand.Int63n`
  pub range : Dict String → W → Dict String × W  -- the order in which a map is iterated
  pub quote : String → String  -- `%q`

-- How a call of `Handle` ends: it returns its two results, or it panics.
pub data Outcome : Type 0 where
  returned : (proceed : Bool) → (err : Option GoError) → Outcome
  panicked : String → Outcome

abbrev pub Handle : Type 0 → Type 0
Handle W = Context → Message → Fields → W → Outcome × Message × W

-- `NextCursor`: the next cursor, whether it changes, and an error. It returns.
pub record NextCursor : Type 0 where
  pub next : ℤ
  pub changed : Bool
  pub err : Option GoError

abbrev pub CursorController : Type 0 → Type 0
CursorController W = Message → StepDef → ℕ → W → NextCursor × Message × W

-- A handler, and its `CursorController` side if it has one.
pub record Handler (W : Type 0) : Type 0 where
  pub name : String
  pub handle : Handle W
  pub next_cursor : Option (CursorController W)

abbrev pub Middleware : Type 0 → Type 0
Middleware W = Handler W → Handler W

-- The constants of `ErrorPolicy`, and any other value of its integer type.
pub data ErrorPolicy : Type 0 where
  stop_on_error continue_on_error skip_on_error other_policy : ErrorPolicy

pub record StateOptions : Type 0 where
  pub workflow : String
  pub workflow_version : String
  pub idempotency_enabled : Bool
  pub idempotency_key_template : String

-- The part of a `StateStore` that the router calls.
abbrev pub Save : Type 0 → Type 0
Save W = Context → MessageSnapshot → W → Option GoError × W

pub record Router (W : Type 0) : Type 0 where
  pub handlers : Dict (Handler W)
  pub cursor_controllers : Dict (CursorController W)
  pub error_policy : ErrorPolicy
  pub middleware : List (Middleware W)
  pub state_store : Option (Save W)
  pub state_options : StateOptions

abbrev pub RouterOption : Type 0 → Type 0
RouterOption W = Router W → Router W

abbrev no_options : StateOptions
no_options = record {
  workflow = "";
  workflow_version = "";
  idempotency_enabled = Bool.false;
  idempotency_key_template = "";
}

module _ {W : Type 0} where
  unfoldable pub with_error_policy : ErrorPolicy → RouterOption W
  with_error_policy p r = record r { error_policy = p }

  unfoldable pub with_middleware : List (Middleware W) → RouterOption W
  with_middleware mw r = record r { middleware = r.middleware ++ mw }

  unfoldable pub with_state_store : Save W → RouterOption W
  with_state_store store r = record r { state_store = some store }

  unfoldable pub with_state_options : StateOptions → RouterOption W
  with_state_options options r = record r { state_options = options }

  abbrev empty_router : Router W
  empty_router = record {
    handlers = [];
    cursor_controllers = [];
    error_policy = stop_on_error;
    middleware = [];
    state_store = none;
    state_options = no_options;
  }

  apply_options : Router W → List (RouterOption W) → Router W
  apply_options r [] = r
  apply_options r (o ∷ os) = apply_options (o r) os

  unfoldable pub new_router : List (RouterOption W) → Router W
  unfolding apply_options
  new_router opts = apply_options empty_router opts

  -- The loop from the last middleware down to the first.
  unfoldable pub apply_middleware : List (Middleware W) → Handler W → Handler W
  apply_middleware [] h = h
  apply_middleware (mw ∷ mws) h = mw (apply_middleware mws h)

  abbrev with_controller : String → Option (CursorController W) → Router W → Router W
  with_controller name none r = r
  with_controller name (some c) r = record r {
    cursor_controllers = insert name c r.cursor_controllers;
  }

  -- `Register`; `none` is the panic at a name that is taken.
  unfoldable pub register : Router W → Handler W → Option (Router W)
  unfolding lookup insert apply_middleware
  register r h = elim (lookup h.name r.handlers) [
    | some taken ↦ none
    | none ↦
        let r' = with_controller h.name h.next_cursor r in
        some (record r' { handlers = insert h.name (apply_middleware r.middleware h) r.handlers })
  ]

-- ===== src/Slip/Router/Progress.antt =====
-- Every round of the router moves the cursor forward, so `Process` ends.
pub mod Failures
pub mod Steps
pub mod Attempts
pub mod Rounds
pub mod Loop
pub mod Register
use routing_slip_pattern.Common.{
  ℕ, zero, suc, ◌+◌, ◌-◌, ◌≤◌, ◌<◌, ◌≡◌, refl, String, Bool, true, false, List, Option, none, some,
  length, get_elem?, arith, str_eq, Option-cases, Bool-cases, inl, inr, if◌then◌else◌, if_rule,
  option_rule, eq_iff, get_elem?-some_lt, sym, ◌∙◌, ap,
}
use routing_slip_pattern.Common.Int.{ℤ, pos, negsuc}
use routing_slip_pattern.Common.Dict.{lookup}
use routing_slip_pattern.Common.Text.{trim_space}
use routing_slip_pattern.Value.{Fields}
use routing_slip_pattern.Slip.Errors.{GoError, no_handler, in_step, jump_not_found, unknown_action}
use routing_slip_pattern.Slip.Resilience.{failure_action}
use routing_slip_pattern.Slip.Message.{
  Message, StepDef, next_step, set_cursor, set_status, add_error, add_history, history_entry,
  mark_step_running, mark_step_finished, find_step_index,
}
use routing_slip_pattern.Slip.Message.Cursor.{set_cursor_exact}
use routing_slip_pattern.Slip.Trace.{Context, background}
use routing_slip_pattern.Slip.Router.{
  World, Router, Handler, Handle, CursorController, NextCursor, Outcome, returned, panicked,
  ErrorPolicy, stop_on_error, continue_on_error, skip_on_error, other_policy,
}
use routing_slip_pattern.Slip.Router.Attempts.{
  Attempt, done, retry, context_err, judge, pause, attempt_once, attempts_from, handle_step,
}
use routing_slip_pattern.Slip.Router.Step.Post.{
  Contract, Post, Post-save_and_go, Post-fail_at, Post-close_step,
}
use routing_slip_pattern.Slip.Router.Step.{
  given_up, Round, go_on, leave, stop, crash, Running, is_stop_on_error, save_state, save_and_go,
  fail_at, record_error, finish_state, missing_handler, give_up_step, handle_step_failure,
}
use routing_slip_pattern.Slip.Router.Step.Take.{
  apply_jump, redirect, close_step, finish_step, apply_policy, failed_step, conclude, execute,
  known_step, taken_step, round,
}

-- The message still has slip `s`, and its cursor is in range.
abbrev pub Fits : List StepDef → Message → Type 0
Fits s m = (m.slip ≡ s) × (m.cursor ≤ length s)

-- Besides, the cursor is behind index `n`.
abbrev pub Beyond : List StepDef → ℕ → Message → Type 0
Beyond s n m = (m.slip ≡ s) × (m.cursor ≤ length s) × (n < m.cursor)

-- The step that an error of the router is about, by its name.
abbrev pub failed_name : GoError → Option String
failed_name (no_handler name) = some name
failed_name (in_step name e) = some name
failed_name (jump_not_found name to) = some name
failed_name (unknown_action name action) = some name
failed_name _ = none

-- The message has status "failed" and its cursor at a step of that name.
pub record StandsAt (name : String) (m : Message) : Type 0 where
  pub status_failed : m.status ≡ "failed"
  pub step : StepDef
  pub at_cursor : get_elem? m.slip m.cursor ≡ some step
  pub named : step.name ≡ name

abbrev pub Stopped : Option String → Message → Type 0
Stopped none m = Unit
Stopped (some name) m = StandsAt name m

-- A round that goes on leaves the cursor behind `n`; any other end leaves it in range, and an error
-- about a step leaves it at that step.
abbrev pub forward : List StepDef → ℕ → Contract
forward s n = record {
  goes = Beyond s n;
  leaves = Fits s;
  stops = λ e m. Fits s m × Stopped (failed_name e) m;
  crashes = Fits s;
}

-- A handler leaves the slip and the cursor alone, as those of app/handlers do: both fields are
-- private to package slip, and no handler calls `AttachSlip` or `NextStep`.
abbrev pub KeepsRoute : {W : Type 0} → Handle W → Type 0
KeepsRoute {W} handle =
    (ctx : Context) (m : Message) (params : Fields) (w : W)
    → ((handle ctx m params w).1.slip ≡ m.slip) × ((handle ctx m params w).1.cursor ≡ m.cursor)

-- So does a controller, and where it changes the cursor, it moves it behind the current step, as
-- `NextCursor` of `jump_if` does.
abbrev pub JumpsForward : {W : Type 0} → CursorController W → Type 0
JumpsForward {W} c =
    (m : Message) (step : StepDef) (i : ℕ) (w : W)
    → ((c m step i w).1.slip ≡ m.slip)
      × ((c m step i w).1.cursor ≡ m.cursor)
      × ((c m step i w).0.changed ≡ true → (k : ℕ) × ((c m step i w).0.next ≡ pos k) × (i < k))

pub record IsForward {W : Type 0} (r : Router W) (s : List StepDef) : Type 0 where
  pub handlers_keep :
      (name : String) (h : Handler W) → lookup name r.handlers ≡ some h → KeepsRoute h.handle
  pub controllers_forward :
      (name : String) (c : CursorController W)
      → lookup name r.cursor_controllers ≡ some c
      → JumpsForward c
  pub failures_forward :
      (m : Message) (i j : ℕ) (step : StepDef)
      → m.slip ≡ s
      → get_elem? s i ≡ some step
      → failure_action step.resilience ≡ "jump"
      → find_step_index m step.resilience.on_failure.to ≡ some j
      → i < j

-- The step that runs is the one at its index of the slip.
abbrev pub AtStep : List StepDef → Running → Type 0
AtStep s run = get_elem? s run.index ≡ some run.step

pub set_cursor-Fits :
    (s : List StepDef) (m : Message) (c : ℤ) → m.slip ≡ s → Fits s (set_cursor m c)
unfolding set_cursor
set_cursor-Fits s m (pos c) e = ground (arith, ap (length {A = StepDef}) e)
set_cursor-Fits s m (negsuc c) e = ground arith

-- A cursor set behind `n` stays behind it, also where it is cut to the length.
pub set_cursor-Beyond :
    (s : List StepDef) (n c : ℕ) (m : Message)
    → m.slip ≡ s
    → n < length s
    → n < c
    → Beyond s n (set_cursor m (pos c))
unfolding set_cursor
set_cursor-Beyond s n c m e h l = ground (arith, ap (length {A = StepDef}) e)

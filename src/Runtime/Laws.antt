-- ===== src/Runtime/Laws.antt =====
-- `processPayload` of app/triggers.go ends, and gives its claim back.
use routing_slip_pattern.Common.{
  ℕ, ◌-◌, ◌≤◌, ◌<◌, String, true, ◌&&◌, List, [], ◌∷◌, ◌++◌, Option, none, some, ◌≡◌, refl, sym,
  subst, ap, if_rule, Bool-cases, inl, inr, arith, length, ◌==◌,
}
use routing_slip_pattern.Common.Dict.{Dict}
use routing_slip_pattern.Common.Text.{is_empty}
use routing_slip_pattern.Value.{Fields}
use routing_slip_pattern.Slip.Errors.{is_state_not_found}
use routing_slip_pattern.Slip.Message.{Message, StepDef, new_message, attach_slip, remaining_steps}
use routing_slip_pattern.Slip.Message.Cursor.{IsWithin, set_cursor_slip, set_cursor-IsWithin}
use routing_slip_pattern.Slip.Snapshot.{MessageSnapshot, message_from_snapshot, loaded}
use routing_slip_pattern.Slip.Trace.{Context, TraceContext}
use routing_slip_pattern.Slip.Router.{World, Router}
use routing_slip_pattern.Slip.Router.Progress.{IsForward}
use routing_slip_pattern.Slip.Router.Progress.Loop.{process_terminates}
use routing_slip_pattern.Slip.Store.Memory.{Result, ok, err}
use routing_slip_pattern.Runtime.{
  Platform, AppRuntime, Reply, replied, refused, Claim, claim_failed, taken, granted, prepared,
  adopt, with_header_trace, is_done, reply_of, release_lease, run_message, stored_or, run_loaded,
  run_claimed, run_under, process_payload, at_exit, named, acquire_processing_lease,
}

-- A slip that the fuel is enough for: its jumps go forward, and it is shorter than the fuel.
pub record Served {W : Type 0} (r : Router W) (fuel : ℕ) (s : List StepDef) : Type 0 where
  pub forward : IsForward r s
  pub short : length s < fuel

-- A message with such a slip, and its cursor in range.
abbrev Ready : {W : Type 0} → Router W → ℕ → Message → Type 0
Ready r fuel m = Served r fuel m.slip × IsWithin m

-- A slip of no steps that are left, at cursor 0.
empty_slip : (s : List StepDef) (c : ℕ) → (length s - c == 0 && c == 0) ≡ true → s ≡ []
empty_slip [] c e = refl
empty_slip (x ∷ s) c e = ground (arith, e)

-- The trace that the headers name is all that changes.
adopt-Ready :
    {W : Type 0} (r : Router W) (fuel : ℕ) (t : Option TraceContext) (other : String) (m : Message)
    → Ready r fuel m
    → Ready r fuel (adopt t other m)
unfolding adopt
adopt-Ready r fuel (some t) other m h = h
adopt-Ready r fuel none other m h =
    if_rule (Ready r fuel) (is_empty other) m (record m { trace_id = other }) (λ _. h) (λ _. h)

with_header_trace-Ready :
    {W : Type 0} (r : Router W) (fuel : ℕ) (m : Message)
    → Ready r fuel m
    → Ready r fuel (with_header_trace m)
unfolding with_header_trace
with_header_trace-Ready r fuel m h = adopt-Ready r fuel _ _ m h

module _ {W : Type 0} (world : World W) (platform : Platform W) (rt : AppRuntime W) (fuel : ℕ) where
  prepared-Ready :
      (headers : Dict String) (correlation : String) (m : Message)
      → Served rt.router fuel rt.steps
      → Ready rt.router fuel m
      → Ready rt.router fuel (prepared rt.workflow rt.steps headers correlation m)
  unfolding prepared attach_slip remaining_steps
  prepared-Ready headers correlation m steps h =
      if_rule (Ready rt.router fuel) (length m.slip - m.cursor == 0 && m.cursor == 0)
        (attach_slip m rt.steps) m
        (λ e.
          subst
            (λ (s : List StepDef).
              Served rt.router fuel (s ++ rt.steps) × (m.cursor ≤ length (s ++ rt.steps)))
            (sym (empty_slip m.slip m.cursor e)) (steps, ground (arith, e)))
        (λ _. h)

  run_message-returns :
      (ctx : Context) (m : Message) (w : W)
      → Ready rt.router fuel m
      → (reply : Reply W) × (run_message world platform rt fuel ctx m w ≡ some reply)
  unfolding run_message
  run_message-returns ctx m w h =
      let (s, within) = with_header_trace-Ready rt.router fuel m h in
      let (run, e, _) =
        process_terminates world rt.router fuel ctx (with_header_trace m) w s.forward within
          (unfold remaining_steps in omega (arith, s.short)) in
      if_rule (λ o. (reply : Reply W) × (o ≡ some reply)) (is_done m) _ _
        (λ _. (replied m none w, refl)) (λ _. (reply_of run, rw e refl))

Served-nil :
    {W : Type 0} (r : Router W) (fuel : ℕ) (s : List StepDef) → Served r fuel s → Served r fuel []
Served-nil r fuel s h = record {
  forward = record {
    handlers_keep = h.forward.handlers_keep;
    controllers_forward = h.forward.controllers_forward;
    failures_forward = λ m i j step e found. absurd (ground (arith, found));
  };
  short = omega (arith, h.short);
}

-- The slip of the snapshot that the store gives back for that id in that world, if it gives one.
abbrev pub LoadServed : {W : Type 0} → AppRuntime W → ℕ → Context → String → W → Type 0
LoadServed {W} rt fuel ctx id w =
    (s : MessageSnapshot) (w' : W)
    → rt.store.load ctx id w ≡ (ok s, w')
    → Served rt.router fuel s.slip

module _ {W : Type 0} (world : World W) (platform : Platform W) (rt : AppRuntime W) (fuel : ℕ) where
  loaded-Ready :
      (s : MessageSnapshot)
      → Served rt.router fuel s.slip
      → Ready rt.router fuel (message_from_snapshot s)
  unfolding message_from_snapshot
  loaded-Ready s h = (
    subst (Served rt.router fuel) (sym (set_cursor_slip (loaded s) s.cursor)) h,
    set_cursor-IsWithin (loaded s) s.cursor,
  )

  new_message-Ready :
      (id : String) (payload : Fields) (now : ℕ)
      → Served rt.router fuel rt.steps
      → Ready rt.router fuel (new_message id (some payload) now)
  unfolding new_message
  new_message-Ready id payload now h = (Served-nil rt.router fuel rt.steps h, omega arith)

  -- What is stored, or the new message.
  stored_or-Ready :
      (fresh : Message) (id : String) (r : Result MessageSnapshot)
      → Ready rt.router fuel fresh
      → ((s : MessageSnapshot) → r ≡ ok s → Served rt.router fuel s.slip)
      → (m : Message) → stored_or fresh id r ≡ ok m
      → Ready rt.router fuel m
  unfolding stored_or
  stored_or-Ready fresh id (ok s) h served m e =
      subst (Ready rt.router fuel) {x = message_from_snapshot s} {y = m} (cc)
        (loaded-Ready s (served s refl))
  stored_or-Ready fresh id (err x) h served m e = elim (Bool-cases (is_state_not_found x)) [
    | inl found ↦ subst (Ready rt.router fuel) {x = fresh} {y = m} (ground (arith, e, found)) h
    | inr other ↦ absurd (ground (arith, e, other))
  ]

  run_loaded-returns :
      (ctx : Context) (correlation : String) (headers : Dict String) (r : Result Message) (w : W)
      → Served rt.router fuel rt.steps
      → ((m : Message) → r ≡ ok m → Ready rt.router fuel m)
      → (reply : Reply W) × (run_loaded world platform rt fuel ctx correlation headers r w
          ≡ some reply)
  unfolding run_loaded
  run_loaded-returns ctx correlation headers (err e) w steps h = (refused e w, refl)
  run_loaded-returns ctx correlation headers (ok m) w steps h =
      run_message-returns world platform rt fuel ctx _ w
        (prepared-Ready world platform rt fuel headers correlation m steps (h m refl))

  run_claimed-returns :
      (ctx : Context) (id correlation : String) (payload : Fields) (headers : Dict String) (w : W)
      → Served rt.router fuel rt.steps
      → LoadServed rt fuel ctx id (world.now w).1
      → (reply : Reply W) × (run_claimed world platform rt fuel ctx id correlation payload headers w
          ≡ some reply)
  unfolding run_claimed
  run_claimed-returns ctx id correlation payload headers w steps served =
      let now = world.now w in
      let found = rt.store.load ctx id now.1 in
      run_loaded-returns ctx correlation headers _ found.1 steps (
        stored_or-Ready (new_message id (some payload) now.0) id found.0
          (new_message-Ready id payload now.0 steps)
          (λ s e. served s found.1 (ap (λ r. (r, found.1)) e)))

  run_under-returns :
      (ctx : Context) (id correlation : String) (payload : Fields) (headers : Dict String)
      (claim : Claim) (w : W)
      → Served rt.router fuel rt.steps
      → LoadServed rt fuel ctx id (world.now w).1
      → (reply : Reply W) × (run_under world platform rt fuel ctx id correlation payload headers
            claim w
          ≡ some reply)
  unfolding run_under
  run_under-returns ctx id correlation payload headers (claim_failed e) w steps served = (_, refl)
  run_under-returns ctx id correlation payload headers taken w steps served = (_, refl)
  run_under-returns ctx id correlation payload headers (granted lease) w steps served =
      let (reply, e) = run_claimed-returns ctx id correlation payload headers w steps served in
      (at_exit (release_lease world platform rt lease) reply, rw e refl)

-- `processPayload` returns, with an answer, an error or a panic, whatever the payload and the claim,
-- under these conditions: no handler touches the slip or the cursor; on the slip of the workflow, and
-- on the slip of the snapshot that this call loads if it loads one, controllers and failure jumps go
-- forward only; and the fuel is more than the steps of either slip.
pub process_payload_returns :
    {W : Type 0} (world : World W) (platform : Platform W) (rt : AppRuntime W) (fuel : ℕ)
    (ctx : Context) (payload : Fields) (headers : Dict String) (w : W)
    → Served rt.router fuel rt.steps
    → (let (id, w') = named world platform rt payload w in
        let (claim, w'') = acquire_processing_lease world platform rt ctx id w' in
        LoadServed rt fuel ctx id (world.now w'').1)
    → (reply : Reply W) × (process_payload world platform rt fuel ctx payload headers w
        ≡ some reply)
unfolding process_payload named
process_payload_returns world platform rt fuel ctx payload headers w steps served =
    run_under-returns world platform rt fuel ctx _ _ _ headers _ _ steps served

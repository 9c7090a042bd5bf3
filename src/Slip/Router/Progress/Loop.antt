-- ===== src/Slip/Router/Progress/Loop.antt =====
-- The loop of `Process` ends: every round that goes on has moved the cursor.
use routing_slip_pattern.Common.{
  ℕ, ◌-◌, ◌<◌, ◌≡◌, refl, List, Option, none, some, length, arith, str_eq, inl, inr, if_rule,
  if◌then◌else◌, option_rule, ap, ◌||◌, Option-cases,
}
use routing_slip_pattern.Slip.Message.{Message, StepDef, set_status, remaining_steps}
use routing_slip_pattern.Slip.Message.Cursor.{IsWithin}
use routing_slip_pattern.Slip.Trace.{Context, ensure_trace_context, apply_trace_context}
use routing_slip_pattern.Slip.Router.{World, Router}
use routing_slip_pattern.Slip.Router.Step.{Round, go_on, leave, stop, crash, save_state}
use routing_slip_pattern.Slip.Router.Step.Take.{round}
use routing_slip_pattern.Slip.Router.Step.Post.{Post, save_state_error}
use routing_slip_pattern.Slip.Router.Process.{
  Run, finished, crashed, complete, loop, process, default_headers,
}
use routing_slip_pattern.Slip.Router.Process.Rule.{Good, loop_rule}
use routing_slip_pattern.Common.Text.{is_empty}
use routing_slip_pattern.Slip.Router.Progress.{Fits, failed_name, Stopped, forward, IsForward}
use routing_slip_pattern.Slip.Router.Progress.Rounds.{forward-round}

-- The message at the end of a run has the slip, and its cursor in range; where an error about a step
-- is returned, the message stands at that step.
abbrev pub EndFits : {W : Type 0} → List StepDef → Run W → Type 0
EndFits s (finished none m w) = Fits s m
EndFits s (finished (some e) m w) = Fits s m × Stopped (failed_name e) m
EndFits s (crashed v m w) = Fits s m

module _ {W : Type 0} (world : World W) (r : Router W) (s : List StepDef) (f : IsForward r s) where
  complete-EndFits :
      (ctx : Context) (m : Message) (w : W) → Fits s m → EndFits s (complete world r ctx m w)
  unfolding complete
  complete-EndFits ctx m w h =
      let m' : Message =
        if str_eq m.status "running" || is_empty m.status then set_status m "completed" else m in
      let fits : Fits s m' =
        if_rule (Fits s) (str_eq m.status "running" || is_empty m.status) _ _
          (λ _. unfold set_status in h) (λ _. h) in
      elim (Option-cases (save_state world r ctx m' w).0) [
        | inl e ↦ rw (e, complete) fits
        | inr (x, e) ↦
            let (y, wrapped) = save_state_error world r (forward s 0) ctx m' w x e in
            rw (e, complete) (rw wrapped (fits, tt))
      ]

  round-Good :
      (ctx : Context) (m : Message) (d : Round W)
      → Fits s m
      → Post (forward s m.cursor) d
      → Good world r ctx (Fits s) (λ n. length s - n.cursor) (EndFits s) m d
  round-Good ctx m (go_on m' w) h p = ((p.0, p.1), omega (arith, p.1, p.2))
  round-Good ctx m (leave m' w) h p = complete-EndFits ctx m' w p
  round-Good ctx m (stop e m' w) h p = p
  round-Good ctx m (crash v m' w) h p = p

  -- The loop ends within one round more than there are steps left.
  pub loop_ends :
      (fuel : ℕ) (ctx : Context) (m : Message) (w : W)
      → Fits s m
      → length s - m.cursor < fuel
      → (run : Run W) × (loop world r fuel ctx m w ≡ some run) × EndFits s run
  loop_ends fuel ctx m w h l =
      loop_rule world r ctx (Fits s) (λ n. length s - n.cursor) (EndFits s)
        (λ n v g. round-Good ctx n (round world r ctx n v) g (forward-round world r s f ctx n v g))
        fuel m w h l

  process_ends :
      (fuel : ℕ) (ctx : Context) (m : Message) (w : W)
      → Fits s m
      → remaining_steps m < fuel
      → (run : Run W) × (process world r fuel ctx m w ≡ some run) × EndFits s run
  unfolding process
  process_ends fuel ctx m w h l =
      let p = ensure_trace_context world.hex_id ctx m w in
      let m' = default_headers r.state_options (set_status p.2 "running") in
      let same : Fits s m' =
        unfold ensure_trace_context apply_trace_context default_headers set_status in h in
      let q = save_state world r p.0 m' p.3 in
      option_rule (λ (o : Option (Run W)). (run : Run W) × (o ≡ some run) × EndFits s run) q.0 _ _
        (λ _.
          loop_ends fuel p.0 m' q.1 same
            (unfold remaining_steps in omega (arith, ap (length {A = StepDef}) h.0)))
        (λ x failed.
          let (y, wrapped) = save_state_error world r (forward s 0) p.0 m' p.3 x failed in
          (finished (some x) m' q.1, refl, (same, rw wrapped tt)))

-- `Process` ends: where no handler touches the slip or the cursor, and controllers and failure jumps
-- go forward only, one round more than the remaining steps is enough fuel. It returns, or a panic of
-- a handler passes through it; the slip is the same, and the cursor is in range. Where it returns an
-- error about a step, the message has status "failed" and its cursor at a step of that name.
pub process_terminates :
    {W : Type 0} (world : World W) (r : Router W) (fuel : ℕ) (ctx : Context) (m : Message) (w : W)
    → IsForward r m.slip
    → IsWithin m
    → remaining_steps m < fuel
    → (run : Run W) × (process world r fuel ctx m w ≡ some run) × EndFits m.slip run
process_terminates world r fuel ctx m w f h l =
    process_ends world r m.slip f fuel ctx m w (refl, h) l

-- ===== src/Slip/Router/Progress/Rounds.antt =====
-- One round of the loop: where it goes on, the cursor has moved.
use routing_slip_pattern.Common.{
  ℕ, ◌+◌, ◌≡◌, refl, true, List, some, get_elem?, arith, inl, inr, if_rule, option_rule,
  get_elem?-some_lt, sym, ◌∙◌, ap,
}
use routing_slip_pattern.Common.Int.{pos}
use routing_slip_pattern.Common.Dict.{lookup}
use routing_slip_pattern.Slip.Errors.{no_handler}
use routing_slip_pattern.Slip.Message.{
  Message, StepDef, next_step, set_cursor, set_status, add_history, history_entry,
  mark_step_running,
}
use routing_slip_pattern.Slip.Message.Cursor.{next_step_cases}
use routing_slip_pattern.Slip.Trace.{Context}
use routing_slip_pattern.Slip.Router.{World, Router, Handler}
use routing_slip_pattern.Slip.Router.Key.{step_execution_key}
use routing_slip_pattern.Slip.Router.Attempts.{context_err, handle_step}
use routing_slip_pattern.Slip.Router.Step.{
  Running, is_stop_on_error, save_state, record_error, missing_handler,
}
use routing_slip_pattern.Slip.Router.Step.Take.{execute, known_step, taken_step, take, round}
use routing_slip_pattern.Slip.Router.Step.Post.{Post, save_state_error}
use routing_slip_pattern.Slip.Router.Progress.{
  Fits, Beyond, forward, IsForward, set_cursor-Fits, set_cursor-Beyond,
}
use routing_slip_pattern.Slip.Router.Progress.Failures.{forward-save_and_go, forward-fail_at}
use routing_slip_pattern.Slip.Router.Progress.Steps.{record_error-Beyond, forward-conclude}
use routing_slip_pattern.Slip.Router.Progress.Attempts.{handle_step-SameRoute}

module _ {W : Type 0} (world : World W) (r : Router W) (s : List StepDef) (f : IsForward r s) where
  forward-execute :
      (ctx : Context) (run : Running) (h : Handler W) (m : Message) (w : W)
      → lookup run.step.name r.handlers ≡ some h
      → get_elem? s run.index ≡ some run.step
      → Beyond s run.index m
      → Post (forward s run.index) (execute world r ctx run h m w)
  unfolding execute
  forward-execute ctx run h m w found at b =
      let m' = mark_step_running m run.key run.step run.index run.start in
      let marked : Beyond s run.index m' = unfold mark_step_running in b in
      let p = save_state world r ctx m' w in
      option_rule (Post (forward s run.index)) p.0 _ _
        (λ _.
          let q = handle_step world ctx m' run.step h.handle p.1 in
          let same =
            handle_step-SameRoute world h.handle (f.handlers_keep run.step.name h found) ctx m'
              run.step p.1 in
          forward-conclude world r s f ctx run q.0 q.1 q.2 at
            (same.0 ∙ marked.0, rw same.1 marked.1, rw same.1 marked.2))
        (λ x failed.
          let (y, wrapped) = save_state_error world r (forward s run.index) ctx m' w x failed in
          rw wrapped ((marked.0, marked.1), tt))

  forward-known_step :
      (ctx : Context) (step : StepDef) (index : ℕ) (h : Handler W) (m : Message) (w : W)
      → lookup step.name r.handlers ≡ some h
      → get_elem? s index ≡ some step
      → Beyond s index m
      → Post (forward s index) (known_step world r ctx step index h m w)
  unfolding known_step
  forward-known_step ctx step index h m w found at b =
      let p = world.now w in
      let k = step_execution_key world r.state_options m step index p.1 in
      let run : Running = record { step = step; index = index; key = k.0; start = p.0 } in
      let skipped = add_history m (history_entry m step.name p.0 0 true "idempotent_skip") in
      if_rule (Post (forward s index)) _ _ _
        (λ _. forward-save_and_go world r s index ctx (set_cursor skipped (pos (index + 1))) k.1 (
          set_cursor-Beyond s index (index + 1) skipped (unfold add_history in b.0)
            (get_elem?-some_lt s index step at) (omega arith)))
        (λ _. forward-execute ctx run h m k.1 found at b)

  forward-taken_step :
      (ctx : Context) (step : StepDef) (index : ℕ) (m : Message) (w : W)
      → get_elem? s index ≡ some step
      → m.slip ≡ s
      → Post (forward s index) (taken_step world r ctx step index m w)
  unfolding taken_step missing_handler
  forward-taken_step ctx step index m w at e =
      let at_step = set_cursor m (pos index) in
      let here : Fits s at_step = set_cursor-Fits s m (pos index) e in
      let p = save_state world r ctx at_step w in
      let m' = set_cursor at_step (pos (index + 1)) in
      let b : Beyond s index m' =
        set_cursor-Beyond s index (index + 1) at_step here.0 (get_elem?-some_lt s index step at)
          (omega arith) in
      let q = record_error world r step.name (no_handler step.name) m' p.1 in
      let recorded =
        record_error-Beyond world r s f index step.name (no_handler step.name) m' p.1 b in
      option_rule (Post (forward s index)) p.0 _ _
        (λ _.
          option_rule (Post (forward s index)) (lookup step.name r.handlers) _ _
            (λ _.
              if_rule (Post (forward s index)) (is_stop_on_error r.error_policy) _ _
                (λ _.
                  forward-fail_at world r s index index (no_handler step.name) step q.0 q.1
                    recorded.0 at refl)
                (λ _. forward-save_and_go world r s index ctx q.0 q.1 recorded))
            (λ h found. forward-known_step ctx step index h m' p.1 found at b))
        (λ x failed.
          let (y, wrapped) = save_state_error world r (forward s index) ctx at_step w x failed in
          rw wrapped (here, tt))

  forward-take :
      (ctx : Context) (m : Message) (w : W)
      → Fits s m
      → Post (forward s m.cursor) (take world r ctx m.cursor (next_step m) w)
  forward-take ctx m w h = elim (next_step_cases m) [
    | inl (e, _) ↦ rw e (unfold take in h)
    | inr (step, e, at, _) ↦ rw e (
        unfold take in
        forward-taken_step ctx step m.cursor (record m { cursor = m.cursor + 1 }) w
          (ap (λ (t : List StepDef). get_elem? t m.cursor) (sym h.0) ∙ at) h.0)
  ]

  -- A round from a message with this slip and its cursor in range: if it goes on, the cursor has moved
  -- forward and is in range still; however it ends, the slip is the same.
  pub forward-round :
      (ctx : Context) (m : Message) (w : W)
      → Fits s m
      → Post (forward s m.cursor) (round world r ctx m w)
  unfolding round
  forward-round ctx m w h =
      let p = context_err world ctx w in
      option_rule (Post (forward s m.cursor)) p.0 _ _ (λ _. forward-take ctx m p.1 h)
        (λ _ _. (unfold set_status in h, tt))

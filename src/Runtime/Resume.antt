-- ===== src/Runtime/Resume.antt =====
-- `processPayload` of app/triggers.go on a message that is stored: where it goes on.
use routing_slip_pattern.Common.{
  ℕ, String, Bool, true, false, ◌&&◌, none, some, ◌≡◌, length, ◌<◌, ◌==◌, refl, ap, ◌∙◌, arith,
  List, map, if◌then◌else◌,
}
use routing_slip_pattern.Common.Dict.{Dict, insert}
use routing_slip_pattern.Common.Text.{is_empty}
use routing_slip_pattern.Value.{Fields}
use routing_slip_pattern.Slip.Message.{Message, StepDef, remaining_steps}
use routing_slip_pattern.Slip.Message.Cursor.{IsWithin}
use routing_slip_pattern.Slip.Snapshot.{MessageSnapshot, snapshot, message_from_snapshot}
use routing_slip_pattern.Slip.Snapshot.RoundTrip.{message_from_snapshot-snapshot, as_text}
use routing_slip_pattern.Slip.Trace.{Context}
use routing_slip_pattern.Slip.Router.{World}
use routing_slip_pattern.Slip.Router.Process.{process}
use routing_slip_pattern.Slip.Store.Memory.{ok}
use routing_slip_pattern.Runtime.{
  Platform, AppRuntime, replied, prepared, with_header_trace, is_done, passed_on, run_message,
  run_loaded, run_claimed, stored_or, put_headers,
}
use routing_slip_pattern.Config.{WorkflowConfig}
use routing_slip_pattern.Runtime.Continues.{
  Continues, adopt-Continues, all_but_headers, other_errors,
}

-- No step of the message is done or left.
abbrev pub is_new : Message → Bool
is_new m = remaining_steps m == 0 && m.cursor == 0

-- The headers that a message is prepared with.
prepared_headers : WorkflowConfig → Dict String → Message → Dict String
prepared_headers workflow headers m =
    let named = insert "workflow" workflow.name (put_headers headers m.headers) in
    insert "correlation_id" m.correlation_id (
      if is_empty workflow.version then named else insert "workflow_version" workflow.version named)

-- A message that has begun and has a correlation id is prepared by its headers alone.
prepared_begun :
    (workflow : WorkflowConfig) (steps : List StepDef) (headers : Dict String)
    (correlation : String) (m : Message)
    → is_new m ≡ false
    → is_empty m.correlation_id ≡ false
    → prepared workflow steps headers correlation m
      ≡ record m { headers = prepared_headers workflow headers m }
unfolding prepared prepared_headers
prepared_begun workflow steps headers correlation m begun given = rw (begun, given) refl

module _ {W : Type 0} (world : World W) (platform : Platform W) (rt : AppRuntime W) (fuel : ℕ)
    (ctx : Context) where
  run_message_pending :
      (m : Message) (w : W)
      → is_done m ≡ false
      → run_message world platform rt fuel ctx m w
        ≡ passed_on (process world rt.router fuel ctx (with_header_trace m) w)
  unfolding run_message
  run_message_pending m w pending = rw pending refl

  -- A pending message that has begun goes to the router.
  pending_goes_on :
      (correlation : String) (headers : Dict String) (m : Message) (w : W)
      → is_done m ≡ false
      → is_new m ≡ false
      → is_empty m.correlation_id ≡ false
      → (next : Message) × Continues m next
        × (run_loaded world platform rt fuel ctx correlation headers (ok m) w
            ≡ passed_on (process world rt.router fuel ctx next w))
  unfolding run_loaded with_header_trace
  pending_goes_on correlation headers m w pending begun given =
      let q = record m { headers = prepared_headers rt.workflow headers m } in
      (
        with_header_trace q,
        adopt-Continues m q _ _ (all_but_headers m q.headers),
        ap (λ p. run_message world platform rt fuel ctx p w)
              (prepared_begun rt.workflow rt.steps headers correlation m begun given)
            ∙ run_message_pending q w pending,
      )

  -- A completed message is returned.
  done_returned :
      (correlation : String) (headers : Dict String) (m : Message) (w : W)
      → is_done m ≡ true
      → is_new m ≡ false
      → is_empty m.correlation_id ≡ false
      → (next : Message) × Continues m next
        × (run_loaded world platform rt fuel ctx correlation headers (ok m) w
            ≡ some (replied next none w))
  unfolding run_loaded run_message
  done_returned correlation headers m w done begun given =
      let q = record m { headers = prepared_headers rt.workflow headers m } in
      (
        q,
        all_but_headers m q.headers,
        ap (λ p. run_message world platform rt fuel ctx p w)
              (prepared_begun rt.workflow rt.steps headers correlation m begun given)
            ∙ rw done refl,
      )

  -- Of a claimed message that is stored, the snapshot is what goes on.
  stored_run :
      (id correlation : String) (payload : Fields) (headers : Dict String) (w w' : W)
      (s : MessageSnapshot)
      → rt.store.load ctx id (world.now w).1 ≡ (ok s, w')
      → run_claimed world platform rt fuel ctx id correlation payload headers w
        ≡ run_loaded world platform rt fuel ctx correlation headers
            (ok (message_from_snapshot s))
            w'
  unfolding run_claimed stored_or
  stored_run id correlation payload headers w w' s e = rw e refl

-- Where the store has the snapshot of a message with its cursor in range, a status, a correlation id,
-- steps done or left, and not completed, `processPayload` under its claim is `Process` of the router on
-- a message with the same slip, cursor, payload, history and step states as the saved one: it goes on
-- where that one stood, and the payload of the request plays no part.
pub run_claimed_resumes :
    {W : Type 0} (world : World W) (platform : Platform W) (rt : AppRuntime W) (fuel : ℕ)
    (ctx : Context) (id correlation : String) (payload : Fields) (headers : Dict String) (w w' : W)
    (m : Message) (saved_at : ℕ)
    → rt.store.load ctx id (world.now w).1 ≡ (ok (snapshot world.quote m saved_at), w')
    → IsWithin m
    → is_empty m.status ≡ false
    → is_empty m.correlation_id ≡ false
    → is_new m ≡ false
    → is_done m ≡ false
    → (next : Message) × Continues m next
      × (run_claimed world platform rt fuel ctx id correlation payload headers w
          ≡ passed_on (process world rt.router fuel ctx next w'))
unfolding remaining_steps
run_claimed_resumes world platform rt fuel ctx id correlation payload headers w w' m saved_at stored
      within status given begun pending =
    let m' : Message = record m { errors = map (as_text world.quote) m.errors } in
    let (next, c, e) =
      pending_goes_on world platform rt fuel ctx correlation headers m' w' pending begun given in
    (
      next,
      other_errors m m'.errors next c,
      stored_run world platform rt fuel ctx id correlation payload headers w w' _ stored
          ∙ ap (λ q. run_loaded world platform rt fuel ctx correlation headers (ok q) w')
              (message_from_snapshot-snapshot world.quote m saved_at within status)
          ∙ e,
    )

-- Where the store has the snapshot of a message with a correlation id whose status is "completed", with
-- a slip that has steps and the cursor at its end, `processPayload` under its claim returns that
-- message, but for its headers and the form of its errors, without an error and without a run of the
-- router, even with no fuel: no handler is called, and nothing but the clock and the load has touched
-- the world.
pub run_claimed_done :
    {W : Type 0} (world : World W) (platform : Platform W) (rt : AppRuntime W) (fuel : ℕ)
    (ctx : Context) (id correlation : String) (payload : Fields) (headers : Dict String) (w w' : W)
    (m : Message) (saved_at : ℕ)
    → rt.store.load ctx id (world.now w).1 ≡ (ok (snapshot world.quote m saved_at), w')
    → IsWithin m
    → is_empty m.correlation_id ≡ false
    → 0 < length m.slip
    → m.status ≡ "completed"
    → remaining_steps m ≡ 0
    → (next : Message) × Continues m next
      × (run_claimed world platform rt fuel ctx id correlation payload headers w
          ≡ some (replied next none w'))
unfolding remaining_steps
run_claimed_done world platform rt fuel ctx id correlation payload headers w w' m saved_at stored
      within given full completed over =
    let m' : Message = record m { errors = map (as_text world.quote) m.errors } in
    let begun : is_new m ≡ false = ground (arith, full, over) in
    let done : is_done m ≡ true = rw (completed, over) refl in
    let (next, c, e) =
      done_returned world platform rt fuel ctx correlation headers m' w' done begun given in
    (
      next,
      other_errors m m'.errors next c,
      stored_run world platform rt fuel ctx id correlation payload headers w w' _ stored
          ∙ ap (λ q. run_loaded world platform rt fuel ctx correlation headers (ok q) w')
              (message_from_snapshot-snapshot world.quote m saved_at within (rw completed refl))
          ∙ e,
    )

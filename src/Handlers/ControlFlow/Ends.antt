-- ===== src/Handlers/ControlFlow/Ends.antt =====
-- app/handlers/control_flow.go: its handlers keep the route of a message, and `jump_if` goes forward,
-- so a router that has them ends.
use routing_slip_pattern.Common.{
  ℕ, String, Bool, true, List, [], ◌∷◌, Option, none, some, ◌≡◌, refl, ◌∙◌, ◌<◌, All, if_rule, leb,
  arith,
}
use routing_slip_pattern.Common.Int.{pos}
use routing_slip_pattern.Common.Text.{is_empty, trim_space}
use routing_slip_pattern.Value.{Value, Fields, object, get}
use routing_slip_pattern.Slip.Message.{Message, StepDef, set, find_step_index}
use routing_slip_pattern.Slip.Router.{Router, Outcome, NextCursor, register}
use routing_slip_pattern.Slip.Router.Progress.{KeepsRoute, JumpsForward, IsForward}
use routing_slip_pattern.Slip.Router.Progress.Register.{KeepsAround, register-IsForward}
use routing_slip_pattern.Handlers.Conditions.{
  Try, ok, err, Scalars, string_param, evaluate_value, evaluate_condition,
}
use routing_slip_pattern.Handlers.ControlFlow.{
  Verdict, asserted, refused, computed, compute_value, tested, is_true, jump_to, next_cursor,
  compute_handle, assert_handle, jump_if_handle, jump_cursor, compute_handler, assert_handler,
  jump_if_handler, evaluate_assert,
}

abbrev then_register : {A : Type 0} → Option A → (A → Option A) → Option A
then_register none k = none
then_register (some a) k = k a

then_rule :
    {A : Type 0} (o : Option A) (k : A → Option A) (r : A) (P : Type 0)
    → then_register o k ≡ some r
    → ((a : A) → o ≡ some a → k a ≡ some r → P)
    → P
then_rule none k r P e f = cc
then_rule (some a) k r P e f = f a refl e

module _ (s : Scalars) where
  -- A result leaves the slip and the cursor of `m`.
  abbrev Same : Message → Message → Type 0
  Same m m' = (m'.slip ≡ m.slip) × (m'.cursor ≡ m.cursor)

  refused-Same :
      (params : Fields) (fs : List String) (m n : Message)
      → Same m n
      → Same m (refused s params fs n).1
  unfolding refused set
  refused-Same params [] m n h = h
  refused-Same params (f ∷ fs) m n h = h

  asserted-Same :
      (params : Fields) (m : Message) (v : Try Verdict) → Same m (asserted s params m v).1
  unfolding asserted set
  asserted-Same params m (err e) = (refl, refl)
  asserted-Same params m (ok v) =
      if_rule (λ (r : Outcome × Message). Same m r.1) v.matched _ _ (λ _. (refl, refl))
        (λ _. refused-Same params v.failures m _ (refl, refl))

  computed-Same : (target : String) (m : Message) (v : Try Value) → Same m (computed s target m v).1
  unfolding computed set
  computed-Same target m (err e) = (refl, refl)
  computed-Same target m (ok v) = (refl, refl)

  compute_value-Same :
      (target : String) (m : Message) (v : Option Value) → Same m (compute_value s target m v).1
  unfolding compute_value
  compute_value-Same target m (some (object c)) =
      computed-Same target m (evaluate_value s m.payload c)
  compute_value-Same target m _ = (refl, refl)

  tested-Same : (m : Message) (b : Try Bool) → Same m (tested s m b).1
  unfolding tested set
  tested-Same m (err e) = (refl, refl)
  tested-Same m (ok b) = (refl, refl)

  -- The message keeps its route, and a change of the cursor goes behind `i`.
  abbrev Ahead : Message → ℕ → NextCursor × Message → Type 0
  Ahead m i (n, m') =
      (m'.slip ≡ m.slip)
      × (m'.cursor ≡ m.cursor)
      × (n.changed ≡ true → (k : ℕ) × (n.next ≡ pos k) × (i < k))

  jump_to-Ahead :
      (m : Message) (target : String) (i : ℕ) (o : Option ℕ) → Ahead m i (jump_to s m target i o)
  unfolding jump_to set
  jump_to-Ahead m target i none = (refl, refl, λ p. cc)
  jump_to-Ahead m target i (some k) =
      if_rule (Ahead m i) (leb k i) _ _ (λ _. (refl, refl, λ p. cc))
        (λ e. (refl, refl, λ _. (k, refl, ground (arith, e))))

  module _ {W : Type 0} where
    pub assert-KeepsRoute : KeepsRoute (assert_handle s {W = W})
    unfolding assert_handle
    assert-KeepsRoute ctx m params w = asserted-Same params m (evaluate_assert s m.payload params)

    pub jump_if-KeepsRoute : KeepsRoute (jump_if_handle s {W = W})
    unfolding jump_if_handle
    jump_if-KeepsRoute ctx m params w = tested-Same m (evaluate_condition s m.payload params)

    pub compute-KeepsRoute : KeepsRoute (compute_handle s {W = W})
    unfolding compute_handle
    compute-KeepsRoute ctx m params w =
        if_rule (λ (r : Outcome × Message). Same m r.1)
          (is_empty (trim_space (string_param "target" params))) _ _ (λ _. (refl, refl))
          (λ _. compute_value-Same (string_param "target" params) m (get "value" params))

    pub jump_if-JumpsForward : JumpsForward (jump_cursor s {W = W})
    unfolding jump_cursor next_cursor
    jump_if-JumpsForward m step i w =
        let target = string_param "to" step.params in
        if_rule (Ahead m i) (is_true s (get "jump_if_matched" m.payload)) _ _
          (λ _. jump_to-Ahead m target i (find_step_index m target)) (λ _. (refl, refl, λ p. cc))

    -- Registering `compute`, `assert` and `jump_if`, in this order.
    abbrev pub register_all : Router W → Option (Router W)
    register_all r =
        then_register (register r (compute_handler s))
          λ a. then_register (register a (assert_handler s)) λ b. register b (jump_if_handler s)

    -- Where the middleware of a router keeps to the route, and the failure jumps of the slip go
    -- forward, the router stays one that goes forward when the handlers of control flow are
    -- registered.
    pub register_all-IsForward :
        (r : Router W) (steps : List StepDef) (r' : Router W)
        → IsForward r steps
        → All KeepsAround r.middleware
        → register_all r ≡ some r'
        → IsForward r' steps
    register_all-IsForward r steps r' f ks e =
        then_rule (register r (compute_handler s)) _ r' (IsForward r' steps) e λ a ea rest.
          let (fa, ma) =
            register-IsForward r steps (compute_handler s) a f ks compute-KeepsRoute tt ea in
          then_rule (register a (assert_handler s)) _ r' (IsForward r' steps) rest λ b eb last.
            let (fb, mb) =
              register-IsForward a steps (assert_handler s) b fa (keep a ma) assert-KeepsRoute tt
                eb in
            (register-IsForward b steps (jump_if_handler s) r' fb (keep b (mb ∙ ma))
              jump_if-KeepsRoute jump_if-JumpsForward last).0
      where
        keep : (x : Router W) → x.middleware ≡ r.middleware → All KeepsAround x.middleware
        keep x q = rw q ks

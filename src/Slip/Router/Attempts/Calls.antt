-- ===== src/Slip/Router/Attempts/Calls.antt =====
-- How often `handleStep` calls the handler: the calls are counted beside the world.
use routing_slip_pattern.Common.{
  ℕ, zero, suc, ◌+◌, ◌-◌, true, ◌≤◌, Option, none, some, ◌≡◌, refl, arith, if_rule, option_rule,
}
use routing_slip_pattern.Common.Int.{ℤ, pos, negsuc, is_positive, pos_part}
use routing_slip_pattern.Slip.Errors.{GoError}
use routing_slip_pattern.Slip.Resilience.{
  ResiliencePolicy, attempts, Delay, after, int63n_panic, backoff_duration,
}
use routing_slip_pattern.Slip.Message.{Message, StepDef}
use routing_slip_pattern.Slip.Trace.{Context}
use routing_slip_pattern.Slip.Router.{World, Outcome, returned, panicked, Handle}
use routing_slip_pattern.Slip.Router.Attempts.{
  Attempt, attempt_rule, context_err, judge, pause, attempt_once, attempts_from, handle_step,
}

-- A world, and how often a handler has been called in it.
pub record Counted (W : Type 0) : Type 0 where
  pub calls : ℕ
  pub inner : W

-- At least `n`, and at most `k` more.
abbrev Within : ℕ → ℕ → ℕ → Type 0
Within n k x = (n ≤ x) × (x ≤ n + k)

delay_rule :
    {A : Type 0} (P : A → Type 0) (d : Delay) (f : ℤ → A) (a : A)
    → ((z : ℤ) → P (f z))
    → P a
    → P (elim d [ int63n_panic ↦ a | after z ↦ f z ])
delay_rule P (after z) f a h k = h z
delay_rule P int63n_panic f a h k = k

attempts_positive : (p : ResiliencePolicy) → (k : ℕ) × (attempts p ≡ suc k)
unfolding attempts
attempts_positive p =
    if_rule (λ (n : ℕ). (k : ℕ) × (n ≡ suc k)) (is_positive p.retry.attempts) _ _
      (λ e. positive p.retry.attempts e) (λ _. (0, refl))
  where
    positive : (n : ℤ) → is_positive n ≡ true → (k : ℕ) × (pos_part n ≡ suc k)
    positive (pos n) e = (n - 1, ground (arith, e))
    positive (negsuc n) e = cc

module _ {W : Type 0} where
  abbrev pub carry : {A : Type 0} → ℕ → A × W → A × Counted W
  carry n (a, w) = (a, record { calls = n; inner = w })

  abbrev pub counted_world : World W → World (Counted W)
  counted_world world = record {
    now = λ p. carry p.calls (world.now p.inner);
    ctx_err = λ p. carry p.calls (world.ctx_err p.inner);
    sleep = λ d p. carry p.calls (world.sleep d p.inner);
    hex_id = λ n p. carry p.calls (world.hex_id n p.inner);
    random = λ p. carry p.calls (world.random p.inner);
    range = λ d p. carry p.calls (world.range d p.inner);
    quote = world.quote;
  }

  abbrev pub counting : Handle W → Handle (Counted W)
  counting handle ctx m params p =
      let (o, m', w') = handle ctx m params p.inner in
      (o, m', record { calls = suc p.calls; inner = w' })

  module _ (world : World W) where
    context_err-calls :
        (ctx : Context) (p : Counted W)
        → (context_err (counted_world world) ctx p).1.calls ≡ p.calls
    unfolding context_err
    context_err-calls ctx p =
        if_rule (λ (r : Option GoError × Counted W). r.1.calls ≡ p.calls) ctx.is_background _ _
          (λ _. refl) (λ _. refl)

    judge-calls :
        (ctx : Context) (o : Outcome) (m : Message) (p : Counted W)
        → (judge (counted_world world) ctx (o, m, p)).2.calls ≡ p.calls
    unfolding judge
    judge-calls ctx (panicked v) m p = refl
    judge-calls ctx (returned proceed none) m p = refl
    judge-calls ctx (returned proceed (some e)) m p =
        option_rule (λ (r : Attempt × Message × Counted W). r.2.calls ≡ p.calls)
          (context_err (counted_world world) ctx p).0 _ _ (λ _. context_err-calls ctx p)
          (λ _ _. context_err-calls ctx p)

    pause-calls :
        (step : StepDef) (attempt : ℕ) (p : Counted W)
        → (pause (counted_world world) step attempt p).1.calls ≡ p.calls
    unfolding pause
    pause-calls step attempt p =
        delay_rule (λ (r : Option Outcome × Counted W). r.1.calls ≡ p.calls)
          (backoff_duration step.resilience (world.random p.inner).0 attempt) _ _
          (λ d.
            if_rule (λ (r : Option Outcome × Counted W). r.1.calls ≡ p.calls) (is_positive d) _ _
              (λ _. refl) (λ _. refl))
          refl

    -- An attempt calls the handler once, or not at all where the pause is cut.
    attempt_once-calls :
        (ctx : Context) (m : Message) (step : StepDef) (handle : Handle W) (attempt : ℕ)
        (p : Counted W)
        → Within p.calls 1
            (attempt_once (counted_world world) ctx m step (counting handle) attempt p).2.calls
    unfolding attempt_once
    attempt_once-calls ctx m step handle attempt p =
        let q = pause (counted_world world) step attempt p in
        let m' = record m { attempt = attempt } in
        let r = handle ctx m' step.params q.1.inner in
        option_rule (λ (a : Attempt × Message × Counted W). Within p.calls 1 a.2.calls) q.0 _ _
          (λ _. omega (
            arith,
            pause-calls step attempt p,
            judge-calls ctx r.0 r.1 (record { calls = suc q.1.calls; inner = r.2 }),
          ))
          (λ _ _. omega (arith, pause-calls step attempt p))

    attempts_from-calls :
        (left attempt : ℕ) (last : Option GoError) (ctx : Context) (m : Message) (step : StepDef)
        (handle : Handle W) (p : Counted W)
        → Within p.calls left
            (attempts_from
              (counted_world world)
              left
              attempt
              last
              ctx
              m
              step
              (counting handle)
              p).2.calls
    unfolding attempts_from
    attempts_from-calls zero attempt last ctx m step handle p = omega arith
    attempts_from-calls (suc left) attempt last ctx m step handle p =
        let a = attempt_once (counted_world world) ctx m step (counting handle) attempt p in
        let once = attempt_once-calls ctx m step handle attempt p in
        attempt_rule (λ (r : Outcome × Message × Counted W). Within p.calls (suc left) r.2.calls)
          a.0 _ _ (λ _ _. omega (arith, once))
          (λ e _.
            omega (
              arith,
              once,
              attempts_from-calls left (attempt + 1) (some e) ctx a.1 step handle a.2,
            ))

    -- The first attempt has no pause.
    first_attempt-calls :
        (ctx : Context) (m : Message) (step : StepDef) (handle : Handle W) (p : Counted W)
        → (attempt_once (counted_world world) ctx m step (counting handle) 1 p).2.calls
          ≡ suc p.calls
    unfolding attempt_once pause backoff_duration
    first_attempt-calls ctx m step handle p =
        let m' = record m { attempt = 1 } in
        let w = (world.random p.inner).1 in
        let r = handle ctx m' step.params w in
        judge-calls ctx r.0 r.1 (record { calls = suc p.calls; inner = r.2 })

    begun :
        (left : ℕ) (ctx : Context) (m : Message) (step : StepDef) (handle : Handle W) (w : W)
        → let n =
            (attempts_from
              (counted_world world)
              (suc left)
              1
              none
              ctx
              m
              step
              (counting handle)
              (record { calls = 0; inner = w })).2.calls in
          (1 ≤ n) × (n ≤ suc left)
    unfolding attempts_from
    begun left ctx m step handle w =
        let p : Counted W = record { calls = 0; inner = w } in
        let a = attempt_once (counted_world world) ctx m step (counting handle) 1 p in
        let once = first_attempt-calls ctx m step handle p in
        attempt_rule
          (λ (r : Outcome × Message × Counted W). (1 ≤ r.2.calls) × (r.2.calls ≤ suc left)) a.0 _ _
          (λ _ _. omega (arith, once))
          (λ e _.
            omega (arith, once, attempts_from-calls left (1 + 1) (some e) ctx a.1 step handle a.2))

    -- `handleStep` calls the handler at least once, and at most as often as the policy has attempts,
    -- one where it gives none.
    pub handle_step-calls :
        (ctx : Context) (m : Message) (step : StepDef) (handle : Handle W) (w : W)
        → let n =
            (handle_step
              (counted_world world)
              ctx
              m
              step
              (counting handle)
              (record { calls = 0; inner = w })).2.calls in
          (1 ≤ n) × (n ≤ attempts step.resilience)
    unfolding handle_step
    handle_step-calls ctx m step handle w =
        let (k, e) = attempts_positive step.resilience in rw e (begun k ctx m step handle w)

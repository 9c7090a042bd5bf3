-- ===== src/Handlers/ControlFlow/Laws.antt =====
-- app/handlers/control_flow.go: when an assertion holds.
use routing_slip_pattern.Common.{
  ℕ, suc, String, Bool, true, false, List, [], ◌∷◌, none, some, ◌≡◌, refl, sym, ◌∙◌, ◌↔◌, ◌⊎◌, inl,
  inr, All, arith,
}
use routing_slip_pattern.Value.{Value, Fields, get}
use routing_slip_pattern.Slip.Message.{Message}
use routing_slip_pattern.Slip.Trace.{Context}
use routing_slip_pattern.Slip.Router.{Outcome, returned, panicked}
use routing_slip_pattern.Handlers.Conditions.{Try, ok, err, then_do, Scalars, evaluate_condition}
use routing_slip_pattern.Handlers.ControlFlow.{
  condition_list, Verdict, no_failures, noted, any_step, asserted, refused, all_failures,
  any_verdict, evaluate_assert, assert_handle,
}

module _ (s : Scalars) (payload : Fields) where
  abbrev pub Satisfied : Fields → Type 0
  Satisfied c = evaluate_condition s payload c ≡ ok true

  pub data Some : List Fields → Type 0 where
    here : (c : Fields) (cs : List Fields) → Satisfied c → Some (c ∷ cs)
    there : (c : Fields) (cs : List Fields) → Some cs → Some (c ∷ cs)

  noted_satisfied :
      (i : ℕ) (b : Try Bool) (fs : List String)
      → no_failures (noted s "all" i b fs) ≡ true
      → (b ≡ ok true) × (no_failures fs ≡ true)
  unfolding no_failures
  noted_satisfied i (ok true) fs h = (refl, h)
  noted_satisfied i (ok false) fs h = cc
  noted_satisfied i (err e) fs h = cc

  all_failures-All :
      (i : ℕ) (cs : List Fields)
      → no_failures (all_failures s payload i cs) ≡ true
      → All Satisfied cs
  unfolding all_failures
  all_failures-All i [] h = tt
  all_failures-All i (c ∷ cs) h =
      let (e, rest) =
        noted_satisfied i (evaluate_condition s payload c) (all_failures s payload (suc i) cs) h in
      (e, all_failures-All (suc i) cs rest)

  All-all_failures :
      (i : ℕ) (cs : List Fields)
      → All Satisfied cs
      → no_failures (all_failures s payload i cs) ≡ true
  unfolding all_failures no_failures
  All-all_failures i [] h = refl
  All-all_failures i (c ∷ cs) h = rw h.0 (All-all_failures (suc i) cs h.1)

  some_step :
      (i : ℕ) (b : Try Bool) (rest : Verdict)
      → (any_step s i b rest).matched ≡ true
      → (b ≡ ok true) ⊎ (rest.matched ≡ true)
  some_step i (ok true) rest h = inl refl
  some_step i (ok false) rest h = ground arith
  some_step i (err e) rest h = ground arith

  any_verdict-Some :
      (i : ℕ) (cs : List Fields) → (any_verdict s payload i cs).matched ≡ true → Some cs
  unfolding any_verdict
  any_verdict-Some i [] h = cc
  any_verdict-Some i (c ∷ cs) h =
      elim (some_step i (evaluate_condition s payload c) (any_verdict s payload (suc i) cs) h) [
        | inl e ↦ here c cs e
        | inr e ↦ there c cs (any_verdict-Some (suc i) cs e)
      ]

  any_keeps :
      (i : ℕ) (b : Try Bool) (rest : Verdict)
      → rest.matched ≡ true
      → (any_step s i b rest).matched ≡ true
  any_keeps i (ok true) rest h = refl
  any_keeps i (ok false) rest h = rw h refl
  any_keeps i (err e) rest h = rw h refl

  Some-any_verdict :
      (i : ℕ) (cs : List Fields) → Some cs → (any_verdict s payload i cs).matched ≡ true
  unfolding any_verdict
  Some-any_verdict i [] h = elim h [ ]
  Some-any_verdict i (c ∷ cs) (here _ _ h) = rw h refl
  Some-any_verdict i (c ∷ cs) (there _ _ h) =
      any_keeps i (evaluate_condition s payload c) (any_verdict s payload (suc i) cs)
        (Some-any_verdict (suc i) cs h)

-- The first result of a call that returns.
abbrev pub proceeds : Outcome → Bool
proceeds (returned p e) = p
proceeds (panicked v) = false

module _ (s : Scalars) {W : Type 0} (ctx : Context) (m : Message) (params : Fields) (w : W) where
  -- The handler leaves to proceed as the verdict says.
  proceeds_asserted :
      (v : Verdict)
      → evaluate_assert s m.payload params ≡ ok v
      → proceeds (assert_handle s ctx m params w).0 ≡ v.matched
  unfolding assert_handle asserted refused
  proceeds_asserted v e = rw (e, evaluate_assert) (verdict v.matched v.failures)
    where
      verdict :
          (b : Bool) (fs : List String)
          → proceeds (asserted s params m (ok (record { matched = b; failures = fs }))).0 ≡ b
      verdict true fs = refl
      verdict false [] = refl
      verdict false (f ∷ fs) = refl

  -- An `assert` with a list `all` of conditions proceeds exactly where every one of them evaluates,
  -- without an error, to true.
  pub assert_handle-All :
      (raw : Value) (cs : List Fields)
      → get "all" params ≡ some raw
      → condition_list raw ≡ ok cs
      → proceeds (assert_handle s ctx m params w).0 ≡ true ↔ All (Satisfied s m.payload) cs
  unfolding evaluate_assert then_do
  assert_handle-All raw cs e l =
      let p =
        proceeds_asserted
          (record {
            matched = no_failures (all_failures s m.payload 0 cs);
            failures = all_failures s m.payload 0 cs;
          })
          (rw (e, evaluate_assert) (rw l refl)) in
      (
        λ h. all_failures-All s m.payload 0 cs (sym p ∙ h),
        λ h. p ∙ All-all_failures s m.payload 0 cs h,
      )

  -- An `assert` with no list `all` and a list `any` of conditions proceeds exactly where one of them
  -- evaluates to true, whatever errors the others give.
  pub assert_handle-Some :
      (raw : Value) (cs : List Fields)
      → get "all" params ≡ none
      → get "any" params ≡ some raw
      → condition_list raw ≡ ok cs
      → proceeds (assert_handle s ctx m params w).0 ≡ true ↔ Some s m.payload cs
  unfolding evaluate_assert then_do
  assert_handle-Some raw cs e a l =
      let p =
        proceeds_asserted (any_verdict s m.payload 0 cs)
          (rw (e, evaluate_assert) (rw a (rw l refl))) in
      (
        λ h. any_verdict-Some s m.payload 0 cs (sym p ∙ h),
        λ h. p ∙ Some-any_verdict s m.payload 0 cs h,
      )

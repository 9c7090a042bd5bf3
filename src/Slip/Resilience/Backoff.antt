-- ===== src/Slip/Resilience/Backoff.antt =====
-- The delays between the attempts of a step.
use routing_slip_pattern.Common.{
  ℕ, zero, suc, ◌+◌, ◌-◌, ◌*◌, ◌/◌, ◌^◌, ◌≤◌, ◌<◌, min, Bool, true, false, ◌≡◌, refl, arith, ◌⊎◌,
  str_eq, eq_iff, ◌==◌, String, Bool-cases, inl, inr, ltb, leb, ap, ◌∙◌, if◌then◌else◌, ◌≢◌,
}
use native.Mathlib.Nat.{pow-suc}
use routing_slip_pattern.Common.Int.{pos, scale64_fits, add64_fits}
use routing_slip_pattern.Common.Text.{trim_space, to_lower}
use routing_slip_pattern.Slip.Resilience.{
  ResiliencePolicy, interval, grow, base_delay, after, jittered, capped, backoff_duration,
  millisecond,
}

-- A power of two is no zero.
two_pow_pos : (k : ℕ) → 0 < 2 ^ k
two_pow_pos zero = omega arith
two_pow_pos (suc k) = rw pow-suc (omega (arith, two_pow_pos k))

le-scale : (a p : ℕ) → 0 < p → a ≤ a * p
le-scale a p h = grind arith

-- Doubling under a cap, with no step that passes 2 ^ 63.
capped-grow :
    (k d m : ℕ)
    → d < 4611686018427387904
    → m < 4611686018427387904
    → capped (grow k (pos d) (pos m)) (pos m) ≡ pos (min (d * 2 ^ k) m)
unfolding grow
capped-grow zero d m h b = unfold capped in ground arith
capped-grow (suc k) d m h b =
    rw (scale64_fits d 2 (omega arith), pow-suc)
      (elim (Bool-cases (ltb (d * 2) m)) [
        | inl below ↦ rw below (capped-grow k (d * 2) m (ground arith) b ∙ ap pos (omega arith))
        | inr reached ↦
            rw reached (unfold capped in ground (arith, le-scale (d * 2) (2 ^ k) (two_pow_pos k)))
      ])

-- An interval of the policy that is in range: the given milliseconds, or the default at 0.
abbrev pub span : ℕ → ℕ → ℕ
span ms default_ns = if ms == 0 then default_ns else ms * millisecond

interval-span :
    (ms default_ns : ℕ)
    → ms * millisecond < 4611686018427387904
    → interval (pos ms) default_ns ≡ pos (span ms default_ns)
unfolding interval
interval-span ms default_ns h = rw (scale64_fits ms millisecond (omega arith)) (ground arith)

-- The policy's intervals are in range, and are `i` and `m` milliseconds.
pub record InRange (p : ResiliencePolicy) (i m : ℕ) : Type 0 where
  pub initial_ms : p.retry.initial_interval_ms ≡ pos i
  pub max_ms : p.retry.max_interval_ms ≡ pos m
  pub initial_fits : i * millisecond < 4611686018427387904
  pub max_fits : m * millisecond < 4611686018427387904

abbrev pub first_delay : ℕ → ℕ
first_delay i = span i 100000000

abbrev pub delay_cap : ℕ → ℕ
delay_cap m = span m 1000000000

-- What is left of the delay once the intervals are read.
backoff_ranged :
    (p : ResiliencePolicy) (draw : ℕ → ℕ) (i m attempt : ℕ)
    → InRange p i m
    → 1 < attempt
    → backoff_duration p draw attempt
      ≡ jittered p.retry.jitter draw (
          capped
            (base_delay p.retry attempt (pos (first_delay i)) (pos (delay_cap m)))
            (pos (delay_cap m)))
unfolding backoff_duration
backoff_ranged p draw i m attempt h late =
    let not_first : leb attempt 1 ≡ false = ground arith in
    rw
      (
        not_first,
        h.initial_ms,
        h.max_ms,
        interval-span i 100000000 h.initial_fits,
        interval-span m 1000000000 h.max_fits,
      )
      refl

abbrev pub kind : ResiliencePolicy → String
kind p = to_lower (trim_space p.retry.backoff)

-- Where neither interval of the policy is negative and both stay below 2 ^ 62 nanoseconds, the policy
-- has no jitter, and its strategy is neither "fixed" nor "none", the delay before attempt n >= 2 is the
-- first delay doubled n - 2 times, but at most the cap: the policy's intervals, or 100 milliseconds and
-- a second where they are 0.
pub backoff_exponential :
    (p : ResiliencePolicy) (draw : ℕ → ℕ) (i m attempt : ℕ)
    → InRange p i m
    → 1 < attempt
    → kind p ≢ "fixed"
    → kind p ≢ "none"
    → p.retry.jitter ≡ false
    → backoff_duration p draw attempt
      ≡ after (pos (min (first_delay i * 2 ^ (attempt - 2)) (delay_cap m)))
backoff_exponential p draw i m attempt h late fixed none plain =
    backoff_ranged p draw i m attempt h late ∙ rw (exponential, plain) (unfold jittered in refl)
  where
    grown :
        base_delay p.retry attempt (pos (first_delay i)) (pos (delay_cap m))
        ≡ grow (attempt - 2) (pos (first_delay i)) (pos (delay_cap m))
    grown = unfold base_delay in ground (arith, eq_iff (kind p) "fixed", eq_iff (kind p) "none")

    exponential :
        capped
          (base_delay p.retry attempt (pos (first_delay i)) (pos (delay_cap m)))
          (pos (delay_cap m))
        ≡ pos (min (first_delay i * 2 ^ (attempt - 2)) (delay_cap m))
    exponential = rw grown (
        capped-grow (attempt - 2) (first_delay i) (delay_cap m) (ground (arith, h.initial_fits))
          (ground (arith, h.max_fits)))

-- What every strategy gives, capped: no delay at all, or one of at least a millisecond.
base_delay_bounds :
    (p : ResiliencePolicy) (i m attempt : ℕ)
    → InRange p i m
    → (d : ℕ) × (capped
          (base_delay p.retry attempt (pos (first_delay i)) (pos (delay_cap m)))
          (pos (delay_cap m))
        ≡ pos d)
      × (d ≤ delay_cap m)
      × ((d ≡ 0) ⊎ (millisecond ≤ d))
unfolding base_delay
base_delay_bounds p i m attempt h = elim (Bool-cases (str_eq (kind p) "fixed")) [
  | inl fixed ↦ (
    min (first_delay i) (delay_cap m),
    rw fixed (unfold capped in ground arith),
    omega arith,
    ground arith,
  )
  | inr moving ↦ rw moving (elim (Bool-cases (str_eq (kind p) "none")) [
    | inl none ↦ (0, rw none (unfold capped in ground arith), omega arith, inl refl)
    | inr growing ↦ rw growing (
      min (first_delay i * 2 ^ (attempt - 2)) (delay_cap m),
      capped-grow (attempt - 2) (first_delay i) (delay_cap m) (ground (arith, h.initial_fits))
          (ground (arith, h.max_fits)),
      omega arith,
      ground (arith, le-scale (first_delay i) (2 ^ (attempt - 2)) (two_pow_pos (attempt - 2))),
    )
  ])
]

jittered_bounds :
    (jitter : Bool) (draw : ℕ → ℕ) (d c : ℕ)
    → ((n : ℕ) → 0 < n → draw n < n)
    → d ≤ c
    → c < 4611686018427387904
    → ((d ≡ 0) ⊎ (millisecond ≤ d))
    → (r : ℕ) × (jittered jitter draw (pos d) ≡ after (pos r)) × (d ≤ r) × (2 * r ≤ 3 * c)
unfolding jittered
jittered_bounds false draw d c fair le fits size = (d, refl, omega arith, omega arith)
jittered_bounds true draw d c fair le fits (inl zero_delay) =
    (d, ground arith, omega arith, omega arith)
jittered_bounds true draw d c fair le fits (inr some_delay) = (
  d + draw (d / 2),
  ground (arith, fair (d / 2), add64_fits d (draw (d / 2))),
  omega arith,
  ground (arith, fair (d / 2)),
)

-- Where neither interval of the policy is negative and both stay below 2 ^ 62 nanoseconds, and a random
-- number drawn below n > 0 is below n, the delay before every attempt but the first is, under every
-- strategy, at most one and a half times the cap, jitter included, and `rand.Int63n` is not called with
-- an argument it panics at.
pub backoff_bounds :
    (p : ResiliencePolicy) (draw : ℕ → ℕ) (i m attempt : ℕ)
    → ((n : ℕ) → 0 < n → draw n < n)
    → InRange p i m
    → 1 < attempt
    → (r : ℕ) × (backoff_duration p draw attempt ≡ after (pos r)) × (2 * r ≤ 3 * delay_cap m)
backoff_bounds p draw i m attempt fair h late =
    let (d, base, below, size) = base_delay_bounds p i m attempt h in
    let (r, e, _, bound) =
      jittered_bounds p.retry.jitter draw d (delay_cap m) fair below (ground (arith, h.max_fits))
        size in
    (
      r,
      backoff_ranged p draw i m attempt h late ∙ ap (jittered p.retry.jitter draw) base ∙ e,
      bound,
    )

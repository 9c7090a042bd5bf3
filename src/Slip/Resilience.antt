-- ===== src/Slip/Resilience.antt =====
-- app/slip/resilience.go: retry and failure policy of a step. A `time.Duration` is an int64 of
-- nanoseconds, with its wrap-around.
pub mod Backoff
use routing_slip_pattern.Common.{
  ℕ, zero, suc, ◌-◌, ◌/◌, String, Bool, true, false, ◌&&◌, ◌||◌, not, leb, ltb, str_eq, ◌==◌,
  if◌then◌else◌,
}
use routing_slip_pattern.Common.Int.{
  ℤ, pos, negsuc, lt_int, is_positive, pos_part, scale64, add64, signed64,
}
use routing_slip_pattern.Common.Text.{trim_space, to_lower, is_empty}

pub record RetryPolicy : Type 0 where
  pub attempts : ℤ
  pub backoff : String
  pub initial_interval_ms : ℤ
  pub max_interval_ms : ℤ
  pub jitter : Bool

pub record OnFailurePolicy : Type 0 where
  pub action : String
  pub to : String

pub record ResiliencePolicy : Type 0 where
  pub retry : RetryPolicy
  pub on_failure : OnFailurePolicy

unfoldable pub attempts : ResiliencePolicy → ℕ
attempts p = if is_positive p.retry.attempts then pos_part p.retry.attempts else 1

unfoldable pub failure_action : ResiliencePolicy → String
unfolding trim_space to_lower
failure_action p =
    let action = to_lower (trim_space p.on_failure.action) in
    if is_empty action then "default" else action

abbrev pub millisecond : ℕ
millisecond = 1000000

-- An interval given in milliseconds, or the default if it is not positive.
unfoldable pub interval : ℤ → ℕ → ℤ
unfolding scale64
interval ms default_ms =
    let given = scale64 ms millisecond in if is_positive given then given else pos default_ms

-- The loop `for i := 2; i < attempt; i++` of the exponential backoff, by the rounds left.
unfoldable pub grow : ℕ → ℤ → ℤ → ℤ
unfolding scale64
grow zero delay max_interval = delay
grow (suc rounds) delay max_interval =
    let twice = scale64 delay 2 in
    let rest = grow rounds twice max_interval in
    if lt_int twice max_interval then rest else max_interval

unfoldable pub base_delay : RetryPolicy → ℕ → ℤ → ℤ → ℤ
unfolding trim_space to_lower grow
base_delay r attempt initial max_interval =
    let kind = to_lower (trim_space r.backoff) in
    if str_eq kind "fixed"
    then initial
    else if str_eq kind "none"
    then pos 0
    else grow (attempt - 2) initial max_interval

-- `rand.Int63n` panics at an argument that is not positive.
pub data Delay : Type 0 where
  after : ℤ → Delay
  int63n_panic : Delay

-- The delay of a base delay that is capped already; `draw` is what `rand.Int63n(n)` gives.
unfoldable pub jittered : Bool → (ℕ → ℕ) → ℤ → Delay
unfolding add64
jittered true draw (pos delay) =
    if delay == 0
    then after (pos 0)
    else if delay / 2 == 0
    then int63n_panic
    else after (add64 (pos delay) (draw (delay / 2)))
jittered jitter draw delay = after delay

unfoldable pub capped : ℤ → ℤ → ℤ
capped delay max_interval = if lt_int max_interval delay then max_interval else delay

unfoldable pub backoff_duration : ResiliencePolicy → (ℕ → ℕ) → ℕ → Delay
unfolding interval base_delay jittered capped
backoff_duration p draw attempt =
    let initial = interval p.retry.initial_interval_ms 100000000 in
    let max_interval = interval p.retry.max_interval_ms 1000000000 in
    let delay = capped (base_delay p.retry attempt initial max_interval) max_interval in
    if leb attempt 1 then after (pos 0) else jittered p.retry.jitter draw delay

unfoldable pub enabled : ResiliencePolicy → Bool
unfolding trim_space
enabled p = lt_int (pos 1) p.retry.attempts || not (is_empty (trim_space p.on_failure.action))

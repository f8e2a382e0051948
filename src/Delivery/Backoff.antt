-- ===== src/Delivery/Backoff.antt =====
-- src/domain/retryPolicy.ts: bounds of the delays.
use trade_pal_africa.Base.{ℕ, ◌-◌, ◌≤◌, ◌<◌, min, arith}
use native.Mathlib.Nat.{mul-le-mul_left, pow-le-pow_right}
use trade_pal_africa.Delivery.Retry.{RetryPolicy, raw_delay, jittered_delay, backoff_delay}

pub backoff_delay-le_max : (attempts : ℕ) (p : RetryPolicy) → backoff_delay attempts p ≤ p.max_delay
unfolding backoff_delay jittered_delay raw_delay
backoff_delay-le_max attempts p = ground arith

two_pos : 0 < 2
two_pos = omega arith

-- The delay is at most the greatest delay of the policy, at least the base delay where that is
-- no greater, and does not fall from one attempt to a later one.
pub backoff_delay_bounds :
    (attempts later : ℕ) (p : RetryPolicy)
    → attempts ≤ later
    → (backoff_delay attempts p ≤ p.max_delay)
      × (min p.base_delay p.max_delay ≤ backoff_delay attempts p)
      × (backoff_delay attempts p ≤ backoff_delay later p)
unfolding backoff_delay jittered_delay raw_delay
backoff_delay_bounds attempts later p h =
    let two : 0 ≤ attempts - 1 = omega arith in
    let gap : attempts - 1 ≤ later - 1 = omega (arith, h) in
    let base = mul-le-mul_left p.base_delay (pow-le-pow_right two_pos two) in
    let grows = mul-le-mul_left p.base_delay (pow-le-pow_right two_pos gap) in
    (backoff_delay-le_max attempts p, omega (arith, base), omega (arith, grows))

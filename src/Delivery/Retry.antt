-- ===== src/Delivery/Retry.antt =====
-- src/domain/retryPolicy.ts: the delays between attempts. Times and delays are whole milliseconds.
use trade_pal_africa.Base.{ℕ, ◌-◌, ◌*◌, ◌^◌, Bool, leb, min}
use trade_pal_africa.Base.Int.{ℤ, pos, pos_part}

pub record RetryPolicy : Type 0 where
  pub base_delay : ℕ
  pub max_delay : ℕ
  pub max_attempts : ℕ

abbrev pub default_retry_policy : RetryPolicy
default_retry_policy = record { base_delay = 30_000; max_delay = 3_600_000; max_attempts = 8 }

-- The delay before the jitter. On ℕ a difference stops at 0, as `Math.max(0, attempts - 1)` does.
unfoldable pub raw_delay : ℕ → RetryPolicy → ℕ
raw_delay attempts p = min p.max_delay (p.base_delay * 2 ^ (attempts - 1))

-- `jitter` is the caller's; a result below zero counts as zero.
unfoldable pub jittered_delay : (ℕ → ℤ) → ℕ → RetryPolicy → ℕ
unfolding raw_delay
jittered_delay jitter attempts p = pos_part (jitter (raw_delay attempts p))

-- `backoffDelayMs` with its default jitter, which changes nothing.
unfoldable pub backoff_delay : ℕ → RetryPolicy → ℕ
unfolding jittered_delay
backoff_delay attempts p = jittered_delay pos attempts p

abbrev pub is_retry_exhausted : ℕ → RetryPolicy → Bool
is_retry_exhausted attempts p = leb p.max_attempts attempts

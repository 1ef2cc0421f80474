-- ===== src/Polling/Backoff.antt =====
-- server/src/services/polling/backoff.ts. The delays are whole milliseconds: with a whole base and
-- multiplier `base * multiplier ** attempt` is exact as a double until it is far above any cap.
pub mod Delays
use depsera.Prelude.{ℕ, ◌+◌, ◌*◌, ◌^◌, min}

pub record BackoffConfig : Type 0 where
  pub base_delay_ms : ℕ
  pub max_delay_ms : ℕ
  pub multiplier : ℕ

abbrev pub default_config : BackoffConfig
default_config = record { base_delay_ms = 1000; max_delay_ms = 300000; multiplier = 2 }

pub record ExponentialBackoff : Type 0 where
  pub attempt : ℕ
  pub config : BackoffConfig

unfoldable pub new : BackoffConfig → ExponentialBackoff
new c = record { attempt = 0; config = c }

-- The new object and the delay.
unfoldable pub get_next_delay : ExponentialBackoff → ExponentialBackoff × ℕ
get_next_delay b =
    let delay =
      min (b.config.base_delay_ms * b.config.multiplier ^ b.attempt) b.config.max_delay_ms in
    (record b { attempt = b.attempt + 1 }, delay)

unfoldable pub reset : ExponentialBackoff → ExponentialBackoff
reset b = record b { attempt = 0 }

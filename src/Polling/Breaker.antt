-- ===== src/Polling/Breaker.antt =====
-- server/src/services/polling/CircuitBreaker.ts. `Date.now()` is the argument `now`, in ms.
pub mod Trace
use depsera.Prelude.{ℕ, ◌+◌, Bool, true, false, leb, if◌then◌else◌}

pub data CircuitState : Type 0 where
  closed open_circuit half_open : CircuitState

pub record CircuitBreakerConfig : Type 0 where
  pub failure_threshold : ℕ
  pub cooldown_ms : ℕ

abbrev pub default_config : CircuitBreakerConfig
default_config = record { failure_threshold = 10; cooldown_ms = 300000 }

pub record CircuitBreaker : Type 0 where
  pub state : CircuitState
  pub failures : ℕ
  pub last_failure_time : ℕ
  pub config : CircuitBreakerConfig

-- the constructor, over a configuration with the defaults filled in
unfoldable pub new : CircuitBreakerConfig → CircuitBreaker
new c = record { state = closed; failures = 0; last_failure_time = 0; config = c }

unfoldable pub record_success : CircuitBreaker → CircuitBreaker
record_success b = record b { state = closed; failures = 0 }

unfoldable pub record_failure : ℕ → CircuitBreaker → CircuitBreaker
record_failure now b =
    let b' = record b { failures = b.failures + 1; last_failure_time = now } in
    if leb b'.config.failure_threshold b'.failures then record b' { state = open_circuit } else b'

-- `now - last >= cooldown`, without a subtraction that could pass below 0
abbrev cooled : ℕ → CircuitBreaker → Bool
cooled now b = leb (b.last_failure_time + b.config.cooldown_ms) now

attempt_in : CircuitState → ℕ → CircuitBreaker → CircuitBreaker × Bool
attempt_in closed now b = (b, true)
attempt_in open_circuit now b =
    if cooled now b then (record b { state = half_open }, true) else (b, false)
attempt_in half_open now b = (b, true)

-- The new breaker and the answer.
unfoldable pub can_attempt : ℕ → CircuitBreaker → CircuitBreaker × Bool
unfolding attempt_in
can_attempt now b = attempt_in b.state now b

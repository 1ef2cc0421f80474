-- ===== src/Polling/Cycle/Outcome.antt =====
-- What one settled poll does to its service, and when the service may be polled again.
use depsera.Prelude.{
  ℕ, ◌+◌, max, String, ◌≡◌, false, some, arith, eq_refl, if◌then◌else◌, leb, or_else,
}
use depsera.JsMap.{get, set}
use depsera.JsMap.Laws.{get-set}
use depsera.Polling.Breaker
use depsera.Polling.Breaker.{
  CircuitBreaker, CircuitState, default_config, record_success, record_failure,
}
use depsera.Polling.Backoff
use depsera.Polling.Backoff.{ExponentialBackoff, get_next_delay}
use depsera.Polling.Cache.{should_poll, mark_polled}
use depsera.Polling.States.{ServicePollState, update_state}
use depsera.Polling.Engine.{Engine}
use depsera.Polling.Engine.Sync.{state_of}
use depsera.Polling.Cycle.Settle.{PollResult, process_result}

-- the breaker of a service, or the one that is created for it
abbrev pub breaker_of : Engine → String → CircuitBreaker
breaker_of e id = or_else (get e.circuit_breakers id) (Breaker.new default_config)

abbrev backoff_of : Engine → String → ExponentialBackoff
backoff_of e id = or_else (get e.backoffs id) (Backoff.new Backoff.default_config)

module _ (now : ℕ) (e : Engine) (id : String) (r : PollResult) where
  abbrev settled_breaker : CircuitBreaker
  settled_breaker =
      if r.success then record_success (breaker_of e id) else record_failure now (breaker_of e id)

  abbrev pub wait : ServicePollState → ℕ
  wait s =
      if r.success
      then s.poll_interval_ms
      else max s.poll_interval_ms (get_next_delay (backoff_of e id)).1

  abbrev settled_state : ServicePollState → ServicePollState
  settled_state s = record s {
    last_polled = now;
    is_polling = false;
    consecutive_failures = if r.success then 0 else s.consecutive_failures + 1;
    circuit_state = settled_breaker.state;
  }

  -- A settled poll of a tracked service writes the time, the failures and the state of the breaker,
  -- and clears the lock of whatever object is tracked by then; the breaker has recorded the result;
  -- and the service is not due again before its interval, or its longer backoff delay, is over.
  process_result_lem :
      (s : ServicePollState) (t : ℕ)
      → state_of e id ≡ some s
      → (state_of (process_result now e id r).0 id ≡ some (settled_state s))
        × (breaker_of (process_result now e id r).0 id ≡ settled_breaker)
        × (should_poll t (process_result now e id r).0.poll_cache id ≡ leb (now + wait s) t)
  unfolding process_result update_state should_poll mark_polled Breaker.new Backoff.new
  process_result_lem s t found = (
    ground (arith, get-set e.state_manager.poll_states id id (settled_state s), eq_refl id),
    ground (
      arith,
      get-set e.circuit_breakers id id settled_breaker,
      eq_refl id,
      get-set (set e.circuit_breakers id (Breaker.new default_config)) id id settled_breaker,
    ),
    ground (arith, get-set e.poll_cache id id (now + wait s), eq_refl id),
  )

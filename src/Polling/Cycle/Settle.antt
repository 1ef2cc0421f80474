-- ===== src/Polling/Cycle/Settle.antt =====
-- The second half of a poll cycle: releasing the host slots, and one round for each settled poll.
use depsera.Prelude.{
  ℕ, zero, suc, ◌+◌, String, Bool, true, false, not, ◌&&◌, Option, none, some, List, [], ◌∷◌, ◌++◌,
  map, max, nat_eq, if◌then◌else◌, length,
}
use depsera.JsMap.{JsMap, get, set}
use depsera.Polling.Breaker.{
  CircuitState, open_circuit, half_open, CircuitBreaker, record_success, record_failure,
}
use depsera.Polling.Backoff
use depsera.Polling.Backoff.{ExponentialBackoff, get_next_delay, reset}
use depsera.Polling.Cache.{mark_polled}
use depsera.Polling.HostLimiter.{HostRateLimiter, release}
use depsera.Polling.States.{ServicePollState, PollStateManager, update_state}
use depsera.Polling.Engine.{Engine}
use depsera.Polling.Cycle.Select.{get_circuit_breaker}

pub record StatusChangeEvent : Type 0 where
  pub service_id : String
  pub service_name : String
  pub dependency_name : String
  pub previous_healthy : Option Bool
  pub current_healthy : Bool
  pub timestamp : String

pub record PollResult : Type 0 where
  pub success : Bool
  pub dependencies_updated : ℕ
  pub status_changes : List StatusChangeEvent
  pub error : Option String
  pub warnings : Option (List String)
  pub latency_ms : ℕ

-- What the engine emits, and the write of a result to the database, in order.
pub data Event : Type 0 where
  status_change : StatusChangeEvent → Event
  poll_complete : String → PollResult → Event
  poll_error : String → String → Option String → Event
  circuit_open circuit_close : String → String → Event
  update_poll_result : String → PollResult → Event

unfoldable pub get_backoff : Engine → String → Engine × ExponentialBackoff
unfolding Backoff.new
get_backoff e id = elim (get e.backoffs id) [
  | none ↦ (
    record e { backoffs = set e.backoffs id (Backoff.new Backoff.default_config) },
    Backoff.new Backoff.default_config,
  )
  | some b ↦ (e, b)
]

unfoldable pub release_times : HostRateLimiter → String → ℕ → HostRateLimiter
release_times l hostname zero = l
release_times l hostname (suc n) = release_times (release l hostname) hostname n

unfoldable pub release_all : HostRateLimiter → JsMap (List String) → HostRateLimiter
release_all l [] = l
release_all l ((hostname, ids) ∷ rest) = release_all (release_times l hostname (length ids)) rest

abbrev is_open : CircuitState → Bool
is_open open_circuit = true
is_open _ = false

abbrev is_half_open : CircuitState → Bool
is_half_open half_open = true
is_half_open _ = false

-- The branch of a successful poll: the breaker, the backoff and the time until the next poll.
settle_success :
    ℕ
    → Engine
    → String
    → ServicePollState
    → CircuitBreaker
    → ExponentialBackoff
    → Engine × List Event
settle_success now e id state cb backoff =
    let cb' = record_success cb in
    (
      record e {
        state_manager = update_state e.state_manager id (λ s. record s {
          last_polled = now;
          is_polling = false;
          consecutive_failures = 0;
          circuit_state = cb'.state;
        });
        backoffs = set e.backoffs id (reset backoff);
        circuit_breakers = set e.circuit_breakers id cb';
        poll_cache = mark_polled now e.poll_cache id state.poll_interval_ms;
      },
      if is_half_open cb.state then circuit_close id state.service_name ∷ [] else [],
    )

settle_failure :
    ℕ
    → Engine
    → String
    → ServicePollState
    → CircuitBreaker
    → ExponentialBackoff
    → Engine × List Event
settle_failure now e id state cb backoff =
    let cb' = record_failure now cb in
    let (backoff', delay) = get_next_delay backoff in
    (
      record e {
        state_manager = update_state e.state_manager id (λ s. record s {
          last_polled = now;
          is_polling = false;
          consecutive_failures = s.consecutive_failures + 1;
          circuit_state = cb'.state;
        });
        backoffs = set e.backoffs id backoff';
        circuit_breakers = set e.circuit_breakers id cb';
        poll_cache = mark_polled now e.poll_cache id (max state.poll_interval_ms delay);
      },
      if is_open cb'.state && not (is_open cb.state)
          then circuit_open id state.service_name ∷ []
          else [],
    )

-- One settled poll that was not rejected.
unfoldable pub process_result : ℕ → Engine → String → PollResult → Engine × List Event
unfolding settle_success settle_failure get_backoff get_circuit_breaker
process_result now e id result = elim (get e.state_manager.poll_states id) [
  | none ↦ (e, [])
  | some state ↦
      let (e1, cb) = get_circuit_breaker e id in
      let (e2, backoff) = get_backoff e1 id in
      let (e3, circuit) =
        if result.success
        then settle_success now e2 id state cb backoff
        else settle_failure now e2 id state cb backoff in
      (
        e3,
        circuit
            ++ (update_poll_result id result
                ∷ poll_complete id result
                ∷ (map status_change result.status_changes
                    ++ (if result.success
                        then []
                        else poll_error id state.service_name result.error ∷ []))),
      )
]

-- A rejected promise is `none`.
unfoldable pub process_results :
    ℕ → Engine → List (String × Option PollResult) → Engine × List Event
process_results now e [] = (e, [])
process_results now e ((id, none) ∷ rest) = process_results now e rest
process_results now e ((id, some result) ∷ rest) =
    let (e1, out) = process_result now e id result in
    let (e2, outs) = process_results now e1 rest in (e2, out ++ outs)

-- `state.isPolling = false` through the object that the cycle holds: it shows in the map only where
-- the map still holds that object.
unfoldable pub unlock : PollStateManager → ServicePollState → PollStateManager
unlock m state =
    update_state m state.service_id
      (λ s. if nat_eq s.ref state.ref then record s { is_polling = false } else s)

unfoldable pub unlock_all : PollStateManager → List ServicePollState → PollStateManager
unlock_all m [] = m
unlock_all m (s ∷ states) = unlock_all (unlock m s) states

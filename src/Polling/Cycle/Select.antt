-- ===== src/Polling/Cycle/Select.antt =====
-- The first half of a poll cycle: which services are due, in which order, on which host slots.
use depsera.Prelude.{
  ℕ, String, Bool, false, none, some, List, [], ◌∷◌, ◌++◌, leb, if◌then◌else◌, or_else,
}
use depsera.JsMap.{JsMap, get, set}
use depsera.Polling.Breaker
use depsera.Polling.Breaker.{CircuitBreaker, default_config, can_attempt}
use depsera.Polling.Cache.{should_poll, mark_polled}
use depsera.Polling.HostLimiter.{HostRateLimiter, acquire}
use depsera.Polling.States.{ServicePollState, update_state}
use depsera.Polling.Engine.{Engine}

-- The breaker of a service; a missing one is created and stored.
unfoldable pub get_circuit_breaker : Engine → String → Engine × CircuitBreaker
unfolding Breaker.new
get_circuit_breaker e id = elim (get e.circuit_breakers id) [
  | none ↦ (
    record e { circuit_breakers = set e.circuit_breakers id (Breaker.new default_config) },
    Breaker.new default_config,
  )
  | some cb ↦ (e, cb)
]

-- One round of the loop over the states: is the service due?
unfoldable pub select_one : ℕ → Engine → ServicePollState → Engine × Bool
unfolding get_circuit_breaker
select_one now e state =
    let id = state.service_id in
    let (e1, cb) = get_circuit_breaker e id in
    let (cb', ok) = can_attempt now cb in
    let e2 = record e1 { circuit_breakers = set e1.circuit_breakers id cb' } in
    if ok then (e2, should_poll now e2.poll_cache id) else (
      record e2 {
        poll_cache = mark_polled now e2.poll_cache id cb'.config.cooldown_ms;
        state_manager =
            update_state e2.state_manager id (λ s. record s { circuit_state = cb'.state });
      },
      false,
    )

unfoldable pub select : ℕ → Engine → List ServicePollState → Engine × List ServicePollState
select now e [] = (e, [])
select now e (s ∷ states) =
    let (e1, due) = select_one now e s in
    let (e2, rest) = select now e1 states in (e2, if due then s ∷ rest else rest)

-- `toPoll.sort((a, b) => a.lastPolled - b.lastPolled)`; the sort of the language is stable.
unfoldable pub insert_by_last_polled :
    ServicePollState → List ServicePollState → List ServicePollState
insert_by_last_polled s [] = s ∷ []
insert_by_last_polled s (t ∷ ts) =
    let rest = insert_by_last_polled s ts in
    if leb s.last_polled t.last_polled then s ∷ t ∷ ts else t ∷ rest

unfoldable pub sort_by_last_polled : List ServicePollState → List ServicePollState
unfolding insert_by_last_polled
sort_by_last_polled [] = []
sort_by_last_polled (s ∷ ts) = insert_by_last_polled s (sort_by_last_polled ts)

-- What a cycle holds between its halves: `acquired` lists the services by host name.
pub record Acquired : Type 0 where
  pub limiter : HostRateLimiter
  pub eligible : List ServicePollState
  pub acquired : JsMap (List String)

unfoldable pub acquire_one : (String → String) → Acquired → ServicePollState → Acquired
acquire_one hostname_of a state =
    let hostname = hostname_of state.health_endpoint in
    let (limiter', got) = acquire a.limiter hostname in
    if got
    then record {
      limiter = limiter';
      eligible = a.eligible ++ state ∷ [];
      acquired =
          set a.acquired hostname (or_else (get a.acquired hostname) [] ++ state.service_id ∷ []);
    }
    else record a { limiter = limiter' }

unfoldable pub acquire_all : (String → String) → Acquired → List ServicePollState → Acquired
acquire_all hostname_of a [] = a
acquire_all hostname_of a (s ∷ states) =
    acquire_all hostname_of (acquire_one hostname_of a s) states

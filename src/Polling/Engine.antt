-- ===== src/Polling/Engine.antt =====
-- server/src/services/polling/HealthPollingService.ts: the state of the engine and the calls that
-- start, stop and synchronise services. Database reads are arguments; what is emitted is returned.
pub mod Sync
use depsera.Prelude.{
  ℕ, String, Bool, true, false, not, ◌||◌, ◌&&◌, Option, none, some, List, [], ◌∷◌, ◌++◌, map, any,
  find, ◌==◌, nat_eq, if◌then◌else◌, is_some, or_else,
}
use depsera.JsMap.{JsMap, get, set, delete, has}
use depsera.Types.{Service, HealthEndpointFormat, is_otlp}
use depsera.Polling.Breaker
use depsera.Polling.Breaker.{CircuitBreaker}
use depsera.Polling.Backoff
use depsera.Polling.Backoff.{ExponentialBackoff}
use depsera.Polling.Cache.{PollCache, invalidate}
use depsera.Polling.HostLimiter.{HostRateLimiter}
use depsera.Polling.States.{
  ServicePollState, PollStateManager, add_service, remove_service, get_state, update_state,
  get_service_ids,
}

pub record Engine : Type 0 where
  pub state_manager : PollStateManager
  pub pollers : JsMap Service
  pub circuit_breakers : JsMap CircuitBreaker
  pub backoffs : JsMap ExponentialBackoff
  pub poll_cache : PollCache
  pub host_rate_limiter : HostRateLimiter
  pub is_shutting_down : Bool
  pub loop_running : Bool

-- A poller is the service row that it was built with or was last updated to.
unfoldable pub add_service_to_polling : Engine → Service → Engine
add_service_to_polling e service = if is_otlp service.health_endpoint_format then e else record e {
  state_manager = add_service e.state_manager service;
  pollers = set e.pollers service.id service;
}

-- what `stopService` and the removal in `syncServices` drop
unfoldable pub drop_service : Engine → String → Engine
drop_service e id = record e {
  state_manager = remove_service e.state_manager id;
  pollers = delete e.pollers id;
  circuit_breakers = delete e.circuit_breakers id;
  backoffs = delete e.backoffs id;
  poll_cache = invalidate e.poll_cache id;
}

-- One round of the first loop of `syncServices`.
unfoldable pub sync_removed : List String → Engine → String → Engine
sync_removed active_ids e id =
    if any (λ j. j == id) active_ids then e else elim (get_state e.state_manager id) [
      | none ↦ e
      | some state ↦ if state.is_polling then e else drop_service e id
    ]

unfoldable pub sync_removals : List String → Engine → List String → Engine
sync_removals active_ids e [] = e
sync_removals active_ids e (id ∷ ids) = sync_removals active_ids (sync_removed active_ids e id) ids

-- The endpoint and the interval of a tracked service, the cache and the poller that follow them.
unfoldable pub sync_changed : Engine → Service → Engine
sync_changed e service = elim (get_state e.state_manager service.id) [
  | none ↦ e
  | some state ↦
      let moved = not (state.health_endpoint == service.health_endpoint) in
      let retimed = not (nat_eq state.poll_interval_ms service.poll_interval_ms) in
      record e {
        state_manager = update_state e.state_manager service.id (λ s. record s {
          health_endpoint = service.health_endpoint;
          poll_interval_ms = service.poll_interval_ms;
        });
        poll_cache = if retimed then invalidate e.poll_cache service.id else e.poll_cache;
        pollers =
            if (moved || retimed) && has e.pollers service.id
            then set e.pollers service.id service
            else e.pollers;
      }
]

unfoldable pub sync_actives : List String → Engine → List Service → Engine
sync_actives tracked_ids e [] = e
sync_actives tracked_ids e (service ∷ services) =
    sync_actives tracked_ids
      (if any (λ j. j == service.id) tracked_ids
        then sync_changed e service
        else add_service_to_polling e service)
      services

unfoldable pub sync_services : Engine → List Service → Engine
sync_services e active =
    let tracked_ids = get_service_ids e.state_manager in
    let active_ids = map (λ (s : Service). s.id) active in
    sync_actives tracked_ids (sync_removals active_ids e tracked_ids) active

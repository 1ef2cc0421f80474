-- ===== src/Polling/Control.antt =====
-- The public calls of server/src/services/polling/HealthPollingService.ts. `found` is what the
-- database returns. A call that starts the loop returns the cycle that it begins.
pub mod Manual
pub mod Stopped
use depsera.Prelude.{
  ℕ, zero, suc, ◌+◌, String, Bool, true, false, not, ◌&&◌, ◌||◌, Option, none, some, List, [], ◌∷◌,
  ◌++◌, map, nat_eq, ltb, if◌then◌else◌, is_some, length,
}
use depsera.JsMap.{JsMap, get, set, has}
use depsera.Types.{Service, is_otlp}
use depsera.Polling.Breaker.{record_success, record_failure}
use depsera.Polling.Backoff.{get_next_delay, reset}
use depsera.Polling.Cache.{invalidate}
use depsera.Polling.States
use depsera.Polling.States.{ServicePollState, PollStateManager, mark_polling}
use depsera.Polling.Engine.{Engine, add_service_to_polling, drop_service}
use depsera.Polling.Cycle.Select.{get_circuit_breaker}
use depsera.Polling.Cycle.Settle.{
  PollResult, Event, status_change, poll_complete, update_poll_result, get_backoff,
}
use depsera.Polling.Cycle.{Cycle, begin_cycle}

-- The state is written before the loop's first cycle runs, and the timer is set after it, also when
-- that cycle has stopped the loop.
unfoldable pub start_loop :
    (String → String) → ℕ → Option (List Service) → Engine → Engine × Option Cycle
start_loop hostname_of now found e =
    if e.loop_running || e.is_shutting_down
    then (e, none)
    else (let (e1, c) = begin_cycle hostname_of now found e in
        (record e1 { loop_running = true }, some c))

unfoldable pub add_all : Engine → List Service → Engine
add_all e [] = e
add_all e (s ∷ services) = add_all (add_service_to_polling e s) services

-- `active` is read once for the services and `found` again by the first cycle.
unfoldable pub start_all :
    (String → String) → ℕ → List Service → Option (List Service) → Engine → Engine × Option Cycle
unfolding start_loop add_all
start_all hostname_of now active found e =
    if e.is_shutting_down then (e, none) else start_loop hostname_of now found (add_all e active)

-- The service row, if `startService` goes on with it.
abbrev startable : Option Service → Option Service
startable none = none
startable (some s) =
    if nat_eq s.is_active 0 || is_otlp s.health_endpoint_format then none else some s

unfoldable pub start_service :
    (String → String)
    → ℕ
    → Option Service
    → Option (List Service)
    → String
    → Engine
    → Engine × Option Cycle
unfolding start_loop
start_service hostname_of now row found id e =
    if e.is_shutting_down || has e.state_manager.poll_states id
    then (e, none)
    else elim (startable row) [
      | none ↦ (e, none)
      | some s ↦ start_loop hostname_of now found (add_service_to_polling e s)
    ]

unfoldable pub stop_service : String → Engine → Engine
stop_service id e = elim (get e.state_manager.poll_states id) [
  | none ↦ e
  | some _ ↦
      let e1 = drop_service e id in
      if nat_eq (length e1.state_manager.poll_states) 0
      then record e1 { loop_running = false }
      else e1
]

unfoldable pub restart_service :
    (String → String)
    → ℕ
    → Option Service
    → Option (List Service)
    → String
    → Engine
    → Engine × Option Cycle
restart_service hostname_of now row found id e =
    start_service hostname_of now row found id (stop_service id e)

-- How far `pollNow` gets before its `await`: refused because of the lock, no such service, or a poll
-- of a row, with the lock taken if the service has a state.
pub data PollNow : Type 0 where
  being_polled not_found : PollNow
  polling : Bool → Service → PollNow

abbrev or_row : Option Service → Option Service → Option Service
or_row (some poller) row = some poller
or_row none row = row

unfoldable pub poll_now_begin : Option Service → String → Engine → Engine × PollNow
poll_now_begin row id e =
    let has_state = has e.state_manager.poll_states id in
    let locked : Bool = elim (get e.state_manager.poll_states id) [
      | none ↦ false
      | some s ↦ s.is_polling
    ] in
    let on = record e { state_manager = mark_polling e.state_manager id true } in
    let off = record on { state_manager = mark_polling on.state_manager id false } in
    if locked then (e, being_polled) else elim (or_row (get e.pollers id) row) [
      | none ↦ (off, not_found)
      | some service ↦ (on, polling has_state service)
    ]

-- `ServicePoller.poll` returns a result also when it fails. The last write is the `finally`.
unfoldable pub poll_now_finish : ℕ → String → Bool → PollResult → Engine → Engine × List Event
unfolding get_backoff get_circuit_breaker
poll_now_finish now id had_state result e =
    let (e1, backoff) = get_backoff e id in
    let (e2, cb) = get_circuit_breaker e1 id in
    let e3 = record e2 {
      backoffs =
          set e2.backoffs id (if result.success then reset backoff else (get_next_delay backoff).0);
      circuit_breakers =
          set e2.circuit_breakers id
            (if result.success then record_success cb else record_failure now cb);
      poll_cache = invalidate e2.poll_cache id;
    } in
    let e4 = record e3 { state_manager = mark_polling e3.state_manager id false } in
    (
      if had_state then e4 else e3,
      map status_change result.status_changes
          ++ (poll_complete id result ∷ update_poll_result id result ∷ []),
    )

abbrev pub max_wait : ℕ
max_wait = 5000

abbrev pub poll_check_interval : ℕ
poll_check_interval = 100

-- The waiting loop of `shutdown`: `counts` are the active polls that its rounds see, and the result
-- is the time waited. A list that ends stands for no active poll.
unfoldable pub shutdown_wait : ℕ → List ℕ → ℕ
shutdown_wait waited [] = waited
shutdown_wait waited (active ∷ counts) =
    let longer = shutdown_wait (waited + poll_check_interval) counts in
    if not (ltb waited max_wait) || nat_eq active 0 then waited else longer

-- What `shutdown` leaves when its wait is over.
unfoldable pub shutdown : Engine → Engine
shutdown e = record e {
  is_shutting_down = true;
  loop_running = false;
  state_manager = States.clear e.state_manager;
  pollers = [];
  circuit_breakers = [];
  backoffs = [];
  poll_cache = [];
  host_rate_limiter = record e.host_rate_limiter { active_counts = [] };
}

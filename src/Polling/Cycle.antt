-- ===== src/Polling/Cycle.antt =====
-- `runPollCycle` of server/src/services/polling/HealthPollingService.ts, cut at its `await`:
-- `begin_cycle` is what runs before it, `finish_cycle` what runs when every poll has settled. Other
-- calls may run between the two. The clock is read once in each part.
pub mod Select
pub mod Settle
pub mod Slots
pub mod Overlap
pub mod Cooldown
pub mod Locks
pub mod Outcome
pub mod Fairness
use depsera.Prelude.{
  ℕ, String, Bool, true, false, not, Option, none, some, List, [], ◌∷◌, ◌++◌, map, ltb, keep,
  if◌then◌else◌, or_else,
}
use depsera.JsMap.{JsMap, has}
use depsera.Types.{Service}
use depsera.Polling.Cycle.Select.{select, sort_by_last_polled, acquire_all}
use depsera.Polling.Cycle.Settle.{PollResult, Event, release_all, process_results, unlock_all}
use depsera.Polling.HostLimiter.{HostRateLimiter, acquire}
use depsera.Polling.States.{ServicePollState, PollStateManager, get_all_states, mark_polling}
use depsera.Polling.Engine.{Engine, sync_services}

pub record Cycle : Type 0 where
  pub eligible : List ServicePollState
  pub acquired : JsMap (List String)
  pub polls : List (String × Option String)

abbrev pub no_cycle : Cycle
no_cycle = record { eligible = []; acquired = []; polls = [] }

pub mark_all : PollStateManager → List ServicePollState → PollStateManager
mark_all m [] = m
mark_all m (s ∷ states) = mark_all (mark_polling m s.service_id true) states

-- `pollServiceDeduped` up to its `await`: the endpoint that is requested, if there is a poller.
abbrev requests : Engine → List ServicePollState → List (String × Option String)
requests e states =
    map
      (λ (s : ServicePollState).
        (s.service_id, if has e.pollers s.service_id then some s.health_endpoint else none))
      states

-- The synchronous part after `syncServices`.
unfoldable pub begin_synced : (String → String) → ℕ → Engine → Engine × Cycle
unfolding mark_all
begin_synced hostname_of now e =
    let idle = keep (λ (s : ServicePollState). not s.is_polling) (get_all_states e.state_manager) in
    let (e1, to_poll) = select now e idle in
    let a =
      acquire_all hostname_of
        (record { limiter = e1.host_rate_limiter; eligible = []; acquired = [] })
        (sort_by_last_polled to_poll) in
    let e2 = record e1 {
      host_rate_limiter = a.limiter;
      state_manager = mark_all e1.state_manager a.eligible;
    } in
    (e2, record { eligible = a.eligible; acquired = a.acquired; polls = requests e2 a.eligible })

-- `found` is what `findActive` returns, and `none` where it throws.
unfoldable pub begin_cycle : (String → String) → ℕ → Option (List Service) → Engine → Engine × Cycle
unfolding begin_synced
begin_cycle hostname_of now found e = if e.is_shutting_down then (e, no_cycle) else elim found [
  | none ↦ (record e { loop_running = false }, no_cycle)
  | some active ↦ begin_synced hostname_of now (sync_services e active)
]

abbrev pub no_poller_result : PollResult
no_poller_result = record {
  success = false;
  dependencies_updated = 0;
  status_changes = [];
  error = some "No poller found";
  warnings = none;
  latency_ms = 0;
}

-- How the polls of a cycle settled: services that share an endpoint share its outcome.
abbrev pub settled :
    (String → Option PollResult) → List (String × Option String) → List (String × Option PollResult)
settled outcome [] = []
settled outcome ((id, none) ∷ polls) = (id, some no_poller_result) ∷ settled outcome polls
settled outcome ((id, some url) ∷ polls) = (id, outcome url) ∷ settled outcome polls

unfoldable pub finish_cycle :
    ℕ → (String → Option PollResult) → Cycle → Engine → Engine × List Event
finish_cycle now outcome cycle e =
    let e1 = record e { host_rate_limiter = release_all e.host_rate_limiter cycle.acquired } in
    let (e2, out) = process_results now e1 (settled outcome cycle.polls) in
    (record e2 { state_manager = unlock_all e2.state_manager cycle.eligible }, out)

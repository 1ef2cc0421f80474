-- ===== src/Examples/Polling.antt =====
-- The parts of the polling engine.
use depsera.Prelude.{
  min, ◌≤◌, ◌<◌, ◌≡◌, ◌↔◌, true, false, ◌||◌, some, List, [], ◌∷◌, arith, if◌then◌else◌,
}
use depsera.Polling.Breaker
use depsera.Polling.Breaker.{CircuitBreaker, closed, open_circuit, half_open, can_attempt}
use depsera.Polling.Breaker.Trace
use depsera.Polling.Breaker.Trace.{Call, success, failure, attempt, streak, closed_iff}
use depsera.Polling.Backoff
use depsera.Polling.Backoff.{get_next_delay, reset}
use depsera.Polling.Backoff.Delays.{nth_delay, after, delays_lem}
use depsera.Polling.Dedup.{PollDeduplicator}
use depsera.Polling.Dedup.Sharing
use depsera.Polling.Engine.{Engine, sync_services}
use depsera.Polling.Engine.Sync.{
  state_of, tracked, tracked-sync_services, is_active_id, is_pollable_id,
}
use depsera.Polling.States.Laws.{busy}
use depsera.Polling.Control.{shutdown}
use depsera.Polling.Control.Stopped
use depsera.Polling.Control.Stopped.{
  starts_all, restarts, manual_begins, manual_ends, cycle_begins, cycle_ends, stopped_forever,
}
use depsera.Polling.Cycle.{Cycle, begin_cycle, no_poller_result}
use depsera.Examples.Data.{orders, traces, tracking}

abbrev calls : List Call
calls = failure 10 ∷ success ∷ failure 20 ∷ attempt 25 ∷ []

closed_iff_example :
    ((Trace.run (Breaker.new Breaker.default_config) calls).state ≡ closed) ↔ (streak 0 calls < 10)
closed_iff_example = closed_iff Breaker.default_config calls (omega arith)

delays_lem_example :
    (nth_delay Backoff.default_config 3 ≤ nth_delay Backoff.default_config 4)
    × (nth_delay Backoff.default_config 3 ≤ 300000)
    × ((get_next_delay (reset (after 3 (Backoff.new Backoff.default_config)))).1 ≡ min 1000 300000)
delays_lem_example = delays_lem Backoff.default_config 3 (omega arith)

abbrev no_polls : PollDeduplicator
no_polls = record { inflight = []; next_promise = 0 }

tracked-sync_services_example : tracked (sync_services tracking (orders ∷ traces ∷ [])) "traces" ≡ (
    if is_active_id (orders ∷ traces ∷ []) "traces"
    then tracked tracking "traces" || is_pollable_id (orders ∷ traces ∷ []) "traces"
    else busy (state_of tracking "traces"))
tracked-sync_services_example = tracked-sync_services tracking (orders ∷ traces ∷ []) "traces"

-- A cycle and a manual poll were begun before the shutdown and end after it.
abbrev begun : Engine × Cycle
begun = begin_cycle (λ url. url) 0 (some (orders ∷ [])) tracking

abbrev after_shutdown : List Stopped.Call
after_shutdown =
    restarts 5 (some orders) (some (orders ∷ [])) "orders"
    ∷ cycle_ends 6 (λ _. some no_poller_result) begun.1
    ∷ manual_begins (some orders) "orders"
    ∷ manual_ends 7 "orders" true no_poller_result
    ∷ cycle_begins 8 (some (orders ∷ []))
    ∷ starts_all 9 (orders ∷ []) (some (orders ∷ []))
    ∷ []

stopped_forever_example :
    let final = Stopped.run (λ url. url) (shutdown begun.0) after_shutdown in
    (final.1 ≡ []) × (tracked final.0 "orders" ≡ false) × (final.0.loop_running ≡ false)
stopped_forever_example = stopped_forever (λ url. url) begun.0 after_shutdown "orders"

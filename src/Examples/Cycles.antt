-- ===== src/Examples/Cycles.antt =====
-- Poll cycles.
use depsera.Prelude.{◌≤◌, String, ◌≡◌, refl, inl, inr, In, true, false, none, some, [], ◌∷◌, arith}
use depsera.JsMap.{get, set, values}
use depsera.Polling.Breaker
use depsera.Polling.Breaker.{open_circuit, can_attempt}
use depsera.Polling.HostLimiter.{HostRateLimiter, get_active_count, acquire}
use depsera.Polling.States.{ServicePollState, get_all_states, mark_polling, update_state}
use depsera.Polling.Cache.{should_poll}
use depsera.Polling.Engine.{Engine}
use depsera.Polling.Cycle.{Cycle, begin_cycle, begin_synced, finish_cycle}
use depsera.Polling.Cycle.Select.{
  select, select_one, insert_by_last_polled, sort_by_last_polled, acquire_one, acquire_all,
}
use depsera.Polling.Cycle.Settle.{process_results, release_all, unlock, unlock_all}
use depsera.Polling.Cycle.Slots.{active_on}
use depsera.Polling.Cycle.Overlap.{Reach, start, begin, finish, held_by, slots_conserved}
use depsera.Polling.Cycle.Outcome.{breaker_of}
use depsera.Polling.Cycle.Cooldown.{probe_postponed}
use depsera.Polling.Cycle.Fairness.{slots_fair}
use depsera.Polling.Cycle.Locks.{begin_synced-Locked, finish_cycle-Unlocked}
use depsera.Examples.Data.{orders, idle, tracking, orders_state, failed_poll}

abbrev host_of : String → String
host_of url = url

abbrev first : Engine × Cycle
first = begin_cycle host_of 0 (some (orders ∷ [])) idle

abbrev second : Engine × Cycle
second = begin_cycle host_of 5000 (some (orders ∷ [])) first.0

-- Two cycles have begun and the first has finished, with a failed poll.
after_first :
    Reach host_of (finish_cycle 6000 (λ _. some failed_poll) first.1 second.0).0 (second.1 ∷ [])
unfolding get_active_count get
after_first =
    finish 6000 (λ _. some failed_poll) (second.1 ∷ []) first.1 []
      (begin 5000 (some (orders ∷ [])) (begin 0 (some (orders ∷ [])) (start (λ h. refl))))

slots_conserved_example :
    active_on (finish_cycle 6000 (λ _. some failed_poll) first.1 second.0).0 "orders"
    ≡ held_by (second.1 ∷ []) "orders"
slots_conserved_example = slots_conserved host_of "orders" after_first

abbrev broken : Engine
broken = record tracking {
  circuit_breakers =
      (
        "orders",
        record {
          state = open_circuit;
          failures = 10;
          last_failure_time = 1000;
          config = Breaker.default_config;
        },
      )
      ∷ [];
}

probe_postponed_example :
    ((select_one 302000 (select_one 300000 broken orders_state).0 orders_state).1 ≡ false)
    × ((can_attempt 302000 (breaker_of (select_one 300000 broken orders_state).0 "orders")).1
        ≡ true)
unfolding get
probe_postponed_example =
    probe_postponed 300000 302000 broken orders_state refl (omega arith) (omega arith) (omega arith)

abbrev one_slot : HostRateLimiter
one_slot = record { active_counts = []; max_concurrent_per_host = 1 }

abbrev polled_later : ServicePollState
polled_later = record orders_state { service_id = "later"; last_polled = 9 }

slots_fair_example : orders_state.last_polled ≤ polled_later.last_polled
unfolding get set acquire acquire_one acquire_all insert_by_last_polled sort_by_last_polled
slots_fair_example =
    slots_fair host_of one_slot (polled_later ∷ orders_state ∷ []) polled_later orders_state
      (inl refl) (λ i. elim i [ inl e ↦ cc e | inr j ↦ elim j [ ] ]) (inl refl) refl

abbrev locked : ServicePollState
locked = record orders_state { is_polling = true }

begin_synced-Locked_example :
    In orders_state (get_all_states tracking.state_manager)
    × (orders_state.is_polling ≡ false)
    × (locked.is_polling ≡ true)
unfolding get set begin_synced select select_one can_attempt should_poll values acquire acquire_one
    acquire_all insert_by_last_polled sort_by_last_polled mark_polling update_state
begin_synced-Locked_example =
    begin_synced-Locked host_of 7 tracking orders_state locked (inl refl) refl

-- The cycle that polls the service, and the engine after it.
abbrev cycle : Engine × Cycle
cycle = begin_synced host_of 7 tracking

finish_cycle-Unlocked_example : orders_state.is_polling ≡ false
unfolding get set begin_synced select select_one can_attempt should_poll values acquire acquire_one
    acquire_all insert_by_last_polled sort_by_last_polled mark_polling update_state finish_cycle
    process_results unlock unlock_all release_all
finish_cycle-Unlocked_example =
    finish_cycle-Unlocked 6000 (λ _. none) cycle.1 cycle.0 orders_state orders_state (inl refl) refl
      refl

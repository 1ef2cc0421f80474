-- ===== src/Polling/States.antt =====
-- server/src/services/polling/types.ts and PollStateManager.ts. The states are objects that the
-- engine mutates in place while other code holds them: `ref` is the identity of the object.
pub mod Laws
use depsera.Prelude.{ℕ, suc, String, Bool, false, Option, none, some, List, [], keep, length}
use depsera.JsMap.{JsMap, get, set, delete, keys, values}
use depsera.Types.{Service}
use depsera.Polling.Breaker.{CircuitState, closed}

pub record ServicePollState : Type 0 where
  pub ref : ℕ
  pub service_id : String
  pub service_name : String
  pub health_endpoint : String
  pub poll_interval_ms : ℕ
  pub last_polled : ℕ
  pub consecutive_failures : ℕ
  pub is_polling : Bool
  pub circuit_state : CircuitState

pub record PollStateManager : Type 0 where
  pub poll_states : JsMap ServicePollState
  pub next_ref : ℕ

-- the object that `addService` creates; `poll_interval_ms` is never null in a row
abbrev pub fresh_state : ℕ → Service → ServicePollState
fresh_state ref service = record {
  ref = ref;
  service_id = service.id;
  service_name = service.name;
  health_endpoint = service.health_endpoint;
  poll_interval_ms = service.poll_interval_ms;
  last_polled = 0;
  consecutive_failures = 0;
  is_polling = false;
  circuit_state = closed;
}

unfoldable pub add_service : PollStateManager → Service → PollStateManager
add_service m service = record {
  poll_states = set m.poll_states service.id (fresh_state m.next_ref service);
  next_ref = suc m.next_ref;
}

unfoldable pub remove_service : PollStateManager → String → PollStateManager
remove_service m service_id = record m { poll_states = delete m.poll_states service_id }

abbrev pub get_state : PollStateManager → String → Option ServicePollState
get_state m service_id = get m.poll_states service_id

-- A write through the object that the map holds for `service_id`.
unfoldable pub update_state :
    PollStateManager → String → (ServicePollState → ServicePollState) → PollStateManager
update_state m service_id f = elim (get m.poll_states service_id) [
  | none ↦ m
  | some s ↦ record m { poll_states = set m.poll_states service_id (f s) }
]

unfoldable pub mark_polling : PollStateManager → String → Bool → PollStateManager
unfolding update_state
mark_polling m service_id polling =
    update_state m service_id (λ s. record s { is_polling = polling })

abbrev pub get_service_ids : PollStateManager → List String
get_service_ids m = keys m.poll_states

abbrev pub get_all_states : PollStateManager → List ServicePollState
get_all_states m = values m.poll_states

unfoldable pub get_active_polling_count : PollStateManager → ℕ
get_active_polling_count m =
    length (keep (λ (s : ServicePollState). s.is_polling) (values m.poll_states))

unfoldable pub clear : PollStateManager → PollStateManager
clear m = record m { poll_states = [] }

-- ===== src/Polling/States/Laws.antt =====
-- What a write through a tracked object leaves in the map.
use depsera.Prelude.{
  String, ◌≡◌, refl, Bool, false, none, some, Option, arith, eq_iff, eq_refl, if◌then◌else◌, ◌==◌,
  Option-cases, inl, inr, is_some,
}
use depsera.JsMap.{get}
use depsera.JsMap.Laws.{get-set}
use depsera.Polling.States.{ServicePollState, PollStateManager, update_state, mark_polling}

abbrev pub apply_to :
    (ServicePollState → ServicePollState) → Option ServicePollState → Option ServicePollState
apply_to f none = none
apply_to f (some s) = some (f s)

pub get-update_state :
    (m : PollStateManager) (id k : String) (f : ServicePollState → ServicePollState)
    → get (update_state m id f).poll_states k
      ≡ (if id == k then apply_to f (get m.poll_states k) else get m.poll_states k)
unfolding update_state
get-update_state m id k f = elim (Option-cases (get m.poll_states id)) [
  | inl missing ↦ ground (arith, eq_iff id k)
  | inr (s, found) ↦ ground (arith, get-set m.poll_states id k (f s), eq_iff id k)
]

-- a poll of the service is in flight
abbrev pub busy : Option ServicePollState → Bool
busy none = false
busy (some s) = s.is_polling

busy-apply_to :
    (polling : Bool) (o : Option ServicePollState)
    → busy (apply_to (λ s. record s { is_polling = polling }) o)
      ≡ (if is_some o then polling else false)
busy-apply_to polling none = refl
busy-apply_to polling (some s) = refl

pub busy-mark_polling :
    (m : PollStateManager) (id : String) (polling : Bool)
    → busy (get (mark_polling m id polling).poll_states id)
      ≡ (if is_some (get m.poll_states id) then polling else false)
unfolding mark_polling
busy-mark_polling m id polling =
    rw (get-update_state m id id (λ s. record s { is_polling = polling }), eq_refl id)
      (busy-apply_to polling (get m.poll_states id))

-- ===== src/Polling/Engine/Sync.antt =====
-- Which services the engine tracks after `syncServices`.
use depsera.Prelude.{
  String, ◌≡◌, refl, Bool, true, not, ◌||◌, ◌&&◌, Option, none, List, [], ◌∷◌, map, any, arith,
  eq_iff, ◌==◌, if◌then◌else◌, is_some, ap, String-cases, eq_refl, Option-cases, inl, inr,
}
use depsera.JsMap.{JsMap, get, has, keys}
use depsera.JsMap.Laws.{get-set, get-delete}
use depsera.Types.{Service, is_otlp}
use depsera.Polling.States.{
  ServicePollState, add_service, remove_service, update_state, get_service_ids, fresh_state,
}
use depsera.Polling.States.Laws.{busy}
use depsera.Polling.Engine.{
  Engine, add_service_to_polling, drop_service, sync_removed, sync_removals, sync_changed,
  sync_actives, sync_services,
}

abbrev pub state_of : Engine → String → Option ServicePollState
state_of e k = get e.state_manager.poll_states k

abbrev pub tracked : Engine → String → Bool
tracked e k = is_some (state_of e k)

abbrev pub is_active_id : List Service → String → Bool
is_active_id active k = any (λ j. j == k) (map (λ (s : Service). s.id) active)

-- an active service of that id that is polled at all
abbrev pub is_pollable_id : List Service → String → Bool
is_pollable_id active k = any (λ s. s.id == k && not (is_otlp s.health_endpoint_format)) active

any-keys {ℓ} : {V : Type ℓ} (m : JsMap V) (k : String) → any (λ j. j == k) (keys m) ≡ has m k
unfolding keys get
any-keys [] k = refl
any-keys ((j, v) ∷ m) k = ground (arith, any-keys m k)

abbrev after_removal : Bool → Bool → Option ServicePollState → Option ServicePollState
after_removal visited active s = if visited && not active && not (busy s) then none else s

state_of-sync_removed :
    (ids : List String) (e : Engine) (i k : String)
    → state_of (sync_removed ids e i) k
      ≡ after_removal (i == k) (any (λ j. j == k) ids) (state_of e k)
unfolding sync_removed drop_service remove_service
state_of-sync_removed ids e i k = elim (String-cases i k) [
  | inl same ↦ rw (← same) (ground (arith, get-delete e.state_manager.poll_states i i, eq_refl i))
  | inr other ↦ ground (arith, get-delete e.state_manager.poll_states i k, eq_iff i k)
]

state_of-sync_removals :
    (ids : List String) (e : Engine) (ks : List String) (k : String)
    → state_of (sync_removals ids e ks) k
      ≡ after_removal (any (λ j. j == k) ks) (any (λ j. j == k) ids) (state_of e k)
unfolding sync_removals
state_of-sync_removals ids e [] k = refl
state_of-sync_removals ids e (i ∷ ks) k =
    ground (
      arith,
      state_of-sync_removals ids (sync_removed ids e i) ks k,
      state_of-sync_removed ids e i k,
    )

tracked-sync_changed :
    (e : Engine) (s : Service) (k : String) → tracked (sync_changed e s) k ≡ tracked e k
unfolding sync_changed update_state
tracked-sync_changed e s k = elim (Option-cases (get e.state_manager.poll_states s.id)) [
  | inl missing ↦ ground arith
  | inr (state, found) ↦ ground (
    arith,
    get-set e.state_manager.poll_states s.id k (record state {
      health_endpoint = s.health_endpoint;
      poll_interval_ms = s.poll_interval_ms;
    }),
    eq_iff s.id k,
  )
]

tracked-add_service_to_polling :
    (e : Engine) (s : Service) (k : String)
    → tracked (add_service_to_polling e s) k
      ≡ (tracked e k || (s.id == k && not (is_otlp s.health_endpoint_format)))
unfolding add_service_to_polling add_service
tracked-add_service_to_polling e s k = ground (
  arith,
  get-set e.state_manager.poll_states s.id k (fresh_state e.state_manager.next_ref s),
  eq_iff s.id k,
)

tracked-sync_actives :
    (ids : List String) (e : Engine) (svs : List Service) (k : String)
    → tracked (sync_actives ids e svs) k
      ≡ (tracked e k || (not (any (λ j. j == k) ids) && is_pollable_id svs k))
unfolding sync_actives
tracked-sync_actives ids e [] k = ground arith
tracked-sync_actives ids e (s ∷ svs) k =
    let e' : Engine =
      if any (λ j. j == s.id) ids then sync_changed e s else add_service_to_polling e s in
    let ih = tracked-sync_actives ids e' svs k in
    let kept = tracked-sync_changed e s k in
    let added = tracked-add_service_to_polling e s k in
    elim (String-cases s.id k) [
      | inl same ↦
          ground
            (arith, ih, kept, added, eq_iff s.id k, ap (λ (j : String). any (λ i. i == j) ids) same)
      | inr other ↦ ground (arith, ih, kept, added, eq_iff s.id k)
    ]

pollable_active :
    (active : List Service) (k : String)
    → is_pollable_id active k ≡ true
    → is_active_id active k ≡ true
pollable_active [] k h = cc
pollable_active (s ∷ active) k h = ground (arith, pollable_active active k)

-- After a synchronisation the engine tracks an active id exactly when it tracked it before or an
-- active service of that id is not push-only, and any other id exactly when it tracked it before
-- with a poll in flight.
pub tracked-sync_services :
    (e : Engine) (active : List Service) (k : String)
    → tracked (sync_services e active) k ≡ (
        if is_active_id active k
        then tracked e k || is_pollable_id active k
        else busy (state_of e k))
unfolding sync_services
tracked-sync_services e active k = ground (
  arith,
  tracked-sync_actives (get_service_ids e.state_manager)
      (sync_removals (map (λ (s : Service). s.id) active) e (get_service_ids e.state_manager))
      active k,
  state_of-sync_removals (map (λ (s : Service). s.id) active) e (get_service_ids e.state_manager) k,
  any-keys e.state_manager.poll_states k,
  pollable_active active k,
)

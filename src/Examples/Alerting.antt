-- ===== src/Examples/Alerting.antt =====
-- The alert service.
use depsera.Prelude.{
  ℕ, ◌-◌, ◌≤◌, ◌≡◌, ◌≢◌, refl, ◌⊎◌, Bool, true, false, not, none, some, [], ◌∷◌, map, arith,
  if◌then◌else◌, Option,
}
use depsera.JsMap.{get}
use depsera.Alerts.Flap.{is_suppressed}
use depsera.Alerts.Limiter.{is_limited, get_or_create_entry, RateLimitEntry}
use depsera.Alerts.Dispatch.{
  AlertEvent, status_change, critical, warning, Stores, AlertService, Target, Senders, failure,
  dispatched, find_target, matches_severity, is_muted, is_recovery, check_delay, check_limits,
  decide_target, decide, deliver,
}
use depsera.Alerts.Dispatch.Decisions.{Unlimited, DelayOver, dispatched_needs}
use depsera.Alerts.Dispatch.Spacing
use depsera.Alerts.Dispatch.Spacing.{Step, alerts_spaced}
use depsera.Alerts.Dispatch.HourlyCap.{alerts_to, hourly_cap}
use depsera.Alerts.Dispatch.Delivery.{retries_of, status_of, deliver_lem}
use depsera.Examples.Data.{orders, channel, rule}

abbrev stores : Option ℕ → Stores
stores delay_minutes = record {
  find_service = λ _. some orders;
  find_dependency = λ _. none;
  find_active_rules = λ _. rule delay_minutes ∷ [];
  find_active_channels = λ _. channel ∷ [];
  is_service_muted = λ _ _. false;
  is_effectively_muted = λ _ _ _. false;
  alert_cooldown_minutes = 5;
  alert_rate_limit_per_hour = 30;
}

abbrev target : Option ℕ → Target
target delay_minutes = record {
  team_id = "shop";
  rule = rule delay_minutes;
  channels = channel ∷ [];
}

abbrev event : Bool → AlertEvent
event healthy = record {
  event_type = status_change;
  service_id = "orders";
  service_name = "orders";
  dependency_id = some "db";
  dependency_name = some "db";
  severity = if healthy then warning else critical;
  previous_healthy = some (not healthy);
  current_healthy = some healthy;
  error = none;
  timestamp = "";
}

abbrev nothing_sent : AlertService
nothing_sent = record {
  flap_protector = [];
  rate_limiter = [];
  delay_tracker = [];
  delay_alert_sent = [];
  pending_retries = [];
}

abbrev down : ℕ → Step
down now = record { stores = stores none; now = now; event = event false }

abbrev up : ℕ → Step
up now = record { stores = stores none; now = now; event = event true }

alerts_spaced_example :
    (decide
      (stores none)
      9000
      (event false)
      (Spacing.run nothing_sent (down 1000 ∷ up 2000 ∷ []))).1
    ≢ dispatched "shop" (channel ∷ [])
unfolding get decide decide_target find_target matches_severity is_muted check_delay check_limits
    is_recovery is_suppressed is_limited get_or_create_entry
alerts_spaced_example =
    alerts_spaced nothing_sent (down 1000) (up 2000 ∷ []) (down 9000) (target none) "shop"
      (channel ∷ []) refl (omega arith, tt) (omega arith) refl refl refl (omega arith) "shop"
      (channel ∷ [])

abbrev two_counted : RateLimitEntry
two_counted = record { count = 2; window_start = 0 }

abbrev counted : AlertService
counted = record nothing_sent { rate_limiter = ("shop", two_counted) ∷ [] }

hourly_cap_example : alerts_to "shop" counted (down 1000 ∷ up 2000 ∷ []) ≤ 30 - 2
unfolding get find_target matches_severity
hourly_cap_example =
    hourly_cap "shop" 30 counted two_counted (down 1000 ∷ up 2000 ∷ []) refl
      ((omega arith, omega arith), ((omega arith, omega arith), tt))

dispatched_needs_example :
    (is_muted (stores none) (event false) "shop" ≡ false)
    × ("shop" ≡ (target none).team_id)
    × (channel ∷ [] ≡ (target none).channels)
    × ((is_recovery (event false) ≡ true)
        ⊎ (DelayOver (stores none) 1000 (event false) nothing_sent (target none) none
            × Unlimited (stores none) 1000 (event false) nothing_sent (target none)))
unfolding get decide decide_target find_target matches_severity is_muted check_delay check_limits
    is_recovery is_suppressed is_limited get_or_create_entry
dispatched_needs_example =
    dispatched_needs (stores none) 1000 (event false) nothing_sent (target none) "shop"
      (channel ∷ []) refl refl

abbrev failing : Senders
failing c = some failure

deliver_lem_example : deliver failing (event false) (channel ∷ []) nothing_sent ≡ (
  record nothing_sent { pending_retries = retries_of failing (event false) (channel ∷ []) },
  map (status_of failing) (channel ∷ []),
)
deliver_lem_example = deliver_lem failing (event false) (channel ∷ []) nothing_sent

-- ===== src/Alerts/Dispatch/Reading.antt =====
-- The events and the state of server/src/services/alerts/AlertService.ts, and the steps of
-- `processEvent` that only read: the rule and channels of an event, and the mutes.
use depsera.Prelude.{
  ℕ, String, Bool, true, false, not, ◌&&◌, ◌||◌, Option, none, some, List, [], ◌∷◌, keep, ◌==◌,
  if◌then◌else◌, or_else,
}
use depsera.JsMap.{JsMap}
use depsera.Types.{
  Service, Dependency, AlertChannel, AlertRule, AlertSeverityFilter, only_critical, only_warning,
  all_severities,
}
use depsera.Alerts.Flap.{FlapProtector}
use depsera.Alerts.Limiter.{AlertRateLimiter}

pub data AlertSeverity : Type 0 where
  critical warning : AlertSeverity

pub data EventType : Type 0 where
  status_change poll_error : EventType

pub record AlertEvent : Type 0 where
  pub event_type : EventType
  pub service_id : String
  pub service_name : String
  pub dependency_id : Option String
  pub dependency_name : Option String
  pub severity : AlertSeverity
  pub previous_healthy : Option Bool
  pub current_healthy : Option Bool
  pub error : Option String
  pub timestamp : String

-- What the engine reads from the database and the settings.
pub record Stores : Type 0 where
  pub find_service : String → Option Service
  pub find_dependency : String → Option Dependency
  pub find_active_rules : String → List AlertRule
  pub find_active_channels : String → List AlertChannel
  pub is_service_muted : String → String → Bool
  pub is_effectively_muted : String → String → Option String → Bool
  pub alert_cooldown_minutes : ℕ
  pub alert_rate_limit_per_hour : ℕ

pub record PendingRetry : Type 0 where
  pub channel : AlertChannel
  pub event : AlertEvent

pub record AlertService : Type 0 where
  pub flap_protector : FlapProtector
  pub rate_limiter : AlertRateLimiter
  pub delay_tracker : JsMap ℕ
  pub delay_alert_sent : JsMap (Unit {0})
  pub pending_retries : List PendingRetry

unfoldable pub matches_severity : AlertSeverityFilter → AlertSeverity → Bool
matches_severity all_severities severity = true
matches_severity only_critical critical = true
matches_severity only_critical warning = false
matches_severity only_warning severity = true

-- the severity of a status change
unfoldable pub determine_severity : Bool → AlertSeverity
determine_severity true = warning
determine_severity false = critical

-- An absent or empty id is falsy.
abbrev pub truthy : Option String → Option String
truthy none = none
truthy (some s) = if s == "" then none else some s

abbrev pub key_of : AlertEvent → String
key_of event = or_else (truthy event.dependency_id) event.service_id

abbrev is_true : Option Bool → Bool
is_true none = false
is_true (some b) = b

abbrev pub is_status_change : EventType → Bool
is_status_change status_change = true
is_status_change poll_error = false

unfoldable pub is_recovery : AlertEvent → Bool
is_recovery event = is_status_change event.event_type && is_true event.current_healthy

-- Steps 1 to 4: the team, its first matching rule and its channels, if there are any.
pub record Target : Type 0 where
  pub team_id : String
  pub rule : AlertRule
  pub channels : List AlertChannel

abbrev first_target : String → List AlertRule → List AlertChannel → Option Target
first_target team [] channels = none
first_target team (rule ∷ _) [] = none
first_target team (rule ∷ _) (channel ∷ channels) =
    some (record { team_id = team; rule = rule; channels = channel ∷ channels })

unfoldable pub find_target : Stores → AlertEvent → Option Target
find_target stores event = elim (stores.find_service event.service_id) [
  | none ↦ none
  | some service ↦
      first_target service.team_id
        (keep (λ (rule : AlertRule). matches_severity rule.severity_filter event.severity)
          (stores.find_active_rules service.team_id))
        (stores.find_active_channels service.team_id)
]

abbrev canonical_name_of : Option Dependency → Option String
canonical_name_of none = none
canonical_name_of (some dep) = dep.canonical_name

-- Steps 5b and 5c.
unfoldable pub is_muted : Stores → AlertEvent → String → Bool
is_muted stores event team_id =
    (not (is_status_change event.event_type) && stores.is_service_muted event.service_id team_id)
    || elim (truthy event.dependency_id) [
      | none ↦ false
      | some id ↦
          stores.is_effectively_muted id team_id (canonical_name_of (stores.find_dependency id))
    ]

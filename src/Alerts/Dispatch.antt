-- ===== src/Alerts/Dispatch.antt =====
-- server/src/services/alerts/AlertService.ts and types.ts. `decide` is `processEvent` up to its
-- dispatch loop, which runs with no `await`; `deliver` is the loop over the channels.
mod Reading
pub mod Decisions
pub mod Spacing
pub mod Delays
pub mod HourlyCap
pub mod Delivery
unfoldable pub use Reading.*
use depsera.Prelude.{
  ℕ, ◌+◌, ◌*◌, String, Bool, true, false, not, ◌&&◌, ◌||◌, Option, none, some, List, [], ◌∷◌, ◌++◌,
  map, keep, ◌==◌, nat_eq, ltb, if◌then◌else◌, is_some, or_else,
}
use depsera.JsMap.{JsMap, get, set, delete, has}
use depsera.Types.{
  Service, Dependency, AlertChannel, AlertRule, AlertSeverityFilter, only_critical, only_warning,
  all_severities, AlertStatus, sent, failed, suppressed, muted,
}
use depsera.Alerts.Flap
use depsera.Alerts.Flap.{FlapProtector, is_suppressed}
use depsera.Alerts.Limiter
use depsera.Alerts.Limiter.{AlertRateLimiter, is_limited}

-- Step 6: the new trackers, and whether the event goes on.
unfoldable pub check_delay : ℕ → AlertEvent → Option ℕ → AlertService → AlertService × Bool
check_delay now event delay_minutes s =
    let key = key_of event in
    if is_recovery event
    then (
      record s {
        delay_tracker = delete s.delay_tracker key;
        delay_alert_sent = delete s.delay_alert_sent key;
      },
      not (has s.delay_tracker key && not (has s.delay_alert_sent key) && is_some delay_minutes),
    )
    else elim delay_minutes [
      | none ↦ (s, true)
      | some minutes ↦
          if is_status_change event.event_type
          then elim (get s.delay_tracker key) [
            | none ↦ (record s { delay_tracker = set s.delay_tracker key now }, false)
            | some existing ↦
                if ltb now (existing + minutes * 60000)
                then (s, false)
                else (record s { delay_alert_sent = set s.delay_alert_sent key tt }, true)
          ]
          else (s, true)
    ]

abbrev custom : AlertRule → Option ℕ → ℕ → ℕ
custom rule own default =
    if nat_eq rule.use_custom_thresholds 1 then or_else own default else default

abbrev pub cooldown_ms_of : Stores → AlertRule → ℕ
cooldown_ms_of stores rule = custom rule rule.cooldown_minutes stores.alert_cooldown_minutes * 60000

abbrev pub max_per_hour_of : Stores → AlertRule → ℕ
max_per_hour_of stores rule = custom rule rule.rate_limit_per_hour stores.alert_rate_limit_per_hour

pub data Decision : Type 0 where
  ignored delayed : Decision
  is_mute : List AlertChannel → Decision
  is_suppression : List AlertChannel → Decision
  dispatched : String → List AlertChannel → Decision

-- Step 7: flap protection, then the rate limit; a recovery passes both unread.
unfoldable pub check_limits : Stores → ℕ → AlertEvent → Target → AlertService → AlertService × Bool
check_limits stores now event target s =
    if is_recovery event
    then (s, true)
    else if is_suppressed now s.flap_protector (key_of event) (cooldown_ms_of stores target.rule)
    then (s, false)
    else (let (limiter, limited) =
          is_limited now s.rate_limiter target.team_id (max_per_hour_of stores target.rule) in
        (record s { rate_limiter = limiter }, not limited))

-- what is recorded before the first send
unfoldable pub record_alert : ℕ → AlertEvent → Target → AlertService → AlertService
record_alert now event target s = record s {
  flap_protector = Flap.record_alert now s.flap_protector (key_of event);
  rate_limiter = Limiter.record_alert now s.rate_limiter target.team_id;
}

unfoldable pub decide_target :
    Stores → ℕ → AlertEvent → Target → AlertService → AlertService × Decision
decide_target stores now event target s =
    if is_muted stores event target.team_id
    then (s, is_mute target.channels)
    else (let (s1, on_time) = check_delay now event target.rule.alert_delay_minutes s in
        let (s2, allowed) = check_limits stores now event target s1 in
        if not on_time
        then (s1, delayed)
        else if not allowed
        then (s2, is_suppression target.channels)
        else (record_alert now event target s2, dispatched target.team_id target.channels))

unfoldable pub decide : Stores → ℕ → AlertEvent → AlertService → AlertService × Decision
decide stores now event s = elim (find_target stores event) [
  | none ↦ (s, ignored)
  | some target ↦ decide_target stores now event target s
]

-- How a send to a channel ends.
pub data SendOutcome : Type 0 where
  success failure threw : SendOutcome

abbrev pub Senders : Type 0
Senders = AlertChannel → Option SendOutcome

-- One round of the loop: `none` where no sender is registered for the channel's type.
unfoldable pub deliver_one :
    AlertEvent → AlertChannel → Option SendOutcome → AlertService → AlertService × AlertStatus
deliver_one event channel none s = (s, failed)
deliver_one event channel (some success) s = (s, sent)
deliver_one event channel (some failure) s = (
  record s {
    pending_retries = s.pending_retries ++ record { channel = channel; event = event } ∷ [];
  },
  failed,
)
deliver_one event channel (some threw) s = (
  record s {
    pending_retries = s.pending_retries ++ record { channel = channel; event = event } ∷ [];
  },
  failed,
)

-- The history entries, a channel's id and its status each.
unfoldable pub deliver :
    Senders
    → AlertEvent
    → List AlertChannel
    → AlertService
    → AlertService × List (String × AlertStatus)
deliver send event [] s = (s, [])
deliver send event (channel ∷ channels) s =
    let (s1, status) = deliver_one event channel (send channel) s in
    let (s2, history) = deliver send event channels s1 in (s2, (channel.id, status) ∷ history)

abbrev pub history_of : AlertStatus → List AlertChannel → List (String × AlertStatus)
history_of status channels = map (λ (c : AlertChannel). (c.id, status)) channels

carry_out :
    Senders → AlertEvent → Decision → AlertService → AlertService × List (String × AlertStatus)
unfolding deliver
carry_out send event ignored s = (s, [])
carry_out send event delayed s = (s, [])
carry_out send event (is_mute channels) s = (s, history_of muted channels)
carry_out send event (is_suppression channels) s = (s, history_of suppressed channels)
carry_out send event (dispatched team_id channels) s = deliver send event channels s

unfoldable pub process_event :
    Stores → Senders → ℕ → AlertEvent → AlertService → AlertService × List (String × AlertStatus)
unfolding carry_out
process_event stores send now event s =
    let (s1, decision) = decide stores now event s in carry_out send event decision s1

-- The timer of the first pending retry: one more send, recorded only if it succeeds.
unfoldable pub fire_retry : Senders → AlertService → AlertService × List (String × AlertStatus)
fire_retry send s = elim s.pending_retries [
  | [] ↦ (s, [])
  | retry ∷ rest ↦
      let s1 = record s { pending_retries = rest } in
      elim (send retry.channel) [
        | none ↦ (s1, [])
        | some outcome ↦ elim outcome [
          | success ↦ (s1, (retry.channel.id, sent) ∷ [])
          | failure ↦ (s1, [])
          | threw ↦ (s1, [])
        ]
      ]
]

unfoldable pub shutdown : AlertService → AlertService
shutdown s = record {
  flap_protector = [];
  rate_limiter = [];
  delay_tracker = [];
  delay_alert_sent = [];
  pending_retries = [];
}

-- ===== src/Alerts/Dispatch/Decisions.antt =====
-- When `processEvent` dispatches an event, and what mutes and recoveries do.
use depsera.Prelude.{
  ℕ, ◌+◌, ◌*◌, ◌≤◌, String, ◌≡◌, true, false, Option, none, some, arith, ◌⊎◌, List, inl, inr,
  is_some, not, Bool-cases, Option-cases, ◌&&◌, if◌then◌else◌,
}
use depsera.JsMap.{get, has, delete}
use depsera.Types.{AlertChannel}
use depsera.Alerts.Flap.{is_suppressed}
use depsera.Alerts.Limiter.{is_limited}
use depsera.Alerts.Dispatch.{
  AlertEvent, Stores, AlertService, Target, is_mute, dispatched, find_target, is_muted, is_recovery,
  is_status_change, check_delay, check_limits, decide_target, decide, key_of, cooldown_ms_of,
  max_per_hour_of, delayed, record_alert,
}

module _ (stores : Stores) (now : ℕ) (event : AlertEvent) (s : AlertService) (t : Target) where
  -- Neither of the protections of step 7 holds the event back.
  abbrev pub Unlimited : Type 0
  Unlimited =
      (is_suppressed now s.flap_protector (key_of event) (cooldown_ms_of stores t.rule) ≡ false)
      × ((is_limited now s.rate_limiter t.team_id (max_per_hour_of stores t.rule)).1 ≡ false)

  -- The event is old enough for the rule's delay, if it has one.
  abbrev pub DelayOver : Option ℕ → Type 0
  DelayOver none = Unit
  DelayOver (some minutes) =
      (is_status_change event.event_type ≡ false)
      ⊎ ((first : ℕ) × (get s.delay_tracker (key_of event) ≡ some first)
          × (first + minutes * 60000 ≤ now))

  delay_over :
      (o : Option ℕ)
      → is_recovery event ≡ false
      → (check_delay now event o s).1 ≡ true
      → DelayOver o
  unfolding check_delay
  delay_over none r h = tt
  delay_over (some minutes) r h = elim (Bool-cases (is_status_change event.event_type)) [
    | inr poll ↦ inl poll
    | inl change ↦ elim (Option-cases (get s.delay_tracker (key_of event))) [
      | inl untracked ↦ ground arith
      | inr (first, tracked) ↦ inr (first, tracked, ground arith)
    ]
  ]

  pub flap-check_delay :
      (o : Option ℕ)
      → ((check_delay now event o s).0.flap_protector ≡ s.flap_protector)
        × ((check_delay now event o s).0.rate_limiter ≡ s.rate_limiter)
  unfolding check_delay
  flap-check_delay o = (ground arith, ground arith)

  -- A dispatched event is not muted; and unless it is a recovery, its rule's delay is over and
  -- neither flap protection nor the rate limit holds it back.
  pub dispatched_needs :
      (team : String) (channels : List AlertChannel)
      → find_target stores event ≡ some t
      → (decide stores now event s).1 ≡ dispatched team channels
      → (is_muted stores event t.team_id ≡ false)
        × (team ≡ t.team_id)
        × (channels ≡ t.channels)
        × ((is_recovery event ≡ true) ⊎ (DelayOver t.rule.alert_delay_minutes × Unlimited))
  unfolding decide decide_target check_limits
  dispatched_needs team channels target h =
      let over = delay_over t.rule.alert_delay_minutes in
      let same = flap-check_delay t.rule.alert_delay_minutes in
      (
        ground arith,
        ground arith,
        ground arith,
        elim (Bool-cases (is_recovery event)) [
          | inl r ↦ inl r
          | inr n ↦ inr (over n (ground arith), (ground (arith, same), ground (arith, same)))
        ],
      )

  -- A muted event, a recovery too, is recorded for every channel and changes nothing.
  pub decide_muted :
      find_target stores event ≡ some t
      → is_muted stores event t.team_id ≡ true
      → decide stores now event s ≡ (s, is_mute t.channels)
  unfolding decide decide_target
  decide_muted target m = ground arith

  -- A recovery that is not muted is dispatched, whatever the flap protection and the rate limit
  -- say, exactly unless the rule has a delay under which the failure was tracked and no alert
  -- passed it.
  decide_recovery :
      find_target stores event ≡ some t
      → is_muted stores event t.team_id ≡ false
      → is_recovery event ≡ true
      → ((decide stores now event s).1 ≡ (
          if has s.delay_tracker (key_of event)
            && not (has s.delay_alert_sent (key_of event))
            && is_some t.rule.alert_delay_minutes
          then delayed
          else dispatched t.team_id t.channels))
        × ((decide stores now event s).0.delay_tracker ≡ delete s.delay_tracker (key_of event))
  unfolding decide decide_target check_limits check_delay record_alert
  decide_recovery target m r = (ground arith, ground arith)

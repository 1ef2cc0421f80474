-- ===== src/Alerts/Dispatch/Delays.antt =====
-- The mark of a delayed alert that was let through.
use depsera.Prelude.{ℕ, ◌+◌, ◌*◌, ◌≤◌, ◌≡◌, true, false, some, arith, eq_refl}
use depsera.JsMap.{get, has}
use depsera.JsMap.Laws.{get-set}
use depsera.Alerts.Flap.{is_suppressed}
use depsera.Alerts.Dispatch.{
  AlertEvent, Stores, AlertService, Target, is_suppression, find_target, is_muted, is_recovery,
  is_status_change, check_delay, check_limits, decide_target, decide, key_of, cooldown_ms_of,
}

-- An unhealthy status change that is past its rule's delay and is then held back by the flap
-- protection is recorded as suppressed for every channel, and all the same its key is marked as
-- one for which a delayed alert went out.
marked_though_suppressed :
    (stores : Stores) (now first minutes : ℕ) (event : AlertEvent) (s : AlertService) (t : Target)
    → find_target stores event ≡ some t
    → is_muted stores event t.team_id ≡ false
    → is_recovery event ≡ false
    → is_status_change event.event_type ≡ true
    → t.rule.alert_delay_minutes ≡ some minutes
    → get s.delay_tracker (key_of event) ≡ some first
    → first + minutes * 60000 ≤ now
    → is_suppressed now s.flap_protector (key_of event) (cooldown_ms_of stores t.rule) ≡ true
    → ((decide stores now event s).1 ≡ is_suppression t.channels)
      × (has (decide stores now event s).0.delay_alert_sent (key_of event) ≡ true)
unfolding decide decide_target check_limits check_delay
marked_though_suppressed stores now first minutes event s t found quiet fresh change rule tracked
      over held =
    (
      ground arith,
      ground (
        arith,
        get-set s.delay_alert_sent (key_of event) (key_of event) tt,
        eq_refl (key_of event),
      ),
    )

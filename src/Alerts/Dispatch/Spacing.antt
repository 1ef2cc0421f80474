-- ===== src/Alerts/Dispatch/Spacing.antt =====
-- How close together alerts for one key, and how many for one team, can be.
use depsera.Prelude.{
  ℕ, ◌+◌, ◌≤◌, ◌<◌, String, ◌≡◌, subst, sym, ◌≢◌, inl, inr, Bool, true, false, some, List, [], ◌∷◌,
  arith, eq_iff, eq_refl, if◌then◌else◌, All, String-cases, Option-cases,
}
use depsera.JsMap.{get, set}
use depsera.JsMap.Laws.{get-set}
use depsera.Types.{AlertChannel}
use depsera.Alerts.Flap
use depsera.Alerts.Flap.{is_suppressed}
use depsera.Alerts.Dispatch.{
  AlertEvent, Stores, AlertService, Target, Decision, dispatched, find_target, is_recovery,
  check_delay, check_limits, record_alert, decide_target, decide, key_of, cooldown_ms_of,
}
use depsera.Alerts.Dispatch.Decisions.{dispatched_needs, flap-check_delay}

-- An event with the time at which it is processed and what is read for it.
pub record Step : Type 0 where
  pub stores : Stores
  pub now : ℕ
  pub event : AlertEvent

unfoldable pub run : AlertService → List Step → AlertService
run s [] = s
run s (x ∷ xs) = run (decide x.stores x.now x.event s).0 xs

-- The last alert for the key was recorded at `t` or later.
abbrev AlertedSince : ℕ → String → AlertService → Type 0
AlertedSince t k s = (u : ℕ) × (get s.flap_protector k ≡ some u) × (t ≤ u)

flap-check_limits :
    (stores : Stores) (now : ℕ) (event : AlertEvent) (target : Target) (s : AlertService)
    → (check_limits stores now event target s).0.flap_protector ≡ s.flap_protector
unfolding check_limits
flap-check_limits stores now event target s = ground arith

abbrev is_dispatched : Decision → Bool
is_dispatched (dispatched team channels) = true
is_dispatched _ = false

-- A dispatch records its time for its key, and nothing else touches the flap protector.
flap-decide :
    (stores : Stores) (now : ℕ) (event : AlertEvent) (s : AlertService)
    → (decide stores now event s).0.flap_protector ≡ (
        if is_dispatched (decide stores now event s).1
        then set s.flap_protector (key_of event) now
        else s.flap_protector)
unfolding decide decide_target record_alert Flap.record_alert
flap-decide stores now event s = elim (Option-cases (find_target stores event)) [
  | inl missing ↦ ground arith
  | inr (t, found) ↦
      let delay = t.rule.alert_delay_minutes in
      ground (
        arith,
        flap-check_delay stores now event s t delay,
        flap-check_limits stores now event t (check_delay now event delay s).0,
      )
]

AlertedSince-if :
    (t now : ℕ) (k j : String) (b : Bool) (s s' : AlertService)
    → s'.flap_protector ≡ (if b then set s.flap_protector j now else s.flap_protector)
    → t ≤ now
    → AlertedSince t k s
    → AlertedSince t k s'
AlertedSince-if t now k j false s s' e later (u, seen, le) =
    (u, subst (λ f. get f k ≡ some u) (sym e) seen, le)
AlertedSince-if t now k j true s s' e later (u, seen, le) = elim (String-cases j k) [
  | inl same ↦ (
    now,
    subst (λ f. get f k ≡ some now) (sym e)
        (ground (arith, get-set s.flap_protector j k now, eq_iff j k)),
    later,
  )
  | inr other ↦ (
    u,
    subst (λ f. get f k ≡ some u) (sym e)
        (ground (arith, get-set s.flap_protector j k now, eq_iff j k)),
    le,
  )
]

run-AlertedSince :
    (t : ℕ) (k : String) (s : AlertService) (steps : List Step)
    → All (λ x. t ≤ x.now) steps
    → AlertedSince t k s
    → AlertedSince t k (run s steps)
unfolding run
run-AlertedSince t k s [] later h = h
run-AlertedSince t k s (x ∷ steps) (after, later) h =
    run-AlertedSince t k (decide x.stores x.now x.event s).0 steps later (
      AlertedSince-if t x.now k (key_of x.event) (is_dispatched (decide x.stores x.now x.event s).1)
        s (decide x.stores x.now x.event s).0 (flap-decide x.stores x.now x.event s) after h)

suppressed_since :
    (t now cooldown : ℕ) (k : String) (s : AlertService)
    → t ≤ now
    → now < t + cooldown
    → AlertedSince t k s
    → is_suppressed now s.flap_protector k cooldown ≡ true
unfolding is_suppressed
suppressed_since t now cooldown k s le lt (u, seen, since) = ground arith

alerted_now :
    (x : Step) (s : AlertService) (team : String) (channels : List AlertChannel)
    → (decide x.stores x.now x.event s).1 ≡ dispatched team channels
    → get (decide x.stores x.now x.event s).0.flap_protector (key_of x.event) ≡ some x.now
alerted_now x s team channels sent = ground (
  arith,
  flap-decide x.stores x.now x.event s,
  get-set s.flap_protector (key_of x.event) (key_of x.event) x.now,
  eq_refl (key_of x.event),
)

-- After an alert for a key, whatever events come in between, no event of that key but a recovery is
-- dispatched before the cooldown that applies to it is over, if the clock does not run back past the
-- time of that alert.
pub alerts_spaced :
    (s : AlertService) (first : Step) (steps : List Step) (last : Step) (target : Target)
    (team : String) (channels : List AlertChannel)
    → (decide first.stores first.now first.event s).1 ≡ dispatched team channels
    → All (λ x. first.now ≤ x.now) steps
    → first.now ≤ last.now
    → key_of last.event ≡ key_of first.event
    → find_target last.stores last.event ≡ some target
    → is_recovery last.event ≡ false
    → last.now < first.now + cooldown_ms_of last.stores target.rule
    → (team' : String) (channels' : List AlertChannel)
    → (decide last.stores last.now last.event (run s (first ∷ steps))).1
      ≢ dispatched team' channels'
unfolding run
alerts_spaced s first steps last target team channels sent ordered later same found fresh soon team'
      channels' again =
    let k = key_of first.event in
    let s1 = (decide first.stores first.now first.event s).0 in
    let start : AlertedSince first.now k s1 =
      (first.now, alerted_now first s team channels sent, omega arith) in
    let since = run-AlertedSince first.now k s1 steps ordered start in
    let needs =
      dispatched_needs last.stores last.now last.event (run s1 steps) target team' channels' found
        again in
    let held =
      suppressed_since first.now last.now (cooldown_ms_of last.stores target.rule) k (run s1 steps)
        later soon since in
    elim needs.3 [
      | inl recovery ↦ cc (recovery, fresh)
      | inr (_, (free, _)) ↦ cc (held, same, free)
    ]

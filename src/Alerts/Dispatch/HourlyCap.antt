-- ===== src/Alerts/Dispatch/HourlyCap.antt =====
-- How many alerts a team gets in one hour window.
use depsera.Prelude.{
  ℕ, ◌+◌, ◌-◌, ◌≤◌, ◌<◌, String, ◌≡◌, Bool, true, false, none, some, List, [], ◌∷◌, ◌&&◌, not,
  arith, eq_iff, ◌==◌, if◌then◌else◌, All, Option-cases, inl, inr, leb→lt, Bool-cases, ap, sym, ◌∙◌,
}
use depsera.JsMap.{get}
use depsera.Types.{AlertChannel}
use depsera.Alerts.Limiter.{RateLimitEntry, one_hour_ms}
use depsera.Alerts.Limiter.Window.{is_limited_current, record_alert_current}
use depsera.Alerts.Dispatch.{
  AlertService, Target, Decision, dispatched, ignored, delayed, is_mute, is_suppression,
  find_target, is_recovery, check_delay, check_limits, record_alert, decide_target, decide,
  max_per_hour_of,
}
use depsera.Alerts.Dispatch.Decisions.{dispatched_needs, flap-check_delay}
use depsera.Alerts.Dispatch.Spacing.{Step}

abbrev pub goes_to : String → Decision → Bool
goes_to team (dispatched t channels) = t == team
goes_to team _ = false

-- The alerts of a team, recoveries left out.
abbrev pub alerts_to : String → AlertService → List Step → ℕ
alerts_to team s [] = 0
alerts_to team s (x ∷ xs) =
    (if goes_to team (decide x.stores x.now x.event s).1 && not (is_recovery x.event) then 1 else 0)
    + alerts_to team (decide x.stores x.now x.event s).0 xs

module _ (team : String) (x : Step) (s : AlertService) (e : RateLimitEntry)
    (found : get s.rate_limiter team ≡ some e)
    (current : x.now < e.window_start + one_hour_ms) where
  limiter-check_limits :
      (t : Target) → get (check_limits x.stores x.now x.event t s).0.rate_limiter team ≡ some e
  unfolding check_limits
  limiter-check_limits t = ground (
    arith,
    (is_limited_current x.now s.rate_limiter team e found current t.team_id
        (max_per_hour_of x.stores t.rule)).0,
  )

-- A dispatch to the team adds one to its count, and nothing else in the window changes the entry.
limiter-decide :
    (team : String) (x : Step) (s : AlertService) (e : RateLimitEntry)
    → get s.rate_limiter team ≡ some e
    → x.now < e.window_start + one_hour_ms
    → get (decide x.stores x.now x.event s).0.rate_limiter team
      ≡ some (
          if goes_to team (decide x.stores x.now x.event s).1
          then record e { count = e.count + 1 }
          else e)
unfolding decide decide_target record_alert
limiter-decide team x s e found current = elim (Option-cases (find_target x.stores x.event)) [
  | inl missing ↦ ground arith
  | inr (t, target) ↦
      let s1 = (check_delay x.now x.event t.rule.alert_delay_minutes s).0 in
      let same = (flap-check_delay x.stores x.now x.event s t t.rule.alert_delay_minutes).1 in
      let found1 : get s1.rate_limiter team ≡ some e = cc (same, found) in
      let s2 = (check_limits x.stores x.now x.event t s1).0 in
      let found2 = limiter-check_limits team x s1 e found1 current t in
      ground (
        arith,
        found1,
        found2,
        record_alert_current x.now s2.rate_limiter team e found2 current t.team_id,
      )
]

goes_to-dispatched :
    (team : String) (d : Decision)
    → goes_to team d ≡ true
    → (channels : List AlertChannel) × (d ≡ dispatched team channels)
goes_to-dispatched team (dispatched t channels) h =
    (channels, ap (λ u. dispatched u channels) ((eq_iff t team).0 h))
goes_to-dispatched team ignored h = absurd (cc)
goes_to-dispatched team delayed h = absurd (cc)
goes_to-dispatched team (is_mute cs) h = absurd (cc)
goes_to-dispatched team (is_suppression cs) h = absurd (cc)

-- The hourly limit that applies to a step, if it concerns the team.
abbrev pub limit_of : String → Step → ℕ
limit_of team x = elim (find_target x.stores x.event) [
  | none ↦ 0
  | some t ↦ if t.team_id == team then max_per_hour_of x.stores t.rule else 0
]

-- The step falls into the window, and the limit of the team is at most `most`.
abbrev pub InWindow : String → ℕ → ℕ → Step → Type 0
InWindow team most window_start x = (x.now < window_start + one_hour_ms) × (limit_of team x ≤ most)

nothing_sent :
    (x : Step) (s : AlertService) (team : String) (channels : List AlertChannel)
    → find_target x.stores x.event ≡ none
    → (decide x.stores x.now x.event s).1 ≡ dispatched team channels
    → ⊥
unfolding decide
nothing_sent x s team channels missing sent = ground arith

below_cap :
    (team : String) (most : ℕ) (x : Step) (s : AlertService) (e : RateLimitEntry)
    → get s.rate_limiter team ≡ some e
    → InWindow team most e.window_start x
    → goes_to team (decide x.stores x.now x.event s).1 ≡ true
    → is_recovery x.event ≡ false
    → e.count < most
below_cap team most x s e found (current, limit) goes fresh =
    let (channels, sent) = goes_to-dispatched team _ goes in
    elim (Option-cases (find_target x.stores x.event)) [
      | inl missing ↦ absurd (nothing_sent x s team channels missing sent)
      | inr (t, target) ↦
          let needs = dispatched_needs x.stores x.now x.event s t team channels target sent in
          let asked =
            (is_limited_current x.now s.rate_limiter team e found current t.team_id
                (max_per_hour_of x.stores t.rule)).1
              (sym needs.1) in
          elim needs.3 [
            | inl recovery ↦ absurd (cc (recovery, fresh))
            | inr (_, (_, free)) ↦
                let room = leb→lt (max_per_hour_of x.stores t.rule) e.count (sym asked ∙ free) in
                ground (arith, room, target, limit, (eq_iff t.team_id team).1 (sym needs.1))
          ]
    ]

-- Inside an hour window that has counted `e.count` alerts, a team whose limit is at most `most` gets
-- at most `most - e.count` further alerts, recoveries not counted, whatever events of whatever
-- teams are processed.
pub hourly_cap :
    (team : String) (most : ℕ) (s : AlertService) (e : RateLimitEntry) (steps : List Step)
    → get s.rate_limiter team ≡ some e
    → All (InWindow team most e.window_start) steps
    → alerts_to team s steps ≤ most - e.count
hourly_cap team most s e [] found window = omega arith
hourly_cap team most s e (x ∷ steps) found (here, window) =
    let d = (decide x.stores x.now x.event s).1 in
    let s' = (decide x.stores x.now x.event s).0 in
    let after = limiter-decide team x s e found here.0 in
    let counted : RateLimitEntry = record e { count = e.count + 1 } in
    elim (Bool-cases (goes_to team d)) [
      | inl goes ↦
          let rest = hourly_cap team most s' counted steps (rw goes at after) window in
          elim (Bool-cases (is_recovery x.event)) [
            | inl r ↦ rw (goes, r) (omega (arith, rest))
            | inr n ↦
                rw (goes, n) (omega (arith, rest, below_cap team most x s e found here goes n))
          ]
      | inr stays ↦
          let rest = hourly_cap team most s' e steps (rw stays at after) window in
          rw stays (omega (arith, rest))
    ]

-- ===== src/Alerts/Limiter/Window.antt =====
-- The entry of a team inside its hour window.
use depsera.Prelude.{
  ℕ, ◌+◌, ◌<◌, String, ◌≡◌, some, arith, eq_iff, eq_refl, ◌==◌, if◌then◌else◌, leb, String-cases,
  inl, inr, eq_false, ◌∙◌,
}
use depsera.JsMap.{get}
use depsera.JsMap.Laws.{get-set}
use depsera.Alerts.Limiter.{
  RateLimitEntry, AlertRateLimiter, one_hour_ms, get_or_create_entry, is_limited, record_alert,
}

module _ (now : ℕ) (l : AlertRateLimiter) (k : String) (e : RateLimitEntry)
    (found : get l k ≡ some e) (current : now < e.window_start + one_hour_ms) where
  -- Inside the window the limit is asked of the entry's count, and asking changes nothing.
  pub is_limited_current :
      (team : String) (most : ℕ)
      → (get (is_limited now l team most).0 k ≡ some e)
        × (team ≡ k → (is_limited now l team most).1 ≡ leb most e.count)
  unfolding is_limited
  is_limited_current team most = (
    ground (arith, get-set l team k (record { count = 0; window_start = now }), eq_iff team k),
    λ same. ground (arith, same),
  )

  entry_kept : (team : String) → get (get_or_create_entry now l team).0 k ≡ some e
  unfolding get_or_create_entry
  entry_kept team =
      ground (arith, get-set l team k (record { count = 0; window_start = now }), eq_iff team k)

  -- Inside the window an alert of the team adds one to the count.
  pub record_alert_current :
      (team : String)
      → get (record_alert now l team) k
        ≡ some (if team == k then record e { count = e.count + 1 } else e)
  unfolding record_alert
  record_alert_current team = elim (String-cases team k) [
    | inl same ↦ ground (arith, get-set l k k (record e { count = e.count + 1 }), eq_refl k, same)
    | inr other ↦
        let g = get_or_create_entry now l team in
        get-set g.0 team k (record g.1 { count = g.1.count + 1 })
        ∙ rw (eq_false team k other) (entry_kept team)
  ]

-- ===== src/Alerts/Limiter.antt =====
-- server/src/services/alerts/AlertRateLimiter.ts: alerts per team and hour window.
pub mod Window
use depsera.Prelude.{ℕ, ◌+◌, String, Bool, none, some, leb, if◌then◌else◌}
use depsera.JsMap.{JsMap, get, set}

pub record RateLimitEntry : Type 0 where
  pub count : ℕ
  pub window_start : ℕ

abbrev pub AlertRateLimiter : Type 0
AlertRateLimiter = JsMap RateLimitEntry

abbrev pub one_hour_ms : ℕ
one_hour_ms = 3600000

-- The entry of the team's current window; an old or missing one is replaced in the map.
unfoldable pub get_or_create_entry :
    ℕ → AlertRateLimiter → String → AlertRateLimiter × RateLimitEntry
get_or_create_entry now l team_id =
    let new_entry : RateLimitEntry = record { count = 0; window_start = now } in
    elim (get l team_id) [
      | none ↦ (set l team_id new_entry, new_entry)
      | some entry ↦
          if leb (entry.window_start + one_hour_ms) now
          then (set l team_id new_entry, new_entry)
          else (l, entry)
    ]

unfoldable pub is_limited : ℕ → AlertRateLimiter → String → ℕ → AlertRateLimiter × Bool
unfolding get_or_create_entry
is_limited now l team_id max_per_hour =
    let (l', entry) = get_or_create_entry now l team_id in (l', leb max_per_hour entry.count)

unfoldable pub record_alert : ℕ → AlertRateLimiter → String → AlertRateLimiter
unfolding get_or_create_entry
record_alert now l team_id =
    let (l', entry) = get_or_create_entry now l team_id in
    set l' team_id (record entry { count = entry.count + 1 })

-- ===== src/Polling/HostLimiter.antt =====
-- server/src/services/polling/HostRateLimiter.ts. `max_concurrent_per_host` is the number that the
-- constructor has read; `activeCounts.get(h) || 0` reads a missing host as 0.
pub mod Slots
use depsera.Prelude.{ℕ, ◌+◌, ◌-◌, String, Bool, true, false, leb, if◌then◌else◌, or_else}
use depsera.JsMap.{JsMap, get, set, delete}

pub record HostRateLimiter : Type 0 where
  pub active_counts : JsMap ℕ
  pub max_concurrent_per_host : ℕ

unfoldable pub get_active_count : HostRateLimiter → String → ℕ
get_active_count l hostname = or_else (get l.active_counts hostname) 0

unfoldable pub acquire : HostRateLimiter → String → HostRateLimiter × Bool
unfolding get_active_count
acquire l hostname =
    let current = get_active_count l hostname in
    if leb l.max_concurrent_per_host current
    then (l, false)
    else (record l { active_counts = set l.active_counts hostname (current + 1) }, true)

unfoldable pub release : HostRateLimiter → String → HostRateLimiter
unfolding get_active_count
release l hostname =
    let current = get_active_count l hostname in
    if leb current 1
    then record l { active_counts = delete l.active_counts hostname }
    else record l { active_counts = set l.active_counts hostname (current - 1) }

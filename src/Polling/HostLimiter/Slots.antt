-- ===== src/Polling/HostLimiter/Slots.antt =====
-- The counts of the host rate limiter.
use depsera.Prelude.{
  ◌+◌, ◌-◌, ◌<◌, String, ◌≡◌, true, ◌&&◌, arith, eq_iff, ◌↔◌, ◌==◌, if◌then◌else◌,
}
use depsera.JsMap.Laws.{get-set, get-delete}
use depsera.Polling.HostLimiter.{HostRateLimiter, get_active_count, acquire, release}

pub count-acquire :
    (l : HostRateLimiter) (h j : String)
    → get_active_count (acquire l h).0 j
      ≡ (if (acquire l h).1 && (h == j) then get_active_count l h + 1 else get_active_count l j)
unfolding acquire
count-acquire l h j =
    ground (arith, get-set l.active_counts h j (get_active_count l h + 1), eq_iff h j)

pub count-release :
    (l : HostRateLimiter) (h j : String)
    → get_active_count (release l h) j
      ≡ (if h == j then get_active_count l h - 1 else get_active_count l j)
unfolding release
count-release l h j = ground (
  arith,
  get-set l.active_counts h j (get_active_count l h - 1),
  get-delete l.active_counts h j,
  eq_iff h j,
)

-- An attempt to acquire succeeds exactly below the host's limit.
pub acquire_iff :
    (l : HostRateLimiter) (h : String)
    → ((acquire l h).1 ≡ true) ↔ (get_active_count l h < l.max_concurrent_per_host)
unfolding acquire
acquire_iff l h = (λ e. ground arith, λ e. ground arith)

pub max-acquire :
    (l : HostRateLimiter) (h : String)
    → (acquire l h).0.max_concurrent_per_host ≡ l.max_concurrent_per_host
unfolding acquire
max-acquire l h = ground arith

-- ===== src/Polling/Cycle/Slots.antt =====
-- Host slots over overlapping poll cycles.
use depsera.Prelude.{
  ℕ, zero, suc, ◌+◌, ◌-◌, String, ◌≡◌, refl, ◌∙◌, ap, Option, none, some, List, [], ◌∷◌, ◌++◌,
  arith, eq_iff, ◌==◌, if◌then◌else◌, length, length-append, or_else, keep, not, any,
}
use depsera.JsMap.{JsMap, get, set}
use depsera.Types.{Service}
use depsera.Polling.HostLimiter.{HostRateLimiter, get_active_count, release}
use depsera.Polling.HostLimiter.Slots.{count-acquire, count-release}
use depsera.Polling.States.{ServicePollState, get_all_states}
use depsera.Polling.Engine.{
  Engine, add_service_to_polling, drop_service, sync_removed, sync_removals, sync_changed,
  sync_actives, sync_services,
}
use depsera.Polling.Cycle.Select.{
  select_one, select, sort_by_last_polled, Acquired, acquire_one, acquire_all,
}
use depsera.Polling.Cycle.Settle.{
  PollResult, release_times, release_all, process_result, process_results,
}
use depsera.Polling.Cycle.{Cycle, begin_synced, begin_cycle, settled, finish_cycle}

-- The slots that a cycle holds for a host.
abbrev pub held : JsMap (List String) → String → ℕ
held [] h = 0
held ((j, ids) ∷ m) h = (if j == h then length ids else 0) + held m h

held-set :
    (m : JsMap (List String)) (k h : String) (ids : List String)
    → held (set m k ids) h + (if k == h then length (or_else (get m k) []) else 0)
      ≡ held m h + (if k == h then length ids else 0)
unfolding get set
held-set [] k h ids = ground arith
held-set ((j, w) ∷ m) k h ids =
    ground (arith, held-set m k h ids, eq_iff j k, eq_iff j h, eq_iff k h)

module _ (hostname_of : String → String) (h : String) where
  balance-acquire_one :
      (a : Acquired) (s : ServicePollState)
      → get_active_count (acquire_one hostname_of a s).limiter h + held a.acquired h
        ≡ get_active_count a.limiter h + held (acquire_one hostname_of a s).acquired h
  unfolding acquire_one
  balance-acquire_one a s =
      let k = hostname_of s.health_endpoint in
      let old = or_else (get a.acquired k) [] in
      ground (
        arith,
        count-acquire a.limiter k h,
        held-set a.acquired k h (old ++ s.service_id ∷ []),
        length-append old (s.service_id ∷ []),
        eq_iff k h,
      )

  balance-acquire_all :
      (a : Acquired) (states : List ServicePollState)
      → get_active_count (acquire_all hostname_of a states).limiter h + held a.acquired h
        ≡ get_active_count a.limiter h + held (acquire_all hostname_of a states).acquired h
  unfolding acquire_all
  balance-acquire_all a [] = refl
  balance-acquire_all a (s ∷ states) =
      omega
        (arith, balance-acquire_one a s, balance-acquire_all (acquire_one hostname_of a s) states)

count-release_times :
    (l : HostRateLimiter) (k h : String) (n : ℕ)
    → get_active_count (release_times l k n) h
      ≡ (if k == h then get_active_count l h - n else get_active_count l h)
unfolding release_times
count-release_times l k h zero = ground arith
count-release_times l k h (suc n) =
    ground (arith, count-release_times (release l k) k h n, count-release l k h, eq_iff k h)

count-release_all :
    (l : HostRateLimiter) (m : JsMap (List String)) (h : String)
    → get_active_count (release_all l m) h ≡ get_active_count l h - held m h
unfolding release_all
count-release_all l [] h = omega arith
count-release_all l ((k, ids) ∷ m) h = ground (
  arith,
  count-release_all (release_times l k (length ids)) m h,
  count-release_times l k h (length ids),
)

limiter-select :
    (now : ℕ) (e : Engine) (states : List ServicePollState)
    → (select now e states).0.host_rate_limiter ≡ e.host_rate_limiter
unfolding select select_one
limiter-select now e [] = refl
limiter-select now e (s ∷ states) = ground (arith, limiter-select now (select_one now e s).0 states)

limiter-process_results :
    (now : ℕ) (e : Engine) (rs : List (String × Option PollResult))
    → (process_results now e rs).0.host_rate_limiter ≡ e.host_rate_limiter
unfolding process_results process_result
limiter-process_results now e [] = refl
limiter-process_results now e ((id, none) ∷ rs) = limiter-process_results now e rs
limiter-process_results now e ((id, some r) ∷ rs) =
    ground (arith, limiter-process_results now (process_result now e id r).0 rs)

limiter-sync_removals :
    (ids : List String) (e : Engine) (ks : List String)
    → (sync_removals ids e ks).host_rate_limiter ≡ e.host_rate_limiter
unfolding sync_removals sync_removed drop_service
limiter-sync_removals ids e [] = refl
limiter-sync_removals ids e (k ∷ ks) =
    ground (arith, limiter-sync_removals ids (sync_removed ids e k) ks)

limiter-sync_actives :
    (ids : List String) (e : Engine) (services : List Service)
    → (sync_actives ids e services).host_rate_limiter ≡ e.host_rate_limiter
unfolding sync_actives sync_changed add_service_to_polling
limiter-sync_actives ids e [] = refl
limiter-sync_actives ids e (s ∷ services) = ground (
  arith,
  limiter-sync_actives ids
      (if any (λ j. j == s.id) ids then sync_changed e s else add_service_to_polling e s) services,
)

limiter-sync_services :
    (e : Engine) (active : List Service)
    → (sync_services e active).host_rate_limiter ≡ e.host_rate_limiter
unfolding sync_services
limiter-sync_services e active =
    limiter-sync_actives _ (sync_removals _ e _) active ∙ limiter-sync_removals _ e _

-- the polls in flight on a host, as the limiter counts them
abbrev pub active_on : Engine → String → ℕ
active_on e h = get_active_count e.host_rate_limiter h

module _ (hostname_of : String → String) (now : ℕ) where
  active_on-begin_synced :
      (e : Engine) (h : String)
      → active_on (begin_synced hostname_of now e).0 h
        ≡ active_on e h + held (begin_synced hostname_of now e).1.acquired h
  unfolding begin_synced
  active_on-begin_synced e h =
      let idle =
        keep (λ (s : ServicePollState). not s.is_polling) (get_all_states e.state_manager) in
      let selected = select now e idle in
      let start : Acquired = record {
        limiter = selected.0.host_rate_limiter;
        eligible = [];
        acquired = [];
      } in
      omega (
        arith,
        balance-acquire_all hostname_of h start (sort_by_last_polled selected.1),
        ap (λ (l : HostRateLimiter). get_active_count l h) (limiter-select now e idle),
      )

  -- A cycle takes as many slots of a host as it holds until it has finished.
  pub active_on-begin_cycle :
      (found : Option (List Service)) (e : Engine) (h : String)
      → active_on (begin_cycle hostname_of now found e).0 h
        ≡ active_on e h + held (begin_cycle hostname_of now found e).1.acquired h
  unfolding begin_cycle
  active_on-begin_cycle none e h = ground arith
  active_on-begin_cycle (some active) e h =
      let e' = sync_services e active in
      ground (
        arith,
        active_on-begin_synced e' h,
        ap (λ (l : HostRateLimiter). get_active_count l h) (limiter-sync_services e active),
      )

-- A finished cycle gives its slots back.
pub active_on-finish_cycle :
    (now : ℕ) (outcome : String → Option PollResult) (c : Cycle) (e : Engine) (h : String)
    → active_on (finish_cycle now outcome c e).0 h ≡ active_on e h - held c.acquired h
unfolding finish_cycle
active_on-finish_cycle now outcome c e h =
    let e1 : Engine = record e { host_rate_limiter = release_all e.host_rate_limiter c.acquired } in
    omega (
      arith,
      count-release_all e.host_rate_limiter c.acquired h,
      ap (λ (l : HostRateLimiter). get_active_count l h)
          (limiter-process_results now e1 (settled outcome c.polls)),
    )

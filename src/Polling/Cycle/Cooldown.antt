-- ===== src/Polling/Cycle/Cooldown.antt =====
-- How an open circuit and the poll cache delay the probe of a service.
use depsera.Prelude.{ℕ, ◌+◌, ◌≤◌, ◌<◌, ◌≡◌, true, false, arith, eq_refl, if◌then◌else◌, leb}
use depsera.JsMap.{set}
use depsera.JsMap.Laws.{get-set}
use depsera.Polling.Breaker
use depsera.Polling.Breaker.{CircuitBreaker, open_circuit, half_open, default_config, can_attempt}
use depsera.Polling.Cache.{should_poll, mark_polled}
use depsera.Polling.States.{ServicePollState}
use depsera.Polling.Engine.{Engine}
use depsera.Polling.Cycle.Select.{select_one}
use depsera.Polling.Cycle.Outcome.{breaker_of}

module _ (now : ℕ) (e : Engine) (s : ServicePollState) where
  abbrev pub cooldown : ℕ
  cooldown = (breaker_of e s.service_id).config.cooldown_ms

  abbrev pub cooldown_end : ℕ
  cooldown_end = (breaker_of e s.service_id).last_failure_time + cooldown

  -- A service is due at a pass over the states exactly when its breaker grants the attempt and its
  -- cache entry has expired.
  pub select_one_due : (select_one now e s).1 ≡ (
      if (can_attempt now (breaker_of e s.service_id)).1
      then should_poll now e.poll_cache s.service_id
      else false)
  unfolding select_one
  select_one_due = ground arith

  refused-breaker :
      (can_attempt now (breaker_of e s.service_id)).1 ≡ false
      → breaker_of (select_one now e s).0 s.service_id ≡ breaker_of e s.service_id
  unfolding select_one can_attempt Breaker.new
  refused-breaker h = ground (
    arith,
    get-set e.circuit_breakers s.service_id s.service_id (breaker_of e s.service_id),
    get-set (set e.circuit_breakers s.service_id (Breaker.new default_config)) s.service_id
        s.service_id (breaker_of e s.service_id),
    eq_refl s.service_id,
  )

  refused-cache :
      (can_attempt now (breaker_of e s.service_id)).1 ≡ false
      → (t : ℕ)
      → should_poll t (select_one now e s).0.poll_cache s.service_id ≡ leb (now + cooldown) t
  unfolding select_one should_poll mark_polled can_attempt Breaker.new
  refused-cache h t =
      ground (
        arith,
        get-set e.poll_cache s.service_id s.service_id (now + cooldown),
        eq_refl s.service_id,
      )

-- A pass that finds the circuit of a service open pushes the next poll a whole cooldown past that
-- pass: until then the service is not due, also at the times after the cooldown's end at which its
-- breaker grants the attempt.
pub probe_postponed :
    (now t : ℕ) (e : Engine) (s : ServicePollState)
    → (breaker_of e s.service_id).state ≡ open_circuit
    → now < cooldown_end now e s
    → cooldown_end now e s ≤ t
    → t < now + cooldown now e s
    → ((select_one t (select_one now e s).0 s).1 ≡ false)
      × ((can_attempt t (breaker_of (select_one now e s).0 s.service_id)).1 ≡ true)
unfolding can_attempt
probe_postponed now t e s is_open early late soon =
    let refused : (can_attempt now (breaker_of e s.service_id)).1 ≡ false = ground arith in
    let e' = (select_one now e s).0 in
    (
      ground (arith, select_one_due t e' s, refused-cache now e s refused t),
      rw (refused-breaker now e s refused) (ground arith),
    )

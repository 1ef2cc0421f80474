-- ===== src/Polling/Breaker/Trace.antt =====
-- What holds of a circuit breaker after any calls of its methods.
use depsera.Prelude.{
  ◌⊎◌, inl, inr, Bool-cases, ℕ, ◌+◌, ◌≤◌, ◌<◌, ◌≡◌, refl, ◌≢◌, ◌↔◌, Bool, true, false, List, [],
  ◌∷◌, arith,
}
use depsera.Polling.Breaker.{
  closed, open_circuit, half_open, CircuitBreakerConfig, CircuitBreaker, new, record_success,
  record_failure, can_attempt,
}

-- A call of a method, with the time at which it reads the clock.
pub data Call : Type 0 where
  success : Call
  failure : ℕ → Call
  attempt : ℕ → Call

unfoldable pub step : CircuitBreaker → Call → CircuitBreaker
unfolding record_success record_failure can_attempt
step b success = record_success b
step b (failure now) = record_failure now b
step b (attempt now) = (can_attempt now b).0

unfoldable pub run : CircuitBreaker → List Call → CircuitBreaker
run b [] = b
run b (c ∷ cs) = run (step b c) cs

-- The failures since the last success, on top of `n`.
abbrev pub streak : ℕ → List Call → ℕ
streak n [] = n
streak n (success ∷ cs) = streak 0 cs
streak n (failure now ∷ cs) = streak (n + 1) cs
streak n (attempt now ∷ cs) = streak n cs

-- A breaker that is not closed has reached its threshold, and a closed one has not.
record Inv (k : ℕ) (b : CircuitBreaker) : Type 0 where
  threshold : b.config.failure_threshold ≡ k
  below : b.state ≡ closed → b.failures < k
  reached : b.state ≢ closed → k ≤ b.failures

step-Inv : (k : ℕ) (b : CircuitBreaker) (c : Call) → 0 < k → Inv k b → Inv k (step b c)
unfolding step
step-Inv k b success pos h = ground arith
step-Inv k b (failure now) pos h = ground arith
step-Inv k b (attempt now) pos h = ground arith

run-Inv : (k : ℕ) (b : CircuitBreaker) (cs : List Call) → 0 < k → Inv k b → Inv k (run b cs)
unfolding run
run-Inv k b [] pos h = h
run-Inv k b (c ∷ cs) pos h = run-Inv k (step b c) cs pos (step-Inv k b c pos h)

pub failures-run :
    (b : CircuitBreaker) (cs : List Call) → (run b cs).failures ≡ streak b.failures cs
unfolding run step
failures-run b [] = refl
failures-run b (success ∷ cs) = failures-run (step b success) cs
failures-run b (failure now ∷ cs) = ground (arith, failures-run (step b (failure now)) cs)
failures-run b (attempt now ∷ cs) = ground (arith, failures-run (step b (attempt now)) cs)

-- After any calls, a breaker with a positive threshold is closed exactly when fewer failures than
-- the threshold were recorded since the last success.
pub closed_iff :
    (c : CircuitBreakerConfig) (cs : List Call)
    → 0 < c.failure_threshold
    → ((run (new c) cs).state ≡ closed) ↔ (streak 0 cs < c.failure_threshold)
unfolding new
closed_iff c cs pos =
    let inv : Inv c.failure_threshold (run (new c) cs) =
      run-Inv c.failure_threshold (new c) cs pos (ground arith) in
    let e = failures-run (new c) cs in
    (λ h. omega (arith, inv.below h, e), λ h. ground (arith, inv.reached, e))

-- An attempt is refused exactly when the circuit is open and its cooldown, counted from the last
-- failure, is not over; a refusal changes nothing, and no attempt changes the counters.
can_attempt_lem :
    (now : ℕ) (b : CircuitBreaker)
    → ((can_attempt now b ≡ (b, false))
        ↔ ((b.state ≡ open_circuit) × (now < b.last_failure_time + b.config.cooldown_ms)))
      × ((can_attempt now b ≡ (b, false)) ⊎ ((can_attempt now b).1 ≡ true))
      × ((can_attempt now b).0.failures ≡ b.failures)
      × ((can_attempt now b).0.last_failure_time ≡ b.last_failure_time)
unfolding can_attempt
can_attempt_lem now b = (
  (λ h. ground arith, λ h. ground arith),
  elim (Bool-cases (can_attempt now b).1) [
    | inl granted ↦ inr granted
    | inr refused ↦ inl (ground arith)
  ],
  ground arith,
  ground arith,
)

-- The answers of attempts at the given times, with no outcome recorded between them.
abbrev answers : CircuitBreaker → List ℕ → List Bool
answers b [] = []
answers b (t ∷ ts) = (can_attempt t b).1 ∷ answers (can_attempt t b).0 ts

abbrev AllGranted : List Bool → Type 0
AllGranted [] = Unit
AllGranted (a ∷ rest) = (a ≡ true) × AllGranted rest

-- A breaker that is half-open grants every attempt until an outcome is recorded.
half_open_grants :
    (b : CircuitBreaker) (ts : List ℕ) → b.state ≡ half_open → AllGranted (answers b ts)
unfolding can_attempt
half_open_grants b [] h = tt
half_open_grants b (t ∷ ts) h = ground (arith, half_open_grants (can_attempt t b).0 ts)
